-- ===== src/Grants/Legacy.antt =====
-- The grants kept in the metadata, as internal/service/grants.go writes them.
use octo_docs_html_fork.Prelude.{
  String, Bool, true, false, ◌≡◌, refl, sym, ap, ◌∙◌, subst, Option, none, some, ◌==◌, eq_iff,
  if◌then◌else◌,
}
use octo_docs_html_fork.Prelude.Dict.{Dict, put}
use octo_docs_html_fork.Storage.Value.{Value, Fields, field_at}
use octo_docs_html_fork.Storage.Meta.{
  DocMeta, extra_of, role_in, role_of_entry, grants_of, grant_role,
}
use octo_docs_html_fork.Storage.State.{Store}
use octo_docs_html_fork.Storage.Tables.{get_meta}
use octo_docs_html_fork.Grants.Service.{
  remove_field, put_field, with_grants, save, drop_entry, drop_grant, drop_from,
  remove_grant_from_meta_locked, grant_entry, grants_or_none, add_entry, add_grant_to_meta_locked,
}
use octo_docs_html_fork.Grants.Entries.{
  role_at, grant_role-role_at, role_in-missing, role_in-remove_field, role_in-put_field,
  role_at-some_left, grants_of-put, grants_of-with_grants, save-IsSaved,
}

-- what GrantRole answers on what GetMeta has read
abbrev pub role_read : Option (Option DocMeta) → String → String
role_read none uid = ""
role_read (some m) uid = grant_role m uid

abbrev pub legacy_role : Store → String → String → String
legacy_role s slug uid = role_read (get_meta s slug) uid

legacy_role-role_at :
    (s : Store) (slug uid : String) (m : DocMeta)
    → get_meta s slug ≡ some (some m)
    → legacy_role s slug uid ≡ (if uid == "" then "" else role_at (grants_of (some m)) uid)
legacy_role-role_at s slug uid m there = ap (λ o. role_read o uid) there ∙ grant_role-role_at m uid

-- The role after a save.
save-role :
    (s : Store) (slug : String) (m : DocMeta) (extra : Dict Value) (uid : String)
    → ((save s slug m extra).0 ≡ none)
      × (legacy_role (save s slug m extra).1 slug uid ≡ (
          if uid == ""
          then ""
          else role_at (grants_of (some (record m { extra = some extra }))) uid))
save-role s slug m extra uid =
    let ok = save-IsSaved s slug m extra in
    let (c, there, same, _) = ok.reads in
    (
      ok.succeeded,
      legacy_role-role_at (save s slug m extra).1 slug uid c there
          ∙ ap (λ r. if uid == "" then "" else r) (same uid),
    )

if_same : (b : Bool) (x : String) → (b ≡ true → x ≡ "") → x ≡ (if b then "" else x)
if_same true x h = h refl
if_same false x h = refl

if_swap :
    (b c : Bool) (x y : String)
    → (if b then "" else (if c then x else y))
      ≡ (if c then (if b then "" else x) else (if b then "" else y))
if_swap true true x y = refl
if_swap true false x y = refl
if_swap false c x y = refl

if_blank : (b : Bool) → ◌≡◌ {A = String} (if b then "" else "") ""
if_blank true = refl
if_blank false = refl

if_inner :
    (b c : Bool) (x y : String)
    → (if b then "" else (if c then x else y))
      ≡ (if b then "" else (if c then x else (if b then "" else y)))
if_inner true c x y = refl
if_inner false c x y = refl

role_in-grants_or_none :
    (o : Option Fields) (uid : String) → role_in (grants_or_none o) uid ≡ role_at o uid
unfolding role_in field_at role_of_entry grants_or_none
role_in-grants_or_none none uid = refl
role_in-grants_or_none (some g) uid = refl

module _ (s : Store) (slug uid other : String) (m : DocMeta)
    (there : get_meta s slug ≡ some (some m)) where
  -- The grants without an entry of the uid are as if it had been dropped.
  no_role :
      (o : Option Fields)
      → grants_of (some m) ≡ o
      → role_at o uid ≡ ""
      → legacy_role s slug other ≡ (if uid == other then "" else legacy_role s slug other)
  no_role o h gone = if_same (uid == other) (legacy_role s slug other) (λ same.
      let is_uid : uid ≡ other = (eq_iff uid other).0 same in
      legacy_role-role_at s slug other m there
      ∙ ap (λ x. if other == "" then "" else role_at x other) h
      ∙ ap (λ x. if other == "" then "" else x) (subst (λ x. role_at o x ≡ "") is_uid gone)
      ∙ if_blank (other == ""))

  drop_grant-role :
      (o : Option Fields)
      → grants_of (some m) ≡ o
      → ((drop_grant o m s slug uid).0 ≡ none)
        × (legacy_role (drop_grant o m s slug uid).1 slug other
            ≡ (if uid == other then "" else legacy_role s slug other))
  unfolding drop_grant
  drop_grant-role none h = (refl, no_role none h refl)
  drop_grant-role (some g) h = go (field_at g uid) refl
    where
      go :
          (v : Option Value)
          → field_at g uid ≡ v
          → ((drop_entry v g m s slug uid).0 ≡ none)
            × (legacy_role (drop_entry v g m s slug uid).1 slug other
                ≡ (if uid == other then "" else legacy_role s slug other))
      go none missing = (refl, no_role (some g) h (role_in-missing g uid missing))
      go (some v) present =
          let rest = remove_field g uid in
          let extra = with_grants (extra_of (some m)) rest in
          let now = save-role s slug m extra other in
          (
            now.0,
            now.1
                ∙ ap (λ x. if other == "" then "" else role_at x other)
                    (grants_of-with_grants m (extra_of (some m)) rest)
                ∙ ap (λ x. if other == "" then "" else x)
                    (role_at-some_left rest other ∙ role_in-remove_field g uid other)
                ∙ if_swap (other == "") (uid == other) "" (role_in g other)
                ∙ ap
                    (λ x. if uid == other then x else (if other == "" then "" else role_in g other))
                    (if_blank (other == ""))
                ∙ ap (λ x. if uid == other then "" else x)
                    (sym (
                      legacy_role-role_at s slug other m there
                      ∙ ap (λ x. if other == "" then "" else role_at x other) h)),
          )

  add_entry-role :
      (role by now : String)
      → let r = add_entry (some (some m)) s slug uid (grant_entry role by now) in
        (r.0 ≡ none)
        × (legacy_role r.1 slug other
            ≡ (if other == "" then "" else if uid == other then role else legacy_role s slug other))
  unfolding add_entry
  add_entry-role role by now =
      let g = grants_or_none (grants_of (some m)) in
      let put_in = put_field g uid (grant_entry role by now) in
      let saved =
        save-role s slug m (put (extra_of (some m)) "grants" (Value.object put_in)) other in
      (
        saved.0,
        saved.1
            ∙ ap (λ x. if other == "" then "" else role_at x other)
                (grants_of-put m (extra_of (some m)) put_in)
            ∙ ap (λ x. if other == "" then "" else x)
                (role_in-put_field g uid other role by now
                  ∙ ap (λ x. if uid == other then role else x)
                      (role_in-grants_or_none (grants_of (some m)) other))
            ∙ if_inner (other == "") (uid == other) role (role_at (grants_of (some m)) other)
            ∙ ap (λ x. if other == "" then "" else if uid == other then role else x)
                (sym (legacy_role-role_at s slug other m there)),
      )

module _ (s : Store) (slug uid : String) where
  -- Where the sweep succeeds, the uid's role in the metadata is gone and every other stays.
  pub remove_grant_from_meta_locked-role :
      (other : String)
      → (remove_grant_from_meta_locked s slug uid).0 ≡ none
      → legacy_role (remove_grant_from_meta_locked s slug uid).1 slug other
        ≡ (if uid == other then "" else legacy_role s slug other)
  unfolding remove_grant_from_meta_locked
  remove_grant_from_meta_locked-role other = go (get_meta s slug) refl
    where
      go :
          (o : Option (Option DocMeta))
          → get_meta s slug ≡ o
          → (drop_from o s slug uid).0 ≡ none
          → legacy_role (drop_from o s slug uid).1 slug other
            ≡ (if uid == other then "" else legacy_role s slug other)
      go none there ok = absurd (cc)
      go (some none) there ok = absurd (cc)
      go (some (some m)) there ok =
          (drop_grant-role s slug uid other m there (grants_of (some m)) refl).1

  -- Where the write succeeds, the uid has the role in the metadata, and every other uid keeps its own.
  pub add_grant_to_meta_locked-role :
      (other role by now : String)
      → let r = add_grant_to_meta_locked s slug uid (grant_entry role by now) in
        r.0 ≡ none
        → legacy_role r.1 slug other
          ≡ (if other == "" then "" else if uid == other then role else legacy_role s slug other)
  unfolding add_grant_to_meta_locked
  add_grant_to_meta_locked-role other role by now = go (get_meta s slug) refl
    where
      go :
          (o : Option (Option DocMeta))
          → get_meta s slug ≡ o
          → (add_entry o s slug uid (grant_entry role by now)).0 ≡ none
          → legacy_role (add_entry o s slug uid (grant_entry role by now)).1 slug other
            ≡ (if other == "" then "" else if uid == other then role else legacy_role s slug other)
      go none there ok = absurd (cc)
      go (some none) there ok = absurd (cc)
      go (some (some m)) there ok = (add_entry-role s slug uid other m there role by now).1
