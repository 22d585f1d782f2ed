-- ===== src/Access/Granted.antt =====
-- What AddGrant (internal/service/grants.go) gives in the member tier of
-- internal/transport/httpx/capability.go.
use octo_docs_html_fork.Prelude.{
  String, true, false, not, ◌&&◌, ◌≡◌, refl, sym, ap, ◌∙◌, subst, Option, none, some, ◌==◌, arith,
  eq_refl, if_either, if_split, if◌then◌else◌,
}
use octo_docs_html_fork.Prelude.Dict.{get}
use octo_docs_html_fork.Prelude.Int.{ℤ}
use octo_docs_html_fork.Storage.Meta.{DocMeta, extra_of, grants_of, grant_role}
use octo_docs_html_fork.Storage.State.{Store}
use octo_docs_html_fork.Storage.Tables.{get_meta}
use octo_docs_html_fork.Roles.Capability.{
  Capability, capability_for_grant_role, capability_for_doc_role,
}
use octo_docs_html_fork.Grants.Table.{Db}
use octo_docs_html_fork.Grants.Service.{
  Fault, Auth, grant_entry, add_grant_to_meta_locked, remove_grant_from_meta_locked,
}
use octo_docs_html_fork.Grants.Legacy.{
  role_read, legacy_role, remove_grant_from_meta_locked-role, add_grant_to_meta_locked-role,
}
use octo_docs_html_fork.Access.Lookup.{
  role_in_mirror, role_by_slug_uid, doc_members_wired, is_wired,
}
use octo_docs_html_fork.Access.Cleared.{unregistered}
use octo_docs_html_fork.Access.Given.{IsGrantedRow}
use octo_docs_html_fork.Access.Revoked.{get_meta-some}
use octo_docs_html_fork.Access.Decision.{
  role_capability, stronger, legacy_tier, fallback_tier, row_tier, member_tier,
}

none-stronger : (c : Capability) → stronger Capability.cap_none c ≡ c
unfolding stronger
none-stronger Capability.cap_none = refl
none-stronger Capability.cap_read = refl
none-stronger Capability.cap_comment = refl
none-stronger Capability.cap_edit = refl
none-stronger Capability.cap_manage = refl

grant_role-nil : (uid : String) → grant_role none uid ≡ ""
unfolding grant_role grants_of extra_of get
grant_role-nil uid = if_either (λ r. r ≡ "") (uid == "") refl refl

legacy_role-blank : (s : Store) (slug u : String) → (u == "") ≡ true → legacy_role s slug u ≡ ""
unfolding grant_role
legacy_role-blank s slug u blank = go (get_meta s slug)
  where
    go : (o : Option (Option DocMeta)) → role_read o u ≡ ""
    go none = refl
    go (some m) = rw blank refl

module _ (a : Auth) (slug uid : String) (named : (uid == "") ≡ false) where
  -- The fallback gives what the role in the metadata allows.
  fallback_tier-role :
      fallback_tier true a slug uid Capability.cap_none
      ≡ some (capability_for_grant_role (legacy_role a.store slug uid))
  unfolding fallback_tier
  fallback_tier-role =
      let (m, there) = get_meta-some a.store slug in
      rw named (
        ap (λ o. legacy_tier o uid Capability.cap_none) there
        ∙ read m
        ∙ ap (λ o. some (capability_for_grant_role (role_read o uid))) (sym there))
    where
      read :
          (m : Option DocMeta)
          → legacy_tier (some m) uid Capability.cap_none
            ≡ some (capability_for_grant_role (role_read (some m) uid))
      read none = sym (ap (λ r. some (capability_for_grant_role r)) (grant_role-nil uid))
      read (some m) = ap some (none-stronger _)

  -- where no document is registered
  tier_of_legacy :
      role_by_slug_uid a slug uid ≡ some unregistered
      → member_tier a slug (record { self = uid; owner = uid }) Capability.cap_none
        ≡ some (capability_for_grant_role (legacy_role a.store slug uid))
  unfolding member_tier row_tier role_capability
  tier_of_legacy answer =
      if_split (λ t. t ≡ some (capability_for_grant_role (legacy_role a.store slug uid)))
        (doc_members_wired a && not (uid == ""))
        (λ wired. ap (λ o. row_tier o a slug uid Capability.cap_none) answer ∙ fallback_tier-role)
        (λ unwired. fallback_tier-role)

  no_fallback : (best : Capability) → fallback_tier false a slug uid best ≡ some best
  unfolding fallback_tier
  no_fallback best = ground arith

  -- where there is a row
  tier_of_row :
      (code : ℤ)
      → doc_members_wired a ≡ true
      → role_by_slug_uid a slug uid ≡ some (record { role = some code; registered = true })
      → member_tier a slug (record { self = uid; owner = uid }) Capability.cap_none
        ≡ some (capability_for_doc_role code)
  unfolding member_tier row_tier role_capability
  tier_of_row code wired answer =
      rw (wired, named)
        (ap (λ o. row_tier o a slug uid Capability.cap_none) answer
          ∙ no_fallback _
          ∙ ap some (none-stronger (capability_for_doc_role code)))

-- What a grant gives, and what it leaves as it was.
pub record IsGranted (a a' : Auth) (slug uid role : String) : Type 0 where
  pub access :
      member_tier a' slug (record { self = uid; owner = uid }) Capability.cap_none
      ≡ some (capability_for_grant_role role)
  pub other_rows :
      (u : String) → (uid == u) ≡ false → role_by_slug_uid a' slug u ≡ role_by_slug_uid a slug u
  pub other_legacy :
      (u : String) → (uid == u) ≡ false → legacy_role a'.store slug u ≡ legacy_role a.store slug u

module _ (a : Auth) (slug uid : String) (named : (uid == "") ≡ false) where
  -- a grant that is written to the metadata
  pub legacy-IsGranted :
      (mirror : Option Db) (role by now : String)
      → a.mirror ≡ mirror
      → role_in_mirror mirror slug uid ≡ some unregistered
      → (add_grant_to_meta_locked a.store slug uid (grant_entry role by now)).0 ≡ none
      → IsGranted a
          (record {
            store = (add_grant_to_meta_locked a.store slug uid (grant_entry role by now)).1;
            mirror = mirror;
          })
          slug
          uid
          role
  unfolding role_by_slug_uid
  legacy-IsGranted mirror role by now is answer ok =
      let s' : Store = (add_grant_to_meta_locked a.store slug uid (grant_entry role by now)).1 in
      let a' : Auth = record { store = s'; mirror = mirror } in
      let reads : (u : String)
          → legacy_role s' slug u
            ≡ (if u == "" then "" else if uid == u then role else legacy_role a.store slug u) =
        λ u. add_grant_to_meta_locked-role a.store slug uid u role by now ok in
      let own : legacy_role s' slug uid ≡ role = reads uid ∙ rw (named, eq_refl uid) refl in
      record {
        access =
            tier_of_legacy a' slug uid named answer
            ∙ ap (λ r. some (capability_for_grant_role r)) own;
        other_rows = λ u differ. ap (λ o. role_in_mirror o slug u) (sym is);
        other_legacy = λ u differ.
            reads u
            ∙ if_split (λ r. r ≡ legacy_role a.store slug u) (u == "")
                (λ blank. sym (legacy_role-blank a.store slug u blank))
                (λ some_uid. rw differ refl);
      }

  -- a grant that is written to doc_member
  pub row-IsGranted :
      (db : Db) (role : String) (code : ℤ) (r : Option Fault × Auth)
      → a.mirror ≡ some db
      → capability_for_doc_role code ≡ capability_for_grant_role role
      → IsGrantedRow a.store db slug uid code r
      → IsGranted a r.1 slug uid role
  unfolding role_by_slug_uid doc_members_wired is_wired
  row-IsGranted db role code r wired same given =
      let s' : Store = (remove_grant_from_meta_locked a.store slug uid).1 in
      let a' : Auth = record { store = s'; mirror = some given.after } in
      subst (λ x. IsGranted a x slug uid role) (sym given.result)
        (record {
          access = tier_of_row a' slug uid named code refl given.is_given.given ∙ ap some same;
          other_rows = λ u differ.
              given.is_given.others u differ ∙ ap (λ o. role_in_mirror o slug u) (sym wired);
          other_legacy = λ u differ.
              remove_grant_from_meta_locked-role a.store slug uid u given.swept ∙ rw differ refl;
        })
