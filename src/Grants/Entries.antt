-- ===== src/Grants/Entries.antt =====
-- The entries of meta.grants that internal/service/grants.go writes and drops.
use octo_docs_html_fork.Prelude.{
  String, ◌≡◌, refl, sym, ap, ◌∙◌, subst, if_ap, Option, none, some, ◌==◌, arith, eq_iff, eq_refl,
  if◌then◌else◌,
}
use octo_docs_html_fork.Prelude.Dict.{Dict, put, get-put, get-remove}
use octo_docs_html_fork.Storage.Value.{Value, Fields, field_at, as_object}
use octo_docs_html_fork.Storage.Float.{decode_any, decoded, field_at-decode_fields}
use octo_docs_html_fork.Storage.Meta.{
  DocMeta, extra_of, text_or_empty, creator_uid, role_in, role_of_entry, grants_of, grant_role,
}
use octo_docs_html_fork.Storage.State.{Store}
use octo_docs_html_fork.Storage.Tables.{get_meta}
use octo_docs_html_fork.Grants.Copies.{
  copied, decoded_fields, text_or_empty-decoded, grants_of-copied, creator_uid-copied,
  put_meta-copied, get_meta-found,
}
use octo_docs_html_fork.Grants.Service.{
  Fault, remove_field, put_field, with_grants, saved, save, grant_entry,
}

pub field_at-remove_field :
    (fs : Fields) (k j : String)
    → field_at (remove_field fs k) j ≡ (if k == j then none else field_at fs j)
unfolding field_at remove_field
field_at-remove_field Fields.no_fields k j = ground arith
field_at-remove_field (Fields.field i v fs) k j =
    ground (arith, eq_iff i k, eq_iff i j, eq_iff k j, field_at-remove_field fs k j)

pub field_at-put_field :
    (fs : Fields) (k j : String) (v : Value)
    → field_at (put_field fs k v) j ≡ (if k == j then some v else field_at fs j)
unfolding field_at put_field
field_at-put_field Fields.no_fields k j v = refl
field_at-put_field (Fields.field i w fs) k j v =
    ground (arith, eq_iff i k, eq_iff i j, eq_iff k j, field_at-put_field fs k j v)

-- the role of a uid in grants that may be missing
abbrev pub role_at : Option Fields → String → String
role_at none uid = ""
role_at (some g) uid = role_in g uid

pub grant_role-role_at :
    (m : DocMeta) (uid : String)
    → grant_role (some m) uid ≡ (if uid == "" then "" else role_at (grants_of (some m)) uid)
unfolding grant_role
grant_role-role_at m uid = go (grants_of (some m))
  where
    go :
        (o : Option Fields)
        → (if uid == "" then "" else elim o [ none ↦ "" | some grants ↦ role_in grants uid ])
          ≡ (if uid == "" then "" else role_at o uid)
    go none = refl
    go (some g) = refl

pub role_in-missing : (g : Fields) (uid : String) → field_at g uid ≡ none → role_in g uid ≡ ""
unfolding role_in role_of_entry
role_in-missing g uid h = ap role_of_entry h

pub role_in-remove_field :
    (g : Fields) (k uid : String)
    → role_in (remove_field g k) uid ≡ (if k == uid then "" else role_in g uid)
unfolding role_in role_of_entry
role_in-remove_field g k uid =
    ap role_of_entry (field_at-remove_field g k uid)
    ∙ if_ap role_of_entry (k == uid) none (field_at g uid)

pub role_in-put_field :
    (g : Fields) (k uid role by now : String)
    → role_in (put_field g k (grant_entry role by now)) uid
      ≡ (if k == uid then role else role_in g uid)
unfolding role_in role_of_entry text_or_empty as_object field_at
role_in-put_field g k uid role by now =
    ap role_of_entry (field_at-put_field g k uid (grant_entry role by now))
    ∙ if_ap role_of_entry (k == uid) (some (grant_entry role by now)) (field_at g uid)

-- the grants that are left, if there are any
abbrev pub some_left : Fields → Option Fields
some_left Fields.no_fields = none
some_left (Fields.field k v fs) = some (Fields.field k v fs)

pub role_at-some_left : (g : Fields) (uid : String) → role_at (some_left g) uid ≡ role_in g uid
unfolding role_in field_at
role_at-some_left Fields.no_fields uid = refl
role_at-some_left (Fields.field k v fs) uid = refl

module _ (m : DocMeta) (d : Dict Value) where
  pub grants_of-put :
      (g : Fields)
      → grants_of (some (record m { extra = some (put d "grants" (Value.object g)) })) ≡ some g
  unfolding grants_of extra_of as_object
  grants_of-put g =
      ap (λ o. elim o [ none ↦ none | some v ↦ as_object v ])
        (get-put d "grants" "grants" (Value.object g))

  pub grants_of-with_grants :
      (g : Fields) → grants_of (some (record m { extra = some (with_grants d g) })) ≡ some_left g
  unfolding with_grants grants_of extra_of
  grants_of-with_grants Fields.no_fields =
      ap (λ o. elim o [ none ↦ none | some v ↦ as_object v ]) (get-remove d "grants" "grants")
  grants_of-with_grants (Fields.field k v fs) = grants_of-put (Fields.field k v fs)

role_of_entry-decoded : (o : Option Value) → role_of_entry (decoded o) ≡ role_of_entry o
unfolding role_of_entry as_object decode_any
role_of_entry-decoded none = refl
role_of_entry-decoded (some Value.null) = refl
role_of_entry-decoded (some (Value.bool b)) = refl
role_of_entry-decoded (some (Value.number z)) = refl
role_of_entry-decoded (some (Value.fraction t)) = refl
role_of_entry-decoded (some (Value.text t)) = refl
role_of_entry-decoded (some (Value.array vs)) = refl
role_of_entry-decoded (some (Value.object fs)) =
    ap text_or_empty (field_at-decode_fields fs "role") ∙ text_or_empty-decoded (field_at fs "role")

-- A copy of the grants gives the same roles.
role_at-decoded :
    (o : Option Fields) (uid : String) → role_at (decoded_fields o) uid ≡ role_at o uid
unfolding role_in
role_at-decoded none uid = refl
role_at-decoded (some g) uid =
    ap role_of_entry (field_at-decode_fields g uid) ∙ role_of_entry-decoded (field_at g uid)

role_at-copied :
    (m : DocMeta) (uid : String)
    → role_at (grants_of (some (copied m))) uid ≡ role_at (grants_of (some m)) uid
role_at-copied m uid =
    ap (λ o. role_at o uid) (grants_of-copied m) ∙ role_at-decoded (grants_of (some m)) uid

-- What is read after a save: it succeeds, and the roles are those of the grants that were saved.
pub record IsSaved (r : Option Fault × Store) (slug : String) (m : DocMeta) : Type 0 where
  pub succeeded : r.0 ≡ none
  pub reads :
      (c : DocMeta) × (get_meta r.1 slug ≡ some (some c))
      × ((uid : String) → role_at (grants_of (some c)) uid ≡ role_at (grants_of (some m)) uid)
      × (creator_uid (some c) ≡ creator_uid (some m))

pub save-IsSaved :
    (s : Store) (slug : String) (m : DocMeta) (extra : Dict Value)
    → IsSaved (save s slug m extra) slug (record m { extra = some extra })
unfolding save saved
save-IsSaved s slug m extra =
    let new : DocMeta = record m { extra = some extra } in
    let s' : Store = record s { meta = put s.meta slug (copied new) } in
    let there = get-put s.meta slug slug (copied new) ∙ rw (eq_refl slug) refl in
    let ok : IsSaved (saved (some s') s) slug new = record {
      succeeded = refl;
      reads = (
        copied (copied new),
        get_meta-found s' slug (copied new) there,
        λ uid. role_at-copied (copied new) uid ∙ role_at-copied new uid,
        creator_uid-copied (copied new) ∙ creator_uid-copied new,
      );
    } in
    subst (λ o. IsSaved (saved o s) slug new) (sym (put_meta-copied s slug new)) ok
