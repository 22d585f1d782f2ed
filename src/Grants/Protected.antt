-- ===== src/Grants/Protected.antt =====
-- The grants API has no authority over admins (internal/service/grants.go).
use octo_docs_html_fork.Prelude.{
  String, false, ◌||◌, ◌≡◌, refl, sym, ap, ◌∙◌, subst, Option, none, some, List, [], ◌∷◌, ◌==◌,
  is_empty, Bool-cases, inl, inr, if_split,
}
use octo_docs_html_fork.Prelude.Int.{ℤ, eqb_ℤ}
use octo_docs_html_fork.Storage.Value.{Value, Fields, as_object, field_at}
use octo_docs_html_fork.Storage.Meta.{DocMeta, grants_of, text_or_empty}
use octo_docs_html_fork.Storage.State.{Store}
use octo_docs_html_fork.Storage.Tables.{get_meta}
use octo_docs_html_fork.Roles.Capability.{role_admin, role_label_to_code}
use octo_docs_html_fork.Grants.Table.{
  Member, Db, Call, find_member, insert_direct_grant_if_absent, doc_id_by_slug,
}
use octo_docs_html_fork.Grants.Service.{Auth, is_creator, add_grant, remove_grant}
use octo_docs_html_fork.Grants.Migration.{
  row_for, restorable, inserted, restore, migrate_entry, migrate_all, clear_if, migrate_in,
  migrate_registered, migrate_found, reconcile_wired, reconcile_meta_grants,
}
use octo_docs_html_fork.Grants.Admins.{
  SameAdmins, SameAdmins-refl, SameAdmins-trans, insert_absent-SameAdmins,
}
use octo_docs_html_fork.Grants.Adding.{rows_of, add_grant-SameAdmins}
use octo_docs_html_fork.Grants.Removing.{remove_grant-SameAdmins}

row_for-plain :
    (o : Option ℤ) (entry : Fields) (doc uid : String) (new : Member)
    → row_for o entry doc uid ≡ some new
    → eqb_ℤ new.role role_admin ≡ false
unfolding row_for
row_for-plain none entry doc uid new h = absurd (cc)
row_for-plain (some code) entry doc uid new h =
    if_split Plain (eqb_ℤ code role_admin) (λ high no. absurd (cc))
      (λ low is. ap (λ x. eqb_ℤ x role_admin) (sym (role_is _ is)) ∙ low) h
  where
    Plain : Option Member → Type 0
    Plain o = o ≡ some new → eqb_ℤ new.role role_admin ≡ false

    role_is : (x : Member) → some x ≡ some new → x.role ≡ new.role
    role_is x is = let same : x ≡ new = cc in ap (λ y. y.role) same

module _ (m : DocMeta) (doc : String) where
  restore-SameAdmins :
      (db : Db) (entry : Option Fields) (uid : String) (o : Option Member)
      → restorable entry doc uid ≡ o
      → SameAdmins db.members (restore o db).1.members
  unfolding restore restorable insert_direct_grant_if_absent inserted
  restore-SameAdmins db entry uid none h = SameAdmins-refl db.members
  restore-SameAdmins db none uid (some new) h = absurd (cc)
  restore-SameAdmins db (some entry) uid (some new) h =
      elim (Bool-cases (db.fails (Call.write_row new.doc_id new.uid))) [
        | inl broken ↦ rw broken (SameAdmins-refl db.members)
        | inr works ↦ rw works (
            insert_absent-SameAdmins db new
              (row_for-plain (role_label_to_code (text_or_empty (field_at entry "role"))) entry doc
                uid new h)
              (find_member db.members new.doc_id new.uid) refl)
      ]

  migrate_entry-SameAdmins :
      (uid : String) (v : Value) (db : Db)
      → SameAdmins db.members (migrate_entry uid v m doc db).1.members
  unfolding migrate_entry
  migrate_entry-SameAdmins uid v db = elim (Bool-cases (uid == "" || is_creator m uid)) [
    | inl skipped ↦ rw skipped (SameAdmins-refl db.members)
    | inr taken ↦
        rw taken (restore-SameAdmins db (as_object v) uid (restorable (as_object v) doc uid) refl)
  ]

  migrate_all-SameAdmins :
      (fs : Fields) (db : Db) → SameAdmins db.members (migrate_all fs m doc db).1.members
  unfolding migrate_all
  migrate_all-SameAdmins Fields.no_fields db = SameAdmins-refl db.members
  migrate_all-SameAdmins (Fields.field uid v fs) db =
      SameAdmins-trans (migrate_entry-SameAdmins uid v db)
        (migrate_all-SameAdmins fs (migrate_entry uid v m doc db).1)

clear_if-mirror :
    (r : List String × Db) (s : Store) (slug : String) → (clear_if r s slug).1.mirror ≡ some r.1
unfolding clear_if
clear_if-mirror (uids, db) s slug = elim (Bool-cases (is_empty uids)) [
  | inl nothing ↦ rw nothing refl
  | inr consumed ↦ rw consumed refl
]

reconcile_meta_grants-SameAdmins :
    (a : Auth) (slug : String)
    → SameAdmins (rows_of a.mirror) (rows_of (reconcile_meta_grants a slug).1.mirror)
unfolding reconcile_meta_grants
reconcile_meta_grants-SameAdmins a slug = wired a.mirror
  where
    moved :
        (db : Db) (m : DocMeta) (doc : String) (o : Option Fields)
        → SameAdmins db.members (rows_of (migrate_in o m a.store db slug doc).1.mirror)
    moved db m doc none = SameAdmins-refl db.members
    moved db m doc (some g) =
        subst (λ o. SameAdmins db.members (rows_of o))
          (sym (clear_if-mirror (migrate_all g m doc db) a.store slug))
          (migrate_all-SameAdmins m doc g db)

    registered :
        (db : Db) (m : DocMeta) (o : Option (Option String))
        → SameAdmins db.members (rows_of (migrate_registered o m a.store db slug).1.mirror)
    registered db m none = SameAdmins-refl db.members
    registered db m (some none) = SameAdmins-refl db.members
    registered db m (some (some doc)) = moved db m doc (grants_of (some m))

    found :
        (db : Db) (o : Option (Option DocMeta))
        → SameAdmins db.members (rows_of (migrate_found o a.store db slug).1.mirror)
    found db none = SameAdmins-refl db.members
    found db (some none) = SameAdmins-refl db.members
    found db (some (some m)) = registered db m (doc_id_by_slug db slug)

    wired :
        (o : Option Db) → SameAdmins (rows_of o) (rows_of (reconcile_wired o a.store slug).1.mirror)
    wired none = SameAdmins-refl []
    wired (some db) = found db (get_meta a.store slug)

-- A call of the grants API, or the reconciliation after a document is published.
pub data GrantCall : Type 0 where
  add : (slug uid role granted_by now : String) → GrantCall
  revoke : (slug uid : String) → GrantCall
  reconcile : (slug : String) → GrantCall

abbrev pub call : GrantCall → Auth → Auth
call (GrantCall.add slug uid role by now) a = (add_grant a slug uid role by now).1
call (GrantCall.revoke slug uid) a = (remove_grant a slug uid).1
call (GrantCall.reconcile slug) a = (reconcile_meta_grants a slug).1

abbrev pub calls : List GrantCall → Auth → Auth
calls [] a = a
calls (c ∷ cs) a = calls cs (call c a)

call-SameAdmins :
    (c : GrantCall) (a : Auth) → SameAdmins (rows_of a.mirror) (rows_of (call c a).mirror)
call-SameAdmins (GrantCall.add slug uid role by now) a = add_grant-SameAdmins a slug uid role by now
call-SameAdmins (GrantCall.revoke slug uid) a = remove_grant-SameAdmins a slug uid
call-SameAdmins (GrantCall.reconcile slug) a = reconcile_meta_grants-SameAdmins a slug

-- No sequence of calls of the grants API and of reconciliations, whether they succeed or fail,
-- makes a row of an admin, changes one or removes one.
pub calls-SameAdmins :
    (cs : List GrantCall) (a : Auth) → SameAdmins (rows_of a.mirror) (rows_of (calls cs a).mirror)
calls-SameAdmins [] a = SameAdmins-refl (rows_of a.mirror)
calls-SameAdmins (c ∷ cs) a =
    SameAdmins-trans (call-SameAdmins c a) (calls-SameAdmins cs (call c a))
