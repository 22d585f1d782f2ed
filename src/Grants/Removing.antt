-- ===== src/Grants/Removing.antt =====
-- RemoveGrant leaves the admins' rows as they are (internal/service/grants.go).
use octo_docs_html_fork.Prelude.{
  String, ◌≡◌, refl, sym, ◌∙◌, subst, Option, none, some, [], ◌==◌, Bool-cases, inl, inr,
}
use octo_docs_html_fork.Prelude.Int.{ℤ, eqb_ℤ}
use octo_docs_html_fork.Storage.Meta.{DocMeta}
use octo_docs_html_fork.Storage.State.{Store}
use octo_docs_html_fork.Storage.Tables.{get_meta}
use octo_docs_html_fork.Roles.Capability.{role_admin}
use octo_docs_html_fork.Grants.Table.{
  Db, Call, Deletion, find_member, delete_grant, doc_id_by_slug, role_by_doc_uid,
}
use octo_docs_html_fork.Grants.Service.{
  Fault, Auth, is_creator, after_deletion, delete_row, delete_registered,
  remove_grant_from_doc_member, sweep_if, remove_grant_locked, remove_checked, remove_grant,
}
use octo_docs_html_fork.Grants.Admins.{SameAdmins, SameAdmins-refl, delete_found-SameAdmins}
use octo_docs_html_fork.Grants.Adding.{rows_of}

module _ (db : Db) where
  after_deletion-SameAdmins :
      (d : Deletion) (doc uid : String)
      → delete_grant db doc uid ≡ d
      → SameAdmins db.members (after_deletion d db).1.members
  unfolding after_deletion delete_grant
  after_deletion-SameAdmins Deletion.broken doc uid h = SameAdmins-refl db.members
  after_deletion-SameAdmins Deletion.admin_guard doc uid h = SameAdmins-refl db.members
  after_deletion-SameAdmins (Deletion.finished db') doc uid h =
      elim (Bool-cases (db.fails (Call.write_row doc uid))) [
        | inl broken ↦
            absurd
              (let no : Deletion.broken ≡ Deletion.finished db' = sym (rw broken refl) ∙ h in cc)
        | inr works ↦
            delete_found-SameAdmins db db' doc uid (find_member db.members doc uid) refl
              (sym (rw works refl) ∙ h)
      ]

  delete_row-SameAdmins :
      (o : Option (Option ℤ)) (doc uid : String)
      → SameAdmins db.members (delete_row o db doc uid).1.members
  unfolding delete_row
  delete_row-SameAdmins none doc uid = SameAdmins-refl db.members
  delete_row-SameAdmins (some none) doc uid = SameAdmins-refl db.members
  delete_row-SameAdmins (some (some role)) doc uid = elim (Bool-cases (eqb_ℤ role role_admin)) [
    | inl high ↦ rw high (SameAdmins-refl db.members)
    | inr low ↦ rw low (after_deletion-SameAdmins (delete_grant db doc uid) doc uid refl)
  ]

  delete_registered-SameAdmins :
      (o : Option (Option String)) (uid : String)
      → SameAdmins db.members (delete_registered o db uid).1.members
  unfolding delete_registered
  delete_registered-SameAdmins none uid = SameAdmins-refl db.members
  delete_registered-SameAdmins (some none) uid = SameAdmins-refl db.members
  delete_registered-SameAdmins (some (some doc)) uid =
      delete_row-SameAdmins (role_by_doc_uid db doc uid) doc uid

sweep_if-mirror :
    (o : Option Fault) (db : Db) (s : Store) (slug uid : String)
    → (sweep_if o db s slug uid).1.mirror ≡ some db
unfolding sweep_if
sweep_if-mirror none db s slug uid = refl
sweep_if-mirror (some fault) db s slug uid = refl

pub remove_grant-SameAdmins :
    (a : Auth) (slug uid : String)
    → SameAdmins (rows_of a.mirror) (rows_of (remove_grant a slug uid).1.mirror)
unfolding remove_grant remove_checked remove_grant_locked remove_grant_from_doc_member
remove_grant-SameAdmins a slug uid = elim (Bool-cases (uid == "")) [
  | inl blank ↦ rw blank (SameAdmins-refl (rows_of a.mirror))
  | inr named ↦ rw named (go (get_meta a.store slug))
]
  where
    locked :
        (o : Option Db)
        → SameAdmins (rows_of o) (rows_of (remove_grant_locked o a.store slug uid).1.mirror)
    locked none = SameAdmins-refl []
    locked (some db) =
        let deleted = remove_grant_from_doc_member db slug uid in
        subst (λ o. SameAdmins db.members (rows_of o))
          (sym (sweep_if-mirror deleted.0 deleted.1 a.store slug uid))
          (delete_registered-SameAdmins db (doc_id_by_slug db slug) uid)

    go :
        (o : Option (Option DocMeta))
        → SameAdmins (rows_of a.mirror) (rows_of (remove_checked o a slug uid).1.mirror)
    go none = SameAdmins-refl (rows_of a.mirror)
    go (some none) = SameAdmins-refl (rows_of a.mirror)
    go (some (some m)) = elim (Bool-cases (is_creator m uid)) [
      | inl creator ↦ rw creator (SameAdmins-refl (rows_of a.mirror))
      | inr other ↦ rw other (locked a.mirror)
    ]
