-- ===== src/Grants/Deleted.antt =====
-- What removeGrantFromDocMember of internal/service/grants.go leaves in the tables.
use octo_docs_html_fork.Prelude.{
  String, Bool, true, false, ◌&&◌, ◌≡◌, refl, sym, ◌∙◌, subst, Option, none, some, ◌==◌, arith,
  eq_iff, Bool-cases, inl, inr, if◌then◌else◌,
}
use octo_docs_html_fork.Prelude.Int.{ℤ, eqb_ℤ}
use octo_docs_html_fork.Roles.Capability.{role_admin}
use octo_docs_html_fork.Grants.Table.{
  Member, Db, Call, Deletion, find_member, find_doc_id, drop_member, commit, delete_found,
  delete_grant, role_of, role_by_doc_uid,
}
use octo_docs_html_fork.Grants.Rows.{find_member-drop_member, find_doc_id-bump_epoch}
use octo_docs_html_fork.Grants.Service.{Fault, after_deletion, delete_row}

-- One row is gone, and nothing else is different.
pub record IsDeleted (db db' : Db) (doc uid : String) : Type 0 where
  pub calls : (c : Call) → db'.fails c ≡ db.fails c
  pub docs : (slug : String) → find_doc_id db'.docs slug ≡ find_doc_id db.docs slug
  pub rows :
      (d u : String)
      → find_member db'.members d u
        ≡ (if doc == d && uid == u then none else find_member db.members d u)

if_none : (b : Bool) (o : Option Member) → (b ≡ true → o ≡ none) → o ≡ (if b then none else o)
if_none true o h = h refl
if_none false o h = refl

module _ (db : Db) (doc uid : String) where
  absent-IsDeleted : find_member db.members doc uid ≡ none → IsDeleted db db doc uid
  absent-IsDeleted gone = record {
    calls = λ c. refl;
    docs = λ slug. refl;
    rows = λ d u. if_none (doc == d && uid == u) (find_member db.members d u) (λ same.
        let is_doc : doc ≡ d = ground (arith, eq_iff doc d) in
        let is_uid : uid ≡ u = ground (arith, eq_iff uid u) in
        sym (λ i. find_member db.members (is_doc i) (is_uid i)) ∙ gone);
  }

  delete_found-IsDeleted :
      (db' : Db) (o : Option Member)
      → find_member db.members doc uid ≡ o
      → delete_found o db doc uid ≡ Deletion.finished db'
      → IsDeleted db db' doc uid
  unfolding delete_found commit
  delete_found-IsDeleted db' none gone done =
      let same : db ≡ db' = cc in subst (λ x. IsDeleted db x doc uid) same (absent-IsDeleted gone)
  delete_found-IsDeleted db' (some m) there done = elim (Bool-cases (eqb_ℤ m.role role_admin)) [
    | inl high ↦
        absurd
          (let no : Deletion.admin_guard ≡ Deletion.finished db' = sym (rw high refl) ∙ done in cc)
    | inr low ↦
        let new : Db = commit db doc (drop_member db.members doc uid) in
        let is : Deletion.finished new ≡ Deletion.finished db' = sym (rw low refl) ∙ done in
        let same : new ≡ db' = cc in
        subst (λ x. IsDeleted db x doc uid) same
          (record {
            calls = λ c. refl;
            docs = λ slug. find_doc_id-bump_epoch db.docs doc slug;
            rows = λ d u. find_member-drop_member db.members doc uid d u;
          })
  ]

  after_deletion-IsDeleted :
      (d : Deletion)
      → delete_grant db doc uid ≡ d
      → (after_deletion d db).0 ≡ none
      → IsDeleted db (after_deletion d db).1 doc uid
  unfolding after_deletion delete_grant
  after_deletion-IsDeleted Deletion.broken h ok = absurd (cc)
  after_deletion-IsDeleted Deletion.admin_guard h ok = absurd (cc)
  after_deletion-IsDeleted (Deletion.finished db') h ok =
      elim (Bool-cases (db.fails (Call.write_row doc uid))) [
        | inl broken ↦
            absurd
              (let no : Deletion.broken ≡ Deletion.finished db' = sym (rw broken refl) ∙ h in cc)
        | inr works ↦
            delete_found-IsDeleted db' (find_member db.members doc uid) refl
              (sym (rw works refl) ∙ h)
      ]

  unread : (o : Option Member) → role_of o ≡ none → o ≡ none
  unfolding role_of
  unread none h = refl
  unread (some m) h = absurd (cc)

  -- The query has answered, so it did not fail.
  answered :
      (r : Option ℤ)
      → role_by_doc_uid db doc uid ≡ some r
      → (db.fails (Call.read_role doc uid) ≡ false) × (role_of (find_member db.members doc uid) ≡ r)
  unfolding role_by_doc_uid
  answered r h = elim (Bool-cases (db.fails (Call.read_role doc uid))) [
    | inl broken ↦ absurd (let no : none ≡ some r = sym (rw broken refl) ∙ h in cc)
    | inr works ↦
        let is : some (role_of (find_member db.members doc uid)) ≡ some r =
          sym (rw works refl) ∙ h in
        (works, cc)
  ]

  pub delete_row-IsDeleted :
      (o : Option (Option ℤ))
      → role_by_doc_uid db doc uid ≡ o
      → (delete_row o db doc uid).0 ≡ none
      → IsDeleted db (delete_row o db doc uid).1 doc uid
        × (db.fails (Call.read_role doc uid) ≡ false)
  unfolding delete_row
  delete_row-IsDeleted none h ok = absurd (cc)
  delete_row-IsDeleted (some none) h ok =
      let (works, gone) = answered none h in (absent-IsDeleted (unread _ gone), works)
  delete_row-IsDeleted (some (some role)) h ok = elim (Bool-cases (eqb_ℤ role role_admin)) [
    | inl high ↦ absurd (let no : some Fault.grant_protected ≡ none = sym (rw high refl) ∙ ok in cc)
    | inr low ↦ rw low (
      after_deletion-IsDeleted (delete_grant db doc uid) refl (sym (rw low refl) ∙ ok),
      (answered (some role) h).0,
    )
  ]
