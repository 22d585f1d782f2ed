-- ===== src/Grants/Written.antt =====
-- What addGrantToDocMember of internal/service/grants.go leaves in the tables.
use octo_docs_html_fork.Prelude.{
  String, true, false, ◌≡◌, refl, sym, ap, ◌∙◌, subst, Option, none, some, arith, eq_refl,
  Bool-cases, inl, inr,
}
use octo_docs_html_fork.Prelude.Int.{eqb_ℤ, eq_of_test}
use octo_docs_html_fork.Roles.Capability.{role_admin}
use octo_docs_html_fork.Grants.Table.{
  Member, Db, Call, is_at, find_member, find_doc_id, put_member, upserted, commit,
  upsert_direct_grant, role_of,
}
use octo_docs_html_fork.Grants.Rows.{find_member-put_member, find_doc_id-bump_epoch}

-- The row of one key has a role, and the rows of the other keys are as before.
pub record IsWritten (db db' : Db) (new : Member) : Type 0 where
  pub calls : (c : Call) → db'.fails c ≡ db.fails c
  pub docs : (slug : String) → find_doc_id db'.docs slug ≡ find_doc_id db.docs slug
  pub row : role_of (find_member db'.members new.doc_id new.uid) ≡ some new.role
  pub others :
      (d u : String)
      → is_at new d u ≡ false
      → find_member db'.members d u ≡ find_member db.members d u

module _ (db : Db) (new : Member) where
  -- the row has the role already
  pub kept-IsWritten :
      (m : Member)
      → find_member db.members new.doc_id new.uid ≡ some m
      → eqb_ℤ m.role new.role ≡ true
      → IsWritten db db new
  unfolding role_of
  kept-IsWritten m there same = record {
    calls = λ c. refl;
    docs = λ slug. refl;
    row = ap role_of there ∙ ap some (eq_of_test m.role new.role same);
    others = λ d u differ. refl;
  }

  put-IsWritten :
      (db' : Db) → commit db new.doc_id (put_member db.members new) ≡ db' → IsWritten db db' new
  unfolding commit role_of
  put-IsWritten db' is =
      subst (λ x. IsWritten db x new) is
        (record {
          calls = λ c. refl;
          docs = λ slug. find_doc_id-bump_epoch db.docs new.doc_id slug;
          row =
              let there : find_member (put_member db.members new) new.doc_id new.uid ≡ some new =
                find_member-put_member db.members new new.doc_id new.uid
                ∙ rw (eq_refl new.doc_id, eq_refl new.uid) refl in
              ap role_of there;
          others = λ d u differ. find_member-put_member db.members new d u ∙ rw differ refl;
        })

  upserted-new :
      (o : Option Member)
      → ((m : Member) → o ≡ some m → eqb_ℤ m.role role_admin ≡ false)
      → upserted o new ≡ new
  unfolding upserted
  upserted-new none plain = refl
  upserted-new (some old) plain = rw (plain old refl) (ground arith)

  pub upsert_direct_grant-IsWritten :
      (db' : Db)
      → ((m : Member)
          → find_member db.members new.doc_id new.uid ≡ some m
          → eqb_ℤ m.role role_admin ≡ false)
      → upsert_direct_grant db new ≡ some db'
      → IsWritten db db' new
  unfolding upsert_direct_grant
  upsert_direct_grant-IsWritten db' plain done =
      elim (Bool-cases (db.fails (Call.write_row new.doc_id new.uid))) [
        | inl broken ↦ absurd (let no : none ≡ some db' = sym (rw broken refl) ∙ done in cc)
        | inr works ↦
            let found = find_member db.members new.doc_id new.uid in
            let is : some (commit db new.doc_id (put_member db.members (upserted found new)))
                ≡ some db' =
              sym (rw works refl) ∙ done in
            let same = upserted-new found plain in
            put-IsWritten db'
              (ap (λ m. commit db new.doc_id (put_member db.members m)) (sym same) ∙ (cc))
      ]
