-- ===== src/Access/Given.antt =====
-- What RoleBySlugUID (internal/service/auth.go) answers after a row is written.
use octo_docs_html_fork.Prelude.{
  String, true, false, ◌≡◌, refl, sym, ap, ◌∙◌, subst, Option, none, some, ◌==◌, arith, eq_refl,
  Bool-cases, inl, inr, if_split, if◌then◌else◌,
}
use octo_docs_html_fork.Prelude.Int.{ℤ, eqb_ℤ}
use octo_docs_html_fork.Storage.State.{Store}
use octo_docs_html_fork.Roles.Capability.{role_admin}
use octo_docs_html_fork.Grants.Table.{
  Member, Db, Call, find_member, doc_id_by_slug, role_of, role_by_doc_uid, upsert_direct_grant,
}
use octo_docs_html_fork.Grants.Service.{
  Fault, Auth, sweep_after, write_grant, remove_grant_from_meta_locked,
}
use octo_docs_html_fork.Grants.Written.{IsWritten, kept-IsWritten, upsert_direct_grant-IsWritten}
use octo_docs_html_fork.Access.Lookup.{role_answer, role_registered, role_in_mirror}
use octo_docs_html_fork.Access.Cleared.{unregistered, mirror_answer}

-- What the mirror answers for each uid, where one has been given a role.
pub record IsGiven (db db' : Db) (slug uid : String) (code : ℤ) : Type 0 where
  pub given :
      role_in_mirror (some db') slug uid ≡ some (record { role = some code; registered = true })
  pub others :
      (u : String)
      → (uid == u) ≡ false
      → role_in_mirror (some db') slug u ≡ role_in_mirror (some db) slug u

module _ (db db' : Db) (slug : String) (new : Member) (written : IsWritten db db' new)
    (found : doc_id_by_slug db slug ≡ some (some new.doc_id)) where
  found_after : doc_id_by_slug db' slug ≡ some (some new.doc_id)
  unfolding doc_id_by_slug
  found_after =
      (λ i. if written.calls (Call.find_doc slug) i then none else some (written.docs slug i))
      ∙ found

  other_role :
      (u : String)
      → (new.uid == u) ≡ false
      → role_by_doc_uid db' new.doc_id u ≡ role_by_doc_uid db new.doc_id u
  unfolding role_by_doc_uid
  other_role u differ =
      let row = written.others new.doc_id u (ground (arith, eq_refl new.doc_id)) in
      λ i. if written.calls (Call.read_role new.doc_id u) i then none else some (role_of (row i))

  new_role :
      db.fails (Call.read_role new.doc_id new.uid) ≡ false
      → role_by_doc_uid db' new.doc_id new.uid ≡ some (some new.role)
  unfolding role_by_doc_uid
  new_role works = λ i.
      if (written.calls (Call.read_role new.doc_id new.uid) ∙ works) i
      then none
      else some (written.row i)

  written-IsGiven :
      (new.uid == "") ≡ false
      → db.fails (Call.read_role new.doc_id new.uid) ≡ false
      → IsGiven db db' slug new.uid new.role
  unfolding role_registered role_answer
  written-IsGiven named works = record {
    given =
        mirror_answer db' slug new.uid _ found_after ∙ rw named (ap role_answer (new_role works));
    others = λ u differ.
        mirror_answer db' slug u _ found_after
        ∙ (λ i. if u == "" then some unregistered else role_answer (other_role u differ i))
        ∙ sym (mirror_answer db slug u _ found);
  }

-- The write succeeded, and so did the sweep.
pub record IsGrantedRow (s : Store) (db : Db) (slug uid : String) (code : ℤ)
    (r : Option Fault × Auth) : Type 0 where
  pub after : Db
  pub is_given : IsGiven db after slug uid code
  pub swept : (remove_grant_from_meta_locked s slug uid).0 ≡ none
  pub result :
      r.1 ≡ record { store = (remove_grant_from_meta_locked s slug uid).1; mirror = some after }

module _ (s : Store) (db : Db) (slug : String) (new : Member)
    (found : doc_id_by_slug db slug ≡ some (some new.doc_id))
    (named : (new.uid == "") ≡ false) where
  sweep_after-IsGrantedRow :
      (o : Option Db)
      → ((db' : Db) → o ≡ some db' → IsWritten db db' new)
      → db.fails (Call.read_role new.doc_id new.uid) ≡ false
      → (sweep_after o s db slug new.uid).0 ≡ none
      → IsGrantedRow s db slug new.uid new.role (sweep_after o s db slug new.uid)
  unfolding sweep_after
  sweep_after-IsGrantedRow none written works ok = absurd (cc)
  sweep_after-IsGrantedRow (some db') written works ok = record {
    after = db';
    is_given = written-IsGiven db db' slug new (written db' refl) found named works;
    swept = ok;
    result = refl;
  }

  -- The query has answered, so it did not fail.
  answered :
      (r : Option ℤ)
      → role_by_doc_uid db new.doc_id new.uid ≡ some r
      → (db.fails (Call.read_role new.doc_id new.uid) ≡ false)
        × (role_of (find_member db.members new.doc_id new.uid) ≡ r)
  unfolding role_by_doc_uid
  answered r h = elim (Bool-cases (db.fails (Call.read_role new.doc_id new.uid))) [
    | inl broken ↦ absurd (let no : none ≡ some r = sym (rw broken refl) ∙ h in cc)
    | inr works ↦
        let is : some (role_of (find_member db.members new.doc_id new.uid)) ≡ some r =
          sym (rw works refl) ∙ h in
        (works, cc)
  ]

  same_role :
      (o : Option Member) (role : ℤ)
      → role_of o ≡ some role
      → (m : Member) × (o ≡ some m) × (m.role ≡ role)
  unfolding role_of
  same_role none role h = absurd (cc)
  same_role (some m) role h = (m, refl, cc)

  pub write_grant-IsGrantedRow :
      (o : Option (Option ℤ))
      → role_by_doc_uid db new.doc_id new.uid ≡ o
      → (write_grant o s db slug new).0 ≡ none
      → IsGrantedRow s db slug new.uid new.role (write_grant o s db slug new)
  unfolding write_grant role_of
  write_grant-IsGrantedRow none h ok = absurd (cc)
  write_grant-IsGrantedRow (some none) h ok =
      let (works, absent) = answered none h in
      sweep_after-IsGrantedRow (upsert_direct_grant db new)
        (λ db' is.
          upsert_direct_grant-IsWritten db new db'
            (λ m there.
              absurd (let no : some m.role ≡ none = sym (ap role_of there) ∙ absent in cc))
            is)
        works ok
  write_grant-IsGrantedRow (some (some role)) h ok =
      let (works, present) = answered (some role) h in
      let (m, there, is_role) =
        same_role (find_member db.members new.doc_id new.uid) role present in
      if_high role m there is_role works ok
    where
      if_high :
          (role : ℤ) (m : Member)
          → find_member db.members new.doc_id new.uid ≡ some m
          → m.role ≡ role
          → db.fails (Call.read_role new.doc_id new.uid) ≡ false
          → (write_grant (some (some role)) s db slug new).0 ≡ none
          → IsGrantedRow s db slug new.uid new.role (write_grant (some (some role)) s db slug new)
      if_high role m there is_role works =
          let Grants : Option Fault × Auth → Type 0 =
            λ r. r.0 ≡ none → IsGrantedRow s db slug new.uid new.role r in
          let plain : eqb_ℤ role role_admin ≡ false → eqb_ℤ m.role role_admin ≡ false =
            λ low. ap (λ x. eqb_ℤ x role_admin) is_role ∙ low in
          if_split Grants (eqb_ℤ role role_admin) (λ high refused. absurd (cc))
            (λ low.
              if_split Grants (eqb_ℤ role new.role)
                (λ same.
                  sweep_after-IsGrantedRow (some db)
                    (λ db' is.
                      let same_db : db ≡ db' = cc in
                      subst (λ x. IsWritten db x new) same_db
                        (kept-IsWritten db new m there (ap (λ x. eqb_ℤ x new.role) is_role ∙ same)))
                    works)
                (λ differ.
                  sweep_after-IsGrantedRow (upsert_direct_grant db new)
                    (λ db' is.
                      upsert_direct_grant-IsWritten db new db'
                        (λ m' there'.
                          let both : some m ≡ some m' = sym there ∙ there' in
                          let same_row : m ≡ m' = cc in
                          ap (λ x. eqb_ℤ x.role role_admin) (sym same_row) ∙ plain low)
                        is)
                    works))
