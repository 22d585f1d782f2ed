-- ===== src/Grants/Admins.antt =====
-- The writes of internal/service/grants.go leave the admins' rows as they are.
use octo_docs_html_fork.Prelude.{
  String, false, ◌&&◌, ◌≡◌, refl, sym, ap, ◌∙◌, subst, Option, none, some, List, ◌==◌, arith,
  eq_iff, Bool-cases, inl, inr, if◌then◌else◌,
}
use octo_docs_html_fork.Prelude.Int.{eqb_ℤ}
use octo_docs_html_fork.Roles.Capability.{role_admin}
use octo_docs_html_fork.Grants.Table.{
  Member, Db, Call, Deletion, is_at, find_member, put_member, drop_member, upserted, insert_absent,
  commit, delete_found, upsert_direct_grant,
}
use octo_docs_html_fork.Grants.Rows.{
  find_member-put_member, find_member-drop_member, find_member-key,
}

-- the row, where it is an admin's
abbrev pub if_admin : Option Member → Option Member
if_admin none = none
if_admin (some m) = if eqb_ℤ m.role role_admin then some m else none

abbrev pub admin_in : List Member → String → String → Option Member
admin_in ms doc uid = if_admin (find_member ms doc uid)

-- Two tables have the same admins.
pub record SameAdmins (ms ms' : List Member) : Type 0 where
  pub same : (doc uid : String) → admin_in ms' doc uid ≡ admin_in ms doc uid

pub SameAdmins-refl : (ms : List Member) → SameAdmins ms ms
SameAdmins-refl ms = record { same = λ doc uid. refl }

pub SameAdmins-trans :
    {ms ms' ms'' : List Member} → SameAdmins ms ms' → SameAdmins ms' ms'' → SameAdmins ms ms''
SameAdmins-trans h h' = record { same = λ doc uid. h'.same doc uid ∙ h.same doc uid }

-- A row takes the place of one that is as much of an admin.
put_member-SameAdmins :
    (ms : List Member) (new : Member)
    → if_admin (some new) ≡ admin_in ms new.doc_id new.uid
    → SameAdmins ms (put_member ms new)
put_member-SameAdmins ms new h = record {
  same = λ doc uid.
      ap if_admin (find_member-put_member ms new doc uid) ∙ elim (Bool-cases (is_at new doc uid)) [
        | inr other ↦ rw other refl
        | inl here ↦
            let is_doc : new.doc_id ≡ doc = ground (arith, eq_iff new.doc_id doc) in
            let is_uid : new.uid ≡ uid = ground (arith, eq_iff new.uid uid) in
            rw here (h ∙ (λ i. admin_in ms (is_doc i) (is_uid i)))
      ];
}

drop_member-SameAdmins :
    (ms : List Member) (d u : String) → admin_in ms d u ≡ none → SameAdmins ms (drop_member ms d u)
drop_member-SameAdmins ms d u h = record {
  same = λ doc uid.
      ap if_admin (find_member-drop_member ms d u doc uid)
      ∙ elim (Bool-cases (d == doc && u == uid)) [
        | inr other ↦ rw other refl
        | inl here ↦
            let is_doc : d ≡ doc = ground (arith, eq_iff d doc) in
            let is_uid : u ≡ uid = ground (arith, eq_iff u uid) in
            rw here (sym h ∙ (λ i. admin_in ms (is_doc i) (is_uid i)))
      ];
}

-- A row that is not an admin's is written over one that is not, or leaves the one that is.
upserted-admin :
    (o : Option Member) (new : Member)
    → eqb_ℤ new.role role_admin ≡ false
    → if_admin (some (upserted o new)) ≡ if_admin o
unfolding upserted
upserted-admin none new plain = rw plain refl
upserted-admin (some old) new plain = elim (Bool-cases (eqb_ℤ old.role role_admin)) [
  | inl high ↦ rw (plain, high) (rw high refl)
  | inr low ↦ rw (plain, low) (rw plain refl)
]

abbrev pub SameTable : Option Db → Db → Type 0
SameTable none db = Unit
SameTable (some db') db = SameAdmins db.members db'.members

-- the row of the key, or the new one, with the key
upserted-key :
    (ms : List Member) (new : Member) (o : Option Member)
    → find_member ms new.doc_id new.uid ≡ o
    → ((upserted o new).doc_id ≡ new.doc_id) × ((upserted o new).uid ≡ new.uid)
unfolding upserted
upserted-key ms new none h = (refl, refl)
upserted-key ms new (some old) h = elim (Bool-cases (eqb_ℤ new.role role_admin)) [
  | inl high ↦ rw high (refl, refl)
  | inr plain ↦ elim (Bool-cases (eqb_ℤ old.role role_admin)) [
    | inl old_high ↦ rw (plain, old_high) (find_member-key ms new.doc_id new.uid old h)
    | inr low ↦ rw (plain, low) (refl, refl)
  ]
]

module _ (db : Db) (new : Member) (plain : eqb_ℤ new.role role_admin ≡ false) where
  pub upsert_direct_grant-SameTable : SameTable (upsert_direct_grant db new) db
  unfolding upsert_direct_grant commit
  upsert_direct_grant-SameTable = elim (Bool-cases (db.fails (Call.write_row new.doc_id new.uid))) [
    | inl broken ↦ rw broken tt
    | inr works ↦
        let found = find_member db.members new.doc_id new.uid in
        let (is_doc, is_uid) = upserted-key db.members new found refl in
        rw works (
          put_member-SameAdmins db.members (upserted found new)
            (upserted-admin found new plain ∙ sym (λ i. admin_in db.members (is_doc i) (is_uid i))))
  ]

  pub insert_absent-SameAdmins :
      (o : Option Member)
      → find_member db.members new.doc_id new.uid ≡ o
      → SameAdmins db.members (insert_absent o db new).1.members
  unfolding insert_absent commit
  insert_absent-SameAdmins none h =
      put_member-SameAdmins db.members new (rw plain (sym (ap if_admin h)))
  insert_absent-SameAdmins (some old) h = SameAdmins-refl db.members

pub delete_found-SameAdmins :
    (db db' : Db) (doc uid : String) (o : Option Member)
    → find_member db.members doc uid ≡ o
    → delete_found o db doc uid ≡ Deletion.finished db'
    → SameAdmins db.members db'.members
unfolding delete_found commit
delete_found-SameAdmins db db' doc uid none h done =
    let same : db ≡ db' = cc in
    subst (λ d. SameAdmins db.members d.members) same (SameAdmins-refl db.members)
delete_found-SameAdmins db db' doc uid (some m) h done =
    elim (Bool-cases (eqb_ℤ m.role role_admin)) [
      | inl high ↦
          let no : Deletion.admin_guard ≡ Deletion.finished db' = sym (rw high refl) ∙ done in
          absurd (cc)
      | inr low ↦
          let is : Deletion.finished (commit db doc (drop_member db.members doc uid))
              ≡ Deletion.finished db' =
            sym (rw low refl) ∙ done in
          let same : commit db doc (drop_member db.members doc uid) ≡ db' = cc in
          subst (λ d. SameAdmins db.members d.members) same
            (drop_member-SameAdmins db.members doc uid (ap if_admin h ∙ rw low refl))
    ]
