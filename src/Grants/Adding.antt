-- ===== src/Grants/Adding.antt =====
-- AddGrant leaves the admins' rows as they are (internal/service/grants.go).
use octo_docs_html_fork.Prelude.{
  String, false, ◌≡◌, refl, sym, ◌∙◌, subst, Option, none, some, List, [], ◌==◌, Bool-cases, inl,
  inr,
}
use octo_docs_html_fork.Prelude.Int.{ℤ, eqb_ℤ}
use octo_docs_html_fork.Storage.Meta.{DocMeta}
use octo_docs_html_fork.Storage.State.{Store}
use octo_docs_html_fork.Storage.Tables.{get_meta}
use octo_docs_html_fork.Roles.Capability.{
  role_admin, role_label_to_code, check_code, GrantCheck, check_grant,
}
use octo_docs_html_fork.Grants.Table.{
  Member, Db, upsert_direct_grant, doc_id_by_slug, role_by_doc_uid,
}
use octo_docs_html_fork.Grants.Service.{
  Fault, Auth, Request, is_creator, sweep_after, write_grant, add_grant_locked, add_registered,
  add_checked, add_wired, add_grant,
}
use octo_docs_html_fork.Grants.Admins.{
  SameAdmins, SameAdmins-refl, SameTable, upsert_direct_grant-SameTable,
}

abbrev pub rows_of : Option Db → List Member
rows_of none = []
rows_of (some db) = db.members

module _ (s : Store) (db : Db) (slug : String) where
  sweep_after-SameAdmins :
      (o : Option Db) (uid : String)
      → SameTable o db
      → SameAdmins db.members (rows_of (sweep_after o s db slug uid).1.mirror)
  unfolding sweep_after
  sweep_after-SameAdmins none uid h = SameAdmins-refl db.members
  sweep_after-SameAdmins (some db') uid h = h

  write_grant-SameAdmins :
      (o : Option (Option ℤ)) (new : Member)
      → eqb_ℤ new.role role_admin ≡ false
      → SameAdmins db.members (rows_of (write_grant o s db slug new).1.mirror)
  unfolding write_grant
  write_grant-SameAdmins none new plain = SameAdmins-refl db.members
  write_grant-SameAdmins (some none) new plain =
      sweep_after-SameAdmins (upsert_direct_grant db new) new.uid
        (upsert_direct_grant-SameTable db new plain)
  write_grant-SameAdmins (some (some role)) new plain = elim (Bool-cases (eqb_ℤ role role_admin)) [
    | inl high ↦ rw high (SameAdmins-refl db.members)
    | inr low ↦ elim (Bool-cases (eqb_ℤ role new.role)) [
      | inl same ↦
          rw (low, same) (sweep_after-SameAdmins (some db) new.uid (SameAdmins-refl db.members))
      | inr differ ↦
          rw (low, differ)
            (sweep_after-SameAdmins (upsert_direct_grant db new) new.uid
              (upsert_direct_grant-SameTable db new plain))
    ]
  ]

  add_registered-SameAdmins :
      (o : Option (Option String)) (q : Request)
      → eqb_ℤ q.code role_admin ≡ false
      → SameAdmins db.members (rows_of (add_registered o s db slug q).1.mirror)
  unfolding add_registered add_grant_locked
  add_registered-SameAdmins none q plain = SameAdmins-refl db.members
  add_registered-SameAdmins (some none) q plain = SameAdmins-refl db.members
  add_registered-SameAdmins (some (some doc)) q plain =
      write_grant-SameAdmins (role_by_doc_uid db doc q.uid) _ plain

  add_checked-SameAdmins :
      (o : Option (Option DocMeta)) (q : Request)
      → eqb_ℤ q.code role_admin ≡ false
      → SameAdmins db.members (rows_of (add_checked o s db slug q).1.mirror)
  unfolding add_checked
  add_checked-SameAdmins none q plain = SameAdmins-refl db.members
  add_checked-SameAdmins (some none) q plain = SameAdmins-refl db.members
  add_checked-SameAdmins (some (some m)) q plain = elim (Bool-cases (is_creator m q.uid)) [
    | inl creator ↦ rw creator (SameAdmins-refl db.members)
    | inr other ↦ rw other (add_registered-SameAdmins (doc_id_by_slug db slug) q plain)
  ]

pub check_grant-plain :
    (uid role : String) (code : ℤ)
    → check_grant uid role ≡ GrantCheck.granted code
    → eqb_ℤ code role_admin ≡ false
unfolding check_grant
check_grant-plain uid role code h = elim (Bool-cases (uid == "")) [
  | inl blank ↦
      absurd
        (let no : GrantCheck.uid_required ≡ GrantCheck.granted code = sym (rw blank refl) ∙ h in cc)
  | inr named ↦ go (role_label_to_code role) (sym (rw named refl) ∙ h)
]
  where
    go : (o : Option ℤ) → check_code o ≡ GrantCheck.granted code → eqb_ℤ code role_admin ≡ false
    go none is = absurd (cc)
    go (some c) is = elim (Bool-cases (eqb_ℤ c role_admin)) [
      | inl high ↦
          absurd
            (let no : GrantCheck.bad_role ≡ GrantCheck.granted code = sym (rw high refl) ∙ is in cc)
      | inr low ↦
          let same : GrantCheck.granted c ≡ GrantCheck.granted code = sym (rw low refl) ∙ is in
          let is_code : c ≡ code = cc in subst (λ x. eqb_ℤ x role_admin ≡ false) is_code low
    ]

pub add_grant-SameAdmins :
    (a : Auth) (slug uid role by now : String)
    → SameAdmins (rows_of a.mirror) (rows_of (add_grant a slug uid role by now).1.mirror)
unfolding add_grant
add_grant-SameAdmins a slug uid role by now = go (check_grant uid role) refl a.mirror refl
  where
    wired :
        (o : Option Db) (q : Request)
        → eqb_ℤ q.code role_admin ≡ false
        → SameAdmins (rows_of o) (rows_of (add_wired o a.store slug role q).1.mirror)
    wired none q plain = SameAdmins-refl []
    wired (some db) q plain = add_checked-SameAdmins a.store db slug (get_meta a.store slug) q plain

    go :
        (c : GrantCheck)
        → check_grant uid role ≡ c
        → (o : Option Db) → a.mirror ≡ o
        → SameAdmins (rows_of a.mirror) (
            rows_of
              (elim c as (λ _. Option Fault × Auth) [
                | GrantCheck.uid_required ↦ (some Fault.uid_required, a)
                | GrantCheck.bad_role ↦ (some Fault.bad_role, a)
                | GrantCheck.granted code ↦
                    add_wired a.mirror a.store slug role
                      (record { uid = uid; code = code; granted_by = by; now = now })
              ]).1.mirror)
    go GrantCheck.uid_required is o is_o = SameAdmins-refl (rows_of a.mirror)
    go GrantCheck.bad_role is o is_o = SameAdmins-refl (rows_of a.mirror)
    go (GrantCheck.granted code) is o is_o = wired a.mirror _ (check_grant-plain uid role code is)
