-- ===== src/Access/Adding.antt =====
-- AddGrant (internal/service/grants.go) on its branches, as the member tier of
-- internal/transport/httpx/capability.go sees it.
use octo_docs_html_fork.Prelude.{
  String, false, ◌≡◌, refl, sym, ap, ◌∙◌, subst, Option, none, some, ◌==◌, eq_iff, Bool-cases, inl,
  inr, if_either, if_split, if◌then◌else◌,
}
use octo_docs_html_fork.Prelude.Int.{ℤ, eqb_ℤ}
use octo_docs_html_fork.Storage.Meta.{DocMeta}
use octo_docs_html_fork.Storage.Tables.{get_meta}
use octo_docs_html_fork.Roles.Capability.{
  role_reader, role_commenter, role_writer, role_admin, role_label_to_code, role_code_to_label,
  capability_of_code, capability_for_grant_role, capability_for_doc_role, GrantCheck, check_code,
  check_grant,
}
use octo_docs_html_fork.Grants.Table.{Db, doc_id_by_slug, role_by_doc_uid}
use octo_docs_html_fork.Grants.Service.{
  Fault, Auth, Request, is_creator, grant_entry, add_grant_to_meta_locked, add_grant_locked,
  add_registered, add_checked, add_wired, add_grant,
}
use octo_docs_html_fork.Access.Lookup.{role_in_mirror}
use octo_docs_html_fork.Access.Cleared.{mirror_answer, if_unregistered}
use octo_docs_html_fork.Access.Given.{write_grant-IsGrantedRow}
use octo_docs_html_fork.Access.Granted.{IsGranted, legacy-IsGranted, row-IsGranted}

-- What AddGrant has checked before it writes.
record IsChecked (uid role : String) (code : ℤ) : Type 0 where
  named : (uid == "") ≡ false
  label : role_label_to_code role ≡ some code
  plain : eqb_ℤ code role_admin ≡ false

check_code-granted :
    (o : Option ℤ) (code : ℤ)
    → check_code o ≡ GrantCheck.granted code
    → (o ≡ some code) × (eqb_ℤ code role_admin ≡ false)
unfolding check_code
check_code-granted none code h = absurd (cc)
check_code-granted (some c) code h = elim (Bool-cases (eqb_ℤ c role_admin)) [
  | inl high ↦
      absurd (let no : GrantCheck.bad_role ≡ GrantCheck.granted code = sym (rw high refl) ∙ h in cc)
  | inr low ↦
      let is : GrantCheck.granted c ≡ GrantCheck.granted code = sym (rw low refl) ∙ h in
      let same : c ≡ code = cc in (ap some same, subst (λ x. eqb_ℤ x role_admin ≡ false) same low)
]

check_grant-IsChecked :
    (uid role : String) (code : ℤ)
    → check_grant uid role ≡ GrantCheck.granted code
    → IsChecked uid role code
unfolding check_grant
check_grant-IsChecked uid role code h = elim (Bool-cases (uid == "")) [
  | inl blank ↦
      absurd
        (let no : GrantCheck.uid_required ≡ GrantCheck.granted code = sym (rw blank refl) ∙ h in cc)
  | inr named ↦
      let (label, plain) =
        check_code-granted (role_label_to_code role) code (sym (rw named refl) ∙ h) in
      record { named = named; label = label; plain = plain }
]

-- the label of a code that a label names
code_to_label-label_to_code :
    (role : String) (code : ℤ)
    → role_label_to_code role ≡ some code
    → role_code_to_label code ≡ role
unfolding role_label_to_code role_code_to_label
code_to_label-label_to_code role code = step "reader" role_reader refl (
    step "commenter" role_commenter refl
      (step "writer" role_writer refl (step "admin" role_admin refl (λ no. absurd (cc)))))
  where
    Names : Option ℤ → Type 0
    Names o = o ≡ some code → role_code_to_label code ≡ role

    step :
        (label : String) (c : ℤ)
        → role_code_to_label c ≡ label
        → {rest : Option ℤ} → Names rest
        → Names (if role == label then some c else rest)
    step label c is rest =
        if_split Names (role == label)
          (λ same found.
            let is_code : c ≡ code = cc in
            sym (ap role_code_to_label is_code) ∙ is ∙ sym ((eq_iff role label).0 same))
          (λ differ. rest)

IsChecked-capability :
    {uid role : String} {code : ℤ}
    → IsChecked uid role code
    → capability_for_doc_role code ≡ capability_for_grant_role role
unfolding capability_for_grant_role capability_of_code
IsChecked-capability ok = sym (ap capability_of_code ok.label ∙ rw ok.plain refl)

module _ (a : Auth) (slug uid role by now : String) where
  abbrev Grants : Option Fault × Auth → Type 0
  Grants r = r.0 ≡ none → IsGranted a r.1 slug uid role

  module _ (code : ℤ) (ok : IsChecked uid role code) (db : Db) (wired : a.mirror ≡ some db) where
    abbrev asked : Request
    asked = record { uid = uid; code = code; granted_by = by; now = now }

    registered :
        (o : Option (Option String))
        → doc_id_by_slug db slug ≡ o
        → Grants (add_registered o a.store db slug asked)
    unfolding add_registered add_grant_locked role_in_mirror
    registered none h done = absurd (cc)
    registered (some none) h done =
        let same : role_code_to_label code ≡ role =
          code_to_label-label_to_code role code ok.label in
        subst
          (λ label.
            (add_grant_to_meta_locked a.store slug uid (grant_entry label by now)).0 ≡ none
            → IsGranted a
                (record {
                  store = (add_grant_to_meta_locked a.store slug uid (grant_entry label by now)).1;
                  mirror = some db;
                })
                slug uid role)
          (sym same)
          (legacy-IsGranted a slug uid ok.named (some db) role by now wired
            (mirror_answer db slug uid (some none) h ∙ if_unregistered (uid == "")))
          done
    registered (some (some doc)) h done =
        row-IsGranted a slug uid ok.named db role code _ wired (IsChecked-capability ok) (
          write_grant-IsGrantedRow a.store db slug
            (record { doc_id = doc; uid = uid; role = code; granted_by = by }) h ok.named
            (role_by_doc_uid db doc uid) refl done)

    checked : (o : Option (Option DocMeta)) → Grants (add_checked o a.store db slug asked)
    unfolding add_checked
    checked none done = absurd (cc)
    checked (some none) done = absurd (cc)
    checked (some (some m)) done =
        if_either Grants (is_creator m uid) (λ refused. absurd (cc))
          (registered (doc_id_by_slug db slug) refl) done

  wired_or_not :
      (code : ℤ)
      → IsChecked uid role code
      → (o : Option Db) → a.mirror ≡ o
      → Grants (
          add_wired o a.store slug role
            (record { uid = uid; code = code; granted_by = by; now = now }))
  unfolding add_wired role_in_mirror
  wired_or_not code ok none is done =
      legacy-IsGranted a slug uid ok.named none role by now is refl done
  wired_or_not code ok (some db) is done = checked code ok db is (get_meta a.store slug) done

-- After AddGrant has succeeded, whether a mirror is wired and the document registered or not, a
-- session of the uid that has no other right has that of the role in the member tier: no more,
-- whatever the uid had before, and no less. The row and the grant in the metadata of every other
-- uid are as before.
pub add_grant-IsGranted :
    (a : Auth) (slug uid role by now : String)
    → (add_grant a slug uid role by now).0 ≡ none
    → IsGranted a (add_grant a slug uid role by now).1 slug uid role
unfolding add_grant
add_grant-IsGranted a slug uid role by now = go (check_grant uid role) refl
  where
    go :
        (c : GrantCheck)
        → check_grant uid role ≡ c
        → Grants a slug uid role by now (elim c as (λ _. Option Fault × Auth) [
          | GrantCheck.uid_required ↦ (some Fault.uid_required, a)
          | GrantCheck.bad_role ↦ (some Fault.bad_role, a)
          | GrantCheck.granted code ↦
              add_wired a.mirror a.store slug role
                (record { uid = uid; code = code; granted_by = by; now = now })
        ])
    go GrantCheck.uid_required is done = absurd (cc)
    go GrantCheck.bad_role is done = absurd (cc)
    go (GrantCheck.granted code) is done =
        wired_or_not a slug uid role by now code (check_grant-IsChecked uid role code is) a.mirror
          refl done
