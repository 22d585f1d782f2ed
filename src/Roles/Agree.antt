-- ===== src/Roles/Agree.antt =====
-- The role encodings of internal/service agree.
use octo_docs_html_fork.Prelude.{
  ℕ, zero, suc, ap, ◌∙◌, String, false, ◌≡◌, refl, Option, none, some, ◌==◌, arith, if◌then◌else◌,
}
use octo_docs_html_fork.Prelude.Int.{ℤ, pos, negsuc, eqb_ℤ}
use octo_docs_html_fork.Roles.Capability.{
  Capability, at_least, role_admin, capability_for_doc_role, role_code_to_label, role_label_to_code,
  capability_of_code, capability_for_grant_role,
}

capability_of_code-not_manage :
    (o : Option ℤ) → at_least (capability_of_code o) Capability.cap_manage ≡ false
unfolding at_least capability_of_code capability_for_doc_role
capability_of_code-not_manage none = refl
capability_of_code-not_manage (some code) = ground arith

-- No label of a grant gives the right to manage.
pub grant_role-not_manage :
    (role : String) → at_least (capability_for_grant_role role) Capability.cap_manage ≡ false
unfolding capability_for_grant_role
grant_role-not_manage role = capability_of_code-not_manage (role_label_to_code role)

module _ (n : ℕ) where
  no_label : role_code_to_label (pos (suc (suc (suc (suc (suc n)))))) ≡ ""
  unfolding role_code_to_label
  no_label = ground arith

  no_capability :
      capability_for_doc_role (pos (suc (suc (suc (suc (suc n)))))) ≡ Capability.cap_none
  unfolding capability_for_doc_role
  no_capability = ground arith

-- The label under which a stored role is listed names that role again; a role without a label
-- names none.
pub label_to_code-code_to_label :
    (role : ℤ)
    → role_label_to_code (role_code_to_label role)
      ≡ (if role_code_to_label role == "" then none else some role)
unfolding role_label_to_code role_code_to_label
label_to_code-code_to_label (pos zero) = refl
label_to_code-code_to_label (pos (suc zero)) = refl
label_to_code-code_to_label (pos (suc (suc zero))) = refl
label_to_code-code_to_label (pos (suc (suc (suc zero)))) = refl
label_to_code-code_to_label (pos (suc (suc (suc (suc zero))))) = refl
label_to_code-code_to_label (pos (suc (suc (suc (suc (suc n)))))) =
    ap (λ s. role_label_to_code s) (no_label n) ∙ rw (no_label n) refl
label_to_code-code_to_label (negsuc n) = refl

-- The capability of the label under which a stored role is listed is that of the role, but for an
-- admin it is none.
pub grant_role-doc_role :
    (role : ℤ)
    → capability_for_grant_role (role_code_to_label role)
      ≡ (if eqb_ℤ role role_admin then Capability.cap_none else capability_for_doc_role role)
unfolding capability_for_grant_role role_code_to_label capability_for_doc_role role_label_to_code
    capability_of_code
grant_role-doc_role (pos zero) = refl
grant_role-doc_role (pos (suc zero)) = refl
grant_role-doc_role (pos (suc (suc zero))) = refl
grant_role-doc_role (pos (suc (suc (suc zero)))) = refl
grant_role-doc_role (pos (suc (suc (suc (suc zero))))) = refl
grant_role-doc_role (pos (suc (suc (suc (suc (suc n)))))) =
    ap (λ s. capability_for_grant_role s) (no_label n) ∙ rw (no_capability n) (ground arith)
grant_role-doc_role (negsuc n) = refl
