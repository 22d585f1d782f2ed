-- ===== src/Examples/Sharing.antt =====
-- Examples of roles and share codes (internal/service).
use text.Mathlib.TextLemmas.{cons-ne-nil}
use octo_docs_html_fork.Prelude.{String, ◌≡◌, none, some, ◌==◌, arith, eq_iff, if◌then◌else◌}
use octo_docs_html_fork.Prelude.Int.{pos}
use octo_docs_html_fork.Storage.Meta.{DocMeta}
use octo_docs_html_fork.Roles.Capability.{
  Capability, capability_for_doc_role, role_code_to_label, capability_for_grant_role,
}
use octo_docs_html_fork.Roles.Share.{capability_for, generate_code, revoke_code}
use octo_docs_html_fork.Roles.Agree.{grant_role-doc_role}
use octo_docs_html_fork.Roles.Codes.{capability_for-generate_code, capability_for-revoke_code}

abbrev plain_meta : DocMeta
plain_meta = record { slug = "a"; title = "A"; versions = none; extra = none }

-- A hash that is never empty.
abbrev tagged : String → String
tagged s = String.◌∷◌ "#" s

grant_role-doc_role_example :
    capability_for_grant_role (role_code_to_label (pos 4)) ≡ Capability.cap_comment
unfolding capability_for_doc_role
grant_role-doc_role_example = grant_role-doc_role (pos 4)

capability_for-generate_code_example :
    capability_for tagged (generate_code tagged (some plain_meta) "open" "t0") "open"
    ≡ (if tagged "open" == tagged "open" then Capability.cap_read else Capability.cap_none)
capability_for-generate_code_example =
    capability_for-generate_code tagged plain_meta "open" "t0" "open" (λ s. cons-ne-nil "#" s)
      (ground (arith, eq_iff "open" ""))

capability_for-revoke_code_example :
    capability_for tagged (revoke_code (generate_code tagged (some plain_meta) "open" "t0")) "open"
    ≡ Capability.cap_none
capability_for-revoke_code_example =
    capability_for-revoke_code tagged (generate_code tagged (some plain_meta) "open" "t0") "open"
