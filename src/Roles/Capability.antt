-- ===== src/Roles/Capability.antt =====
-- Capabilities and role encodings, of internal/service/capability.go, doc_member_mirror.go and
-- grants.go.
use octo_docs_html_fork.Prelude.{ℕ, String, Bool, Option, none, some, ◌==◌, leb, if◌then◌else◌}
use octo_docs_html_fork.Prelude.Int.{ℤ, pos, eqb_ℤ}

pub data Capability : Type 0 where
  cap_none cap_read cap_comment cap_edit cap_manage : Capability

-- iota
abbrev pub rank : Capability → ℕ
rank Capability.cap_none = 0
rank Capability.cap_read = 1
rank Capability.cap_comment = 2
rank Capability.cap_edit = 3
rank Capability.cap_manage = 4

unfoldable pub at_least : Capability → Capability → Bool
at_least c required = leb (rank required) (rank c)

abbrev pub role_reader : ℤ
role_reader = pos 1

abbrev pub role_writer : ℤ
role_writer = pos 2

abbrev pub role_admin : ℤ
role_admin = pos 3

abbrev pub role_commenter : ℤ
role_commenter = pos 4

unfoldable pub capability_for_doc_role : ℤ → Capability
capability_for_doc_role role =
    if eqb_ℤ role role_reader
    then Capability.cap_read
    else if eqb_ℤ role role_commenter
    then Capability.cap_comment
    else if eqb_ℤ role role_writer
    then Capability.cap_edit
    else if eqb_ℤ role role_admin
    then Capability.cap_manage
    else Capability.cap_none

unfoldable pub role_code_to_label : ℤ → String
role_code_to_label role =
    if eqb_ℤ role role_admin
    then "admin"
    else if eqb_ℤ role role_writer
    then "writer"
    else if eqb_ℤ role role_commenter
    then "commenter"
    else if eqb_ℤ role role_reader
    then "reader"
    else ""

unfoldable pub role_label_to_code : String → Option ℤ
role_label_to_code role =
    if role == "reader"
    then some role_reader
    else if role == "commenter"
    then some role_commenter
    else if role == "writer"
    then some role_writer
    else if role == "admin"
    then some role_admin
    else none

-- A code that is not the admin's maps to its capability, any other to none.
unfoldable pub capability_of_code : Option ℤ → Capability
unfolding capability_for_doc_role
capability_of_code none = Capability.cap_none
capability_of_code (some code) =
    if eqb_ℤ code role_admin then Capability.cap_none else capability_for_doc_role code

unfoldable pub capability_for_grant_role : String → Capability
unfolding capability_of_code role_label_to_code
capability_for_grant_role role = capability_of_code (role_label_to_code role)

pub data GrantCheck : Type 0 where
  uid_required : GrantCheck
  bad_role : GrantCheck
  granted : ℤ → GrantCheck

-- what AddGrant checks before it writes
unfoldable pub check_code : Option ℤ → GrantCheck
check_code none = GrantCheck.bad_role
check_code (some code) =
    if eqb_ℤ code role_admin then GrantCheck.bad_role else GrantCheck.granted code

unfoldable pub check_grant : String → String → GrantCheck
unfolding check_code role_label_to_code
check_grant uid role =
    if uid == "" then GrantCheck.uid_required else check_code (role_label_to_code role)
