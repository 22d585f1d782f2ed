-- ===== src/Access/Lookup.antt =====
-- RoleBySlugUID and IsOwner of internal/service/auth.go.
use octo_docs_html_fork.Prelude.{
  String, Bool, true, false, not, ◌&&◌, ◌||◌, Option, none, some, ◌==◌, if◌then◌else◌,
}
use octo_docs_html_fork.Prelude.Int.{ℤ}
use octo_docs_html_fork.Storage.State.{Session}
use octo_docs_html_fork.Grants.Table.{Db, doc_id_by_slug, role_by_doc_uid}
use octo_docs_html_fork.Grants.Service.{Auth}

-- The results of RoleBySlugUID: the role where ok=true, and docRegistered.
pub record RoleAnswer : Type 0 where
  pub role : Option ℤ
  pub registered : Bool

unfoldable pub role_answer : Option (Option ℤ) → Option RoleAnswer
role_answer none = none
role_answer (some role) = some (record { role = role; registered = true })

unfoldable pub role_registered : Option (Option String) → Db → String → Option RoleAnswer
unfolding role_answer role_by_doc_uid
role_registered none db uid = none
role_registered (some none) db uid = some (record { role = none; registered = false })
role_registered (some (some doc)) db uid = role_answer (role_by_doc_uid db doc uid)

unfoldable pub role_in_mirror : Option Db → String → String → Option RoleAnswer
unfolding role_registered doc_id_by_slug
role_in_mirror none slug uid = some (record { role = none; registered = false })
role_in_mirror (some db) slug uid =
    if uid == ""
    then some (record { role = none; registered = false })
    else role_registered (doc_id_by_slug db slug) db uid

-- RoleBySlugUID; `none` is an error of the database.
unfoldable pub role_by_slug_uid : Auth → String → String → Option RoleAnswer
unfolding role_in_mirror
role_by_slug_uid a slug uid = role_in_mirror a.mirror slug uid

unfoldable pub is_wired : Option Db → Bool
is_wired none = false
is_wired (some db) = true

-- DocMembersWired
unfoldable pub doc_members_wired : Auth → Bool
unfolding is_wired
doc_members_wired a = is_wired a.mirror

-- The configured owner's login, and strings.ToLower.
pub record Config : Type 0 where
  pub owner : String
  pub lower : String → String

unfoldable pub is_owner : Config → Session → Bool
is_owner cfg session =
    session.role == "superAdmin"
    || not (cfg.lower cfg.owner == "") && cfg.lower session.login == cfg.lower cfg.owner
