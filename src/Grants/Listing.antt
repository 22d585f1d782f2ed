-- ===== src/Grants/Listing.antt =====
-- ListGrants of internal/service/grants.go.
use octo_docs_html_fork.Prelude.{String, Option, none, some, List, [], ◌∷◌, ◌==◌, if◌then◌else◌}
use octo_docs_html_fork.Prelude.Dict.{Dict, put}
use octo_docs_html_fork.Storage.Value.{Value, Fields, field_at, as_text, as_object}
use octo_docs_html_fork.Storage.Meta.{DocMeta, grants_of}
use octo_docs_html_fork.Storage.Tables.{get_meta}
use octo_docs_html_fork.Roles.Capability.{role_code_to_label}
use octo_docs_html_fork.Grants.Table.{Member, Db, doc_id_by_slug, list_members}
use octo_docs_html_fork.Grants.Service.{Fault, Auth, is_creator}

-- the role of an entry that has one, as a text
unfoldable pub entry_role : Value → Option String
unfolding as_object as_text field_at
entry_role v = elim (as_object v) [
  | none ↦ none
  | some entry ↦ elim (field_at entry "role") [ none ↦ none | some r ↦ as_text r ]
]

-- out[uid] = role, where there is a role
unfoldable pub list_entry : Option String → Dict String → String → Dict String
list_entry none out uid = out
list_entry (some role) out uid = put out uid role

unfoldable pub list_entries : Fields → DocMeta → Dict String → Dict String
unfolding is_creator list_entry entry_role
list_entries Fields.no_fields m out = out
list_entries (Fields.field uid v fs) m out =
    list_entries fs m (if is_creator m uid then out else list_entry (entry_role v) out uid)

unfoldable pub legacy_list_grants_from_meta : DocMeta → Dict String
unfolding list_entries grants_of
legacy_list_grants_from_meta m = elim (grants_of (some m)) [
  | none ↦ []
  | some g ↦ list_entries g m []
]

-- out[m.UID] = label, where there is a label
unfoldable pub list_rows : List Member → DocMeta → Dict String → Dict String
unfolding is_creator role_code_to_label
list_rows [] m out = out
list_rows (r ∷ rs) m out = list_rows rs m (
    if is_creator m r.uid
    then out
    else if role_code_to_label r.role == ""
    then out
    else put out r.uid (role_code_to_label r.role))

pub data Listing : Type 0 where
  refused : Fault → Listing
  grants : Dict String → Listing

unfoldable pub list_registered : Option (Option String) → Db → DocMeta → Listing
unfolding list_members list_rows legacy_list_grants_from_meta
list_registered none db m = Listing.refused Fault.db_failed
list_registered (some none) db m = Listing.grants (legacy_list_grants_from_meta m)
list_registered (some (some doc)) db m = elim (list_members db doc) [
  | none ↦ Listing.refused Fault.db_failed
  | some rows ↦ Listing.grants (list_rows rows m [])
]

unfoldable pub list_found : Option (Option DocMeta) → Option Db → String → Listing
unfolding list_registered doc_id_by_slug legacy_list_grants_from_meta
list_found none mirror slug = Listing.refused Fault.panicked
list_found (some none) mirror slug = Listing.refused Fault.not_found
list_found (some (some m)) none slug = Listing.grants (legacy_list_grants_from_meta m)
list_found (some (some m)) (some db) slug = list_registered (doc_id_by_slug db slug) db m

unfoldable pub list_grants : Auth → String → Listing
unfolding list_found get_meta
list_grants a slug = list_found (get_meta a.store slug) a.mirror slug
