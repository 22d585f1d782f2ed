-- ===== src/Grants/Migration.antt =====
-- ReconcileMetaGrantsToDocMember of internal/service/grants.go: the grants in the metadata of a
-- document that has been registered move to doc_member. The entries are taken in the order of the
-- object's fields, where Go ranges over a map in no fixed order.
use octo_docs_html_fork.Prelude.{
  ℕ, suc, String, Bool, true, false, ◌||◌, Option, none, some, List, [], ◌∷◌, ◌==◌, eqb, is_empty,
  contains, if◌then◌else◌,
}
use octo_docs_html_fork.Prelude.Int.{ℤ, eqb_ℤ}
use octo_docs_html_fork.Storage.Value.{Value, Fields, field_at, as_object}
use octo_docs_html_fork.Storage.Meta.{DocMeta, extra_of, text_or_empty, grants_of}
use octo_docs_html_fork.Storage.State.{Store}
use octo_docs_html_fork.Storage.Tables.{get_meta}
use octo_docs_html_fork.Roles.Capability.{role_admin, role_label_to_code}
use octo_docs_html_fork.Grants.Table.{Member, Db, doc_id_by_slug, insert_direct_grant_if_absent}
use octo_docs_html_fork.Grants.Service.{Fault, Auth, is_creator, with_grants, save, with_store}

unfoldable pub or_default : String → String
or_default by = if by == "" then "reconcile_afterpublished" else by

-- the row that an entry asks for, where it is not an admin's
unfoldable pub row_for : Option ℤ → Fields → String → String → Option Member
unfolding or_default text_or_empty field_at
row_for none entry doc uid = none
row_for (some code) entry doc uid =
    if eqb_ℤ code role_admin
    then none
    else some (record {
      doc_id = doc;
      uid = uid;
      role = code;
      granted_by = or_default (text_or_empty (field_at entry "granted_by"));
    })

unfoldable pub restorable : Option Fields → String → String → Option Member
unfolding row_for role_label_to_code text_or_empty field_at
restorable none doc uid = none
restorable (some entry) doc uid =
    row_for (role_label_to_code (text_or_empty (field_at entry "role"))) entry doc uid

-- Whether the entry is consumed; one whose insert reports an error is kept for a retry.
unfoldable pub inserted : Option (Bool × Db) → Db → Bool × Db
inserted none db = (false, db)
inserted (some (fresh, db')) db = (true, db')

unfoldable pub restore : Option Member → Db → Bool × Db
unfolding inserted insert_direct_grant_if_absent
restore none db = (true, db)
restore (some new) db = inserted (insert_direct_grant_if_absent db new) db

unfoldable pub migrate_entry : String → Value → DocMeta → String → Db → Bool × Db
unfolding restore restorable as_object is_creator
migrate_entry uid v m doc db =
    if uid == "" || is_creator m uid
    then (false, db)
    else restore (restorable (as_object v) doc uid) db

-- the uids whose entries are consumed, and the tables
unfoldable pub migrate_all : Fields → DocMeta → String → Db → List String × Db
unfolding migrate_entry
migrate_all Fields.no_fields m doc db = ([], db)
migrate_all (Fields.field uid v fs) m doc db =
    let step = migrate_entry uid v m doc db in
    let rest = migrate_all fs m doc step.1 in (if step.0 then uid ∷ rest.0 else rest.0, rest.1)

unfoldable pub without_uids : Fields → List String → Fields
without_uids Fields.no_fields uids = Fields.no_fields
without_uids (Fields.field uid v fs) uids =
    let rest = without_uids fs uids in if contains uid uids then rest else Fields.field uid v rest

unfoldable pub field_count : Fields → ℕ
field_count Fields.no_fields = 0
field_count (Fields.field uid v fs) = suc (field_count fs)

-- len(grants) == len(existing)
unfoldable pub clear_in :
    Option Fields → DocMeta → Store → String → List String → Option Fault × Store
unfolding save with_grants without_uids field_count
clear_in none m s slug uids = (none, s)
clear_in (some g) m s slug uids =
    let left = without_uids g uids in
    if eqb (field_count left) (field_count g)
    then (none, s)
    else save s slug m (with_grants (extra_of (some m)) left)

unfoldable pub clear_from :
    Option (Option DocMeta) → Store → String → List String → Option Fault × Store
unfolding clear_in
clear_from none s slug uids = (some Fault.panicked, s)
clear_from (some none) s slug uids = (none, s)
clear_from (some (some m)) s slug uids = clear_in (grants_of (some m)) m s slug uids

-- clearConsumedMetaGrantsLocked
unfoldable pub clear_consumed_meta_grants_locked :
    Store → String → List String → Option Fault × Store
unfolding clear_from get_meta
clear_consumed_meta_grants_locked s slug uids = clear_from (get_meta s slug) s slug uids

unfoldable pub clear_if : List String × Db → Store → String → Option Fault × Auth
unfolding clear_consumed_meta_grants_locked
clear_if (uids, db) s slug =
    if is_empty uids
    then (none, record { store = s; mirror = some db })
    else with_store (some db) (clear_consumed_meta_grants_locked s slug uids)

unfoldable pub migrate_in :
    Option Fields → DocMeta → Store → Db → String → String → Option Fault × Auth
unfolding clear_if migrate_all
migrate_in none m s db slug doc = (none, record { store = s; mirror = some db })
migrate_in (some g) m s db slug doc = clear_if (migrate_all g m doc db) s slug

unfoldable pub migrate_registered :
    Option (Option String) → DocMeta → Store → Db → String → Option Fault × Auth
unfolding migrate_in grants_of
migrate_registered none m s db slug = (some Fault.db_failed, record { store = s; mirror = some db })
migrate_registered (some none) m s db slug = (none, record { store = s; mirror = some db })
migrate_registered (some (some doc)) m s db slug = migrate_in (grants_of (some m)) m s db slug doc

unfoldable pub migrate_found : Option (Option DocMeta) → Store → Db → String → Option Fault × Auth
unfolding migrate_registered doc_id_by_slug
migrate_found none s db slug = (some Fault.panicked, record { store = s; mirror = some db })
migrate_found (some none) s db slug = (none, record { store = s; mirror = some db })
migrate_found (some (some m)) s db slug = migrate_registered (doc_id_by_slug db slug) m s db slug

unfoldable pub reconcile_wired : Option Db → Store → String → Option Fault × Auth
unfolding migrate_found get_meta
reconcile_wired none s slug = (none, record { store = s; mirror = none })
reconcile_wired (some db) s slug = migrate_found (get_meta s slug) s db slug

unfoldable pub reconcile_meta_grants : Auth → String → Option Fault × Auth
unfolding reconcile_wired
reconcile_meta_grants a slug = reconcile_wired a.mirror a.store slug
