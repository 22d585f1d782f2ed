-- ===== src/Grants/Service.antt =====
-- AddGrant and RemoveGrant of internal/service/grants.go, over the store in memory. An
-- error is `some` fault, and `none` is Go's nil. A call runs alone here: what it does under the slug
-- lock stands in functions of its own, whose names end in `locked`.
use octo_docs_html_fork.Prelude.{String, Bool, not, ◌&&◌, Option, none, some, ◌==◌, if◌then◌else◌}
use octo_docs_html_fork.Prelude.Dict.{Dict, put, remove}
use octo_docs_html_fork.Prelude.Int.{ℤ, eqb_ℤ}
use octo_docs_html_fork.Storage.Value.{Value, Fields, field_at}
use octo_docs_html_fork.Storage.Meta.{DocMeta, extra_of, creator_uid, grants_of}
use octo_docs_html_fork.Storage.State.{Store}
use octo_docs_html_fork.Storage.Tables.{get_meta, put_meta}
use octo_docs_html_fork.Roles.Capability.{role_admin, role_code_to_label, GrantCheck, check_grant}
use octo_docs_html_fork.Grants.Table.{
  Member, Db, Deletion, doc_id_by_slug, role_by_doc_uid, upsert_direct_grant, delete_grant,
}

-- The errors of the service. `panicked` is a panic of the store, `db_failed` an error of the database.
pub data Fault : Type 0 where
  uid_required bad_role not_found grant_protected db_failed panicked : Fault

-- `mirror` is `none` where no mirror is wired.
pub record Auth : Type 0 where
  pub store : Store
  pub mirror : Option Db

-- creator != "" && creator == uid
unfoldable pub is_creator : DocMeta → String → Bool
unfolding creator_uid
is_creator m uid = not (creator_uid (some m) == "") && creator_uid (some m) == uid

unfoldable pub remove_field : Fields → String → Fields
remove_field Fields.no_fields k = Fields.no_fields
remove_field (Fields.field j v fs) k =
    let rest = remove_field fs k in if j == k then rest else Fields.field j v rest

unfoldable pub put_field : Fields → String → Value → Fields
put_field Fields.no_fields k v = Fields.field k v Fields.no_fields
put_field (Fields.field j w fs) k v =
    if j == k then Fields.field k v fs else Fields.field j w (put_field fs k v)

-- if len(grants) == 0 { delete(extra, GrantsExtraKey) } else { extra[GrantsExtraKey] = grants }
unfoldable pub with_grants : Dict Value → Fields → Dict Value
with_grants extra Fields.no_fields = remove extra "grants"
with_grants extra (Fields.field k v fs) = put extra "grants" (Value.object (Fields.field k v fs))

-- return s.meta.PutMeta(…)
unfoldable pub saved : Option Store → Store → Option Fault × Store
saved none s = (some Fault.panicked, s)
saved (some s') s = (none, s')

unfoldable pub save : Store → String → DocMeta → Dict Value → Option Fault × Store
unfolding put_meta saved
save s slug m extra = saved (put_meta s slug (record m { extra = some extra })) s

-- if _, has := existing[uid]; !has { return nil }
unfoldable pub drop_entry :
    Option Value → Fields → DocMeta → Store → String → String → Option Fault × Store
unfolding save with_grants remove_field
drop_entry none grants m s slug uid = (none, s)
drop_entry (some _) grants m s slug uid =
    save s slug m (with_grants (extra_of (some m)) (remove_field grants uid))

unfoldable pub drop_grant : Option Fields → DocMeta → Store → String → String → Option Fault × Store
unfolding drop_entry field_at
drop_grant none m s slug uid = (none, s)
drop_grant (some grants) m s slug uid = drop_entry (field_at grants uid) grants m s slug uid

unfoldable pub drop_from : Option (Option DocMeta) → Store → String → String → Option Fault × Store
unfolding drop_grant
drop_from none s slug uid = (some Fault.panicked, s)
drop_from (some none) s slug uid = (some Fault.not_found, s)
drop_from (some (some m)) s slug uid = drop_grant (grants_of (some m)) m s slug uid

-- removeGrantFromMetaLocked
unfoldable pub remove_grant_from_meta_locked : Store → String → String → Option Fault × Store
unfolding drop_from get_meta
remove_grant_from_meta_locked s slug uid = drop_from (get_meta s slug) s slug uid

abbrev pub grant_entry : String → String → String → Value
grant_entry role granted_by now = Value.object (
    Fields.field "role" (Value.text role) (
      Fields.field "granted_by" (Value.text granted_by)
        (Fields.field "created_at" (Value.text now) Fields.no_fields)))

-- the grants as they are, or none
unfoldable pub grants_or_none : Option Fields → Fields
grants_or_none none = Fields.no_fields
grants_or_none (some g) = g

unfoldable pub add_entry :
    Option (Option DocMeta) → Store → String → String → Value → Option Fault × Store
unfolding save grants_or_none put_field
add_entry none s slug uid entry = (some Fault.panicked, s)
add_entry (some none) s slug uid entry = (some Fault.not_found, s)
add_entry (some (some m)) s slug uid entry = save s slug m (
    put (extra_of (some m)) "grants"
      (Value.object (put_field (grants_or_none (grants_of (some m))) uid entry)))

-- addGrantToMeta, at time `now`
unfoldable pub add_grant_to_meta_locked : Store → String → String → Value → Option Fault × Store
unfolding add_entry get_meta
add_grant_to_meta_locked s slug uid entry = add_entry (get_meta s slug) s slug uid entry

abbrev pub with_store : Option Db → Option Fault × Store → Option Fault × Auth
with_store mirror r = (r.0, record { store = r.1; mirror = mirror })

-- the write of the row, and then the sweep of the metadata
unfoldable pub sweep_after : Option Db → Store → Db → String → String → Option Fault × Auth
unfolding remove_grant_from_meta_locked
sweep_after none s db slug uid = (some Fault.db_failed, record { store = s; mirror = some db })
sweep_after (some db') s db slug uid =
    with_store (some db') (remove_grant_from_meta_locked s slug uid)

-- `found` is the answer of RoleByDocUID.
unfoldable pub write_grant : Option (Option ℤ) → Store → Db → String → Member → Option Fault × Auth
unfolding sweep_after upsert_direct_grant
write_grant none s db slug new = (some Fault.db_failed, record { store = s; mirror = some db })
write_grant (some none) s db slug new = sweep_after (upsert_direct_grant db new) s db slug new.uid
write_grant (some (some role)) s db slug new =
    if eqb_ℤ role role_admin
    then (some Fault.grant_protected, record { store = s; mirror = some db })
    else if eqb_ℤ role new.role
    then sweep_after (some db) s db slug new.uid
    else sweep_after (upsert_direct_grant db new) s db slug new.uid

-- addGrantToDocMember, under the lock
unfoldable pub add_grant_locked : Store → Db → String → Member → Option Fault × Auth
unfolding write_grant role_by_doc_uid
add_grant_locked s db slug new = write_grant (role_by_doc_uid db new.doc_id new.uid) s db slug new

-- A grant that is asked for: the uid, the role's code, who grants it, and the time.
pub record Request : Type 0 where
  pub uid : String
  pub code : ℤ
  pub granted_by : String
  pub now : String

-- addGrantToDocMember, where DocIDBySlug has answered
unfoldable pub add_registered :
    Option (Option String) → Store → Db → String → Request → Option Fault × Auth
unfolding add_grant_locked add_grant_to_meta_locked role_code_to_label
add_registered none s db slug q = (some Fault.db_failed, record { store = s; mirror = some db })
add_registered (some none) s db slug q = with_store (some db) (
    add_grant_to_meta_locked s slug q.uid
      (grant_entry (role_code_to_label q.code) q.granted_by q.now))
add_registered (some (some doc)) s db slug q =
    add_grant_locked s db slug
      (record { doc_id = doc; uid = q.uid; role = q.code; granted_by = q.granted_by })

-- addGrantToDocMember, where GetMeta has answered
unfoldable pub add_checked :
    Option (Option DocMeta) → Store → Db → String → Request → Option Fault × Auth
unfolding add_registered is_creator doc_id_by_slug
add_checked none s db slug q = (some Fault.panicked, record { store = s; mirror = some db })
add_checked (some none) s db slug q = (some Fault.not_found, record { store = s; mirror = some db })
add_checked (some (some m)) s db slug q =
    if is_creator m q.uid
    then (some Fault.grant_protected, record { store = s; mirror = some db })
    else add_registered (doc_id_by_slug db slug) s db slug q

unfoldable pub add_wired : Option Db → Store → String → String → Request → Option Fault × Auth
unfolding add_checked add_grant_to_meta_locked get_meta
add_wired none s slug role q =
    with_store none (add_grant_to_meta_locked s slug q.uid (grant_entry role q.granted_by q.now))
add_wired (some db) s slug role q = add_checked (get_meta s slug) s db slug q

-- AddGrant, at time `now`
unfoldable pub add_grant : Auth → String → String → String → String → String → Option Fault × Auth
unfolding add_wired check_grant
add_grant a slug uid role granted_by now = elim (check_grant uid role) [
  | GrantCheck.uid_required ↦ (some Fault.uid_required, a)
  | GrantCheck.bad_role ↦ (some Fault.bad_role, a)
  | GrantCheck.granted code ↦
      add_wired a.mirror a.store slug role
        (record { uid = uid; code = code; granted_by = granted_by; now = now })
]

-- the outcome of DeleteGrant, as removeGrantFromDocMember reports it
unfoldable pub after_deletion : Deletion → Db → Option Fault × Db
after_deletion Deletion.broken db = (some Fault.db_failed, db)
after_deletion Deletion.admin_guard db = (some Fault.grant_protected, db)
after_deletion (Deletion.finished db') db = (none, db')

-- `found` is the answer of RoleByDocUID.
unfoldable pub delete_row : Option (Option ℤ) → Db → String → String → Option Fault × Db
unfolding after_deletion delete_grant
delete_row none db doc uid = (some Fault.db_failed, db)
delete_row (some none) db doc uid = (none, db)
delete_row (some (some role)) db doc uid =
    if eqb_ℤ role role_admin
    then (some Fault.grant_protected, db)
    else after_deletion (delete_grant db doc uid) db

unfoldable pub delete_registered : Option (Option String) → Db → String → Option Fault × Db
unfolding delete_row role_by_doc_uid
delete_registered none db uid = (some Fault.db_failed, db)
delete_registered (some none) db uid = (none, db)
delete_registered (some (some doc)) db uid = delete_row (role_by_doc_uid db doc uid) db doc uid

unfoldable pub remove_grant_from_doc_member : Db → String → String → Option Fault × Db
unfolding delete_registered doc_id_by_slug
remove_grant_from_doc_member db slug uid = delete_registered (doc_id_by_slug db slug) db uid

-- if err := …; err != nil { return err }, and the sweep of the metadata
unfoldable pub sweep_if : Option Fault → Db → Store → String → String → Option Fault × Auth
unfolding remove_grant_from_meta_locked
sweep_if (some fault) db s slug uid = (some fault, record { store = s; mirror = some db })
sweep_if none db s slug uid = with_store (some db) (remove_grant_from_meta_locked s slug uid)

-- RemoveGrant, under the lock
unfoldable pub remove_grant_locked : Option Db → Store → String → String → Option Fault × Auth
unfolding remove_grant_from_doc_member sweep_if remove_grant_from_meta_locked
remove_grant_locked none s slug uid = with_store none (remove_grant_from_meta_locked s slug uid)
remove_grant_locked (some db) s slug uid =
    let deleted = remove_grant_from_doc_member db slug uid in
    sweep_if deleted.0 deleted.1 s slug uid

-- RemoveGrant, where GetMeta has answered
unfoldable pub remove_checked :
    Option (Option DocMeta) → Auth → String → String → Option Fault × Auth
unfolding remove_grant_locked is_creator
remove_checked none a slug uid = (some Fault.panicked, a)
remove_checked (some none) a slug uid = (some Fault.not_found, a)
remove_checked (some (some m)) a slug uid =
    if is_creator m uid
    then (some Fault.grant_protected, a)
    else remove_grant_locked a.mirror a.store slug uid

unfoldable pub remove_grant : Auth → String → String → Option Fault × Auth
unfolding remove_checked get_meta
remove_grant a slug uid =
    if uid == ""
    then (some Fault.uid_required, a)
    else remove_checked (get_meta a.store slug) a slug uid
