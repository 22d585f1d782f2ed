-- ===== src/Grants/Table.antt =====
-- The tables that internal/service/doc_member_mirror.go reads and writes, and its methods. A method is
-- one transaction or one query. Which calls the database answers with an error is a part of the state:
-- such a call changes nothing, for each error is followed by a rollback. The rows of doc_member stand
-- in the order of their creation.
use octo_docs_html_fork.Prelude.{
  ℕ, ◌+◌, String, Bool, true, false, not, ◌&&◌, Option, none, some, List, [], ◌∷◌, ◌==◌, eqb,
  if◌then◌else◌,
}
use octo_docs_html_fork.Prelude.Int.{ℤ, eqb_ℤ}
use octo_docs_html_fork.Roles.Capability.{role_admin}

-- a row of doc_member
pub record Member : Type 0 where
  pub doc_id : String
  pub uid : String
  pub role : ℤ
  pub granted_by : String

-- a row of doc_meta
pub record DocRow : Type 0 where
  pub doc_id : String
  pub slug : String
  pub status : ℕ
  pub epoch : ℕ

-- what a call asks of the database
pub data Call : Type 0 where
  find_doc : String → Call
  read_role : String → String → Call
  read_members : String → Call
  write_row : String → String → Call

pub record Db : Type 0 where
  pub docs : List DocRow
  pub members : List Member
  pub fails : Call → Bool

-- WHERE doc_id=? AND uid=?
abbrev pub is_at : Member → String → String → Bool
is_at m doc uid = m.doc_id == doc && m.uid == uid

unfoldable pub find_member : List Member → String → String → Option Member
find_member [] doc uid = none
find_member (m ∷ ms) doc uid = if is_at m doc uid then some m else find_member ms doc uid

-- INSERT, and the row that replaces one with the same key
unfoldable pub put_member : List Member → Member → List Member
put_member [] new = new ∷ []
put_member (m ∷ ms) new = if is_at m new.doc_id new.uid then new ∷ ms else m ∷ put_member ms new

unfoldable pub drop_member : List Member → String → String → List Member
drop_member [] doc uid = []
drop_member (m ∷ ms) doc uid =
    let rest = drop_member ms doc uid in if is_at m doc uid then rest else m ∷ rest

-- permission_epoch=permission_epoch+1
unfoldable pub bump_epoch : List DocRow → String → List DocRow
bump_epoch [] doc = []
bump_epoch (d ∷ ds) doc =
    (if d.doc_id == doc then record d { epoch = d.epoch + 1 } else d) ∷ bump_epoch ds doc

-- octo_doc_slug=? AND status<>0 LIMIT 1
unfoldable pub find_doc_id : List DocRow → String → Option String
find_doc_id [] slug = none
find_doc_id (d ∷ ds) slug =
    if d.slug == slug && not (eqb d.status 0) then some d.doc_id else find_doc_id ds slug

-- The outer `none` is an error of the database, the inner one ok=false.
unfoldable pub doc_id_by_slug : Db → String → Option (Option String)
unfolding find_doc_id
doc_id_by_slug db slug =
    if db.fails (Call.find_doc slug) then none else some (find_doc_id db.docs slug)

unfoldable pub role_of : Option Member → Option ℤ
role_of none = none
role_of (some m) = some m.role

unfoldable pub role_by_doc_uid : Db → String → String → Option (Option ℤ)
unfolding find_member role_of
role_by_doc_uid db doc uid =
    if db.fails (Call.read_role doc uid)
    then none
    else some (role_of (find_member db.members doc uid))

unfoldable pub members_of : List Member → String → List Member
members_of [] doc = []
members_of (m ∷ ms) doc = let rest = members_of ms doc in if m.doc_id == doc then m ∷ rest else rest

unfoldable pub list_members : Db → String → Option (List Member)
unfolding members_of
list_members db doc =
    if db.fails (Call.read_members doc) then none else some (members_of db.members doc)

-- The row that ON DUPLICATE KEY UPDATE leaves. An admin row stays, unless an admin is written.
unfoldable pub upserted : Option Member → Member → Member
upserted none new = new
upserted (some old) new =
    if eqb_ℤ new.role role_admin then new else if eqb_ℤ old.role role_admin then old else new

-- the writes of a transaction that commits
unfoldable pub commit : Db → String → List Member → Db
unfolding bump_epoch
commit db doc ms = record db { docs = bump_epoch db.docs doc; members = ms }

-- `none` is an error of the database, here and below.
unfoldable pub upsert_direct_grant : Db → Member → Option Db
unfolding find_member put_member upserted commit
upsert_direct_grant db new =
    if db.fails (Call.write_row new.doc_id new.uid)
    then none
    else some (
        commit db new.doc_id
          (put_member db.members (upserted (find_member db.members new.doc_id new.uid) new)))

unfoldable pub insert_absent : Option Member → Db → Member → Bool × Db
unfolding put_member commit
insert_absent (some old) db new = (false, db)
insert_absent none db new = (true, commit db new.doc_id (put_member db.members new))

unfoldable pub insert_direct_grant_if_absent : Db → Member → Option (Bool × Db)
unfolding find_member insert_absent
insert_direct_grant_if_absent db new =
    if db.fails (Call.write_row new.doc_id new.uid)
    then none
    else some (insert_absent (find_member db.members new.doc_id new.uid) db new)

-- the outcome of DeleteGrant
pub data Deletion : Type 0 where
  broken admin_guard : Deletion
  finished : Db → Deletion

-- The DELETE leaves an admin row, which the probe after it finds.
unfoldable pub delete_found : Option Member → Db → String → String → Deletion
unfolding drop_member commit
delete_found none db doc uid = Deletion.finished db
delete_found (some m) db doc uid =
    if eqb_ℤ m.role role_admin
    then Deletion.admin_guard
    else Deletion.finished (commit db doc (drop_member db.members doc uid))

unfoldable pub delete_grant : Db → String → String → Deletion
unfolding find_member delete_found
delete_grant db doc uid =
    if db.fails (Call.write_row doc uid)
    then Deletion.broken
    else delete_found (find_member db.members doc uid) db doc uid
