-- ===== src/Docs/Mount.antt =====
-- What a write inherits from the document that is there (internal/service/doc.go): restoreLegacyMount
-- and restoreMountContext.
use octo_docs_html_fork.Prelude.{
  String, Bool, true, false, not, ◌&&◌, ◌||◌, Option, none, some, ◌==◌, if◌then◌else◌,
}
use octo_docs_html_fork.Reconcile.Text.{CaseTable}
use octo_docs_html_fork.Storage.Meta.{
  DocMeta, Provenance, publish_provenance, mount_type, creator_uid,
}
use octo_docs_html_fork.Docs.Input.{
  Fault, Attempt, PublishInput, trim_space, valid_space_id, normalize_mount_type,
  inferred_legacy_mount,
}

-- switch in.MountType
unfoldable pub place : PublishInput → String → String → PublishInput
place input group_no thread_id =
    if input.mount_type == "group"
    then record input {
      group_no = if input.group_no == "" then group_no else input.group_no;
      thread_id = "";
    }
    else if input.mount_type == "thread"
    then record input {
      thread_id = if input.thread_id == "" then thread_id else input.thread_id;
      group_no = "";
    }
    else record input { group_no = ""; thread_id = "" }

unfoldable pub legacy_mounted : PublishInput → Bool → String → String → String → PublishInput
unfolding place
legacy_mounted input has_mount group_no thread_id normalized =
    let request_known = input.mount_context_known || input.mount_type_present in
    let mount =
      if input.mount_type == "" && (not request_known || (has_mount && not (normalized == "")))
      then normalized
      else input.mount_type in
    record (place (record input { mount_type = mount }) group_no thread_id) {
      mount_context_known = request_known || has_mount || not (normalized == "");
    }

-- `normalized` is what normalizeMountType has made of the mount that is there.
unfoldable pub with_legacy :
    Attempt String → PublishInput → Bool → String → String → Attempt PublishInput
unfolding legacy_mounted inferred_legacy_mount
with_legacy (Attempt.failed fault) input has_mount group_no thread_id = Attempt.failed fault
with_legacy (Attempt.done normalized) input has_mount group_no thread_id = Attempt.done (
    legacy_mounted input has_mount group_no thread_id (
      if not has_mount && normalized == ""
      then inferred_legacy_mount false "" group_no thread_id
      else normalized))

unfoldable pub restore_legacy_mount :
    CaseTable → PublishInput → String → Bool → String → String → Attempt PublishInput
unfolding with_legacy normalize_mount_type
restore_legacy_mount u input existing_mount has_mount group_no thread_id =
    with_legacy
      (if input.mount_type == "" then normalize_mount_type u existing_mount else Attempt.done "")
      input has_mount group_no thread_id

-- in.CreatorUID = creator, unless it is empty
unfoldable pub with_creator : Attempt PublishInput → String → Attempt PublishInput
with_creator (Attempt.failed fault) creator = Attempt.failed fault
with_creator (Attempt.done input) creator =
    Attempt.done (if creator == "" then input else record input { creator_uid = creator })

-- the last assignments of restoreMountContext
unfoldable pub inherit : PublishInput → Provenance → String → PublishInput
inherit input p creator = record input {
  user_publish = p.user_publish;
  space_id = p.space_id;
  group_no = if p.group_no == "" then input.group_no else p.group_no;
  thread_id = if p.thread_id == "" then input.thread_id else p.thread_id;
  creator_uid = creator;
}

unfoldable pub conflicts : String → String → Bool
conflicts asked there = not (asked == "") && not (asked == there)

-- where there is a mount, once it is normalized
unfoldable pub restore_mounted :
    Attempt String → PublishInput → Provenance → String → Attempt PublishInput
unfolding conflicts inherit
restore_mounted (Attempt.failed fault) input p creator = Attempt.failed fault
restore_mounted (Attempt.done normalized) input p creator =
    if not (normalized == "") && input.mount_context_known && conflicts input.mount_type normalized
    then Attempt.failed Fault.mount_conflict
    else if conflicts input.group_no p.group_no || conflicts input.thread_id p.thread_id
    then Attempt.failed Fault.mount_conflict
    else Attempt.done (
        inherit
          (record input {
            mount_type =
                if not (normalized == "") || input.mount_type == ""
                then normalized
                else input.mount_type;
            mount_context_known = true;
          })
          p creator)

-- A document that a user has published, or one whose provenance is completed.
unfoldable pub restore_user :
    CaseTable → PublishInput → Provenance → String × Bool → String → Attempt PublishInput
unfolding valid_space_id inferred_legacy_mount conflicts restore_mounted normalize_mount_type
    inherit
restore_user u input p (mount, has_mount) creator =
    let existing =
      if has_mount
      then mount
      else inferred_legacy_mount p.user_publish p.space_id p.group_no p.thread_id in
    if creator == "" || not (valid_space_id p.space_id)
    then Attempt.failed Fault.provenance_conflict
    else if not (p.space_id == "") && conflicts input.space_id p.space_id
    then Attempt.failed Fault.space_conflict
    else if has_mount || not (existing == "")
    then restore_mounted (normalize_mount_type u existing) input p creator
    else Attempt.done (inherit input p creator)

-- Metadata that lacks the provenance of a mount is completed by the request.
unfoldable pub completed : PublishInput → Provenance → Provenance
completed input p =
    if not p.user_publish
      && p.space_id == ""
      && (not (input.mount_type == "") || not (input.space_id == ""))
    then record p { user_publish = input.user_publish; space_id = input.space_id }
    else p

unfoldable pub restore_as : CaseTable → PublishInput → DocMeta → Provenance → Attempt PublishInput
unfolding restore_user restore_legacy_mount with_creator trim_space creator_uid mount_type
restore_as u input m p =
    let mount = mount_type (some m) in
    if p.user_publish
    then restore_user u input p mount (trim_space (creator_uid (some m)))
    else with_creator (restore_legacy_mount u input mount.0 mount.1 p.group_no p.thread_id)
        (creator_uid (some m))

-- restoreMountContext, where GetMeta and slugExists have answered
unfoldable pub restore_mount_context :
    CaseTable → Option DocMeta → Bool → PublishInput → Attempt PublishInput
unfolding restore_as completed publish_provenance
restore_mount_context u none exists input =
    if exists && input.user_publish
    then Attempt.failed Fault.provenance_conflict
    else Attempt.done (record input { mount_context_known = true })
restore_mount_context u (some m) exists input =
    let p = publish_provenance (some m) in
    if input.user_publish && not p.user_publish
    then Attempt.failed Fault.provenance_conflict
    else restore_as u input m (completed input p)
