-- ===== src/Docs/Drafts.antt =====
-- Drafts of internal/service/doc.go: SaveDraftWithProvenance with prepareDraftProvenance and
-- setDraftMeta. What StampAids makes of a page is a parameter; the time is an argument.
use octo_docs_html_fork.Prelude.{
  ℕ, String, Bool, true, not, ◌&&◌, ◌||◌, Option, none, some, ◌==◌, if◌then◌else◌,
}
use octo_docs_html_fork.Prelude.Dict.{get}
use octo_docs_html_fork.Reconcile.Text.{CaseTable}
use octo_docs_html_fork.Storage.Meta.{
  DocMeta, Provenance, publish_provenance, mount_type, creator_uid, extra_of, text_or_empty,
}
use octo_docs_html_fork.Docs.Input.{
  Fault, Attempt, PublishInput, trim_space, valid_space_id, normalize_mount_type,
  inferred_legacy_mount,
}
use octo_docs_html_fork.Docs.Mount.{restore_legacy_mount, with_creator, inherit, conflicts}

pub record DraftResult : Type 0 where
  pub slug : String
  pub url : String
  pub size : ℕ
  pub aids : ℕ

-- a draft by a user: trimmed, with a creator and a space
unfoldable pub user_draft : PublishInput → Attempt PublishInput
unfolding trim_space valid_space_id
user_draft input =
    let creator_uid = trim_space input.creator_uid in
    let space_id = trim_space input.space_id in
    if not input.user_publish
    then Attempt.done input
    else if creator_uid == ""
    then Attempt.failed Fault.provenance_conflict
    else if valid_space_id space_id
    then Attempt.done (record input {
      creator_uid = creator_uid;
      space_id = space_id;
      mount_type = "space";
      mount_type_present = true;
    })
    else Attempt.failed Fault.space_id_invalid

unfoldable pub with_draft_mount : Attempt String → PublishInput → Attempt PublishInput
with_draft_mount (Attempt.failed fault) input = Attempt.failed fault
with_draft_mount (Attempt.done mount) input = Attempt.done (record input {
  mount_type = mount;
  mount_type_present = input.mount_type_present || not (input.mount_type == "");
})

unfoldable pub draft_input : CaseTable → Attempt PublishInput → Attempt PublishInput
unfolding with_draft_mount normalize_mount_type
draft_input u (Attempt.failed fault) = Attempt.failed fault
draft_input u (Attempt.done input) =
    with_draft_mount (normalize_mount_type u input.mount_type) input

-- in.MountTypePresent = in.mountContextKnown
unfoldable pub as_present : Attempt PublishInput → Attempt PublishInput
as_present (Attempt.failed fault) = Attempt.failed fault
as_present (Attempt.done input) =
    Attempt.done (record input { mount_type_present = input.mount_context_known })

-- the draft of a document of a user, once the mount that is there is normalized
unfoldable pub draft_mounted :
    Attempt String → Bool → PublishInput → Provenance → String → Attempt PublishInput
unfolding conflicts inherit
draft_mounted (Attempt.failed fault) has_mount input p creator = Attempt.failed fault
draft_mounted (Attempt.done existing) has_mount input p creator =
    if not (p.space_id == "") && conflicts input.space_id p.space_id
    then Attempt.failed Fault.space_conflict
    else if input.mount_type_present
        && has_mount
        && not (existing == "")
        && conflicts input.mount_type existing
    then Attempt.failed Fault.mount_conflict
    else if conflicts input.group_no p.group_no || conflicts input.thread_id p.thread_id
    then Attempt.failed Fault.mount_conflict
    else let kept = inherit input p creator in
      Attempt.done (
        if existing == ""
        then kept
        else record kept { mount_type = existing; mount_type_present = true })

unfoldable pub draft_as : CaseTable → PublishInput → DocMeta → Provenance → Attempt PublishInput
unfolding draft_mounted as_present restore_legacy_mount with_creator trim_space creator_uid
    mount_type valid_space_id normalize_mount_type inferred_legacy_mount
draft_as u input m p =
    let (mount, has_mount) = mount_type (some m) in
    let creator = trim_space (creator_uid (some m)) in
    if not p.user_publish
    then with_creator
        (as_present (restore_legacy_mount u input mount has_mount p.group_no p.thread_id))
        (creator_uid (some m))
    else if creator == "" || not (valid_space_id p.space_id)
    then Attempt.failed Fault.provenance_conflict
    else draft_mounted
        (if has_mount
          then normalize_mount_type u mount
          else Attempt.done
              (inferred_legacy_mount p.user_publish p.space_id p.group_no p.thread_id))
        has_mount input p creator

-- where GetMeta and slugExists have answered
unfoldable pub prepare_draft :
    CaseTable → Option DocMeta → Bool → Attempt PublishInput → Attempt PublishInput
unfolding draft_as publish_provenance
prepare_draft u m exists (Attempt.failed fault) = Attempt.failed fault
prepare_draft u none exists (Attempt.done input) =
    if exists && input.user_publish
    then Attempt.failed Fault.provenance_conflict
    else Attempt.done input
prepare_draft u (some m) exists (Attempt.done input) =
    let p = publish_provenance (some m) in
    if input.user_publish && not p.user_publish
    then Attempt.failed Fault.provenance_conflict
    else draft_as u input m p

-- the state of DocsBackendRegistration()
unfoldable pub registration_state : DocMeta → String
unfolding extra_of text_or_empty trim_space
registration_state m =
    trim_space (text_or_empty (get (extra_of (some m)) "docs_backend_registration_state"))
