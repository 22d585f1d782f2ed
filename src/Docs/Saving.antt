-- ===== src/Docs/Saving.antt =====
-- SaveDraftWithProvenance and what it writes, of internal/service/doc.go.
use Prim.Native.String.{◌++◌}
use octo_docs_html_fork.Prelude.{
  ℕ, String, Bool, true, false, not, ◌&&◌, Option, none, some, ◌==◌, ltb, length, if◌then◌else◌,
}
use octo_docs_html_fork.Prelude.Dict.{Dict, put}
use octo_docs_html_fork.Reconcile.Text.{CaseTable}
use octo_docs_html_fork.Storage.Value.{Value, Fields}
use octo_docs_html_fork.Storage.Meta.{DocMeta, extra_of}
use octo_docs_html_fork.Storage.State.{Store}
use octo_docs_html_fork.Storage.Tables.{get_meta, put_meta}
use octo_docs_html_fork.Storage.Blobs.{put_draft, byte_len}
use octo_docs_html_fork.Docs.Input.{Fault, Attempt, PublishInput}
use octo_docs_html_fork.Docs.Metadata.{new_meta, with_owner}
use octo_docs_html_fork.Docs.Publish.{StampResult, slug_exists, authorized}
use octo_docs_html_fork.Docs.Drafts.{
  DraftResult, user_draft, draft_input, prepare_draft, registration_state,
}

-- provenance.UserPublish
unfoldable pub with_draft_user : PublishInput → Bool → DocMeta → Dict Value → Dict Value
unfolding registration_state
with_draft_user input is_new prev extra =
    let owned =
      put (put extra "user_publish" (Value.bool true)) "space_id" (Value.text input.space_id) in
    if not input.user_publish
    then extra
    else if is_new && registration_state prev == ""
    then put owned "docs_backend_registration_state" (Value.text "local_only")
    else owned

-- provenance.MountTypePresent
unfoldable pub with_draft_place : PublishInput → Dict Value → Dict Value
with_draft_place input extra =
    if input.mount_type_present
    then put
        (put (put extra "mount_type" (Value.text input.mount_type)) "group_no"
          (Value.text input.group_no))
        "thread_id" (Value.text input.thread_id)
    else extra

abbrev pub draft_marker : String → Value
draft_marker now = Value.object (Fields.field "updated_at" (Value.text now) Fields.no_fields)

unfoldable pub draft_extra : PublishInput → Bool → DocMeta → String → Dict Value
unfolding with_draft_user with_draft_place with_owner extra_of
draft_extra input is_new prev now = with_draft_place input (
    with_draft_user input is_new prev
      (with_owner input prev (put (extra_of (some prev)) "draft" (draft_marker now))))

-- what setDraftMeta writes
unfoldable pub draft_meta : String → String → PublishInput → Bool → DocMeta → String → DocMeta
unfolding draft_extra
draft_meta slug title input is_new prev now =
    let named = if title == "" then prev.title else title in
    record {
      slug = slug;
      title = if named == "" then slug else named;
      versions = prev.versions;
      extra = some (draft_extra input is_new prev now);
    }

unfoldable pub set_draft_meta :
    Store → String → String → Option DocMeta → PublishInput → String → Option Store
unfolding draft_meta put_meta
set_draft_meta s slug title none input now =
    put_meta s slug (draft_meta slug title input true (new_meta slug) now)
set_draft_meta s slug title (some prev) input now =
    put_meta s slug (draft_meta slug title input false prev now)

unfoldable pub saved_draft :
    Option Store → Store → String → String → ℕ → StampResult → Attempt DraftResult × Store
saved_draft none s base slug size stamped = (Attempt.failed Fault.panicked, s)
saved_draft (some s') s base slug size stamped = (
  Attempt.done (record {
    slug = slug;
    url = base ++ "/d/" ++ slug ++ "/draft";
    size = size;
    aids = length stamped.aids;
  }),
  s',
)

unfoldable pub save_prepared :
    Attempt PublishInput
    → Store
    → String
    → String
    → String
    → Option DocMeta
    → StampResult
    → String
    → Attempt DraftResult × Store
unfolding authorized put_draft set_draft_meta saved_draft
save_prepared (Attempt.failed fault) s base slug title prev stamped now = (Attempt.failed fault, s)
save_prepared (Attempt.done input) s base slug title prev stamped now =
    let (written, size) = put_draft s slug stamped.html in
    if authorized input
    then saved_draft (set_draft_meta written slug title prev input now) written base slug size
        stamped
    else (Attempt.failed Fault.refused, s)

-- under the lock, where GetMeta has answered
unfoldable pub save_found :
    CaseTable
    → Option (Option DocMeta)
    → Store
    → String
    → String
    → String
    → PublishInput
    → StampResult
    → String
    → Attempt DraftResult × Store
unfolding save_prepared prepare_draft user_draft draft_input slug_exists
save_found u none s base slug title input stamped now = (Attempt.failed Fault.panicked, s)
save_found u (some prev) s base slug title input stamped now =
    save_prepared
      (prepare_draft u prev (slug_exists prev s slug) (draft_input u (user_draft input))) s base
      slug title prev stamped now

-- SaveDraftWithProvenance, at time `now`; `stamp` is StampAids.
unfoldable pub save_draft :
    CaseTable
    → (String → StampResult)
    → ℕ
    → String
    → Store
    → String
    → String
    → String
    → PublishInput
    → String
    → Attempt DraftResult × Store
unfolding save_found get_meta byte_len
save_draft u stamp max_bytes base s slug html title input now =
    if html == ""
    then (Attempt.failed Fault.html_required, s)
    else if ltb max_bytes (byte_len html)
    then (Attempt.failed Fault.html_too_large, s)
    else save_found u (get_meta s slug) s base slug title input (stamp html) now
