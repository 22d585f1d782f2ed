-- ===== src/Docs/Authorized.antt =====
-- PublishAuthorized of internal/service/doc.go up to the registration that follows a publish: its checks,
-- and publishLocked under the lock of the slug, as one step.
use octo_docs_html_fork.Prelude.{
  ℕ, String, Bool, true, false, not, ◌&&◌, ◌||◌, Option, none, some, ◌==◌, ltb, if◌then◌else◌,
}
use octo_docs_html_fork.World.{M, pure}
use octo_docs_html_fork.Reconcile.Text.{CaseTable}
use octo_docs_html_fork.Storage.Meta.{DocMeta}
use octo_docs_html_fork.Storage.State.{Store}
use octo_docs_html_fork.Storage.Tables.{get_meta}
use octo_docs_html_fork.Storage.Blobs.{byte_len}
use octo_docs_html_fork.Docs.Input.{
  Fault, Attempt, PublishInput, trim_space, matches_space_id, normalize_mount_type,
}
use octo_docs_html_fork.Docs.Publish.{StampResult, PublishResult, slug_exists, publish_locked}

-- a publish by a user: trimmed, with a creator and a space
unfoldable pub user_input : PublishInput → Attempt PublishInput
unfolding trim_space matches_space_id
user_input input =
    let creator_uid = trim_space input.creator_uid in
    let space_id = trim_space input.space_id in
    if not input.user_publish
    then Attempt.done input
    else if creator_uid == ""
    then Attempt.failed Fault.provenance_conflict
    else if matches_space_id space_id
    then Attempt.done (record input {
      creator_uid = creator_uid;
      space_id = space_id;
      mount_type = "space";
      mount_type_present = true;
    })
    else Attempt.failed Fault.space_id_invalid

unfoldable pub with_mount_type : Attempt String → PublishInput → Attempt PublishInput
with_mount_type (Attempt.failed fault) input = Attempt.failed fault
with_mount_type (Attempt.done mount) input =
    let present = input.mount_type_present || not (input.mount_type == "") in
    Attempt.done (record input {
      mount_type = mount;
      mount_type_present = present;
      mount_context_known = present;
    })

unfoldable pub normalized_input : CaseTable → Attempt PublishInput → Attempt PublishInput
unfolding with_mount_type normalize_mount_type
normalized_input u (Attempt.failed fault) = Attempt.failed fault
normalized_input u (Attempt.done input) =
    with_mount_type (normalize_mount_type u input.mount_type) input

-- under the lock, before publishLocked: `exists` is slugExists
unfoldable pub publish_checked :
    CaseTable
    → Option DocMeta
    → Bool
    → Store
    → PublishInput
    → StampResult
    → Option (Bool → Bool)
    → String
    → M (Attempt PublishResult × Store)
unfolding publish_locked
publish_checked u m exists s input stamped authorize created =
    if input.user_publish && exists && elim m [ none ↦ true | some _ ↦ false ]
    then pure (Attempt.failed Fault.provenance_conflict, s)
    else if elim authorize [ none ↦ true | some allow ↦ allow exists ]
    then publish_locked u s input stamped created
    else pure (Attempt.failed Fault.refused, s)

unfoldable pub publish_under_lock :
    CaseTable
    → Option (Option DocMeta)
    → Store
    → PublishInput
    → StampResult
    → Option (Bool → Bool)
    → String
    → M (Attempt PublishResult × Store)
unfolding publish_checked slug_exists
publish_under_lock u none s input stamped authorize created =
    pure (Attempt.failed Fault.panicked, s)
publish_under_lock u (some m) s input stamped authorize created =
    publish_checked u m (slug_exists m s input.slug) s input stamped authorize created

unfoldable pub publish_input :
    CaseTable
    → Attempt PublishInput
    → Store
    → StampResult
    → Option (Bool → Bool)
    → String
    → M (Attempt PublishResult × Store)
unfolding publish_under_lock get_meta
publish_input u (Attempt.failed fault) s stamped authorize created = pure (Attempt.failed fault, s)
publish_input u (Attempt.done input) s stamped authorize created =
    publish_under_lock u (get_meta s input.slug) s input stamped authorize created

-- PublishAuthorized; `stamp` is StampAids.
unfoldable pub publish_authorized :
    CaseTable
    → (String → StampResult)
    → ℕ
    → Store
    → PublishInput
    → Option (Bool → Bool)
    → String
    → M (Attempt PublishResult × Store)
unfolding publish_input user_input normalized_input
publish_authorized u stamp max_bytes s input authorize created =
    if input.html == ""
    then pure (Attempt.failed Fault.html_required, s)
    else if ltb max_bytes (byte_len input.html)
    then pure (Attempt.failed Fault.html_too_large, s)
    else publish_input u (normalized_input u (user_input input)) s (stamp input.html) authorize
        created
