-- ===== src/Docs/Promote.antt =====
-- PromoteAuthorized of internal/service/doc.go: a draft becomes a version by publishLocked, and is then
-- removed, errors of which are ignored.
use octo_docs_html_fork.Prelude.{
  String, Bool, true, false, Option, none, some, [], is_empty, if◌then◌else◌,
}
use octo_docs_html_fork.Prelude.Dict.{get, remove}
use octo_docs_html_fork.Prelude.Int.{pos}
use octo_docs_html_fork.World.{M, ◌>>=◌, pure}
use octo_docs_html_fork.Reconcile.Text.{CaseTable}
use octo_docs_html_fork.Storage.Meta.{
  DocMeta, publish_provenance, mount_type, creator_uid, extra_of,
}
use octo_docs_html_fork.Storage.State.{Store}
use octo_docs_html_fork.Storage.Tables.{get_meta, put_meta}
use octo_docs_html_fork.Storage.Blobs.{get_draft, delete_draft}
use octo_docs_html_fork.Docs.Input.{
  Fault, Attempt, PublishProvenance, PublishInput, normalize_mount_type,
}
use octo_docs_html_fork.Docs.Publish.{StampResult, PublishResult, publish_locked}

-- an empty map becomes nil
unfoldable pub without_draft : DocMeta → DocMeta
unfolding extra_of
without_draft m =
    let rest = remove (extra_of (some m)) "draft" in
    record m { extra = if is_empty rest then none else some rest }

-- clearDraftMeta, where GetMeta has answered
unfoldable pub clear_found : Option (Option DocMeta) → Store → String → Option Store
unfolding without_draft put_meta extra_of
clear_found none s slug = none
clear_found (some none) s slug = some s
clear_found (some (some m)) s slug = elim (get (extra_of (some m)) "draft") [
  | none ↦ some s
  | some _ ↦ put_meta s slug (without_draft m)
]

unfoldable pub clear_draft_meta : Store → String → Option Store
unfolding clear_found get_meta
clear_draft_meta s slug = clear_found (get_meta s slug) s slug

-- the input of a publish of which only this is set
abbrev pub blank_input : String → String → String → Option (PublishProvenance → Bool) → PublishInput
blank_input slug html title authorize = record {
  slug = slug;
  html = html;
  version = pos 0;
  title = title;
  local_comments = [];
  mount_type = "";
  mount_type_present = false;
  group_no = "";
  thread_id = "";
  creator_uid = "";
  publisher_token = "";
  space_id = "";
  user_publish = false;
  authorize_provenance = authorize;
  mount_context_known = false;
  pinned_aid = "";
  pinned_tag = "";
  anchor_migrations = [];
}

unfoldable pub with_existing : Attempt String → PublishInput → Attempt PublishInput
with_existing (Attempt.failed fault) input = Attempt.failed fault
with_existing (Attempt.done normalized) input =
    Attempt.done (record input { mount_type = normalized; mount_context_known = true })

unfoldable pub existing_mount : CaseTable → String × Bool → PublishInput → Attempt PublishInput
unfolding with_existing normalize_mount_type
existing_mount u (mount, false) input = Attempt.done input
existing_mount u (mount, true) input = with_existing (normalize_mount_type u mount) input

unfoldable pub existing_owner : Attempt PublishInput → DocMeta → Attempt PublishInput
unfolding publish_provenance creator_uid
existing_owner (Attempt.failed fault) m = Attempt.failed fault
existing_owner (Attempt.done input) m =
    let p = publish_provenance (some m) in
    Attempt.done (record input {
      user_publish = p.user_publish;
      space_id = p.space_id;
      group_no = p.group_no;
      thread_id = p.thread_id;
      creator_uid = creator_uid (some m);
    })

-- existingPublishInput, where GetMeta has answered
unfoldable pub existing_publish_input :
    CaseTable → Option (Option DocMeta) → PublishInput → Attempt PublishInput
unfolding existing_owner existing_mount mount_type
existing_publish_input u none input = Attempt.failed Fault.panicked
existing_publish_input u (some none) input = Attempt.failed Fault.provenance_conflict
existing_publish_input u (some (some m)) input =
    existing_owner (existing_mount u (mount_type (some m)) input) m

-- what clearDraftMeta leaves, if it reports an error
unfoldable pub cleared_or : Option Store → Store → Store
cleared_or none s = s
cleared_or (some s') s = s'

unfoldable pub after_promote :
    Attempt PublishResult × Store → String → Attempt PublishResult × Store
unfolding cleared_or clear_draft_meta delete_draft
after_promote (Attempt.failed fault, s) slug = (Attempt.failed fault, s)
after_promote (Attempt.done r, s) slug =
    let emptied = delete_draft s slug in
    (Attempt.done r, cleared_or (clear_draft_meta emptied slug) emptied)

unfoldable pub promote_input :
    CaseTable
    → Attempt PublishInput
    → Store
    → String
    → StampResult
    → String
    → M (Attempt PublishResult × Store)
unfolding after_promote publish_locked
promote_input u (Attempt.failed fault) s slug stamped created = pure (Attempt.failed fault, s)
promote_input u (Attempt.done input) s slug stamped created = do
  r ← publish_locked u s input stamped created
  pure (after_promote r slug)

unfoldable pub promote_draft :
    CaseTable
    → (String → StampResult)
    → Option String
    → Store
    → String
    → String
    → Option (PublishProvenance → Bool)
    → String
    → M (Attempt PublishResult × Store)
unfolding promote_input existing_publish_input get_meta
promote_draft u stamp none s slug title authorize created = pure (Attempt.failed Fault.not_found, s)
promote_draft u stamp (some html) s slug title authorize created =
    promote_input u
      (existing_publish_input u (get_meta s slug) (blank_input slug html title authorize)) s slug
      (stamp html) created

-- PromoteAuthorized; `stamp` is StampAids.
unfoldable pub promote :
    CaseTable
    → (String → StampResult)
    → Store
    → String
    → String
    → Option (PublishProvenance → Bool)
    → String
    → M (Attempt PublishResult × Store)
unfolding promote_draft get_draft
promote u stamp s slug title authorize created =
    promote_draft u stamp (get_draft s slug) s slug title authorize created
