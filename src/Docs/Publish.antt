-- ===== src/Docs/Publish.antt =====
-- publishLocked of internal/service/doc.go, over the store in memory. What
-- StampAids makes of a page is an argument, and so is the time of a new version. An error leaves the
-- store as it is then. The registration that follows a publish is not part of this.
use octo_docs_html_fork.Prelude.{
  ℕ, zero, suc, ◌+◌, ◌-◌, ◌^◌, String, Bool, true, false, not, ◌||◌, Option, none, some, List, [],
  ◌∷◌, eqb, length, is_empty, if◌then◌else◌,
}
use octo_docs_html_fork.Prelude.Int.{ℤ, pos, negsuc, ltb_ℤ}
use octo_docs_html_fork.World.{M, ◌>>=◌, pure}
use octo_docs_html_fork.Types.{StampedArtifact}
use octo_docs_html_fork.Reconcile.Text.{CaseTable}
use octo_docs_html_fork.Ops.Types.{Body}
use octo_docs_html_fork.Storage.Meta.{DocMeta}
use octo_docs_html_fork.Storage.State.{Store}
use octo_docs_html_fork.Storage.Tables.{get_meta}
use octo_docs_html_fork.Storage.Blobs.{put_doc, head_doc, list_versions, get_draft}
use octo_docs_html_fork.Comments.Service.{publish_merge_locked}
use octo_docs_html_fork.Docs.Input.{Fault, Attempt, PublishInput}
use octo_docs_html_fork.Docs.Mount.{restore_mount_context}
use octo_docs_html_fork.Docs.Metadata.{PublishMetaResult, upsert_meta}

pub record StampResult : Type 0 where
  pub html : String
  pub aids : List StampedArtifact

pub record PublishResult : Type 0 where
  pub slug : String
  pub version : ℤ
  pub size : ℕ
  pub aids : ℕ
  pub merged_comments : ℕ
  pub meta : PublishMetaResult
  pub mount_type : String
  pub mount_context_known : Bool
  pub publisher_token : String
  pub space_id : String
  pub owner : String
  pub user_publish : Bool

-- `meta` is what GetMeta has answered.
unfoldable pub slug_exists : Option DocMeta → Store → String → Bool
unfolding list_versions get_draft
slug_exists (some m) s slug = true
slug_exists none s slug =
    not (is_empty (list_versions s slug))
    || elim (get_draft s slug) [ none ↦ false | some _ ↦ true ]

unfoldable pub max_version : ℤ → List ℤ → ℤ
max_version max [] = max
max_version max (n ∷ ns) = max_version (if ltb_ℤ max n then n else max) ns

-- maxV + 1 on a 64-bit int
unfoldable pub next_int : ℤ → ℤ
next_int (pos n) = if eqb n (2 ^ 63 - 1) then negsuc (2 ^ 63 - 1) else pos (n + 1)
next_int (negsuc zero) = pos 0
next_int (negsuc (suc n)) = negsuc n

unfoldable pub resolve_version : Store → String → ℤ → ℤ
unfolding max_version next_int list_versions
resolve_version s slug explicit =
    if ltb_ℤ (pos 0) explicit
    then explicit
    else next_int (max_version (pos 0) (list_versions s slug))

-- merge.Body's number of merged comments
unfoldable pub merged_count : Body → ℕ
merged_count (Body.merged n) = n
merged_count _ = 0

-- the merge of the comments, once the metadata is written
unfoldable pub merge_comments :
    CaseTable
    → Option (PublishMetaResult × Store)
    → Store
    → PublishInput
    → StampResult
    → ℤ
    → ℕ
    → M (Attempt PublishResult × Store)
unfolding publish_merge_locked merged_count
merge_comments u none s input stamped version size = pure (Attempt.failed Fault.panicked, s)
merge_comments u (some (meta, written)) s input stamped version size = do
  merge ← publish_merge_locked u written input.slug (record {
    local_comments = input.local_comments;
    aids = stamped.aids;
    version = version;
    pinned_aid = input.pinned_aid;
    pinned_tag = input.pinned_tag;
    anchor_migrations = input.anchor_migrations;
  })
  pure (
    Attempt.done (record {
      slug = input.slug;
      version = version;
      size = size;
      aids = length stamped.aids;
      merged_comments = merged_count merge.0.body;
      meta = meta;
      mount_type = input.mount_type;
      mount_context_known = input.mount_context_known;
      publisher_token = input.publisher_token;
      space_id = input.space_id;
      owner = input.creator_uid;
      user_publish = input.user_publish;
    }),
    merge.1,
  )

-- HeadDoc after PutDoc
unfoldable pub write_meta :
    CaseTable
    → Option ℕ
    → Store
    → PublishInput
    → StampResult
    → ℤ
    → ℕ
    → String
    → M (Attempt PublishResult × Store)
unfolding merge_comments upsert_meta get_meta
write_meta u none s input stamped version size created =
    pure (Attempt.failed Fault.blob_write_lost, s)
write_meta u (some _) s input stamped version size created =
    merge_comments u (upsert_meta (get_meta s input.slug) s input version created) s input stamped
      version size

unfoldable pub write_version :
    CaseTable → Store → PublishInput → StampResult → ℤ → String → M (Attempt PublishResult × Store)
unfolding write_meta put_doc head_doc
write_version u s input stamped version created =
    let (written, size) = put_doc s input.slug version stamped.html in
    write_meta u (head_doc written input.slug version) written input stamped version size created

-- AuthorizeProvenance, where there is one
unfoldable pub authorized : PublishInput → Bool
authorized input = elim input.authorize_provenance [
  | none ↦ true
  | some authorize ↦ authorize (record {
    user_publish = input.user_publish;
    space_id = input.space_id;
    creator_uid = input.creator_uid;
  })
]

-- once the mount is restored
unfoldable pub publish_restored :
    CaseTable
    → Attempt PublishInput
    → Store
    → StampResult
    → String
    → M (Attempt PublishResult × Store)
unfolding authorized resolve_version write_version
publish_restored u (Attempt.failed fault) s stamped created = pure (Attempt.failed fault, s)
publish_restored u (Attempt.done input) s stamped created =
    if authorized input
    then write_version u s input stamped (resolve_version s input.slug input.version) created
    else pure (Attempt.failed Fault.refused, s)

unfoldable pub publish_found :
    CaseTable
    → Option (Option DocMeta)
    → Store
    → PublishInput
    → StampResult
    → String
    → M (Attempt PublishResult × Store)
unfolding publish_restored restore_mount_context slug_exists
publish_found u none s input stamped created = pure (Attempt.failed Fault.panicked, s)
publish_found u (some m) s input stamped created =
    publish_restored u (restore_mount_context u m (slug_exists m s input.slug) input) s stamped
      created

-- publishLocked, at time `created`
unfoldable pub publish_locked :
    CaseTable → Store → PublishInput → StampResult → String → M (Attempt PublishResult × Store)
unfolding publish_found get_meta
publish_locked u s input stamped created =
    publish_found u (get_meta s input.slug) s input stamped created
