-- ===== src/Comments/Service.antt =====
-- The operations of internal/service/comment.go over the store in memory, which reports no errors. The
-- identifiers of a new comment or reply are random texts of the service and arguments here. A mutation
-- runs under the slug's lock, as one step: how several interleave is the matter of Concurrent.
use octo_docs_html_fork.Prelude.{ℕ, String, true, false, Option, none, List, [], eqb, if◌then◌else◌}
use octo_docs_html_fork.Prelude.Dict.{Dict}
use octo_docs_html_fork.Prelude.Int.{ℤ, pos, eqb_ℤ}
use octo_docs_html_fork.World.{M, ◌>>=◌, pure, now_iso}
use octo_docs_html_fork.Types.{
  Author, Anchor, CommentEvent, Comment, CommentSnapshot, StampedArtifact,
}
use octo_docs_html_fork.Events.Migrate.{ensure_migrated}
use octo_docs_html_fork.Fold.State.{version_latest}
use octo_docs_html_fork.Fold.Snapshot.{snapshot_list, history_list}
use octo_docs_html_fork.Reconcile.Text.{CaseTable}
use octo_docs_html_fork.Ops.Types.{Body, OpKind, CommentOp}
use octo_docs_html_fork.Ops.Handlers.{Outcome}
use octo_docs_html_fork.Ops.Apply.{apply_comment_op}
use octo_docs_html_fork.Storage.State.{Store}
use octo_docs_html_fork.Storage.Tables.{get_comments, put_comments, delete_comments}

pub record MutationResult : Type 0 where
  pub status : ℕ
  pub body : Body

-- what applyOp stores, and what it returns
unfoldable pub persist : Store → String → Outcome → MutationResult × Store
unfolding put_comments delete_comments
persist s slug (list, res) = (
  record { status = res.status; body = res.body },
  if eqb res.status 200
      then (if res.wipe then delete_comments s slug else put_comments s slug list)
      else s,
)

unfoldable pub apply_op : CaseTable → Store → String → CommentOp → M (MutationResult × Store)
unfolding persist get_comments
apply_op u s slug op = do r ← apply_comment_op u (get_comments s slug) op; pure (persist s slug r)

-- an operation of which no field is set
abbrev pub blank_op : OpKind → String → CommentOp
blank_op kind at = record {
  kind = kind;
  at = at;
  id = "";
  author = none;
  text = "";
  anchor = none;
  parent_id = "";
  reply_id = "";
  reset_status = false;
  actor = "";
  comment_id = "";
  emoji = "";
  by = "";
  events = [];
  response_body = none;
  local_comments = [];
  aids = [];
  pinned_aid = "";
  pinned_tag = "";
  anchor_migrations = [];
  version = pos 0;
}

unfoldable pub create :
    CaseTable
    → Store
    → String
    → String
    → Option Author
    → String
    → Option Anchor
    → ℤ
    → M (MutationResult × Store)
unfolding apply_op now_iso
create u s slug id author text anchor version = do
  now ← now_iso
  apply_op u s slug (record (blank_op OpKind.create now) {
    id = id;
    author = author;
    text = text;
    anchor = anchor;
    version = version;
  })

unfoldable pub reply :
    CaseTable
    → Store
    → String
    → String
    → String
    → Option Author
    → String
    → ℤ
    → M (MutationResult × Store)
unfolding apply_op now_iso
reply u s slug parent_id reply_id author text version = do
  now ← now_iso
  apply_op u s slug (record (blank_op OpKind.reply now) {
    parent_id = parent_id;
    reply_id = reply_id;
    author = author;
    text = text;
    version = version;
  })

unfoldable pub react :
    CaseTable → Store → String → String → String → String → ℤ → M (MutationResult × Store)
unfolding apply_op now_iso
react u s slug comment_id emoji by version = do
  now ← now_iso
  apply_op u s slug (record (blank_op OpKind.react now) {
    comment_id = comment_id;
    emoji = emoji;
    by = by;
    version = version;
  })

unfoldable pub reanchor :
    CaseTable → Store → String → String → Option Anchor → ℤ → String → M (MutationResult × Store)
unfolding apply_op now_iso
reanchor u s slug id anchor version actor = do
  now ← now_iso
  apply_op u s slug (record (blank_op OpKind.patch_anchor now) {
    id = id;
    anchor = anchor;
    reset_status = true;
    version = version;
    actor = actor;
  })

-- Remove
unfoldable pub remove_comment :
    CaseTable → Store → String → String → ℤ → String → M (MutationResult × Store)
unfolding apply_op now_iso
remove_comment u s slug id version actor = do
  now ← now_iso
  apply_op u s slug
      (record (blank_op OpKind.delete now) { id = id; version = version; actor = actor })

unfoldable pub append_raw_events :
    CaseTable
    → Store
    → String
    → String
    → List CommentEvent
    → Option String
    → M (MutationResult × Store)
unfolding apply_op now_iso
append_raw_events u s slug id events response_body = do
  now ← now_iso
  apply_op u s slug (record (blank_op OpKind.raw_events now) {
    id = id;
    events = events;
    response_body = response_body;
  })

-- Wipe and WipeLocked
unfoldable pub wipe : CaseTable → Store → String → M (MutationResult × Store)
unfolding apply_op now_iso
wipe u s slug = do now ← now_iso; apply_op u s slug (blank_op OpKind.wipe now)

-- what PublishMergeWithMigrationsLocked is given
pub record PublishMerge : Type 0 where
  pub local_comments : List Comment
  pub aids : List StampedArtifact
  pub version : ℤ
  pub pinned_aid : String
  pub pinned_tag : String
  pub anchor_migrations : Dict String

unfoldable pub publish_merge_locked :
    CaseTable → Store → String → PublishMerge → M (MutationResult × Store)
unfolding apply_op now_iso
publish_merge_locked u s slug p = do
  now ← now_iso
  apply_op u s slug (record (blank_op OpKind.publish_merge now) {
    local_comments = p.local_comments;
    aids = p.aids;
    version = p.version;
    pinned_aid = p.pinned_aid;
    pinned_tag = p.pinned_tag;
    anchor_migrations = p.anchor_migrations;
  })

-- read
unfoldable pub read_comments : Store → String → M (List Comment)
unfolding get_comments ensure_migrated
read_comments s slug = do migrated ← ensure_migrated (get_comments s slug); pure migrated.0

-- List
unfoldable pub list_comments : Store → String → ℤ → M (List CommentSnapshot)
unfolding read_comments snapshot_list history_list
list_comments s slug version = do
  list ← read_comments s slug
  shown ← (if eqb_ℤ version version_latest then history_list list else snapshot_list list version)
  pure shown.0
