-- ===== src/Ops/AppendOnly.antt =====
-- ApplyCommentOp of internal/core/ops.go, operation by operation: nothing is taken away.
use octo_docs_html_fork.Prelude.{
  String, Bool, true, false, ◌≡◌, Option, none, some, List, [], ◌∷◌, All, All-append, Option-cases,
  inl, inr,
}
use octo_docs_html_fork.World.{World}
use octo_docs_html_fork.Types.{Comment, CommentSnapshot}
use octo_docs_html_fork.Events.Log.{backfill_eids}
use octo_docs_html_fork.Events.Migrate.{ensure_migrated}
use octo_docs_html_fork.Events.Migrated.{
  IsMigrated, ensure_event_log-IsMigrated, ensure_migrated-IsMigrated,
}
use octo_docs_html_fork.Fold.Snapshot.{snapshot_at, snapshot_of}
use octo_docs_html_fork.Ops.Hosts.{find_by_id, find_host}
use octo_docs_html_fork.Ops.Types.{OpKind, CommentOp}
use octo_docs_html_fork.Ops.Extend.{
  Extends-refl, Grows-append, IsAppend, IsGrown, IsGrown-refl, at_index-IsGrown,
  add_reply_to-IsAppend, patch_anchor_of-IsAppend, toggle-IsAppend, delete_in-IsAppend,
  append_all-IsAppend, snapshot_at-fixed,
}
use octo_docs_html_fork.Ops.Apply.{dispatch, apply_comment_op}
use octo_docs_html_fork.Reconcile.Text.{CaseTable}
use octo_docs_html_fork.Ops.Handlers.{
  new_comment, created_event, op_create, op_reply, op_patch_anchor, op_react, op_delete,
  op_raw_events, react_by, add_reply_to, patch_anchor_of, react_on, delete_in, append_raw,
}

module _ (cs : List Comment) (op : CommentOp) (now : String) (w : World)
    (h : All IsMigrated cs) where
  new-IsMigrated :
      IsMigrated
        (snapshot_at
          (new_comment op now (backfill_eids (created_event op now ∷ []) w).0.0)
          op.version
          (backfill_eids (created_event op now ∷ []) w).1).0.1
  unfolding snapshot_at
  new-IsMigrated = ensure_event_log-IsMigrated _ _

  op_create-IsGrown : IsGrown cs (op_create cs op now w).0.0
  unfolding op_create
  op_create-IsGrown = record {
    grows = Grows-append cs _;
    migrated = All-append IsMigrated cs _ h (new-IsMigrated, tt);
  }

  op_reply-IsGrown : IsGrown cs (op_reply cs op now w).0.0
  unfolding op_reply
  op_reply-IsGrown = elim (Option-cases (find_by_id cs op.parent_id)) [
    | inl missing ↦ rw (missing, op_reply) (IsGrown-refl cs h)
    | inr (i, found) ↦
        rw (found, op_reply)
          (at_index-IsGrown cs i (add_reply_to op now) w h (λ c. add_reply_to-IsAppend op now c w))
  ]

  op_patch_anchor-IsGrown : IsGrown cs (op_patch_anchor cs op now w).0.0
  unfolding op_patch_anchor
  op_patch_anchor-IsGrown = elim (Option-cases (find_by_id cs op.id)) [
    | inl missing ↦ rw (missing, op_patch_anchor) (IsGrown-refl cs h)
    | inr (i, found) ↦
        rw (found, op_patch_anchor)
          (at_index-IsGrown cs i (patch_anchor_of op now) w h
            (λ c. patch_anchor_of-IsAppend op now c w))
  ]

  react_on-IsAppend :
      (reply_id : String) (c : Comment)
      → IsMigrated c
      → IsAppend c (react_on op now reply_id c w).0.0
  unfolding react_on
  react_on-IsAppend reply_id c m =
      rw (snapshot_at-fixed c op.version w m) (go (snapshot_of c op.version))
    where
      go : (o : Option CommentSnapshot) → IsAppend c ((react_by op now reply_id c o) w).0.0
      go none = record { extends = Extends-refl c; migrated = m }
      go (some snap) = toggle-IsAppend op now c w m reply_id snap

  op_react-IsGrown : IsGrown cs (op_react cs op now w).0.0
  unfolding op_react
  op_react-IsGrown = elim (Option-cases (find_host cs op.comment_id)) [
    | inl missing ↦ rw (missing, op_react) (IsGrown-refl cs h)
    | inr (host, found) ↦
        rw (found, op_react) (at_index-IsGrown cs host.0 _ w h (λ c. react_on-IsAppend _ c))
  ]

  op_delete-IsGrown : IsGrown cs (op_delete cs op now w).0.0
  unfolding op_delete
  op_delete-IsGrown = elim (Option-cases (find_host cs op.id)) [
    | inl missing ↦ rw (missing, op_delete) (IsGrown-refl cs h)
    | inr (host, found) ↦
        rw (found, op_delete)
          (at_index-IsGrown cs host.0 (delete_in op now host.1) w h
            (λ c m. delete_in-IsAppend op now c w m host.1))
  ]

  op_raw_events-IsGrown : IsGrown cs (op_raw_events cs op w).0.0
  unfolding op_raw_events
  op_raw_events-IsGrown = elim (Option-cases (find_by_id cs op.id)) [
    | inl missing ↦ rw (missing, op_raw_events) (IsGrown-refl cs h)
    | inr (i, found) ↦
        rw (found, op_raw_events)
          (at_index-IsGrown cs i (append_raw op) w h
            (λ c m. unfold append_raw in append_all-IsAppend op.events c w m))
  ]

-- The operations that work on the list as it is: all but `publish_merge`, which compacts the logs.
abbrev pub only_appends : OpKind → Bool
only_appends OpKind.publish_merge = false
only_appends _ = true

dispatch-IsGrown :
    (u : CaseTable) (k : OpKind) (cs : List Comment) (op : CommentOp) (now : String) (w : World)
    → All IsMigrated cs
    → only_appends k ≡ true
    → IsGrown cs (dispatch u k cs op now w).0.0
unfolding dispatch
dispatch-IsGrown u OpKind.create cs op now w h k = op_create-IsGrown cs op now w h
dispatch-IsGrown u OpKind.reply cs op now w h k = op_reply-IsGrown cs op now w h
dispatch-IsGrown u OpKind.patch_anchor cs op now w h k = op_patch_anchor-IsGrown cs op now w h
dispatch-IsGrown u OpKind.react cs op now w h k = op_react-IsGrown cs op now w h
dispatch-IsGrown u OpKind.delete cs op now w h k = op_delete-IsGrown cs op now w h
dispatch-IsGrown u OpKind.raw_events cs op now w h k = op_raw_events-IsGrown cs op now w h
dispatch-IsGrown u OpKind.wipe cs op now w h k = IsGrown-refl cs h
dispatch-IsGrown u OpKind.publish_merge cs op now w h k = absurd (cc)
dispatch-IsGrown u (OpKind.unknown s) cs op now w h k = IsGrown-refl cs h

-- Every operation but a publish merge keeps the comments of the migrated list, in order and with
-- the same ids, extends their logs only at the end, and leaves every comment of its result
-- migrated.
pub apply_comment_op-IsGrown :
    (u : CaseTable) (cs : List Comment) (op : CommentOp) (w : World)
    → only_appends op.kind ≡ true
    → IsGrown (ensure_migrated cs w).0.0 (apply_comment_op u cs op w).0.0
unfolding apply_comment_op
apply_comment_op-IsGrown u cs op w k =
    dispatch-IsGrown u op.kind (ensure_migrated cs w).0.0 op _ _ (ensure_migrated-IsMigrated cs w) k
