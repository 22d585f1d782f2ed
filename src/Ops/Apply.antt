-- ===== src/Ops/Apply.antt =====
-- ApplyCommentOp of internal/core/ops.go: the dispatch over the kind of operation.
use octo_docs_html_fork.Prelude.{String, true, false, List, ◌==◌, length, if◌then◌else◌}
use octo_docs_html_fork.World.{M, ◌>>=◌, pure, now_iso}
use octo_docs_html_fork.Types.{Comment}
use octo_docs_html_fork.Events.Migrate.{ensure_migrated}
use octo_docs_html_fork.Reconcile.Text.{CaseTable}
use octo_docs_html_fork.Ops.Types.{Body, OpKind, CommentOp}
use octo_docs_html_fork.Ops.Handlers.{
  Outcome, op_create, op_reply, op_patch_anchor, op_react, op_delete, op_raw_events,
  op_publish_merge,
}

unfoldable pub dispatch : CaseTable → OpKind → List Comment → CommentOp → String → M Outcome
dispatch u OpKind.create cs op now = op_create cs op now
dispatch u OpKind.reply cs op now = op_reply cs op now
dispatch u OpKind.patch_anchor cs op now = op_patch_anchor cs op now
dispatch u OpKind.react cs op now = op_react cs op now
dispatch u OpKind.delete cs op now = op_delete cs op now
dispatch u OpKind.raw_events cs op now = op_raw_events cs op
dispatch u OpKind.wipe cs op now =
    pure (cs, record { status = 200; body = Body.wiped (length cs); wipe = true })
dispatch u OpKind.publish_merge cs op now = op_publish_merge u cs op
dispatch u (OpKind.unknown _) cs op now =
    pure (cs, record { status = 400; body = Body.error "unknown_op"; wipe = false })

-- op.At, or the time where it is empty
unfoldable pub op_time : CommentOp → M String
unfolding now_iso
op_time op = if op.at == "" then now_iso else pure op.at

unfoldable pub apply_comment_op : CaseTable → List Comment → CommentOp → M Outcome
unfolding op_time dispatch
apply_comment_op u cs op = do
  migrated ← ensure_migrated cs
  now ← op_time op
  dispatch u op.kind migrated.0 op now
