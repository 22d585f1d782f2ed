-- ===== src/Fold/Snapshot.antt =====
-- replay, finalize, SnapshotAt, SnapshotList and HistoryList of internal/core/fold.go.
use octo_docs_html_fork.Prelude.{
  String, Bool, true, ◌&&◌, Option, none, some, List, [], ◌∷◌, ◌==◌, is_empty, if◌then◌else◌,
}
use octo_docs_html_fork.Prelude.Dict.{Dict, get}
use octo_docs_html_fork.Prelude.Int.{ℤ, leb_ℤ, ltb_ℤ}
use octo_docs_html_fork.World.{M, ◌>>=◌, pure}
use octo_docs_html_fork.Types.{CommentEvent, Comment, CommentSnapshot, ReplySnapshot, log}
use octo_docs_html_fork.Events.Migrate.{ensure_event_log}
use octo_docs_html_fork.Fold.Reaction.{apply_reaction}
use octo_docs_html_fork.Fold.State.{
  FoldState, version_latest, is_finite_version, agent_status_emoji, empty_state,
}
use octo_docs_html_fork.Fold.Apply.{apply_comment_event}
use octo_docs_html_fork.Fold.Order.{ordered_events}

-- the test in the loop of replay
unfoldable pub visible : ℤ → CommentEvent → Bool
unfolding is_finite_version
visible at e = is_finite_version e.at_version && leb_ℤ e.at_version at

unfoldable pub replay_events : ℤ → FoldState → List CommentEvent → FoldState
replay_events at st [] = st
replay_events at st (e ∷ es) =
    replay_events at (if visible at e then apply_comment_event st e else st) es

unfoldable pub replay : Comment → ℤ → FoldState
unfolding replay_events empty_state
replay c at = replay_events at (empty_state c) (ordered_events (log c))

-- the loop over replyOrder
unfoldable pub live_replies : Dict ReplySnapshot → List String → List ReplySnapshot
live_replies m [] = []
live_replies m (id ∷ ids) =
    let rest = live_replies m ids in
    elim (get m id) [ none ↦ rest | some r ↦ if r.deleted then rest else r ∷ rest ]

-- the synthetic reaction of the agent's verdict
unfoldable pub with_verdict : FoldState → CommentSnapshot
with_verdict st = elim st.agent_verdict [
  | none ↦ st.snap
  | some verdict ↦
      let emoji = agent_status_emoji verdict in
      if emoji == ""
      then st.snap
      else record st.snap { reactions = apply_reaction st.snap.reactions emoji "odoc-agent" true }
]

unfoldable pub finalize : FoldState → CommentSnapshot
unfolding live_replies with_verdict
finalize st = record (with_verdict st) { replies = live_replies st.reply_by_id st.reply_order }

-- SnapshotAt behind the call of EnsureEventLog
unfoldable pub snapshot_of : Comment → ℤ → Option CommentSnapshot
unfolding is_finite_version
snapshot_of c v =
    let at = if is_finite_version v then v else version_latest in
    if is_empty (log c)
    then none
    else if ltb_ℤ at c.created_in
    then none
    else some (finalize (replay c at))

-- The comment comes back too, since EnsureEventLog migrates it in place.
unfoldable pub snapshot_at : Comment → ℤ → M (Option CommentSnapshot × Comment)
snapshot_at c v = do r ← ensure_event_log c; pure (snapshot_of r.0 v, r.0)

keep_alive : Option CommentSnapshot → List CommentSnapshot → List CommentSnapshot
keep_alive none out = out
keep_alive (some s) out = if s.deleted then out else s ∷ out

unfoldable pub snapshot_list : List Comment → ℤ → M (List CommentSnapshot × List Comment)
unfolding keep_alive
snapshot_list [] v = pure ([], [])
snapshot_list (c ∷ cs) v = do
  r ← snapshot_at c v
  rest ← snapshot_list cs v
  pure (keep_alive r.0 rest.0, r.1 ∷ rest.1)

unfoldable pub history_list : List Comment → M (List CommentSnapshot × List Comment)
unfolding snapshot_list
history_list cs = snapshot_list cs version_latest
