-- ===== src/Ops/React.antt =====
-- opReact of internal/core/ops.go toggles a reaction.
use octo_docs_html_fork.Prelude.{
  String, Bool, true, false, not, ◌≡◌, ◌≢◌, sym, ap, ◌∙◌, subst, some, ◌==◌, arith, eq_iff,
  contains, Bool-cases, Option-cases, inl, inr, test_of_ne, if◌then◌else◌,
}
use octo_docs_html_fork.Types.{CommentEvent, Comment, CommentSnapshot, Reactions, log}
use octo_docs_html_fork.Events.Dedup.Last.{eids}
use octo_docs_html_fork.Fold.Reaction.{users_at, apply_reaction}
use octo_docs_html_fork.Fold.ReactionSet.{
  WellFormed, apply_reaction-WellFormed, has_reacted, has_reacted-apply_reaction, index_of-contains,
}
use octo_docs_html_fork.Fold.State.{
  FoldState, is_finite_version, agent_status_emoji, version_latest,
}
use octo_docs_html_fork.Fold.Apply.{
  apply_comment_event, content_event, status_event, parent_reaction, react_parent, names_reaction,
}
use octo_docs_html_fork.Fold.Sound.{replay-IsConsistent, snapshot_of-finalize}
use octo_docs_html_fork.Fold.Snapshot.{replay, with_verdict, finalize, snapshot_of}
use octo_docs_html_fork.Fold.TimeTravel.{with_event}
use octo_docs_html_fork.Fold.Latest.{replay-append_now}
use octo_docs_html_fork.Ops.Types.{CommentOp}
use octo_docs_html_fork.Ops.Hosts.{reactions_for_user, reactions_of}
use octo_docs_html_fork.Ops.Handlers.{toggle_event}

reactions_for_user-has_reacted :
    (r : Reactions) (by emoji : String) → reactions_for_user r by emoji ≡ has_reacted r emoji by
unfolding reactions_for_user
reactions_for_user-has_reacted r by emoji = sym (index_of-contains (users_at r emoji) by)

-- The synthetic reaction is the agent's own: it hides no other login.
has_reacted-finalize :
    (st : FoldState) (emoji by : String)
    → WellFormed st.snap.reactions
    → by ≢ "odoc-agent"
    → has_reacted (finalize st).reactions emoji by ≡ has_reacted st.snap.reactions emoji by
unfolding finalize with_verdict
has_reacted-finalize st emoji by wf other = elim (Option-cases st.agent_verdict) [
  | inl missing ↦ rw missing
  | inr (verdict, found) ↦ elim (Bool-cases (agent_status_emoji verdict == "")) [
    | inl unknown_verdict ↦ rw (found, unknown_verdict)
    | inr known ↦
        rw (found, known)
          (ground (
            arith,
            eq_iff "odoc-agent" by,
            has_reacted-apply_reaction st.snap.reactions (agent_status_emoji verdict) "odoc-agent"
                true emoji by wf,
          ))
  ]
]

-- The event that opReact makes for a reaction on the comment itself sets the reaction to `not had`.
apply-toggle_event :
    (op : CommentOp) (now id : String) (had : Bool) (st : FoldState)
    → op.emoji ≢ ""
    → op.by ≢ ""
    → (apply_comment_event st (record (toggle_event op now "" had) { eid = id })).snap.reactions
      ≡ apply_reaction st.snap.reactions op.emoji op.by (not had)
unfolding apply_comment_event content_event status_event parent_reaction react_parent names_reaction
    toggle_event
apply-toggle_event op now id true st named_emoji named_by =
    ground (arith, test_of_ne op.emoji "" named_emoji, test_of_ne op.by "" named_by)
apply-toggle_event op now id false st named_emoji named_by =
    ground (arith, test_of_ne op.emoji "" named_emoji, test_of_ne op.by "" named_by)

module _ (op : CommentOp) (now id : String) (c : Comment) (s : CommentSnapshot)
    (seen : snapshot_of c op.version ≡ some s) (finite : is_finite_version op.version ≡ true)
    (named : id ≢ "") (new : contains id (eids (log c)) ≡ false) where
  -- the event that opReact appends, under its id
  abbrev pub reaction : CommentEvent
  reaction =
      record (toggle_event op now "" (reactions_for_user (reactions_of s "") op.by op.emoji)) {
        eid = id;
      }

  as_of : (if is_finite_version op.version then op.version else version_latest) ≡ op.version
  as_of = rw finite

  visible_after :
      (s' : CommentSnapshot)
      → snapshot_of (with_event c reaction) op.version ≡ some s'
      → s' ≡ finalize (apply_comment_event (replay c op.version) reaction)
  unfolding toggle_event
  visible_after s' h =
      snapshot_of-finalize (with_event c reaction) op.version s' h
      ∙ ap (λ at. finalize (replay (with_event c reaction) at)) as_of
      ∙ ap finalize (replay-append_now c reaction named new finite)

  as_of_seen : s ≡ finalize (replay c op.version)
  as_of_seen = snapshot_of-finalize c op.version s seen ∙ ap (λ at. finalize (replay c at)) as_of

  -- Let `s` be the snapshot as of the operation's finite version, and let the event that
  -- opReact builds from it carry a non-empty id that the log does not name. If the snapshot
  -- after the append is `s'`, the login, which is neither empty nor the agent's, has reacted
  -- with the non-empty emoji in `s'` exactly if it has not in `s`.
  pub snapshot_of-toggle :
      (s' : CommentSnapshot)
      → snapshot_of (with_event c reaction) op.version ≡ some s'
      → op.emoji ≢ ""
      → op.by ≢ ""
      → op.by ≢ "odoc-agent"
      → has_reacted s'.reactions op.emoji op.by ≡ not (has_reacted s.reactions op.emoji op.by)
  unfolding reactions_of
  snapshot_of-toggle s' h emoji by other =
      let st = replay c op.version in
      let wf = (replay-IsConsistent c op.version).reactions in
      let had = reactions_for_user s.reactions op.by op.emoji in
      let st' = apply_comment_event st reaction in
      let step = apply-toggle_event op now id had st emoji by in
      let before =
        ap (λ x. has_reacted x.reactions op.emoji op.by) as_of_seen
        ∙ has_reacted-finalize st op.emoji op.by wf other in
      let wf' =
        subst WellFormed (sym step)
          (apply_reaction-WellFormed st.snap.reactions op.emoji op.by (not had) wf) in
      let after =
        ap (λ x. has_reacted x.reactions op.emoji op.by) (visible_after s' h)
        ∙ has_reacted-finalize st' op.emoji op.by wf' other
        ∙ ap (λ r. has_reacted r op.emoji op.by) step in
      ground (
        arith,
        before,
        after,
        reactions_for_user-has_reacted s.reactions op.by op.emoji,
        has_reacted-apply_reaction st.snap.reactions op.emoji op.by (not had) op.emoji op.by wf,
        eq_iff op.emoji op.emoji,
        eq_iff op.by op.by,
      )
