-- ===== src/Fold/Sound.antt =====
-- What holds of every snapshot that SnapshotAt of internal/core/fold.go returns.
use octo_docs_html_fork.Prelude.{
  String, Bool, true, false, ◌≡◌, refl, sym, some, List, [], ◌∷◌, ◌==◌, arith, All, Bool-cases,
  Option-cases, inl, inr, if◌then◌else◌, subst,
}
use octo_docs_html_fork.Prelude.Dict.{Dict, get}
use octo_docs_html_fork.Prelude.Int.{ℤ}
use octo_docs_html_fork.Types.{CommentEvent, Comment, CommentSnapshot, ReplySnapshot, log}
use octo_docs_html_fork.Fold.ReactionSet.{WellFormed, apply_reaction-WellFormed}
use octo_docs_html_fork.Fold.State.{
  FoldState, empty_state, is_finite_version, agent_status_emoji, version_latest,
}
use octo_docs_html_fork.Fold.Apply.{apply_comment_event}
use octo_docs_html_fork.Fold.Order.{ordered_events}
use octo_docs_html_fork.Fold.Invariant.{
  IsReplyOf, IsConsistent, StatusAgrees, apply_comment_event-IsConsistent, empty_state-IsConsistent,
}
use octo_docs_html_fork.Fold.Snapshot.{
  visible, replay_events, replay, live_replies, with_verdict, finalize, snapshot_of,
}

replay_events-IsConsistent :
    (c : Comment) (at : ℤ) (st : FoldState) (es : List CommentEvent)
    → IsConsistent c st
    → IsConsistent c (replay_events at st es)
unfolding replay_events
replay_events-IsConsistent c at st [] ok = ok
replay_events-IsConsistent c at st (e ∷ es) ok = elim (Bool-cases (visible at e)) [
  | inl shown ↦ rw shown (
      replay_events-IsConsistent c at (apply_comment_event st e) es
        (apply_comment_event-IsConsistent c st e ok))
  | inr hidden ↦ rw hidden (replay_events-IsConsistent c at st es ok)
]

pub replay-IsConsistent : (c : Comment) (at : ℤ) → IsConsistent c (replay c at)
unfolding replay
replay-IsConsistent c at =
    replay_events-IsConsistent c at (empty_state c) (ordered_events (log c))
      (empty_state-IsConsistent c)

-- A reply that a reader sees: not deleted, under its parent, with well-formed reactions.
pub record IsShown (parent : String) (r : ReplySnapshot) : Type 0 where
  pub live : r.deleted ≡ false
  pub names_parent : r.parent_id ≡ parent
  pub reactions : WellFormed r.reactions

-- What a reader may rely on.
pub record IsSound (c : Comment) (s : CommentSnapshot) : Type 0 where
  pub same_id : s.id ≡ c.id
  pub same_created_in : s.created_in ≡ c.created_in
  pub status : StatusAgrees s
  pub reactions : WellFormed s.reactions
  pub replies : All (IsShown c.id) s.replies

live_replies-IsShown :
    (parent : String) (m : Dict ReplySnapshot) (ids : List String)
    → ((id : String) (r : ReplySnapshot) → get m id ≡ some r → IsReplyOf parent id r)
    → All (IsShown parent) (live_replies m ids)
unfolding live_replies
live_replies-IsShown parent m [] good = tt
live_replies-IsShown parent m (id ∷ ids) good = elim (Option-cases (get m id)) [
  | inl missing ↦ rw (missing, All) (live_replies-IsShown parent m ids good)
  | inr (r, found) ↦
      rw (found, All)
        (show r (good id r found) r.deleted refl (live_replies-IsShown parent m ids good))
]
  where
    show :
        (r : ReplySnapshot)
        → IsReplyOf parent id r
        → (b : Bool) → r.deleted ≡ b
        → All (IsShown parent) (live_replies m ids)
        → All (IsShown parent) (if b then live_replies m ids else r ∷ live_replies m ids)
    show r ok true gone rest = rest
    show r ok false live rest =
        (record { live = live; names_parent = ok.names_parent; reactions = ok.reactions }, rest)

with_verdict-WellFormed :
    (st : FoldState) → WellFormed st.snap.reactions → WellFormed (with_verdict st).reactions
unfolding with_verdict
with_verdict-WellFormed st wf = elim (Option-cases st.agent_verdict) [
  | inl missing ↦ rw missing wf
  | inr (verdict, found) ↦ elim (Bool-cases (agent_status_emoji verdict == "")) [
    | inl unknown_verdict ↦ rw (found, unknown_verdict) wf
    | inr known ↦
        rw (found, known)
          (apply_reaction-WellFormed st.snap.reactions (agent_status_emoji verdict) "odoc-agent"
            true wf)
  ]
]

with_verdict-rest :
    (st : FoldState)
    → ((with_verdict st).id ≡ st.snap.id)
      × ((with_verdict st).created_in ≡ st.snap.created_in)
      × ((with_verdict st).status ≡ st.snap.status)
      × ((with_verdict st).applied_in ≡ st.snap.applied_in)
unfolding with_verdict
with_verdict-rest st = ground arith

finalize-IsSound : (c : Comment) (st : FoldState) → IsConsistent c st → IsSound c (finalize st)
unfolding finalize
finalize-IsSound c st ok = record {
  same_id = ground (arith, with_verdict-rest st, ok.same_id);
  same_created_in = ground (arith, with_verdict-rest st, ok.same_created_in);
  status = rw ((with_verdict-rest st).2, (with_verdict-rest st).3) ok.status;
  reactions = with_verdict-WellFormed st ok.reactions;
  replies = live_replies-IsShown c.id st.reply_by_id st.reply_order ok.replies;
}

pub snapshot_of-finalize :
    (c : Comment) (v : ℤ) (s : CommentSnapshot)
    → snapshot_of c v ≡ some s
    → s ≡ finalize (replay c (if is_finite_version v then v else version_latest))
unfolding snapshot_of
snapshot_of-finalize c v s h = ground arith

-- Of every snapshot: id and creation version are the comment's, `applied_in` is set exactly if
-- the status is applied, each emoji has at least one login and none twice, and the replies shown
-- are live, name the comment as parent and have such reactions.
pub snapshot_of-IsSound :
    (c : Comment) (v : ℤ) (s : CommentSnapshot) → snapshot_of c v ≡ some s → IsSound c s
snapshot_of-IsSound c v s h =
    let at = if is_finite_version v then v else version_latest in
    subst (IsSound c) (sym (snapshot_of-finalize c v s h))
      (finalize-IsSound c (replay c at) (replay-IsConsistent c at))
