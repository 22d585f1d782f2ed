-- ===== src/Fold/Duplicate.antt =====
-- A second event with a known id and the same content (internal/core/events.go, fold.go): the
-- duplicate of a reaction or of a state flag.
use mathlib.Core.List.{map}
use octo_docs_html_fork.Prelude.{
  String, Bool, true, false, ◌&&◌, ◌≡◌, ◌≢◌, refl, sym, ◌∙◌, ap, some, List, [], ◌∷◌, ◌++◌, ◌==◌,
  arith, eq_refl, contains, is_empty, is_empty-append, Bool-cases, text_cases, test_of_ne, inl, inr,
  All-map, map-All, if◌then◌else◌,
}
use octo_docs_html_fork.Prelude.Int.{ℤ}
use octo_docs_html_fork.Types.{EventKind, CommentEvent, Comment, log}
use octo_docs_html_fork.Events.Log.{dedup_events}
use octo_docs_html_fork.Events.Dedup.Last.{eids, find_last, find_last-absent}
use octo_docs_html_fork.Events.Dedup.Once.{dedup_events-Distinct, find_last-dedup_events}
use octo_docs_html_fork.Events.Dedup.Fixed.{find_last-Distinct}
use octo_docs_html_fork.Events.Dedup.Append.{refresh, dedup_events-append_known}
use octo_docs_html_fork.Fold.State.{FoldState, empty_state}
use octo_docs_html_fork.Fold.Apply.{
  content_event, status_event, parent_reaction, reply_event, apply_comment_event,
}
use octo_docs_html_fork.Fold.Order.{insert_event, stable_sort, ordered_events}
use octo_docs_html_fork.Fold.Snapshot.{visible, replay_events, replay, snapshot_of}
use octo_docs_html_fork.Fold.TimeTravel.{with_event}

-- The kinds whose handlers do not read the time of the event: all but `reply_added`.
abbrev pub ignores_time : EventKind → Bool
ignores_time EventKind.reply_added = false
ignores_time _ = true

-- An event with another time.
abbrev pub at_time : String → CommentEvent → CommentEvent
at_time t e = record e { at = t }

content_event-at_time :
    (k : EventKind) (st : FoldState) (e : CommentEvent) (t : String)
    → content_event k st (at_time t e) ≡ content_event k st e
unfolding content_event
content_event-at_time EventKind.created st e t = refl
content_event-at_time _ st e t = refl

status_event-at_time :
    (k : EventKind) (st : FoldState) (e : CommentEvent) (t : String)
    → status_event k st (at_time t e) ≡ status_event k st e
unfolding status_event
status_event-at_time EventKind.marked_applied st e t = refl
status_event-at_time _ st e t = refl

parent_reaction-at_time :
    (k : EventKind) (st : FoldState) (e : CommentEvent) (t : String)
    → parent_reaction k st (at_time t e) ≡ parent_reaction k st e
unfolding parent_reaction
parent_reaction-at_time EventKind.reaction_added st e t = refl
parent_reaction-at_time _ st e t = refl

reply_event-at_time :
    (k : EventKind) (st : FoldState) (e : CommentEvent) (t : String)
    → ignores_time k ≡ true
    → reply_event k st (at_time t e) ≡ reply_event k st e
unfolding reply_event
reply_event-at_time EventKind.reply_added st e t h = ground arith
reply_event-at_time _ st e t h = refl

apply_comment_event-at_time :
    (st : FoldState) (e : CommentEvent) (t : String)
    → ignores_time e.kind ≡ true
    → apply_comment_event st (at_time t e) ≡ apply_comment_event st e
unfolding apply_comment_event
apply_comment_event-at_time st e t h = ground (
  arith,
  content_event-at_time e.kind st e t,
  status_event-at_time e.kind st e t,
  parent_reaction-at_time e.kind st e t,
  reply_event-at_time e.kind st e t h,
)

-- The events with the id `k` get the time `t`.
retime : String → String → CommentEvent → CommentEvent
retime k t x = if x.eid == k && ignores_time x.kind then at_time t x else x

retime-at_version : (k t : String) (x : CommentEvent) → (retime k t x).at_version ≡ x.at_version
unfolding retime
retime-at_version k t x = ground arith

apply_comment_event-retime :
    (k t : String) (st : FoldState) (x : CommentEvent)
    → apply_comment_event st (retime k t x) ≡ apply_comment_event st x
unfolding retime
apply_comment_event-retime k t st x = elim (Bool-cases (ignores_time x.kind)) [
  | inl free ↦ ground (arith, apply_comment_event-at_time st x t free)
  | inr reads ↦ ground arith
]

insert_event-retime :
    (k t : String) (e : CommentEvent) (es : List CommentEvent)
    → insert_event (retime k t e) (map (retime k t) es) ≡ map (retime k t) (insert_event e es)
unfolding insert_event
insert_event-retime k t e [] = refl
insert_event-retime k t e (x ∷ es) =
    ground (arith, insert_event-retime k t e es, retime-at_version k t e, retime-at_version k t x)

stable_sort-retime :
    (k t : String) (es : List CommentEvent)
    → stable_sort (map (retime k t) es) ≡ map (retime k t) (stable_sort es)
unfolding stable_sort
stable_sort-retime k t [] = refl
stable_sort-retime k t (e ∷ es) =
    rw (stable_sort-retime k t es) (insert_event-retime k t e (stable_sort es))

visible-retime :
    (at : ℤ) (k t : String) (x : CommentEvent) → visible at (retime k t x) ≡ visible at x
unfolding visible
visible-retime at k t x = rw retime-at_version

replay_events-retime :
    (at : ℤ) (k t : String) (st : FoldState) (es : List CommentEvent)
    → replay_events at st (map (retime k t) es) ≡ replay_events at st es
unfolding replay_events
replay_events-retime at k t st [] = refl
replay_events-retime at k t st (x ∷ es) = ground (
  arith,
  visible-retime at k t x,
  apply_comment_event-retime k t st x,
  replay_events-retime at k t (if visible at x then apply_comment_event st x else st) es,
)

module _ (c : Comment) (old : CommentEvent) (t : String) (named : old.eid ≢ "")
    (last : find_last old.eid (log c) ≡ some old) (free : ignores_time old.kind ≡ true) where
  known : contains old.eid (eids (log c)) ≡ true
  known = elim (Bool-cases (contains old.eid (eids (log c)))) [
    | inl has ↦ has
    | inr lacks ↦ ground (arith, find_last-absent old.eid (log c) named lacks)
  ]

  -- In the deduplicated log only `old` carries the id, so to refresh it is to set its time.
  dedup_events-duplicate :
      dedup_events (log c ++ at_time t old ∷ []) ≡ map (retime old.eid t) (dedup_events (log c))
  dedup_events-duplicate =
      dedup_events-append_known (log c) (at_time t old) named known
      ∙ map-All (refresh (at_time t old)) (retime old.eid t) (dedup_events (log c)) (
          All-map same (dedup_events (log c))
            (find_last-Distinct (dedup_events (log c)) (dedup_events-Distinct (log c))))
    where
      same :
          (x : CommentEvent)
          → ((x.eid == "") ≡ false → find_last x.eid (dedup_events (log c)) ≡ some x)
          → refresh (at_time t old) x ≡ retime old.eid t x
      same x found =
          unfold refresh retime in
          (elim (text_cases x.eid old.eid) [
            | inr (differ, test) ↦ rw test refl
            | inl (is_old, test) ↦
                let equal : some x ≡ some old =
                  sym (found (test_of_ne x.eid "" (λ e. named (sym is_old ∙ e))))
                  ∙ ap (λ k. find_last k (dedup_events (log c))) is_old
                  ∙ find_last-dedup_events old.eid (log c) named
                  ∙ last in
                let x_is : x ≡ old = cc in rw (x_is, eq_refl, free)
          ])

  replay-duplicate : (at : ℤ) → replay (with_event c (at_time t old)) at ≡ replay c at
  unfolding replay ordered_events empty_state
  replay-duplicate at =
      rw (dedup_events-duplicate, stable_sort-retime)
        (replay_events-retime at old.eid t (empty_state c) (stable_sort (dedup_events (log c))))

  -- Let `old` be the last event of a non-empty log under a non-empty id, of a kind whose
  -- application ignores the time. To append it again with another time changes no snapshot.
  pub snapshot_of-duplicate :
      (v : ℤ)
      → is_empty (log c) ≡ false
      → snapshot_of (with_event c (at_time t old)) v ≡ snapshot_of c v
  unfolding snapshot_of
  snapshot_of-duplicate v some_events =
      rw (is_empty-append (log c) (at_time t old ∷ []) some_events, some_events, replay-duplicate)
