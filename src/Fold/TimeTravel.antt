-- ===== src/Fold/TimeTravel.antt =====
-- Reading as of a version (internal/core/fold.go): later events do not show.
use octo_docs_html_fork.Prelude.{
  true, false, ◌≡◌, ◌≢◌, refl, some, List, [], ◌∷◌, ◌++◌, append-nil, arith, contains, keep,
  keep-append, is_empty, is_empty-append, Bool-cases, inl, inr,
}
use octo_docs_html_fork.Prelude.Int.{ℤ, leb_ℤ}
use octo_docs_html_fork.Types.{CommentEvent, Comment, log}
use octo_docs_html_fork.Events.Dedup.Last.{eids}
use octo_docs_html_fork.Events.Dedup.Append.{dedup_events-append_new}
use octo_docs_html_fork.Fold.State.{FoldState, is_finite_version}
use octo_docs_html_fork.Fold.Apply.{apply_comment_event}
use octo_docs_html_fork.Fold.Order.{ordered_events}
use octo_docs_html_fork.Fold.Sorted.{keep-stable_sort}
use octo_docs_html_fork.Fold.Snapshot.{visible, replay_events, replay, snapshot_of}

-- The loop sees the visible events only.
pub replay_events-keep :
    (at : ℤ) (st : FoldState) (es : List CommentEvent)
    → replay_events at st es ≡ replay_events at st (keep (visible at) es)
unfolding replay_events
replay_events-keep at st [] = refl
replay_events-keep at st (e ∷ es) = elim (Bool-cases (visible at e)) [
  | inl shown ↦ rw shown (ground (arith, replay_events-keep at (apply_comment_event st e) es))
  | inr hidden ↦ rw hidden (replay_events-keep at st es)
]

-- The comment with one more event at the end of its log.
abbrev pub with_event : Comment → CommentEvent → Comment
with_event c e = record c { events = some (log c ++ e ∷ []) }

module _ (c : Comment) (e : CommentEvent) (named : e.eid ≢ "")
    (new : contains e.eid (eids (log c)) ≡ false) where
  keep-ordered_events :
      (at : ℤ)
      → visible at e ≡ false
      → keep (visible at) (ordered_events (log c ++ e ∷ []))
        ≡ keep (visible at) (ordered_events (log c))
  unfolding ordered_events
  keep-ordered_events at hidden =
      rw (dedup_events-append_new (log c) e named new)
        (simp (keep-stable_sort, keep-append, hidden, append-nil))

  pub replay-append_later :
      (at : ℤ) → visible at e ≡ false → replay (with_event c e) at ≡ replay c at
  unfolding replay
  replay-append_later at hidden = rw (
    replay_events-keep at _ (ordered_events (log c ++ e ∷ [])),
    keep-ordered_events at hidden,
    ← replay_events-keep at _ (ordered_events (log c)),
  )

  -- Let an event have a non-empty id that the log does not name, and a version after the finite
  -- version `v`. Then to append it to a non-empty log changes no snapshot as of `v`.
  pub snapshot_of-append_later :
      (v : ℤ)
      → is_empty (log c) ≡ false
      → is_finite_version v ≡ true
      → leb_ℤ e.at_version v ≡ false
      → snapshot_of (with_event c e) v ≡ snapshot_of c v
  unfolding snapshot_of
  snapshot_of-append_later v some_events finite later = rw (
    finite,
    is_empty-append (log c) (e ∷ []) some_events,
    some_events,
    replay-append_later v (unfold visible in (ground (arith, later))),
  )
