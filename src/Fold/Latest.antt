-- ===== src/Fold/Latest.antt =====
-- An event at the version that is read (internal/core/fold.go) is applied last.
use octo_docs_html_fork.Prelude.{
  true, false, ◌≡◌, ◌≢◌, refl, sym, ap, ◌∙◌, List, [], ◌∷◌, ◌++◌, arith, contains, keep,
  keep-append, All, Bool-cases, inl, inr, if◌then◌else◌,
}
use octo_docs_html_fork.Prelude.Int.{ℤ, leb_refl, not_before_le}
use octo_docs_html_fork.Types.{CommentEvent, Comment, log}
use octo_docs_html_fork.Events.Log.{dedup_events}
use octo_docs_html_fork.Events.Dedup.Last.{eids}
use octo_docs_html_fork.Events.Dedup.Append.{dedup_events-append_new}
use octo_docs_html_fork.Fold.State.{FoldState, is_finite_version, empty_state}
use octo_docs_html_fork.Fold.Apply.{apply_comment_event}
use octo_docs_html_fork.Fold.Order.{insert_event, stable_sort, ordered_events}
use octo_docs_html_fork.Fold.Sorted.{NotBefore, keep-stable_sort}
use octo_docs_html_fork.Fold.Snapshot.{visible, replay_events, replay}
use octo_docs_html_fork.Fold.TimeTravel.{replay_events-keep, with_event}

insert_event-append :
    (x e : CommentEvent) (es : List CommentEvent)
    → NotBefore x e
    → insert_event x (es ++ e ∷ []) ≡ insert_event x es ++ e ∷ []
unfolding insert_event
insert_event-append x e [] h = ground (arith, not_before_le x.at_version e.at_version h)
insert_event-append x e (y ∷ es) h = ground (arith, insert_event-append x e es h)

stable_sort-append :
    (e : CommentEvent) (es : List CommentEvent)
    → All (λ x. NotBefore x e) es
    → stable_sort (es ++ e ∷ []) ≡ stable_sort es ++ e ∷ []
unfolding stable_sort insert_event
stable_sort-append e [] h = refl
stable_sort-append e (x ∷ es) h =
    rw (stable_sort-append e es h.1) (insert_event-append x e (stable_sort es) h.0)

visible-NotBefore :
    (e : CommentEvent) (es : List CommentEvent)
    → All (λ x. NotBefore x e) (keep (visible e.at_version) es)
unfolding visible
visible-NotBefore e [] = tt
visible-NotBefore e (x ∷ es) = elim (Bool-cases (visible e.at_version x)) [
  | inl shown ↦ rw (shown, All) (ground (arith, shown), visible-NotBefore e es)
  | inr hidden ↦ rw (hidden, All) (visible-NotBefore e es)
]

replay_events-append :
    (at : ℤ) (st : FoldState) (xs ys : List CommentEvent)
    → replay_events at st (xs ++ ys) ≡ replay_events at (replay_events at st xs) ys
unfolding replay_events
replay_events-append at st [] ys = refl
replay_events-append at st (x ∷ xs) ys =
    replay_events-append at (if visible at x then apply_comment_event st x else st) xs ys

module _ (c : Comment) (e : CommentEvent) (named : e.eid ≢ "")
    (new : contains e.eid (eids (log c)) ≡ false)
    (finite : is_finite_version e.at_version ≡ true) where
  shown : visible e.at_version e ≡ true
  unfolding visible
  shown = ground (arith, finite, leb_refl e.at_version)

  keep-ordered_events-last :
      keep (visible e.at_version) (ordered_events (log c ++ e ∷ []))
      ≡ keep (visible e.at_version) (ordered_events (log c)) ++ e ∷ []
  unfolding ordered_events
  keep-ordered_events-last =
      let d = dedup_events (log c) in
      rw (dedup_events-append_new (log c) e named new) (
        simp (keep-stable_sort, keep-append, shown)
          (stable_sort-append e (keep (visible e.at_version) d) (visible-NotBefore e d)))

  -- Let an event have a non-empty id that the log does not name, and a finite version. After it
  -- is appended, the state as of its version is the earlier state as of that version with the
  -- event applied.
  pub replay-append_now :
      replay (with_event c e) e.at_version ≡ apply_comment_event (replay c e.at_version) e
  unfolding replay empty_state
  replay-append_now =
      let v = e.at_version in
      let st = empty_state c in
      let old = keep (visible v) (ordered_events (log c)) in
      replay_events-keep v st (ordered_events (log c ++ e ∷ []))
      ∙ ap (replay_events v st) keep-ordered_events-last
      ∙ replay_events-append v st old (e ∷ [])
      ∙ one (replay_events v st old)
      ∙ ap (λ s. apply_comment_event s e) (sym (replay_events-keep v st (ordered_events (log c))))
    where
      one : (s : FoldState) → replay_events e.at_version s (e ∷ []) ≡ apply_comment_event s e
      one s = unfold replay_events in rw shown
