-- ===== src/Events/Dedup/Fixed.antt =====
-- Where DedupEvents of internal/core/events.go changes nothing.
use octo_docs_html_fork.Prelude.{
  ◌≤◌, String, true, false, ◌≡◌, ◌≢◌, refl, some, List, [], ◌∷◌, ◌==◌, eq_iff, arith, contains,
  length, ne_of_test, Distinct, All, All-map, Bool-cases, inl, inr,
}
use octo_docs_html_fork.Prelude.Dict.{Dict}
use octo_docs_html_fork.Types.{CommentEvent}
use octo_docs_html_fork.Events.Log.{last_by_eid, value_at, emit, dedup_events}
use octo_docs_html_fork.Events.Dedup.Last.{eids, find_last, find_last-absent}
use octo_docs_html_fork.Events.Dedup.Once.{
  value_at-last, dedup_events-Distinct, find_last-dedup_events, nameless, nameless-dedup_events,
}

-- The map has every event of the list at its id.
abbrev Agrees : Dict CommentEvent → List CommentEvent → Type 0
Agrees m = All (λ e. (e.eid == "") ≡ false → value_at m e.eid ≡ e)

-- No id of the list is marked as emitted.
abbrev Unmarked : List String → List CommentEvent → Type 0
Unmarked emitted = All (λ e. (e.eid == "") ≡ false → contains e.eid emitted ≡ false)

mark :
    (k : String) (emitted : List String) (es : List CommentEvent)
    → contains k (eids es) ≡ false
    → Unmarked emitted es
    → Unmarked (k ∷ emitted) es
mark k emitted [] h u = tt
mark k emitted (e ∷ es) h u = (
  (λ n. ground (arith, eq_iff k e.eid, eq_iff e.eid k, u.0 n)),
  mark k emitted es (ground arith) u.1,
)

emit-Agrees :
    (m : Dict CommentEvent) (es : List CommentEvent) (emitted : List String)
    → Agrees m es
    → Unmarked emitted es
    → Distinct (eids es)
    → emit m es emitted ≡ es
unfolding emit
emit-Agrees m [] emitted agree fresh d = refl
emit-Agrees m (e ∷ es) emitted agree fresh d = ground (
  arith,
  eq_iff e.eid "",
  agree.0,
  fresh.0,
  emit-Agrees m es emitted agree.1 fresh.1,
  emit-Agrees m es (e.eid ∷ emitted) agree.1,
  mark e.eid emitted es,
)

pub find_last-Distinct :
    (es : List CommentEvent)
    → Distinct (eids es)
    → All (λ e. (e.eid == "") ≡ false → find_last e.eid es ≡ some e) es
find_last-Distinct [] d = tt
find_last-Distinct (e ∷ es) d = (
  (λ h. ground (arith, find_last-absent e.eid es (ne_of_test e.eid "" h), eq_iff e.eid e.eid)),
  All-map (λ x f h. ground (arith, f h)) es (find_last-Distinct es (ground arith)),
)

Unmarked-nil : (es : List CommentEvent) → Unmarked [] es
Unmarked-nil [] = tt
Unmarked-nil (e ∷ es) = ((λ h. refl), Unmarked-nil es)

-- A log that names no id twice is left as it is.
pub dedup_events-fixed : (es : List CommentEvent) → Distinct (eids es) → dedup_events es ≡ es
unfolding dedup_events
dedup_events-fixed es d =
    emit-Agrees (last_by_eid es []) es []
      (All-map (λ e found h. value_at-last e.eid es e (ne_of_test e.eid "" h) (found h)) es
        (find_last-Distinct es d))
      (Unmarked-nil es) d

-- A second DedupEvents changes nothing.
pub dedup_events_idem : (es : List CommentEvent) → dedup_events (dedup_events es) ≡ dedup_events es
dedup_events_idem es = dedup_events-fixed (dedup_events es) (dedup_events-Distinct es)

-- What DedupEvents makes of a log.
pub record IsDeduplicated (es es' : List CommentEvent) : Type 0 where
  pub last_kept : (k : String) → k ≢ "" → find_last k es' ≡ find_last k es
  pub distinct : Distinct (eids es')
  pub nameless_kept : nameless es' ≡ nameless es
  pub settled : dedup_events es' ≡ es'

-- The output of DedupEvents holds, under every non-empty id, the last event that the input holds
-- under it; no non-empty id stands twice in it; the events without an id are kept in order; and a
-- second DedupEvents changes nothing.
pub dedup_events-IsDeduplicated : (es : List CommentEvent) → IsDeduplicated es (dedup_events es)
dedup_events-IsDeduplicated es = record {
  last_kept = λ k named. find_last-dedup_events k es named;
  distinct = dedup_events-Distinct es;
  nameless_kept = nameless-dedup_events es;
  settled = dedup_events_idem es;
}

length-emit-le :
    (m : Dict CommentEvent) (es : List CommentEvent) (emitted : List String)
    → length (emit m es emitted) ≤ length es
unfolding emit
length-emit-le m [] emitted = omega arith
length-emit-le m (e ∷ es) emitted =
    ground (arith, length-emit-le m es emitted, length-emit-le m es (e.eid ∷ emitted))

-- The ids of the list are distinct, and none is marked.
abbrev Clear : List String → List CommentEvent → Type 0
Clear emitted es =
    Distinct (eids es) × ((k : String) → contains k emitted ≡ true → contains k (eids es) ≡ false)

-- A loop that skips nothing has met every id once.
length-emit-Clear :
    (m : Dict CommentEvent) (es : List CommentEvent) (emitted : List String)
    → length (emit m es emitted) ≡ length es
    → Clear emitted es
unfolding emit
length-emit-Clear m [] emitted h = (tt, λ k c. refl)
length-emit-Clear m (e ∷ es) emitted h = elim (Bool-cases (e.eid == "")) [
  | inl nameless_event ↦
      let (d, apart) = length-emit-Clear m es emitted (ground arith) in rw nameless_event (d, apart)
  | inr named ↦ elim (Bool-cases (contains e.eid emitted)) [
    | inl marked ↦ absurd (ground (arith, length-emit-le m es emitted))
    | inr new ↦
        let (d, apart) = length-emit-Clear m es (e.eid ∷ emitted) (ground arith) in
        rw named (
          (apart e.eid (ground (arith, eq_iff e.eid e.eid)), d),
          λ k c. ground (arith, eq_iff e.eid k, apart k),
        )
  ]
]

-- DedupEvents removes an event exactly when it changes the log, so the length test of
-- CompactComments misses no change.
pub dedup_events-length :
    (es : List CommentEvent) → length (dedup_events es) ≡ length es → dedup_events es ≡ es
dedup_events-length es h = dedup_events-fixed es (distinct es h)
  where
    distinct : (es : List CommentEvent) → length (dedup_events es) ≡ length es → Distinct (eids es)
    distinct es h = unfold dedup_events in (length-emit-Clear (last_by_eid es []) es [] h).0
