-- ===== src/Events/Dedup/Once.antt =====
-- DedupEvents of internal/core/events.go emits each id once, with its last event.
use octo_docs_html_fork.Prelude.{
  String, true, false, ◌≡◌, ◌≢◌, refl, none, some, List, [], ◌∷◌, ◌==◌, eq_iff, arith, contains,
  keep, ne_of_test, Distinct, All, All-map, Bool-cases, inl, inr, if◌then◌else◌,
}
use octo_docs_html_fork.Prelude.Dict.{Dict, get}
use octo_docs_html_fork.Types.{CommentEvent}
use octo_docs_html_fork.Events.Log.{last_by_eid, value_at, emit, dedup_events}
use octo_docs_html_fork.Events.Dedup.Last.{
  eids, find_last, get-last_by_eid, find_last-eid, find_last-absent, find_last-present,
}

-- The map has, at the id of every event of the list, an event with that id.
abbrev pub Keyed : Dict CommentEvent → List CommentEvent → Type 0
Keyed m = All (λ e. (e.eid == "") ≡ false → (value_at m e.eid).eid ≡ e.eid)

-- An id that is marked as emitted is not emitted again.
pub contains-emit :
    (k : String) (m : Dict CommentEvent) (es : List CommentEvent) (emitted : List String)
    → k ≢ ""
    → Keyed m es
    → contains k emitted ≡ true
    → contains k (eids (emit m es emitted)) ≡ false
unfolding emit
contains-emit k m [] emitted h keyed seen = refl
contains-emit k m (e ∷ es) emitted h keyed seen = ground (
  arith,
  eq_iff e.eid "",
  eq_iff e.eid k,
  eq_iff (value_at m e.eid).eid k,
  contains-emit k m es emitted h keyed.1 seen,
  contains-emit k m es (e.eid ∷ emitted) h keyed.1,
  keyed.0,
)

emit-Distinct :
    (m : Dict CommentEvent) (es : List CommentEvent) (emitted : List String)
    → Keyed m es
    → Distinct (eids (emit m es emitted))
unfolding emit
emit-Distinct m [] emitted keyed = tt
emit-Distinct m (e ∷ es) emitted keyed = ground (
  arith,
  eq_iff e.eid "",
  eq_iff e.eid e.eid,
  eq_iff (value_at m e.eid).eid "",
  keyed.0,
  emit-Distinct m es emitted keyed.1,
  emit-Distinct m es (e.eid ∷ emitted) keyed.1,
  contains-emit e.eid m es (e.eid ∷ emitted),
)

pub eids_self :
    (es : List CommentEvent) → All (λ e. (e.eid == "") ≡ false → contains e.eid (eids es) ≡ true) es
eids_self [] = tt
eids_self (e ∷ es) = (
  (λ h. ground (arith, eq_iff e.eid e.eid)),
  All-map (λ x f h. ground (arith, f h)) es (eids_self es),
)

pub value_at-last :
    (k : String) (es : List CommentEvent) (e : CommentEvent)
    → k ≢ ""
    → find_last k es ≡ some e
    → value_at (last_by_eid es []) k ≡ e
unfolding value_at get
value_at-last k es e h found = ground (arith, get-last_by_eid k es [] h)

pub last_by_eid-Keyed : (es : List CommentEvent) → Keyed (last_by_eid es []) es
last_by_eid-Keyed es = All-map keyed es (eids_self es)
  where
    keyed :
        (e : CommentEvent)
        → ((e.eid == "") ≡ false → contains e.eid (eids es) ≡ true)
        → (e.eid == "") ≡ false
        → (value_at (last_by_eid es []) e.eid).eid ≡ e.eid
    keyed e mem h =
        let (x, found) = find_last-present e.eid es (mem h) in
        let named = ne_of_test e.eid "" h in
        rw (value_at-last e.eid es x named found) (find_last-eid e.eid es x found)

-- In the output of DedupEvents no non-empty id stands twice.
pub dedup_events-Distinct : (es : List CommentEvent) → Distinct (eids (dedup_events es))
unfolding dedup_events
dedup_events-Distinct es = emit-Distinct (last_by_eid es []) es [] (last_by_eid-Keyed es)

find_last-emit :
    (k : String) (m : Dict CommentEvent) (es : List CommentEvent) (emitted : List String)
    → k ≢ ""
    → Keyed m es
    → find_last k (emit m es emitted) ≡ (
        if contains k emitted
        then none
        else if contains k (eids es)
        then some (value_at m k)
        else none)
unfolding emit
find_last-emit k m [] emitted h keyed = ground arith
find_last-emit k m (e ∷ es) emitted h keyed = ground (
  arith,
  eq_iff e.eid "",
  eq_iff e.eid k,
  eq_iff (value_at m e.eid).eid k,
  keyed.0,
  find_last-emit k m es emitted h keyed.1,
  find_last-emit k m es (e.eid ∷ emitted) h keyed.1,
)

-- Under every non-empty id the output of DedupEvents holds the last event that the input holds
-- under it.
pub find_last-dedup_events :
    (k : String) (es : List CommentEvent) → k ≢ "" → find_last k (dedup_events es) ≡ find_last k es
unfolding dedup_events
find_last-dedup_events k es h = elim (Bool-cases (contains k (eids es))) [
  | inl has ↦
      let (x, found) = find_last-present k es has in
      ground (
        arith,
        find_last-emit k (last_by_eid es []) es [] h (last_by_eid-Keyed es),
        value_at-last k es x h found,
      )
  | inr lacks ↦ ground (
    arith,
    find_last-emit k (last_by_eid es []) es [] h (last_by_eid-Keyed es),
    find_last-absent k es h lacks,
  )
]

-- The events without an id, which cannot be told apart.
abbrev pub nameless : List CommentEvent → List CommentEvent
nameless = keep (λ e. e.eid == "")

nameless-emit :
    (m : Dict CommentEvent) (es : List CommentEvent) (emitted : List String)
    → Keyed m es
    → nameless (emit m es emitted) ≡ nameless es
unfolding emit
nameless-emit m [] emitted keyed = refl
nameless-emit m (e ∷ es) emitted keyed = ground (
  arith,
  eq_iff e.eid "",
  eq_iff (value_at m e.eid).eid "",
  keyed.0,
  nameless-emit m es emitted keyed.1,
  nameless-emit m es (e.eid ∷ emitted) keyed.1,
)

-- DedupEvents keeps every event that has no id, in order.
pub nameless-dedup_events : (es : List CommentEvent) → nameless (dedup_events es) ≡ nameless es
unfolding dedup_events
nameless-dedup_events es = nameless-emit (last_by_eid es []) es [] (last_by_eid-Keyed es)
