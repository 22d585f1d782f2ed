-- ===== src/Events/Dedup/Last.antt =====
-- The map lastByEID of DedupEvents (internal/core/events.go) against a plain search.
use octo_docs_html_fork.Prelude.{
  String, true, false, ◌≡◌, ◌≢◌, refl, Option, none, some, List, [], ◌∷◌, ◌++◌, ◌==◌, eq_iff, arith,
  contains, Option-cases, inl, inr, if◌then◌else◌,
}
use octo_docs_html_fork.Prelude.Dict.{Dict, get, put, get-put}
use octo_docs_html_fork.Types.{CommentEvent}
use octo_docs_html_fork.Events.Log.{last_by_eid}

-- The ids that the events carry, in order; an event without an id adds none.
abbrev pub eids : List CommentEvent → List String
eids [] = []
eids (e ∷ es) = if e.eid == "" then eids es else e.eid ∷ eids es

-- The last event with a given id.
abbrev pub find_last : String → List CommentEvent → Option CommentEvent
find_last k [] = none
find_last k (e ∷ es) = elim (find_last k es) [
  | some x ↦ some x
  | none ↦ if e.eid == k then some e else none
]

abbrev pub or_else {ℓ} : {A : Type ℓ} → Option A → Option A → Option A
or_else (some a) b = some a
or_else none b = b

-- After the first loop the map holds the last event of each id.
pub get-last_by_eid :
    (k : String) (es : List CommentEvent) (m : Dict CommentEvent)
    → k ≢ ""
    → get (last_by_eid es m) k ≡ or_else (find_last k es) (get m k)
unfolding last_by_eid
get-last_by_eid k [] m h = refl
get-last_by_eid k (e ∷ es) m h = ground (
  arith,
  get-last_by_eid k es (if e.eid == "" then m else put m e.eid e) h,
  get-put m e.eid k e,
  eq_iff e.eid "",
  eq_iff e.eid k,
)

pub find_last-eid :
    (k : String) (es : List CommentEvent) (e : CommentEvent) → find_last k es ≡ some e → e.eid ≡ k
find_last-eid k [] e h = ground arith
find_last-eid k (x ∷ es) e h = ground (arith, find_last-eid k es e, eq_iff x.eid k)

-- An id that no event carries is not found.
pub find_last-absent :
    (k : String) (es : List CommentEvent)
    → k ≢ ""
    → contains k (eids es) ≡ false
    → find_last k es ≡ none
find_last-absent k [] h n = refl
find_last-absent k (e ∷ es) h n =
    ground (arith, find_last-absent k es h, eq_iff e.eid k, eq_iff e.eid "")

-- An id that some event carries is found.
pub find_last-present :
    (k : String) (es : List CommentEvent)
    → contains k (eids es) ≡ true
    → (e : CommentEvent) × (find_last k es ≡ some e)
find_last-present k [] h = ground arith
find_last-present k (e ∷ es) h = elim (Option-cases (find_last k es)) [
  | inr (x, p) ↦ (x, ground arith)
  | inl p ↦ (e, ground (arith, eq_iff e.eid k, find_last-present k es))
]

pub find_last-append :
    (k : String) (es xs : List CommentEvent)
    → find_last k (es ++ xs) ≡ or_else (find_last k xs) (find_last k es)
find_last-append k [] xs = ground arith
find_last-append k (e ∷ es) xs = ground (arith, find_last-append k es xs)
