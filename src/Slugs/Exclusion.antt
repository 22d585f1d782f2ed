-- ===== src/Slugs/Exclusion.antt =====
-- What internal/platform/sluglock/sluglock.go promises: one thread at a time for each key, and a map
-- that is bounded by the keys in flight.
use octo_docs_html_fork.Prelude.{
  ℕ, suc, ◌<◌, String, true, ◌≡◌, refl, some, List, [], ◌∷◌, arith, get_elem?, Bool-cases, inl, inr,
}
use octo_docs_html_fork.Prelude.Dict.{get}
use octo_docs_html_fork.Slugs.Lock.{Pc, State, Step, Reach}
use octo_docs_html_fork.Slugs.Threads.{uses, users}
use octo_docs_html_fork.Slugs.Invariant.{Inv, initial-Inv}
use octo_docs_html_fork.Slugs.Holding.{enter-Inv, leave-Inv}
use octo_docs_html_fork.Slugs.Acquiring.{start-Inv}
use octo_docs_html_fork.Slugs.Releasing.{finish-Inv}

Step-Inv : {s t : State} → Inv s → Step s t → Inv t
Step-Inv {s} inv (Step.start i key at_i) = start-Inv s inv i key at_i
Step-Inv {s} inv (Step.enter i key e at_i free) = enter-Inv s inv i key e at_i free
Step-Inv {s} inv (Step.leave i key e at_i) = leave-Inv s inv i key e at_i
Step-Inv {s} inv (Step.finish i key e at_i) = finish-Inv s inv i key e at_i

pub Reach-Inv : {n : ℕ} {s : State} → Reach n s → Inv s
Reach-Inv {n} Reach.begin = initial-Inv n
Reach-Inv (Reach.later before step) = Step-Inv (Reach-Inv before) step

-- In every reachable state, for any number of threads, two threads that run under the lock of one
-- key are the same thread.
pub mutual_exclusion :
    {n : ℕ} {s : State}
    → Reach n s
    → (i j : ℕ) (key : String) (e e' : ℕ) → get_elem? s.pc i ≡ some (Pc.inside key e)
    → get_elem? s.pc j ≡ some (Pc.inside key e')
    → i ≡ j
mutual_exclusion {s} r i j key e e' at_i at_j =
    let inv = Reach-Inv r in
    let held = inv.held i (Pc.inside key e) at_i in
    let held' = inv.held j (Pc.inside key e') at_j in
    let owned = inv.owned i (Pc.inside key e) at_i in
    let owned' = inv.owned j (Pc.inside key e') at_j in cc

users-some :
    (e : ℕ) (ps : List Pc)
    → 0 < users e ps
    → (i : ℕ) × (p : Pc) × (get_elem? ps i ≡ some p) × (uses e p ≡ true)
users-some e [] h = absurd (omega arith)
users-some e (x ∷ ps) h = elim (Bool-cases (uses e x)) [
  | inl used ↦ (0, x, refl, used)
  | inr free ↦
      let (i, p, at_i, used) = users-some e ps (ground (arith, free)) in (suc i, p, at_i, used)
]

-- In every reachable state the map holds a key only while some thread uses the key's entry.
pub key_in_flight :
    {n : ℕ} {s : State}
    → Reach n s
    → (key : String) (e : ℕ) → get s.locks key ≡ some e
    → (i : ℕ) × (p : Pc) × (get_elem? s.pc i ≡ some p) × (uses e p ≡ true)
key_in_flight {s} r key e h =
    let inv = Reach-Inv r in
    users-some e s.pc (omega (arith, inv.counted e, inv.index.in_use key e h))
