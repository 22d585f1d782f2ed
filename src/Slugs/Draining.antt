-- ===== src/Slugs/Draining.antt =====
-- Calls of With end (internal/platform/sluglock/sluglock.go): no thread waits for ever while the
-- threads in a call are let run.
use octo_docs_html_fork.Prelude.{
  ℕ, zero, suc, ◌+◌, ◌*◌, ◌≤◌, ◌<◌, String, ◌≡◌, refl, sym, ap, ◌∙◌, none, some, List, [], ◌∷◌,
  arith, get_elem?, set, length, eqb, Bool-cases, Option-cases, ◌⊎◌, inl, inr,
}
use octo_docs_html_fork.Prelude.Dict.{get}
use octo_docs_html_fork.Slugs.Lock.{Pc, State, release, set_holder, move, Step, Reach}
use octo_docs_html_fork.Slugs.Threads.{uses}
use octo_docs_html_fork.Slugs.Exclusion.{key_in_flight}
use octo_docs_html_fork.Slugs.Holder.{HasHolders, Reach-HasHolders}

-- the steps that a thread's call still has to make
abbrev pub steps_left : Pc → ℕ
steps_left Pc.idle = 0
steps_left (Pc.unlocked key e) = 1
steps_left (Pc.inside key e) = 2
steps_left (Pc.waiting key e) = 3

abbrev pub load : List Pc → ℕ
load [] = 0
load (p ∷ ps) = steps_left p + load ps

-- A step of a call that has started.
abbrev pub IsAdvance : {s t : State} → Step s t → Type 0
IsAdvance (Step.start i key at_i) = ⊥
IsAdvance (Step.enter i key e at_i free) = Unit
IsAdvance (Step.leave i key e at_i) = Unit
IsAdvance (Step.finish i key e at_i) = Unit

-- `k` steps, and no call starts.
pub data Drain : State → ℕ → State → Type 0 where
  done : {s : State} → Drain s 0 s
  next :
      {s : State} {k : ℕ} {t u : State} (step : Step s t)
      → IsAdvance step
      → Drain t k u
      → Drain s (suc k) u

load-set :
    (ps : List Pc) (i : ℕ) (p q : Pc)
    → get_elem? ps i ≡ some p
    → load (set ps i q) + steps_left p ≡ load ps + steps_left q
load-set [] i p q h = absurd (cc)
load-set (x ∷ ps) zero p q h = let same : x ≡ p = cc in rw same (omega arith)
load-set (x ∷ ps) (suc i) p q h = omega (arith, load-set ps i p q h)

load-bound : (ps : List Pc) → load ps ≤ 3 * length ps
load-bound [] = omega arith
load-bound (Pc.idle ∷ ps) = omega (arith, load-bound ps)
load-bound (Pc.unlocked key e ∷ ps) = omega (arith, load-bound ps)
load-bound (Pc.inside key e ∷ ps) = omega (arith, load-bound ps)
load-bound (Pc.waiting key e ∷ ps) = omega (arith, load-bound ps)

Step-load : {s t : State} (step : Step s t) → IsAdvance step → suc (load t.pc) ≡ load s.pc
unfolding move set_holder release
Step-load (Step.start i key at_i) never = absurd never
Step-load {s} (Step.enter i key e at_i free) _ =
    omega (arith, load-set s.pc i (Pc.waiting key e) (Pc.inside key e) at_i)
Step-load {s} (Step.leave i key e at_i) _ =
    omega (arith, load-set s.pc i (Pc.inside key e) (Pc.unlocked key e) at_i)
Step-load {s} (Step.finish i key e at_i) _ =
    omega (arith, load-set s.pc i (Pc.unlocked key e) Pc.idle at_i)

Drain-load : {s t : State} {k : ℕ} → Drain s k t → k + load t.pc ≡ load s.pc
Drain-load Drain.done = omega arith
Drain-load (Drain.next step advance rest) = omega (arith, Step-load step advance, Drain-load rest)

busy :
    (ps : List Pc)
    → 0 < load ps
    → (i : ℕ) × (p : Pc) × (get_elem? ps i ≡ some p) × (0 < steps_left p)
busy [] h = absurd (omega arith)
busy (Pc.idle ∷ ps) h = let (i, p, at_i, left) = busy ps (omega arith) in (suc i, p, at_i, left)
busy (Pc.unlocked key e ∷ ps) h = (0, _, refl, omega arith)
busy (Pc.inside key e ∷ ps) h = (0, _, refl, omega arith)
busy (Pc.waiting key e ∷ ps) h = (0, _, refl, omega arith)

idle_of_load :
    (ps : List Pc) → load ps ≡ 0 → (i : ℕ) (p : Pc) → get_elem? ps i ≡ some p → p ≡ Pc.idle
idle_of_load [] h i p at_i = absurd (cc)
idle_of_load (Pc.idle ∷ ps) h zero p at_i = cc
idle_of_load (Pc.idle ∷ ps) h (suc i) p at_i = idle_of_load ps (omega arith) i p at_i
idle_of_load (Pc.unlocked key e ∷ ps) h i p at_i = absurd (omega arith)
idle_of_load (Pc.inside key e ∷ ps) h i p at_i = absurd (omega arith)
idle_of_load (Pc.waiting key e ∷ ps) h i p at_i = absurd (omega arith)

-- A thread that waits enters, or the one that holds the mutex leaves.
abbrev pub Moves : State → Type 0
Moves s = (t : State) × (step : Step s t) × IsAdvance step

advance :
    (s : State)
    → HasHolders s
    → (i : ℕ) (p : Pc) → get_elem? s.pc i ≡ some p
    → 0 < steps_left p
    → Moves s
advance s ok i Pc.idle at_i left = absurd (omega arith)
advance s ok i (Pc.unlocked key e) at_i left = (_, Step.finish i key e at_i, tt)
advance s ok i (Pc.inside key e) at_i left = (_, Step.leave i key e at_i, tt)
advance s ok i (Pc.waiting key e) at_i left = elim (Option-cases (s.heap e).holder) [
  | inl free ↦ (_, Step.enter i key e at_i free, tt)
  | inr taken ↦ let (k, at_j) = ok.holds e taken.0 taken.1 in (_, Step.leave taken.0 k e at_j, tt)
]

-- Every thread is idle, and the map is empty.
pub record IsQuiet (s : State) : Type 0 where
  pub all_idle : (i : ℕ) (p : Pc) → get_elem? s.pc i ≡ some p → p ≡ Pc.idle
  pub no_key : (key : String) → get s.locks key ≡ none

quiet : {n : ℕ} {s : State} → Reach n s → load s.pc ≡ 0 → IsQuiet s
quiet {n} {s} r h = record {
  all_idle = idle_of_load s.pc h;
  no_key = λ key. elim (Option-cases (get s.locks key)) [
    | inl gone ↦ gone
    | inr there ↦
        let (i, p, at_i, used) = key_in_flight r key there.0 there.1 in
        let is_idle = idle_of_load s.pc h i p at_i in
        absurd (let no = sym used ∙ ap (uses there.0) is_idle in cc)
  ];
}

run_from :
    {n : ℕ} (m : ℕ) (s : State) → Reach n s → load s.pc ≡ m → (t : State) × Drain s m t × IsQuiet t
run_from zero s r h = (s, Drain.done, quiet r h)
run_from (suc m) s r h =
    let (i, p, at_i, left) = busy s.pc (omega arith) in
    let (t, step, goes) = advance s (Reach-HasHolders r) i p at_i left in
    let (u, run, rests) = run_from m t (Reach.later r step) (omega (arith, Step-load step goes)) in
    (u, Drain.next step goes run, rests)

-- From every reachable state, for any number of threads, the steps that the calls in flight have
-- left can be made, and they lead to a state in which every thread is idle and the map holds no
-- key: no thread is stuck, and no entry leaks.
pub drains : {n : ℕ} {s : State} → Reach n s → (t : State) × Drain s (load s.pc) t × IsQuiet t
drains {n} {s} r = run_from (load s.pc) s r refl

Drain-Reach : {n k : ℕ} {s t : State} → Reach n s → Drain s k t → Reach n t
Drain-Reach r Drain.done = r
Drain-Reach r (Drain.next step advances rest) = Drain-Reach (Reach.later r step) rest

-- However the steps of the calls in flight are scheduled from a reachable state, a run in which
-- no call starts has at most three steps for each thread; and in the state to which it leads
-- either such a step can be made still, or every thread is idle and the map holds no key.
pub run_ends :
    {n k : ℕ} {s t : State}
    → Reach n s
    → Drain s k t
    → (k ≤ 3 * length s.pc) × (Moves t ⊎ IsQuiet t)
run_ends {n} {k} {s} {t} r run =
    let ended = Drain-Reach r run in
    (
      omega (arith, Drain-load run, load-bound s.pc),
      elim (Bool-cases (eqb (load t.pc) 0)) [
        | inl over ↦ inr (quiet ended (ground (arith, over)))
        | inr left ↦
            let (i, p, at_i, more) = busy t.pc (ground (arith, left)) in
            inl (advance t (Reach-HasHolders ended) i p at_i more)
      ],
    )
