-- ===== src/Examples/Locking.antt =====
-- Examples of the slug lock (internal/platform/sluglock).
use octo_docs_html_fork.Prelude.{ℕ, ◌*◌, ◌≤◌, ◌≡◌, refl, none, some, true, ◌⊎◌, get_elem?, length}
use octo_docs_html_fork.Prelude.Dict.{get, put}
use octo_docs_html_fork.Slugs.Lock.{Pc, State, acquire, set_holder, move, Step, initial, Reach}
use octo_docs_html_fork.Slugs.Threads.{uses}
use octo_docs_html_fork.Slugs.Exclusion.{mutual_exclusion, key_in_flight}
use octo_docs_html_fork.Slugs.Draining.{IsQuiet, Drain, load, Moves, run_ends, drains}

-- Thread 0 of two has got the entry of a key.
abbrev acquired : State
acquired = move (acquire (initial 2) "a").1 0 (Pc.waiting "a" (acquire (initial 2) "a").0)

-- It runs under the lock.
abbrev locked : State
locked = move (set_holder acquired 0 (some 0)) 0 (Pc.inside "a" 0)

locked-Reach : Reach 2 locked
unfolding acquire set_holder move get put
locked-Reach =
    Reach.later (Reach.later Reach.begin (Step.start 0 "a" refl)) (Step.enter 0 "a" 0 refl refl)

mutual_exclusion_example : ◌≡◌ {A = ℕ} 0 0
unfolding acquire set_holder move get put
mutual_exclusion_example = mutual_exclusion locked-Reach 0 0 "a" 0 0 refl refl

key_in_flight_example : (i : ℕ) × (p : Pc) × (get_elem? locked.pc i ≡ some p) × (uses 0 p ≡ true)
unfolding acquire set_holder move get put
key_in_flight_example = key_in_flight locked-Reach "a" 0 refl

drains_example : (t : State) × Drain locked (load locked.pc) t × IsQuiet t
drains_example = drains locked-Reach

-- Thread 0 has left.
abbrev freed : State
freed = move (set_holder locked 0 none) 0 (Pc.unlocked "a" 0)

run_ends_example : (1 ≤ 3 * length locked.pc) × (Moves freed ⊎ IsQuiet freed)
unfolding acquire set_holder move get put
run_ends_example =
    run_ends {k = 1} {s = locked} locked-Reach (Drain.next (Step.leave 0 "a" 0 refl) tt Drain.done)
