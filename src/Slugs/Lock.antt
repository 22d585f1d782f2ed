-- ===== src/Slugs/Lock.antt =====
-- internal/platform/sluglock/sluglock.go. An entry is an address of the heap. A thread that runs With
-- makes four atomic steps: `acquire` under the map's mutex; the lock of the entry's mutex, once it is
-- free; its unlock after `fn`; and `release` under the map's mutex. The deferred calls run in the
-- reverse order of their defer statements, so the unlock comes before the release.
use octo_docs_html_fork.Prelude.{
  ℕ, ◌+◌, ◌-◌, String, ◌≡◌, Option, none, some, List, get_elem?, set, eqb, if◌then◌else◌,
}
use octo_docs_html_fork.Prelude.Dict.{Dict, get, put, remove}

-- `holder` is the thread that has locked the entry's mutex.
pub record Entry : Type 0 where
  pub holder : Option ℕ
  pub waiters : ℕ

-- where a thread stands, with its key and the entry that it got
pub data Pc : Type 0 where
  idle : Pc
  waiting inside unlocked : String → ℕ → Pc

-- The addresses from `next` on are free.
pub record State : Type 0 where
  pub locks : Dict ℕ
  pub heap : ℕ → Entry
  pub next : ℕ
  pub pc : List Pc

abbrev pub update {ℓ} : {A : Type ℓ} → (ℕ → A) → ℕ → A → ℕ → A
update f i v j = if eqb i j then v else f j

-- e.waiters++
unfoldable pub count_in : State → ℕ → State
count_in s e = record s {
  heap = update s.heap e (record (s.heap e) { waiters = (s.heap e).waiters + 1 });
}

-- e = &entry{}; m.locks[key] = e
unfoldable pub allocate : State → String → State
allocate s key = record s {
  locks = put s.locks key s.next;
  heap = update s.heap s.next (record { holder = none; waiters = 0 });
  next = s.next + 1;
}

-- acquire, where the look-up has found `found`
unfoldable pub acquire_found : Option ℕ → State → String → ℕ × State
unfolding count_in allocate
acquire_found (some e) s key = (e, count_in s e)
acquire_found none s key = (s.next, count_in (allocate s key) s.next)

unfoldable pub acquire : State → String → ℕ × State
unfolding acquire_found
acquire s key = acquire_found (get s.locks key) s key

-- if e.waiters == 0 { delete(m.locks, key) }
unfoldable pub reclaim : Dict ℕ → String → ℕ → Dict ℕ
reclaim locks key waiters = if eqb waiters 0 then remove locks key else locks

unfoldable pub release : State → String → ℕ → State
unfolding reclaim
release s key e =
    let left = (s.heap e).waiters - 1 in
    record s {
      locks = reclaim s.locks key left;
      heap = update s.heap e (record (s.heap e) { waiters = left });
    }

unfoldable pub set_holder : State → ℕ → Option ℕ → State
set_holder s e who = record s { heap = update s.heap e (record (s.heap e) { holder = who }) }

unfoldable pub move : State → ℕ → Pc → State
move s i p = record s { pc = set s.pc i p }

-- A With whose context is done returns before it touches the lock, which is no step here.
pub data Step (s : State) : State → Type 0 where
  start :
      (i : ℕ) (key : String)
      → get_elem? s.pc i ≡ some Pc.idle
      → Step s (move (acquire s key).1 i (Pc.waiting key (acquire s key).0))
  enter :
      (i : ℕ) (key : String) (e : ℕ)
      → get_elem? s.pc i ≡ some (Pc.waiting key e)
      → (s.heap e).holder ≡ none
      → Step s (move (set_holder s e (some i)) i (Pc.inside key e))
  leave :
      (i : ℕ) (key : String) (e : ℕ)
      → get_elem? s.pc i ≡ some (Pc.inside key e)
      → Step s (move (set_holder s e none) i (Pc.unlocked key e))
  finish :
      (i : ℕ) (key : String) (e : ℕ)
      → get_elem? s.pc i ≡ some (Pc.unlocked key e)
      → Step s (move (release s key e) i Pc.idle)

-- `n` threads before the first call, on the result of NewMemory
abbrev pub idle_threads : ℕ → List Pc
idle_threads ℕ.zero = List.[]
idle_threads (ℕ.suc n) = List.◌∷◌ Pc.idle (idle_threads n)

abbrev pub initial : ℕ → State
initial n = record {
  locks = List.[];
  heap = λ e. record { holder = none; waiters = 0 };
  next = 0;
  pc = idle_threads n;
}

pub data Reach (n : ℕ) : State → Type 0 where
  begin : Reach n (initial n)
  later : {s t : State} → Reach n s → Step s t → Reach n t
