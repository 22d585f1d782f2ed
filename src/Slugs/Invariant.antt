-- ===== src/Slugs/Invariant.antt =====
-- What holds in every reachable state of internal/platform/sluglock/sluglock.go.
use octo_docs_html_fork.Prelude.{
  ℕ, zero, suc, ◌<◌, String, true, ◌≡◌, sym, ap, ◌∙◌, subst, some, [], arith, get_elem?,
}
use octo_docs_html_fork.Prelude.Dict.{Dict, get}
use octo_docs_html_fork.Slugs.Lock.{Entry, Pc, State, idle_threads, initial}
use octo_docs_html_fork.Slugs.Threads.{uses, users, users-zero}

-- A thread's entry is the one that the map holds under its key.
abbrev pub Held : Dict ℕ → Pc → Type 0
Held locks Pc.idle = Unit
Held locks (Pc.waiting key e) = get locks key ≡ some e
Held locks (Pc.inside key e) = get locks key ≡ some e
Held locks (Pc.unlocked key e) = get locks key ≡ some e

-- A thread inside has locked its entry.
abbrev pub Owned : (ℕ → Entry) → ℕ → Pc → Type 0
Owned heap i (Pc.inside key e) = (heap e).holder ≡ some i
Owned heap i _ = Unit

-- The map: no two keys share an entry, each entry is allocated and in use.
pub record IsIndex (s : State) : Type 0 where
  pub one_key : (k k' : String) (e : ℕ) → get s.locks k ≡ some e → get s.locks k' ≡ some e → k ≡ k'
  pub allocated : (k : String) (e : ℕ) → get s.locks k ≡ some e → e < s.next
  pub in_use : (k : String) (e : ℕ) → get s.locks k ≡ some e → 0 < (s.heap e).waiters

pub record Inv (s : State) : Type 0 where
  pub held : (i : ℕ) (p : Pc) → get_elem? s.pc i ≡ some p → Held s.locks p
  pub owned : (i : ℕ) (p : Pc) → get_elem? s.pc i ≡ some p → Owned s.heap i p
  pub counted : (e : ℕ) → (s.heap e).waiters ≡ users e s.pc
  pub index : IsIndex s

-- A thread that uses an entry has it under some key.
pub used_key :
    (locks : Dict ℕ) (p : Pc) (e : ℕ)
    → Held locks p
    → uses e p ≡ true
    → (k : String) × (get locks k ≡ some e)
used_key locks Pc.idle e h used = absurd (cc)
used_key locks (Pc.waiting key e') e h used =
    (key, let same : e' ≡ e = ground arith in h ∙ ap some same)
used_key locks (Pc.inside key e') e h used =
    (key, let same : e' ≡ e = ground arith in h ∙ ap some same)
used_key locks (Pc.unlocked key e') e h used =
    (key, let same : e' ≡ e = ground arith in h ∙ ap some same)

-- A change of the map that keeps a thread's key keeps what it holds.
pub Held-kept :
    (locks locks' : Dict ℕ) (p : Pc)
    → ((k : String) (e : ℕ) → uses e p ≡ true → get locks k ≡ some e → get locks' k ≡ some e)
    → Held locks p
    → Held locks' p
Held-kept locks locks' Pc.idle keeps h = tt
Held-kept locks locks' (Pc.waiting key e) keeps h = keeps key e (ground arith) h
Held-kept locks locks' (Pc.inside key e) keeps h = keeps key e (ground arith) h
Held-kept locks locks' (Pc.unlocked key e) keeps h = keeps key e (ground arith) h

-- A change of the heap that keeps the holder of a thread's entry keeps what it owns.
pub Owned-kept :
    (heap heap' : ℕ → Entry) (i : ℕ) (p : Pc)
    → ((e : ℕ) → uses e p ≡ true → (heap e).holder ≡ some i → (heap' e).holder ≡ some i)
    → Owned heap i p
    → Owned heap' i p
Owned-kept heap heap' i Pc.idle keeps h = tt
Owned-kept heap heap' i (Pc.waiting key e) keeps h = tt
Owned-kept heap heap' i (Pc.inside key e) keeps h = keeps e (ground arith) h
Owned-kept heap heap' i (Pc.unlocked key e) keeps h = tt

idle-pc : (n i : ℕ) (p : Pc) → get_elem? (idle_threads n) i ≡ some p → p ≡ Pc.idle
idle-pc zero i p h = absurd (cc)
idle-pc (suc n) zero p h = cc
idle-pc (suc n) (suc i) p h = idle-pc n i p h

pub initial-Inv : (n : ℕ) → Inv (initial n)
unfolding get
initial-Inv n = record {
  held = λ i p h. subst (Held []) (sym (idle-pc n i p h)) tt;
  owned = λ i p h. subst (Owned (initial n).heap i) (sym (idle-pc n i p h)) tt;
  counted = λ e. sym (users-zero e (idle_threads n) (λ i p h. ap (uses e) (idle-pc n i p h)));
  index = record {
    one_key = λ k k' e h h'. absurd (cc);
    allocated = λ k e h. absurd (cc);
    in_use = λ k e h. absurd (cc);
  };
}
