-- ===== src/Slugs/Threads.antt =====
-- The threads of internal/platform/sluglock/sluglock.go, counted by the entry that they use.
use octo_docs_html_fork.Prelude.{
  ℕ, zero, suc, ◌+◌, ◌<◌, Bool, true, false, ◌≡◌, refl, subst, some, List, [], ◌∷◌, arith,
  get_elem?, set, eqb,
}
use octo_docs_html_fork.Slugs.Lock.{Pc}

-- Whether a thread uses an entry.
abbrev pub uses : ℕ → Pc → Bool
uses e Pc.idle = false
uses e (Pc.waiting key e') = eqb e' e
uses e (Pc.inside key e') = eqb e' e
uses e (Pc.unlocked key e') = eqb e' e

abbrev pub bit : Bool → ℕ
bit true = 1
bit false = 0

abbrev pub users : ℕ → List Pc → ℕ
users e [] = 0
users e (p ∷ ps) = bit (uses e p) + users e ps

-- One thread moves.
pub users-set :
    (e : ℕ) (ps : List Pc) (i : ℕ) (p q : Pc)
    → get_elem? ps i ≡ some p
    → users e (set ps i q) + bit (uses e p) ≡ users e ps + bit (uses e q)
users-set e [] i p q h = absurd (cc)
users-set e (x ∷ ps) zero p q h = let same : x ≡ p = cc in rw same (omega arith)
users-set e (x ∷ ps) (suc i) p q h = omega (arith, users-set e ps i p q h)

pub users-pos :
    (e : ℕ) (ps : List Pc) (i : ℕ) (p : Pc)
    → get_elem? ps i ≡ some p
    → uses e p ≡ true
    → 0 < users e ps
users-pos e [] i p h used = absurd (cc)
users-pos e (x ∷ ps) zero p h used = let same : x ≡ p = cc in rw (same, used) (omega arith)
users-pos e (x ∷ ps) (suc i) p h used = omega (arith, users-pos e ps i p h used)

pub users-zero :
    (e : ℕ) (ps : List Pc)
    → ((i : ℕ) (p : Pc) → get_elem? ps i ≡ some p → uses e p ≡ false)
    → users e ps ≡ 0
users-zero e [] h = refl
users-zero e (x ∷ ps) h =
    rw (h 0 x refl) (omega (arith, users-zero e ps (λ i p at_i. h (suc i) p at_i)))

pub get_elem?-set_other :
    (ps : List Pc) (i j : ℕ) (q : Pc) → eqb i j ≡ false → get_elem? (set ps i q) j ≡ get_elem? ps j
get_elem?-set_other [] i j q h = refl
get_elem?-set_other (x ∷ ps) zero zero q h = absurd (ground arith)
get_elem?-set_other (x ∷ ps) zero (suc j) q h = refl
get_elem?-set_other (x ∷ ps) (suc i) zero q h = refl
get_elem?-set_other (x ∷ ps) (suc i) (suc j) q h = get_elem?-set_other ps i j q (ground arith)

-- What holds of the thread that moves and of every other thread holds of every thread.
pub each-set :
    (Q : ℕ → Pc → Type 0) (ps : List Pc) (i : ℕ) (q : Pc)
    → Q i q
    → ((j : ℕ) (p : Pc) → eqb i j ≡ false → get_elem? ps j ≡ some p → Q j p)
    → (j : ℕ) (p : Pc) → get_elem? (set ps i q) j ≡ some p
    → Q j p
each-set Q [] i q moved others j p h = absurd (cc)
each-set Q (x ∷ ps) zero q moved others zero p h = let same : q ≡ p = cc in subst (Q 0) same moved
each-set Q (x ∷ ps) zero q moved others (suc j) p h = others (suc j) p (ground arith) h
each-set Q (x ∷ ps) (suc i) q moved others zero p h = others 0 p (ground arith) h
each-set Q (x ∷ ps) (suc i) q moved others (suc j) p h =
    each-set (λ k r. Q (suc k) r) ps i q moved
      (λ k r differ at_k. others (suc k) r (ground arith) at_k) j p h
