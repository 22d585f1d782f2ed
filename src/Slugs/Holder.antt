-- ===== src/Slugs/Holder.antt =====
-- The holder of an entry's mutex is a thread inside (internal/platform/sluglock/sluglock.go).
use octo_docs_html_fork.Prelude.{
  ℕ, zero, suc, String, ◌≡◌, ◌≢◌, refl, sym, ap, ◌∙◌, subst, Option, none, some, List, [], ◌∷◌,
  arith, get_elem?, set, eqb, Bool-cases, ◌⊎◌, inl, inr, if◌then◌else◌,
}
use octo_docs_html_fork.Slugs.Lock.{
  Entry, Pc, State, update, count_in, allocate, acquire_found, acquire, release, set_holder, move,
  Step, Reach,
}
use octo_docs_html_fork.Prelude.Dict.{get}
use octo_docs_html_fork.Slugs.Threads.{get_elem?-set_other}

-- Thread `j` runs under the lock of the entry.
abbrev pub Inside : List Pc → ℕ → ℕ → Type 0
Inside ps j e = (key : String) × (get_elem? ps j ≡ some (Pc.inside key e))

pub record HasHolders (s : State) : Type 0 where
  pub holds : (e j : ℕ) → (s.heap e).holder ≡ some j → Inside s.pc j e

-- the holder before a write of one entry
holder_before :
    (heap : ℕ → Entry) (e0 e : ℕ) (v : Entry) (o : Option ℕ)
    → (update heap e0 v e).holder ≡ o
    → ((e0 ≡ e) × (v.holder ≡ o)) ⊎ ((e0 ≢ e) × ((heap e).holder ≡ o))
holder_before heap e0 e v o h = elim (Bool-cases (eqb e0 e)) [
  | inl same ↦ inl (ground arith, ap (λ b. (if b then v else heap e).holder) (sym same) ∙ h)
  | inr differ ↦ inr (ground arith, ap (λ b. (if b then v else heap e).holder) (sym differ) ∙ h)
]

-- A write that keeps the entry's holder.
holder-kept :
    (heap : ℕ → Entry) (e0 e j : ℕ) (v : Entry)
    → v.holder ≡ (heap e0).holder
    → (update heap e0 v e).holder ≡ some j
    → (heap e).holder ≡ some j
holder-kept heap e0 e j v keeps h = elim (holder_before heap e0 e v (some j) h) [
  | inr other ↦ other.1
  | inl here ↦ ap (λ x. (heap x).holder) (sym here.0) ∙ sym keeps ∙ here.1
]

get_elem?-set_same :
    (ps : List Pc) (i : ℕ) (p q : Pc) → get_elem? ps i ≡ some p → get_elem? (set ps i q) i ≡ some q
get_elem?-set_same [] i p q h = absurd (cc)
get_elem?-set_same (x ∷ ps) zero p q h = refl
get_elem?-set_same (x ∷ ps) (suc i) p q h = get_elem?-set_same ps i p q h

-- A thread that is not inside the entry moves.
Inside-moved :
    (ps : List Pc) (i j e : ℕ) (p q : Pc)
    → get_elem? ps i ≡ some p
    → ((key : String) → p ≡ Pc.inside key e → ⊥)
    → Inside ps j e
    → Inside (set ps i q) j e
Inside-moved ps i j e p q at_i outside (key, at_j) = elim (Bool-cases (eqb i j)) [
  | inr differ ↦ (key, get_elem?-set_other ps i j q differ ∙ at_j)
  | inl same ↦
      let is_i : i ≡ j = ground arith in
      let both : some p ≡ some (Pc.inside key e) = sym at_i ∙ ap (get_elem? ps) is_i ∙ at_j in
      absurd (outside key (cc))
]

module _ (s : State) (ok : HasHolders s) where
  -- A step of a thread outside that changes no holder but to none.
  keep-HasHolders :
      (s' : State) (i : ℕ) (p q : Pc)
      → get_elem? s.pc i ≡ some p
      → ((key : String) (e : ℕ) → p ≡ Pc.inside key e → ⊥)
      → s'.pc ≡ s.pc
      → ((e j : ℕ) → (s'.heap e).holder ≡ some j → (s.heap e).holder ≡ some j)
      → HasHolders (move s' i q)
  unfolding move
  keep-HasHolders s' i p q at_i outside threads before = record {
    holds = λ e j h.
        subst (λ ps. Inside (set ps i q) j e) (sym threads)
          (Inside-moved s.pc i j e p q at_i (λ key is. outside key e is)
            (ok.holds e j (before e j h)));
  }

  acquire_found-HasHolders :
      (i : ℕ) (key : String) (o : Option ℕ)
      → get_elem? s.pc i ≡ some Pc.idle
      → HasHolders (move (acquire_found o s key).1 i (Pc.waiting key (acquire_found o s key).0))
  unfolding acquire_found count_in allocate
  acquire_found-HasHolders i key (some e') at_i =
      keep-HasHolders (count_in s e') i Pc.idle (Pc.waiting key e') at_i (λ k e is. absurd (cc))
        refl (λ e j h. holder-kept s.heap e' e j _ refl h)
  acquire_found-HasHolders i key none at_i =
      let fresh : State = allocate s key in
      keep-HasHolders (count_in fresh s.next) i Pc.idle (Pc.waiting key s.next) at_i
        (λ k e is. absurd (cc)) refl
        (λ e j h.
          elim (holder_before s.heap s.next e _ (some j)
            (holder-kept fresh.heap s.next e j _ refl h)) [
              | inl here ↦ absurd (let no : none ≡ some j = here.1 in cc)
              | inr other ↦ other.1
            ])

  enter-HasHolders :
      (i : ℕ) (key : String) (e0 : ℕ)
      → get_elem? s.pc i ≡ some (Pc.waiting key e0)
      → HasHolders (move (set_holder s e0 (some i)) i (Pc.inside key e0))
  unfolding move set_holder
  enter-HasHolders i key e0 at_i = record {
    holds = λ e j h. elim (holder_before s.heap e0 e _ (some j) h) [
      | inr other ↦
          Inside-moved s.pc i j e _ (Pc.inside key e0) at_i (λ k is. absurd (cc))
            (ok.holds e j other.1)
      | inl here ↦
          let me : some i ≡ some j = here.1 in
          let is_j : i ≡ j = cc in
          subst (λ x. Inside (set s.pc i (Pc.inside key e0)) x e) is_j
            (
              key,
              get_elem?-set_same s.pc i _ (Pc.inside key e0) at_i
                  ∙ ap (λ x. some (Pc.inside key x)) here.0,
            )
    ];
  }

  leave-HasHolders :
      (i : ℕ) (key : String) (e0 : ℕ)
      → get_elem? s.pc i ≡ some (Pc.inside key e0)
      → HasHolders (move (set_holder s e0 none) i (Pc.unlocked key e0))
  unfolding move set_holder
  leave-HasHolders i key e0 at_i = record {
    holds = λ e j h. elim (holder_before s.heap e0 e _ (some j) h) [
      | inl here ↦ absurd (let no : none ≡ some j = here.1 in cc)
      | inr other ↦
          Inside-moved s.pc i j e _ (Pc.unlocked key e0) at_i (λ k is. other.0 (cc))
            (ok.holds e j other.1)
    ];
  }

  release-HasHolders :
      (i : ℕ) (key : String) (e0 : ℕ)
      → get_elem? s.pc i ≡ some (Pc.unlocked key e0)
      → HasHolders (move (release s key e0) i Pc.idle)
  unfolding release
  release-HasHolders i key e0 at_i =
      keep-HasHolders (release s key e0) i _ Pc.idle at_i (λ k e is. absurd (cc)) refl
        (λ e j h. holder-kept s.heap e0 e j _ refl h)

Step-HasHolders : {s t : State} → HasHolders s → Step s t → HasHolders t
unfolding acquire
Step-HasHolders {s} ok (Step.start i key at_i) =
    acquire_found-HasHolders s ok i key (get s.locks key) at_i
Step-HasHolders {s} ok (Step.enter i key e at_i free) = enter-HasHolders s ok i key e at_i
Step-HasHolders {s} ok (Step.leave i key e at_i) = leave-HasHolders s ok i key e at_i
Step-HasHolders {s} ok (Step.finish i key e at_i) = release-HasHolders s ok i key e at_i

pub Reach-HasHolders : {n : ℕ} {s : State} → Reach n s → HasHolders s
Reach-HasHolders Reach.begin = record { holds = λ e j h. absurd (cc) }
Reach-HasHolders (Reach.later before step) = Step-HasHolders (Reach-HasHolders before) step
