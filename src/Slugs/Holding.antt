-- ===== src/Slugs/Holding.antt =====
-- The lock and unlock of an entry's mutex keep the invariant (internal/platform/sluglock/sluglock.go).
use octo_docs_html_fork.Prelude.{
  ℕ, ◌<◌, String, ◌≡◌, refl, sym, ap, ◌∙◌, subst, Option, none, some, arith, get_elem?, set, eqb,
  Bool-cases, inl, inr,
}
use octo_docs_html_fork.Slugs.Lock.{Entry, Pc, State, update, set_holder, move}
use octo_docs_html_fork.Slugs.Threads.{uses, bit, users, users-set, each-set}
use octo_docs_html_fork.Slugs.Invariant.{Held, Owned, IsIndex, Inv, Owned-kept}

-- A new holder of one entry leaves the holder of another, and of that one only if it was not held.
pub holder-update :
    (heap : ℕ → Entry) (e e' : ℕ) (v : Entry) (o : Option ℕ)
    → ((heap e).holder ≡ o → v.holder ≡ o)
    → (heap e').holder ≡ o
    → (update heap e v e').holder ≡ o
holder-update heap e e' v o same_holder h = elim (Bool-cases (eqb e e')) [
  | inl same ↦
      let is_e : e ≡ e' = ground arith in rw same (same_holder (ap (λ x. (heap x).holder) is_e ∙ h))
  | inr differ ↦ rw differ h
]

module _ (s : State) (inv : Inv s) where
  waiters-set_holder :
      (e : ℕ) (who : Option ℕ) (e' : ℕ)
      → ((set_holder s e who).heap e').waiters ≡ (s.heap e').waiters
  unfolding set_holder
  waiters-set_holder e who e' = elim (Bool-cases (eqb e e')) [
    | inl same ↦ let is_e : e ≡ e' = ground arith in rw same (ap (λ x. (s.heap x).waiters) is_e)
    | inr differ ↦ rw differ refl
  ]

  -- The map is as before, and so are the counts.
  set_holder-IsIndex : (e i : ℕ) (who : Option ℕ) (p : Pc) → IsIndex (move (set_holder s e who) i p)
  unfolding set_holder move
  set_holder-IsIndex e i who p = record {
    one_key = inv.index.one_key;
    allocated = inv.index.allocated;
    in_use =
        λ k e' h. subst (λ n. 0 < n) (sym (waiters-set_holder e who e')) (inv.index.in_use k e' h);
  }

  set_holder-counted :
      (e i : ℕ) (who : Option ℕ) (p q : Pc)
      → get_elem? s.pc i ≡ some p
      → ((e' : ℕ) → uses e' q ≡ uses e' p)
      → (e' : ℕ) → ((set_holder s e who).heap e').waiters ≡ users e' (set s.pc i q)
  set_holder-counted e i who p q at_i alike e' = omega (
    arith,
    waiters-set_holder e who e',
    inv.counted e',
    users-set e' s.pc i p q at_i,
    ap bit (alike e'),
  )

  pub enter-Inv :
      (i : ℕ) (key : String) (e : ℕ)
      → get_elem? s.pc i ≡ some (Pc.waiting key e)
      → (s.heap e).holder ≡ none
      → Inv (move (set_holder s e (some i)) i (Pc.inside key e))
  unfolding move set_holder
  enter-Inv i key e at_i free = record {
    held =
        each-set (λ j p. Held s.locks p) s.pc i (Pc.inside key e)
          (inv.held i (Pc.waiting key e) at_i) (λ j p differ at_j. inv.held j p at_j);
    owned =
        each-set (λ j p. Owned (set_holder s e (some i)).heap j p) s.pc i (Pc.inside key e)
          (ground arith)
          (λ j p differ at_j.
            Owned-kept s.heap (set_holder s e (some i)).heap j p
              (λ e' used owns. holder-update s.heap e e' _ (some j) (λ taken. absurd (cc)) owns)
              (inv.owned j p at_j));
    counted =
        set_holder-counted e i (some i) (Pc.waiting key e) (Pc.inside key e) at_i (λ e'. refl);
    index = set_holder-IsIndex e i (some i) (Pc.inside key e);
  }

  pub leave-Inv :
      (i : ℕ) (key : String) (e : ℕ)
      → get_elem? s.pc i ≡ some (Pc.inside key e)
      → Inv (move (set_holder s e none) i (Pc.unlocked key e))
  unfolding move set_holder
  leave-Inv i key e at_i = record {
    held =
        each-set (λ j p. Held s.locks p) s.pc i (Pc.unlocked key e)
          (inv.held i (Pc.inside key e) at_i) (λ j p differ at_j. inv.held j p at_j);
    owned =
        each-set (λ j p. Owned (set_holder s e none).heap j p) s.pc i (Pc.unlocked key e) tt
          (λ j p differ at_j.
            Owned-kept s.heap (set_holder s e none).heap j p
              (λ e' used owns.
                holder-update s.heap e e' _ (some j)
                  (λ taken. let mine = inv.owned i (Pc.inside key e) at_i in absurd (ground arith))
                  owns)
              (inv.owned j p at_j));
    counted = set_holder-counted e i none (Pc.inside key e) (Pc.unlocked key e) at_i (λ e'. refl);
    index = set_holder-IsIndex e i none (Pc.unlocked key e);
  }
