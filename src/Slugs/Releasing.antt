-- ===== src/Slugs/Releasing.antt =====
-- release keeps the invariant (internal/platform/sluglock/sluglock.go).
use octo_docs_html_fork.Prelude.{
  ℕ, ◌+◌, ◌-◌, ◌<◌, String, true, false, ◌≡◌, refl, sym, ap, ◌∙◌, subst, some, ◌==◌, arith, eq_iff,
  get_elem?, set, eqb, Bool-cases, inl, inr,
}
use octo_docs_html_fork.Prelude.Dict.{Dict, get, remove, get-remove}
use octo_docs_html_fork.Slugs.Lock.{Entry, Pc, State, reclaim, release, move}
use octo_docs_html_fork.Slugs.Threads.{
  uses, bit, users, users-set, users-pos, each-set, get_elem?-set_other,
}
use octo_docs_html_fork.Slugs.Invariant.{Held, Owned, IsIndex, Inv, Held-kept, Owned-kept}
use octo_docs_html_fork.Slugs.Holding.{holder-update}

-- Reclamation adds no key.
reclaim-sub :
    (locks : Dict ℕ) (key : String) (left : ℕ) (k : String) (e : ℕ)
    → get (reclaim locks key left) k ≡ some e
    → get locks k ≡ some e
unfolding reclaim
reclaim-sub locks key left k e h = elim (Bool-cases (eqb left 0)) [
  | inl gone ↦
      let found : get (remove locks key) k ≡ some e = ground (arith, gone) in
      ground (arith, get-remove locks key k)
  | inr stays ↦ ground (arith, stays)
]

-- A reclaimed key is not found.
reclaim-gone : (locks : Dict ℕ) (key : String) (e : ℕ) → get (reclaim locks key 0) key ≡ some e → ⊥
unfolding reclaim
reclaim-gone locks key e h = ground (arith, get-remove locks key key, eq_iff key key)

reclaim-pos : (locks : Dict ℕ) (key : String) (left : ℕ) → 0 < left → reclaim locks key left ≡ locks
unfolding reclaim
reclaim-pos locks key left h = ground arith

reclaim-other :
    (locks : Dict ℕ) (key : String) (left : ℕ) (k : String)
    → (key == k) ≡ false
    → get (reclaim locks key left) k ≡ get locks k
unfolding reclaim
reclaim-other locks key left k differ = elim (Bool-cases (eqb left 0)) [
  | inl gone ↦ rw gone (get-remove locks key k ∙ rw differ refl)
  | inr stays ↦ rw stays refl
]

module _ (s : State) (inv : Inv s) (i : ℕ) (key : String) (e : ℕ)
    (at_i : get_elem? s.pc i ≡ some (Pc.unlocked key e)) where
  mine : get s.locks key ≡ some e
  mine = inv.held i (Pc.unlocked key e) at_i

  waiters-release :
      (e' : ℕ) → ((release s key e).heap e').waiters + bit (eqb e e') ≡ (s.heap e').waiters
  unfolding release
  waiters-release e' = elim (Bool-cases (eqb e e')) [
    | inl same ↦
        let is_e : e ≡ e' = ground arith in
        let used : 0 < (s.heap e).waiters = inv.index.in_use key e mine in
        rw same
          (subst (λ x. (s.heap e).waiters - 1 + 1 ≡ (s.heap x).waiters) is_e (omega (arith, used)))
    | inr differ ↦ rw differ (omega arith)
  ]

  release-counted : (e' : ℕ) → ((release s key e).heap e').waiters ≡ users e' (set s.pc i Pc.idle)
  release-counted e' = omega (
    arith,
    waiters-release e',
    inv.counted e',
    users-set e' s.pc i (Pc.unlocked key e) Pc.idle at_i,
  )

  -- While another thread uses the entry, a waiter is left.
  left-pos :
      (j : ℕ) (p : Pc)
      → eqb i j ≡ false
      → get_elem? s.pc j ≡ some p
      → uses e p ≡ true
      → 0 < (s.heap e).waiters - 1
  left-pos j p differ at_j used =
      let there = get_elem?-set_other s.pc i j Pc.idle differ ∙ at_j in
      ground (
        arith,
        users-pos e (set s.pc i Pc.idle) j p there used,
        release-counted e,
        waiters-release e,
      )

  -- Another thread's key is not reclaimed.
  release-keeps :
      (j : ℕ) (p : Pc) (k : String) (e' : ℕ)
      → eqb i j ≡ false
      → get_elem? s.pc j ≡ some p
      → uses e' p ≡ true
      → get s.locks k ≡ some e'
      → get (release s key e).locks k ≡ some e'
  unfolding release reclaim
  release-keeps j p k e' differ at_j used there = elim (Bool-cases (key == k)) [
    | inr other ↦ reclaim-other s.locks key _ k other ∙ there
    | inl same ↦
        let is_key : key ≡ k = (eq_iff key k).0 same in
        let again : some e ≡ some e' = sym mine ∙ ap (get s.locks) is_key ∙ there in
        let is_e : e' ≡ e = cc in
        let left = left-pos j p differ at_j (subst (λ x. uses x p ≡ true) is_e used) in
        ap (λ l. get l k) (reclaim-pos s.locks key _ left) ∙ there
  ]

  release-IsIndex : IsIndex (move (release s key e) i Pc.idle)
  unfolding release move
  release-IsIndex = record {
    one_key = λ k k' e' h h'.
        inv.index.one_key k k' e' (reclaim-sub s.locks key _ k e' h)
          (reclaim-sub s.locks key _ k' e' h');
    allocated = λ k e' h. inv.index.allocated k e' (reclaim-sub s.locks key _ k e' h);
    in_use = λ k e' h. elim (Bool-cases (eqb e e')) [
      | inr differ ↦ rw differ (inv.index.in_use k e' (reclaim-sub s.locks key _ k e' h))
      | inl same ↦
          let is_e : e' ≡ e = ground arith in
          let there : get s.locks k ≡ some e = reclaim-sub s.locks key _ k e' h ∙ ap some is_e in
          let is_key : k ≡ key = inv.index.one_key k key e there mine in
          elim (Bool-cases (eqb ((s.heap e).waiters - 1) 0)) [
            | inr some_left ↦ rw same (ground (arith, some_left))
            | inl gone ↦
                let none_left : (s.heap e).waiters - 1 ≡ 0 = ground (arith, gone) in
                absurd (
                  reclaim-gone s.locks key e' (
                    subst (λ x. get (reclaim s.locks key x) key ≡ some e') none_left
                      (subst (λ x. get (reclaim s.locks key ((s.heap e).waiters - 1)) x ≡ some e')
                        is_key h)))
          ]
    ];
  }

  pub finish-Inv : Inv (move (release s key e) i Pc.idle)
  unfolding move release
  finish-Inv =
      let heap' : ℕ → Entry = (release s key e).heap in
      record {
        held =
            each-set (λ j p. Held (release s key e).locks p) s.pc i Pc.idle tt
              (λ j p differ at_j.
                Held-kept s.locks (release s key e).locks p
                  (λ k e' used there. release-keeps j p k e' differ at_j used there)
                  (inv.held j p at_j));
        owned =
            each-set (λ j p. Owned heap' j p) s.pc i Pc.idle tt
              (λ j p differ at_j.
                Owned-kept s.heap heap' j p
                  (λ e' used owns. holder-update s.heap e e' _ (some j) (λ h. h) owns)
                  (inv.owned j p at_j));
        counted = release-counted;
        index = release-IsIndex;
      }
