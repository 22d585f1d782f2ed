-- ===== src/Slugs/Acquiring.antt =====
-- acquire keeps the invariant (internal/platform/sluglock/sluglock.go).
use octo_docs_html_fork.Prelude.{
  ℕ, ◌+◌, ◌<◌, String, true, false, ◌≡◌, refl, sym, ap, ◌∙◌, subst, Option, none, some, ◌==◌, ◌⊎◌,
  arith, eq_iff, eq_refl, get_elem?, set, eqb, Bool-cases, inl, inr, if◌then◌else◌,
}
use octo_docs_html_fork.Prelude.Dict.{get, put, get-put}
use octo_docs_html_fork.Slugs.Lock.{
  Entry, Pc, State, count_in, allocate, acquire_found, acquire, move,
}
use octo_docs_html_fork.Slugs.Threads.{uses, bit, users, users-set, users-zero, each-set}
use octo_docs_html_fork.Slugs.Invariant.{Held, Owned, IsIndex, Inv, used_key, Held-kept, Owned-kept}
use octo_docs_html_fork.Slugs.Holding.{holder-update}

-- One more waiter of one entry.
waiters-count_in :
    (s : State) (e e' : ℕ) → ((count_in s e).heap e').waiters ≡ (s.heap e').waiters + bit (eqb e e')
unfolding count_in
waiters-count_in s e e' = elim (Bool-cases (eqb e e')) [
  | inl same ↦ let is_e : e ≡ e' = ground arith in rw same (ap (λ x. (s.heap x).waiters + 1) is_e)
  | inr differ ↦ rw differ (omega arith)
]

module _ (s : State) (inv : Inv s) (i : ℕ) (key : String)
    (at_i : get_elem? s.pc i ≡ some Pc.idle) where
  -- the map has the key
  found-Inv : (e : ℕ) → get s.locks key ≡ some e → Inv (move (count_in s e) i (Pc.waiting key e))
  unfolding move count_in
  found-Inv e found =
      let heap' : ℕ → Entry = (count_in s e).heap in
      record {
        held =
            each-set (λ j p. Held s.locks p) s.pc i (Pc.waiting key e) found
              (λ j p differ at_j. inv.held j p at_j);
        owned =
            each-set (λ j p. Owned heap' j p) s.pc i (Pc.waiting key e) tt
              (λ j p differ at_j.
                Owned-kept s.heap heap' j p
                  (λ e' used owns. holder-update s.heap e e' _ (some j) (λ h. h) owns)
                  (inv.owned j p at_j));
        counted = λ e'. omega (
          arith,
          waiters-count_in s e e',
          inv.counted e',
          users-set e' s.pc i Pc.idle (Pc.waiting key e) at_i,
        );
        index = record {
          one_key = inv.index.one_key;
          allocated = inv.index.allocated;
          in_use = λ k e' h. omega (arith, waiters-count_in s e e', inv.index.in_use k e' h);
        };
      }

  -- No thread uses an entry that is not allocated.
  unused : (j : ℕ) (p : Pc) → get_elem? s.pc j ≡ some p → uses s.next p ≡ false
  unused j p at_j = elim (Bool-cases (uses s.next p)) [
    | inr free ↦ free
    | inl used ↦
        let (k, there) = used_key s.locks p s.next (inv.held j p at_j) used in
        absurd (omega (arith, inv.index.allocated k s.next there))
  ]

  -- the heap after the allocation and the first waiter
  waiters_fresh :
      (e : ℕ)
      → ((count_in (allocate s key) s.next).heap e).waiters
        ≡ (if eqb s.next e then 1 else (s.heap e).waiters)
  unfolding allocate
  waiters_fresh e = waiters-count_in (allocate s key) s.next e ∙ elim (Bool-cases (eqb s.next e)) [
    | inl same ↦ rw same refl
    | inr differ ↦ rw differ (omega arith)
  ]

  module _ (missing : get s.locks key ≡ none) where
    get-put_fresh :
        (k : String) (e : ℕ)
        → get (put s.locks key s.next) k ≡ some e
        → ((key ≡ k) × (e ≡ s.next)) ⊎ (get s.locks k ≡ some e)
    get-put_fresh k e h = elim (Bool-cases (key == k)) [
      | inl same ↦ inl ((eq_iff key k).0 same, ground (arith, get-put s.locks key k s.next))
      | inr differ ↦ inr (ground (arith, get-put s.locks key k s.next))
    ]

    get-put_kept :
        (k : String) (e : ℕ) → get s.locks k ≡ some e → get (put s.locks key s.next) k ≡ some e
    get-put_kept k e there = elim (Bool-cases (key == k)) [
      | inl same ↦
          let is_key : key ≡ k = (eq_iff key k).0 same in
          absurd (let gone = sym missing ∙ ap (get s.locks) is_key ∙ there in cc)
      | inr differ ↦ get-put s.locks key k s.next ∙ rw differ there
    ]

    fresh-counted :
        (e : ℕ)
        → ((count_in (allocate s key) s.next).heap e).waiters
          ≡ users e (set s.pc i (Pc.waiting key s.next))
    fresh-counted e =
        let moved = users-set e s.pc i Pc.idle (Pc.waiting key s.next) at_i in
        waiters_fresh e ∙ elim (Bool-cases (eqb s.next e)) [
          | inl same ↦
              let is_next : s.next ≡ e = ground arith in
              let none_before : users e s.pc ≡ 0 =
                subst (λ x. users x s.pc ≡ 0) is_next (users-zero s.next s.pc unused) in
              ground (arith, moved, none_before)
          | inr differ ↦ ground (arith, moved, inv.counted e)
        ]

    fresh-IsIndex : IsIndex (move (count_in (allocate s key) s.next) i (Pc.waiting key s.next))
    unfolding allocate count_in move
    fresh-IsIndex = record {
      one_key = λ k k' e h h'. elim (get-put_fresh k e h) [
        | inl here ↦ elim (get-put_fresh k' e h') [
          | inl here' ↦ sym here.0 ∙ here'.0
          | inr there' ↦ absurd (omega (arith, here.1, inv.index.allocated k' e there'))
        ]
        | inr there ↦ elim (get-put_fresh k' e h') [
          | inl here' ↦ absurd (omega (arith, here'.1, inv.index.allocated k e there))
          | inr there' ↦ inv.index.one_key k k' e there there'
        ]
      ];
      allocated = λ k e h. elim (get-put_fresh k e h) [
        | inl here ↦ omega (arith, here.1)
        | inr there ↦ omega (arith, inv.index.allocated k e there)
      ];
      in_use = λ k e h.
          subst (λ n. 0 < n) (sym (waiters_fresh e))
            (elim (get-put_fresh k e h) [
              | inl here ↦ ground (arith, here.1)
              | inr there ↦ ground (arith, inv.index.in_use k e there)
            ]);
    }

    -- The fresh entry is used by no thread before, so each other entry keeps its holder.
    fresh-holder :
        (j : ℕ) (p : Pc) (e : ℕ)
        → get_elem? s.pc j ≡ some p
        → uses e p ≡ true
        → (s.heap e).holder ≡ some j
        → ((count_in (allocate s key) s.next).heap e).holder ≡ some j
    unfolding allocate count_in
    fresh-holder j p e at_j used owns = elim (Bool-cases (eqb s.next e)) [
      | inl same ↦
          let is_next : s.next ≡ e = ground arith in
          let free : uses e p ≡ false = subst (λ x. uses x p ≡ false) is_next (unused j p at_j) in
          absurd (cc)
      | inr differ ↦ rw differ owns
    ]

    fresh-Inv : Inv (move (count_in (allocate s key) s.next) i (Pc.waiting key s.next))
    unfolding move count_in allocate
    fresh-Inv =
        let heap' : ℕ → Entry = (count_in (allocate s key) s.next).heap in
        record {
          held =
              each-set (λ j p. Held (put s.locks key s.next) p) s.pc i (Pc.waiting key s.next)
                (get-put s.locks key key s.next ∙ rw (eq_refl key) refl)
                (λ j p differ at_j.
                  Held-kept s.locks (put s.locks key s.next) p
                    (λ k e used there. get-put_kept k e there) (inv.held j p at_j));
          owned =
              each-set (λ j p. Owned heap' j p) s.pc i (Pc.waiting key s.next) tt
                (λ j p differ at_j.
                  Owned-kept s.heap heap' j p (λ e used owns. fresh-holder j p e at_j used owns)
                    (inv.owned j p at_j));
          counted = fresh-counted;
          index = fresh-IsIndex;
        }

  acquire_found-Inv :
      (o : Option ℕ)
      → get s.locks key ≡ o
      → Inv (move (acquire_found o s key).1 i (Pc.waiting key (acquire_found o s key).0))
  unfolding acquire_found
  acquire_found-Inv none missing = fresh-Inv missing
  acquire_found-Inv (some e) found = found-Inv e found

  -- A thread that has acquired an entry waits for it.
  pub start-Inv : Inv (move (acquire s key).1 i (Pc.waiting key (acquire s key).0))
  unfolding acquire
  start-Inv = acquire_found-Inv (get s.locks key) refl
