-- ===== src/Ops/Merge.antt =====
-- The loop over LocalComments in opPublishMerge (internal/core/ops.go).
use octo_docs_html_fork.Prelude.{
  String, Bool, true, false, not, ◌&&◌, ◌||◌, ◌≡◌, ◌≢◌, refl, List, [], ◌∷◌, ◌++◌, ◌==◌, arith,
  eq_iff, contains, Distinct, Bool-cases, text_cases, ◌⊎◌, inl, inr, Option, none, some,
}
use octo_docs_html_fork.World.{World}
use octo_docs_html_fork.Types.{CommentEvent, Comment}
use octo_docs_html_fork.Events.Migrate.{ensure_event_log, ensure_by, migrate, backfill_log}
use octo_docs_html_fork.Ops.Handlers.{nonempty_ids, take_local, merge_local}

&&-false : (b : Bool) → (b && false) ≡ false
&&-false true = refl
&&-false false = refl

ensure_by-id :
    (o : Option (List CommentEvent)) (c : Comment) (w : World) → (ensure_by o c w).0.0.id ≡ c.id
unfolding ensure_by backfill_log migrate
ensure_by-id (some es) c w = refl
ensure_by-id none c w = ground arith

ensure_event_log-id : (c : Comment) (w : World) → (ensure_event_log c w).0.0.id ≡ c.id
unfolding ensure_event_log
ensure_event_log-id c w = ensure_by-id c.events c w

nonempty_ids-append :
    (cs xs : List Comment) → nonempty_ids (cs ++ xs) ≡ nonempty_ids cs ++ nonempty_ids xs
unfolding nonempty_ids
nonempty_ids-append [] xs = refl
nonempty_ids-append (c ∷ cs) xs = ground (arith, nonempty_ids-append cs xs)

-- The ids taken are those of the local comments that the list does not have.
contains-take_local :
    (k : String) (have : List String) (cs : List Comment) (w : World)
    → contains k (nonempty_ids (take_local have cs w).0)
      ≡ (contains k (nonempty_ids cs) && not (contains k have))
unfolding take_local nonempty_ids
contains-take_local k have [] w = refl
contains-take_local k have (c ∷ cs) w = elim (Bool-cases (c.id == "")) [
  | inl no_id ↦ rw no_id (contains-take_local k have cs w)
  | inr has_id ↦ elim (Bool-cases (contains c.id have)) [
    | inl had ↦ rw (has_id, had, contains-take_local k have cs w) (skipped (text_cases c.id k) had)
    | inr new ↦
        let w' = (ensure_event_log c w).1 in
        rw (has_id, new, ensure_event_log-id c w, has_id, contains-take_local k (c.id ∷ have) cs w')
          (taken (text_cases c.id k) new)
  ]
]
  where
    skipped :
        ((c.id ≡ k) × ((c.id == k) ≡ true)) ⊎ ((c.id ≢ k) × ((c.id == k) ≡ false))
        → contains c.id have ≡ true
        → (contains k (nonempty_ids cs) && not (contains k have))
          ≡ ((c.id == k || contains k (nonempty_ids cs)) && not (contains k have))
    skipped (inl (same, test)) had = let has = rw same at had in rw (test, has, &&-false)
    skipped (inr (differ, test)) had = rw test

    taken :
        ((c.id ≡ k) × ((c.id == k) ≡ true)) ⊎ ((c.id ≢ k) × ((c.id == k) ≡ false))
        → contains c.id have ≡ false
        → (c.id == k || (contains k (nonempty_ids cs) && not (c.id == k || contains k have)))
          ≡ ((c.id == k || contains k (nonempty_ids cs)) && not (contains k have))
    taken (inl (same, test)) new = let lacks = rw same at new in rw (test, lacks)
    taken (inr (differ, test)) new = rw test

take_local-Distinct :
    (have : List String) (cs : List Comment) (w : World)
    → Distinct (nonempty_ids (take_local have cs w).0)
unfolding take_local nonempty_ids
take_local-Distinct have [] w = tt
take_local-Distinct have (c ∷ cs) w =
    let w' = (ensure_event_log c w).1 in
    ground (
      arith,
      ensure_event_log-id c w,
      eq_iff c.id c.id,
      take_local-Distinct have cs w,
      take_local-Distinct (c.id ∷ have) cs w',
      contains-take_local c.id (c.id ∷ have) cs w',
    )

contains-append :
    (k : String) (xs ys : List String) → contains k (xs ++ ys) ≡ (contains k xs || contains k ys)
contains-append k [] ys = refl
contains-append k (x ∷ xs) ys = ground (arith, contains-append k xs ys)

Distinct-append :
    (xs ys : List String)
    → Distinct xs
    → Distinct ys
    → ((k : String) → contains k xs ≡ true → contains k ys ≡ false)
    → Distinct (xs ++ ys)
Distinct-append [] ys dx dy apart = dy
Distinct-append (x ∷ xs) ys dx dy apart = (
  ground (arith, contains-append x xs ys, dx.0, apart x, eq_iff x x),
  Distinct-append xs ys dx.1 dy (λ k h. apart k (ground (arith, h))),
)

union : (a b : Bool) → (a || (b && not a)) ≡ (a || b)
union a b = ground arith

-- After a publish merge has appended local comments, the list names the non-empty ids of the list
-- and of the local comments, and no others.
contains-merge_local :
    (k : String) (cs local : List Comment) (w : World)
    → contains k (nonempty_ids (cs ++ (merge_local cs local w).0))
      ≡ (contains k (nonempty_ids cs) || contains k (nonempty_ids local))
unfolding merge_local
contains-merge_local k cs local w =
    let taken = (take_local (nonempty_ids cs) local w).0 in
    rw (nonempty_ids-append cs taken, contains-append)
      (rw (contains-take_local k (nonempty_ids cs) local w)
        (union (contains k (nonempty_ids cs)) (contains k (nonempty_ids local))))

-- If no non-empty id stands twice in the list, none does after a publish merge has appended local
-- comments.
merge_local-Distinct :
    (cs local : List Comment) (w : World)
    → Distinct (nonempty_ids cs)
    → Distinct (nonempty_ids (cs ++ (merge_local cs local w).0))
unfolding merge_local
merge_local-Distinct cs local w d =
    let taken = (take_local (nonempty_ids cs) local w).0 in
    rw (nonempty_ids-append cs taken, Distinct)
      (Distinct-append (nonempty_ids cs) (nonempty_ids taken) d
        (take_local-Distinct (nonempty_ids cs) local w)
        (λ k h. ground (arith, contains-take_local k (nonempty_ids cs) local w, h)))

-- What a publish merge that appends local comments makes of a list.
pub record IsMerged (cs local merged : List Comment) : Type 0 where
  pub names :
      (k : String)
      → contains k (nonempty_ids merged)
        ≡ (contains k (nonempty_ids cs) || contains k (nonempty_ids local))
  pub distinct : Distinct (nonempty_ids cs) → Distinct (nonempty_ids merged)

-- After a publish merge has appended local comments, the list names the non-empty ids of the list
-- and of the local comments, and no others; and no non-empty id stands twice in it if none did in
-- the list.
pub merge_local-IsMerged :
    (cs local : List Comment) (w : World) → IsMerged cs local (cs ++ (merge_local cs local w).0)
merge_local-IsMerged cs local w = record {
  names = λ k. contains-merge_local k cs local w;
  distinct = merge_local-Distinct cs local w;
}
