-- ===== src/Events/Dedup/Append.antt =====
-- DedupEvents of internal/core/events.go on a log with one more event.
use mathlib.Core.Bool.{false≢true}
use mathlib.Core.List.{map}
use octo_docs_html_fork.Prelude.{
  String, true, false, ◌||◌, ◌≡◌, ◌≢◌, refl, sym, ◌∙◌, ap, subst, some, List, [], ◌∷◌, ◌++◌,
  append-nil, ◌==◌, eq_iff, arith, contains, ne_of_test, text_cases, All, All-map, inl, inr,
  if◌then◌else◌,
}
use octo_docs_html_fork.Prelude.Dict.{Dict}
use octo_docs_html_fork.Types.{CommentEvent}
use octo_docs_html_fork.Events.Log.{last_by_eid, value_at, emit, dedup_events}
use octo_docs_html_fork.Events.Dedup.Last.{
  eids, find_last, find_last-eid, find_last-present, find_last-append,
}
use octo_docs_html_fork.Events.Dedup.Once.{eids_self, value_at-last}

-- `f` takes the values of one map to those of the other, and keeps the events without an id.
abbrev Carries :
    (CommentEvent → CommentEvent)
    → Dict CommentEvent
    → Dict CommentEvent
    → List CommentEvent
    → Type 0
Carries f m m' = All (λ e.
    ((e.eid == "") ≡ false → value_at m' e.eid ≡ f (value_at m e.eid))
    × ((e.eid == "") ≡ true → f e ≡ e))

emit-Carries :
    (f : CommentEvent → CommentEvent) (m m' : Dict CommentEvent) (es : List CommentEvent)
    (emitted : List String)
    → Carries f m m' es
    → emit m' es emitted ≡ map f (emit m es emitted)
unfolding emit
emit-Carries f m m' [] emitted c = refl
emit-Carries f m m' (e ∷ es) emitted c = ground (
  arith,
  c.0.0,
  c.0.1,
  emit-Carries f m m' es emitted c.1,
  emit-Carries f m m' es (e.eid ∷ emitted) c.1,
)

-- The event behind the log is emitted unless its id was met before.
emit-append :
    (m : Dict CommentEvent) (es : List CommentEvent) (e : CommentEvent) (emitted : List String)
    → e.eid ≢ ""
    → emit m (es ++ e ∷ []) emitted
      ≡ emit m es emitted
        ++ (if contains e.eid emitted || contains e.eid (eids es)
            then []
            else value_at m e.eid ∷ [])
unfolding emit
emit-append m [] e emitted h = ground (arith, eq_iff e.eid "")
emit-append m (x ∷ es) e emitted h = ground (
  arith,
  eq_iff x.eid "",
  eq_iff x.eid e.eid,
  emit-append m es e emitted h,
  emit-append m es e (x.eid ∷ emitted) h,
)

pub map_id {ℓ} : {A : Type ℓ} (xs : List A) → map (λ x. x) xs ≡ xs
map_id [] = refl
map_id (x ∷ xs) = ap (λ ys. x ∷ ys) (map_id xs)

-- The event that takes over the place of the event with its id.
unfoldable pub refresh : CommentEvent → CommentEvent → CommentEvent
refresh e x = if x.eid == e.eid then e else x

module _ (es : List CommentEvent) (e : CommentEvent) (named : e.eid ≢ "") where
  last_appended : value_at (last_by_eid (es ++ e ∷ []) []) e.eid ≡ e
  last_appended =
      value_at-last e.eid (es ++ e ∷ []) e named
        (ground (arith, find_last-append e.eid es (e ∷ []), eq_iff e.eid e.eid))

  last_other :
      (k : String) (x : CommentEvent)
      → k ≢ ""
      → k ≢ e.eid
      → find_last k es ≡ some x
      → value_at (last_by_eid (es ++ e ∷ []) []) k ≡ x
  last_other k x h ne found =
      value_at-last k (es ++ e ∷ []) x h
        (ground (arith, find_last-append k es (e ∷ []), eq_iff e.eid k))

  Carries-refresh : Carries (refresh e) (last_by_eid es []) (last_by_eid (es ++ e ∷ []) []) es
  unfolding refresh
  Carries-refresh = All-map step es (eids_self es)
    where
      carry :
          (x : CommentEvent)
          → ((x.eid == "") ≡ false → contains x.eid (eids es) ≡ true)
          → (x.eid == "") ≡ false
          → value_at (last_by_eid (es ++ e ∷ []) []) x.eid
            ≡ refresh e (value_at (last_by_eid es []) x.eid)
      carry x mem h =
          let (y, found) = find_last-present x.eid es (mem h) in
          let ne = ne_of_test x.eid "" h in
          let own = find_last-eid x.eid es y found in
          rw (value_at-last x.eid es y ne found) (elim (text_cases x.eid e.eid) [
            | inl (same, _) ↦
                ap (λ k. value_at (last_by_eid (es ++ e ∷ []) []) k) same
                ∙ last_appended
                ∙ ground (arith, own, same, eq_iff y.eid e.eid)
            | inr (differ, _) ↦
                ground (arith, own, eq_iff y.eid e.eid, last_other x.eid y ne differ found)
          ])

      step :
          (x : CommentEvent)
          → ((x.eid == "") ≡ false → contains x.eid (eids es) ≡ true)
          → ((x.eid == "") ≡ false
              → value_at (last_by_eid (es ++ e ∷ []) []) x.eid
                ≡ refresh e (value_at (last_by_eid es []) x.eid))
            × ((x.eid == "") ≡ true → refresh e x ≡ x)
      step x mem = (carry x mem, λ h. ground (arith, eq_iff x.eid "", eq_iff x.eid e.eid))

  Carries-same :
      contains e.eid (eids es) ≡ false
      → Carries (λ x. x) (last_by_eid es []) (last_by_eid (es ++ e ∷ []) []) es
  Carries-same absent = All-map step es (eids_self es)
    where
      step :
          (x : CommentEvent)
          → ((x.eid == "") ≡ false → contains x.eid (eids es) ≡ true)
          → ((x.eid == "") ≡ false
              → value_at (last_by_eid (es ++ e ∷ []) []) x.eid ≡ value_at (last_by_eid es []) x.eid)
            × ((x.eid == "") ≡ true → x ≡ x)
      step x mem = (
        (λ h.
            let (y, found) = find_last-present x.eid es (mem h) in
            let ne = ne_of_test x.eid "" h in
            let differ : x.eid ≢ e.eid = λ same.
              false≢true (sym absent ∙ subst (λ k. contains k (eids es) ≡ true) same (mem h)) in
            last_other x.eid y ne differ found ∙ sym (value_at-last x.eid es y ne found)),
        λ h. refl,
      )

  -- A new id goes to the end.
  pub dedup_events-append_new :
      contains e.eid (eids es) ≡ false → dedup_events (es ++ e ∷ []) ≡ dedup_events es ++ e ∷ []
  unfolding dedup_events
  dedup_events-append_new absent =
      let m = last_by_eid (es ++ e ∷ []) [] in
      let kept =
        emit-Carries (λ x. x) (last_by_eid es []) m es [] (Carries-same absent)
        ∙ map_id (emit (last_by_eid es []) es []) in
      rw (emit-append m es e [] named, kept, last_appended, absent)

  -- A known id takes over the place of its first event.
  pub dedup_events-append_known :
      contains e.eid (eids es) ≡ true
      → dedup_events (es ++ e ∷ []) ≡ map (refresh e) (dedup_events es)
  unfolding dedup_events
  dedup_events-append_known known =
      let m = last_by_eid (es ++ e ∷ []) [] in
      rw (emit-append m es e [] named, known, append-nil)
        (emit-Carries (refresh e) (last_by_eid es []) m es [] Carries-refresh)
