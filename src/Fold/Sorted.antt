-- ===== src/Fold/Sorted.antt =====
-- The stable sort of orderedEvents (internal/core/fold.go), and what a fold over it can see.
use octo_docs_html_fork.Prelude.{
  Bool, true, ◌≡◌, refl, List, [], ◌∷◌, arith, keep, All, All-map, Bool-cases, inl, inr,
  if◌then◌else◌,
}
use octo_docs_html_fork.Prelude.Int.{leb_ℤ, ltb_ℤ, leb_trans, leb_total, leb-ltb}
use octo_docs_html_fork.Types.{CommentEvent}
use octo_docs_html_fork.Fold.Order.{insert_event, stable_sort}

abbrev pub NotBefore : CommentEvent → CommentEvent → Type 0
NotBefore e x = leb_ℤ e.at_version x.at_version ≡ true

-- Every event stands before the events of later versions.
abbrev pub IsSorted : List CommentEvent → Type 0
IsSorted [] = Unit
IsSorted (e ∷ es) = All (NotBefore e) es × IsSorted es

All-insert_event :
    (P : CommentEvent → Type 0) (e : CommentEvent) (es : List CommentEvent)
    → P e
    → All P es
    → All P (insert_event e es)
unfolding insert_event
All-insert_event P e [] h hs = (h, tt)
All-insert_event P e (x ∷ es) h hs = elim (Bool-cases (ltb_ℤ x.at_version e.at_version)) [
  | inl later ↦ rw later (hs.0, All-insert_event P e es h hs.1)
  | inr here ↦ rw here (h, hs)
]

insert_event-IsSorted :
    (e : CommentEvent) (es : List CommentEvent) → IsSorted es → IsSorted (insert_event e es)
unfolding insert_event
insert_event-IsSorted e [] s = (tt, tt)
insert_event-IsSorted e (x ∷ es) s = elim (Bool-cases (ltb_ℤ x.at_version e.at_version)) [
  | inl later ↦ rw later (
    All-insert_event (NotBefore x) e es (leb-ltb x.at_version e.at_version later) s.0,
    insert_event-IsSorted e es s.1,
  )
  | inr here ↦
      let le = leb_total x.at_version e.at_version here in
      rw here ((le, All-map (λ y. leb_trans e.at_version x.at_version y.at_version le) es s.0), s)
]

stable_sort-IsSorted : (es : List CommentEvent) → IsSorted (stable_sort es)
unfolding stable_sort
stable_sort-IsSorted [] = tt
stable_sort-IsSorted (e ∷ es) = insert_event-IsSorted e (stable_sort es) (stable_sort-IsSorted es)

-- An event goes in front of a list of events that are not before it.
insert_event_front :
    (p : CommentEvent → Bool) (e : CommentEvent) (es : List CommentEvent)
    → All (NotBefore e) es
    → insert_event e (keep p es) ≡ e ∷ keep p es
unfolding insert_event
insert_event_front p e [] h = refl
insert_event_front p e (x ∷ es) h = elim (Bool-cases (p x)) [
  | inl kept ↦ rw kept (ground (arith, h.0))
  | inr dropped ↦ rw dropped (insert_event_front p e es h.1)
]

keep-insert_event :
    (p : CommentEvent → Bool) (e : CommentEvent) (es : List CommentEvent)
    → IsSorted es
    → keep p (insert_event e es) ≡ (if p e then insert_event e (keep p es) else keep p es)
unfolding insert_event
keep-insert_event p e [] s = ground arith
keep-insert_event p e (x ∷ es) s = elim (Bool-cases (ltb_ℤ x.at_version e.at_version)) [
  | inl later ↦ ground (arith, keep-insert_event p e es s.1)
  | inr here ↦
      let le = leb_total x.at_version e.at_version here in
      let later = All-map (λ y. leb_trans e.at_version x.at_version y.at_version le) es s.0 in
      rw here (ground (arith, insert_event_front p e (x ∷ es) (le, later)))
]

-- To sort and then select is to select and then sort.
pub keep-stable_sort :
    (p : CommentEvent → Bool) (es : List CommentEvent)
    → keep p (stable_sort es) ≡ stable_sort (keep p es)
unfolding stable_sort
keep-stable_sort p [] = refl
keep-stable_sort p (e ∷ es) =
    ground (
      arith,
      keep-insert_event p e (stable_sort es) (stable_sort-IsSorted es),
      keep-stable_sort p es,
    )
