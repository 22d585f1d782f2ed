-- ===== src/Render/Closed.antt =====
-- No closing script tag comes through internal/core/render.go.
use mathlib.Core.Bool.{false≢true}
use octo_docs_html_fork.Prelude.{
  ℕ, zero, suc, Bool, true, false, ◌||◌, ◌≡◌, refl, sym, ap, ◌∙◌, List, [], ◌∷◌, length, ltb, eqb,
  arith, All, Bool-cases, inl, inr,
}
use octo_docs_html_fork.Render.Script.{
  lower, starts_fold, tag_name, close_tag, neutralize_from, neutralize_script_close,
}

-- Whether a closing tag begins anywhere in a text.
unfoldable pub has_close : List ℕ → Bool
has_close [] = false
has_close (c ∷ s) = starts_fold close_tag (c ∷ s) || has_close s

-- No byte opens a tag.
abbrev NoOpen : List ℕ → Type 0
NoOpen = All (λ c. eqb c b'<' ≡ false)

-- The next `k` bytes open no tag.
abbrev SkipsNoOpen : ℕ → List ℕ → Type 0
SkipsNoOpen zero s = Unit
SkipsNoOpen (suc k) [] = Unit
SkipsNoOpen (suc k) (c ∷ s) = (eqb c b'<' ≡ false) × SkipsNoOpen k s

module _ (p : ℕ) (ps : List ℕ) (c : ℕ) (s : List ℕ) where
  fold_head :
      starts_fold (p ∷ ps) (c ∷ s) ≡ true
      → (eqb (lower p) (lower c) ≡ true) × (starts_fold ps s ≡ true)
  unfolding starts_fold
  fold_head h = (ground arith, ground arith)

  fold_cons :
      eqb (lower p) (lower c) ≡ true → starts_fold ps s ≡ true → starts_fold (p ∷ ps) (c ∷ s) ≡ true
  unfolding starts_fold
  fold_cons h h' = rw (h, h') refl

module _ (c : ℕ) (s : List ℕ) where
  from_matched :
      starts_fold close_tag (c ∷ s) ≡ true
      → neutralize_from 0 (c ∷ s) ≡ b'<' ∷ b'\\' ∷ neutralize_from 7 s
  unfolding neutralize_from
  from_matched h = rw h refl

  from_other :
      starts_fold close_tag (c ∷ s) ≡ false → neutralize_from 0 (c ∷ s) ≡ c ∷ neutralize_from 0 s
  unfolding neutralize_from
  from_other h = rw h refl

  from_skipped : (k : ℕ) → neutralize_from (suc k) (c ∷ s) ≡ c ∷ neutralize_from k s
  unfolding neutralize_from
  from_skipped k = refl

  has_close-cons :
      starts_fold close_tag (c ∷ s) ≡ false → has_close s ≡ false → has_close (c ∷ s) ≡ false
  unfolding has_close
  has_close-cons h h' = rw (h, h') refl

  -- A tag begins with its opening byte.
  no_open : eqb c b'<' ≡ false → starts_fold close_tag (c ∷ s) ≡ false
  unfolding starts_fold
  no_open h = ground arith

-- The opening byte has no other case.
lower_open : (p : ℕ) → eqb p b'<' ≡ false → eqb (lower p) (lower b'<') ≡ false
lower_open p h = ground arith

neutralize_from-nil : (k : ℕ) → neutralize_from k [] ≡ []
unfolding neutralize_from
neutralize_from-nil k = refl

-- A prefix without an opening byte that the output has, the input has.
starts_fold-neutralize_from :
    (ps : List ℕ) (k : ℕ) (s : List ℕ)
    → NoOpen ps
    → starts_fold ps (neutralize_from k s) ≡ true
    → starts_fold ps s ≡ true
unfolding starts_fold
starts_fold-neutralize_from [] k s free h = refl
starts_fold-neutralize_from (p ∷ ps) k [] free h =
    ap (starts_fold (p ∷ ps)) (sym (neutralize_from-nil k)) ∙ h
starts_fold-neutralize_from (p ∷ ps) (suc k) (c ∷ s) free h =
    let out =
      fold_head p ps c (neutralize_from k s)
        (ap (starts_fold (p ∷ ps)) (sym (from_skipped c s k)) ∙ h) in
    fold_cons p ps c s out.0 (starts_fold-neutralize_from ps k s free.1 out.1)
starts_fold-neutralize_from (p ∷ ps) zero (c ∷ s) free h =
    elim (Bool-cases (starts_fold close_tag (c ∷ s))) [
      | inl matched ↦
          let out =
            fold_head p ps b'<' (b'\\' ∷ neutralize_from 7 s)
              (ap (starts_fold (p ∷ ps)) (sym (from_matched c s matched)) ∙ h) in
          let never = lower_open p free.0 in absurd (false≢true (sym never ∙ out.0))
      | inr other ↦
          let out =
            fold_head p ps c (neutralize_from 0 s)
              (ap (starts_fold (p ∷ ps)) (sym (from_other c s other)) ∙ h) in
          fold_cons p ps c s out.0 (starts_fold-neutralize_from ps 0 s free.1 out.1)
    ]

SkipsNoOpen-starts_fold :
    (ps s : List ℕ) → NoOpen ps → starts_fold ps s ≡ true → SkipsNoOpen (length ps) s
SkipsNoOpen-starts_fold [] s free h = tt
SkipsNoOpen-starts_fold (p ∷ ps) [] free h = tt
SkipsNoOpen-starts_fold (p ∷ ps) (c ∷ s) free h =
    let both = fold_head p ps c s h in
    (ground (arith, free.0, both.0), SkipsNoOpen-starts_fold ps s free.1 both.1)

tag_name-NoOpen : NoOpen tag_name
tag_name-NoOpen = (refl, (refl, (refl, (refl, (refl, (refl, (refl, tt)))))))

-- An untouched byte begins no closing tag in the output, where it begins none in the input.
starts_fold_other :
    (c : ℕ) (s : List ℕ)
    → starts_fold close_tag (c ∷ s) ≡ false
    → starts_fold close_tag (c ∷ neutralize_from 0 s) ≡ false
starts_fold_other c s other = elim (Bool-cases (starts_fold close_tag (c ∷ neutralize_from 0 s))) [
  | inr none_there ↦ none_there
  | inl there ↦
      let out = fold_head b'<' tag_name c (neutralize_from 0 s) there in
      let before = starts_fold-neutralize_from tag_name 0 s tag_name-NoOpen out.1 in
      absurd (false≢true (sym other ∙ fold_cons b'<' tag_name c s out.0 before))
]

open_escaped : (s : List ℕ) → has_close s ≡ false → has_close (b'<' ∷ b'\\' ∷ s) ≡ false
unfolding starts_fold
open_escaped s h = has_close-cons b'<' (b'\\' ∷ s) refl (has_close-cons b'\\' s refl h)

has_close-neutralize_from :
    (k : ℕ) (s : List ℕ) → SkipsNoOpen k s → has_close (neutralize_from k s) ≡ false
unfolding has_close
has_close-neutralize_from k [] free = ap has_close (neutralize_from-nil k)
has_close-neutralize_from (suc k) (c ∷ s) free =
    ap has_close (from_skipped c s k)
    ∙ has_close-cons c (neutralize_from k s) (no_open c (neutralize_from k s) free.0)
        (has_close-neutralize_from k s free.1)
has_close-neutralize_from zero (c ∷ s) free = elim (Bool-cases (starts_fold close_tag (c ∷ s))) [
  | inl matched ↦
      let name = (fold_head b'<' tag_name c s matched).1 in
      ap has_close (from_matched c s matched)
      ∙ open_escaped (neutralize_from 7 s)
          (has_close-neutralize_from 7 s (SkipsNoOpen-starts_fold tag_name s tag_name-NoOpen name))
  | inr other ↦
      ap has_close (from_other c s other)
      ∙ has_close-cons c (neutralize_from 0 s) (starts_fold_other c s other)
          (has_close-neutralize_from 0 s tt)
]

starts_fold_short : (ps s : List ℕ) → ltb (length s) (length ps) ≡ true → starts_fold ps s ≡ false
unfolding starts_fold
starts_fold_short [] s h = absurd (ground arith)
starts_fold_short (p ∷ ps) [] h = refl
starts_fold_short (p ∷ ps) (c ∷ s) h = ground (arith, starts_fold_short ps s)

has_close_short : (s : List ℕ) → ltb (length s) 8 ≡ true → has_close s ≡ false
unfolding has_close
has_close_short [] h = refl
has_close_short (c ∷ s) h =
    has_close-cons c s (starts_fold_short close_tag (c ∷ s) h) (has_close_short s (ground arith))

-- The result of neutralizeScriptClose has no closing script tag, in whatever case.
pub has_close-neutralize_script_close : (s : List ℕ) → has_close (neutralize_script_close s) ≡ false
unfolding neutralize_script_close
has_close-neutralize_script_close s = elim (Bool-cases (ltb (length s) 8)) [
  | inl short ↦ rw short (has_close_short s short)
  | inr long ↦ rw long (has_close-neutralize_from 0 s tt)
]
