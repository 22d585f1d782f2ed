-- ===== src/Prelude/Lists.antt =====
-- Lists over the native numbers, predicates on lists, and the tests that Go writes as loops.
use Prim.Native.Nat.{ℕ, zero, suc, ◌+◌}
use Prim.Native.String.{String}
use mathlib.Core.Path.{◌≡◌, refl, ap}
use mathlib.Core.Logic.{◌≢◌, ◌⊎◌, inl, inr}
use mathlib.Core.Bool.{Bool, true, false, ◌||◌}
use mathlib.Core.Option.{Option, none, some}
use mathlib.Core.List.{map, List, [], ◌∷◌, ◌++◌}
use native.Mathlib.Omega.{arith}
use text.Mathlib.Text.{◌==◌}
use octo_docs_html_fork.Prelude.Tests.{if◌then◌else◌}

module _ {ℓ} {A : Type ℓ} where
  abbrev pub length : List A → ℕ
  length [] = 0
  length (x ∷ xs) = suc (length xs)

  abbrev pub is_empty : List A → Bool
  is_empty [] = true
  is_empty (x ∷ xs) = false

  pub length-append : (xs ys : List A) → length (xs ++ ys) ≡ length xs + length ys
  length-append [] ys = omega arith
  length-append (x ∷ xs) ys = omega (arith, length-append xs ys)

  pub is_empty-append : (xs ys : List A) → is_empty xs ≡ false → is_empty (xs ++ ys) ≡ false
  is_empty-append [] ys h = ground arith
  is_empty-append (x ∷ xs) ys h = refl

  -- The elements that pass a test, in order.
  abbrev pub keep : (A → Bool) → List A → List A
  keep p [] = []
  keep p (x ∷ xs) = if p x then x ∷ keep p xs else keep p xs

  pub keep-append : (p : A → Bool) (xs ys : List A) → keep p (xs ++ ys) ≡ keep p xs ++ keep p ys
  keep-append p [] ys = refl
  keep-append p (x ∷ xs) ys = ground (arith, keep-append p xs ys)

module _ {ℓ κ} {A : Type ℓ} (P : A → Type κ) where
  -- Every element has the property.
  abbrev pub All : List A → Type κ
  All [] = Unit
  All (x ∷ xs) = P x × All xs

  pub All-append : (xs ys : List A) → All xs → All ys → All (xs ++ ys)
  All-append [] ys _ hy = hy
  All-append (x ∷ xs) ys h hy = (h.0, All-append xs ys h.1 hy)

-- Whether a text stands in a list.
abbrev pub contains : String → List String → Bool
contains a [] = false
contains a (x ∷ xs) = x == a || contains a xs

module _ {ℓ} {A : Type ℓ} where
  abbrev pub get_elem? : List A → ℕ → Option A
  get_elem? [] i = none
  get_elem? (x ∷ xs) zero = some x
  get_elem? (x ∷ xs) (suc i) = get_elem? xs i

  -- A write out of bounds changes nothing.
  abbrev pub set : List A → ℕ → A → List A
  set [] i v = []
  set (x ∷ xs) zero v = v ∷ xs
  set (x ∷ xs) (suc i) v = x ∷ set xs i v

-- No text stands in the list twice.
abbrev pub Distinct : List String → Type 0
Distinct [] = Unit
Distinct (x ∷ xs) = (contains x xs ≡ false) × Distinct xs

module _ {ℓ κ κ'} {A : Type ℓ} {P : A → Type κ} {Q : A → Type κ'} where
  pub All-map : ((x : A) → P x → Q x) → (xs : List A) → All P xs → All Q xs
  All-map f [] h = tt
  All-map f (x ∷ xs) h = (f x h.0, All-map f xs h.1)

module _ {ℓ κ} {A : Type ℓ} {B : Type κ} (f g : A → B) where
  pub map-All : (xs : List A) → All (λ x. f x ≡ g x) xs → map f xs ≡ map g xs
  map-All [] h = refl
  map-All (x ∷ xs) h = λ i. h.0 i ∷ map-All xs h.1 i

module _ {ℓ} {A : Type ℓ} where
  -- What is found after a write was written, or was there before.
  pub get_elem?-set :
      (xs : List A) (i j : ℕ) (v x : A)
      → get_elem? (set xs i v) j ≡ some x
      → ((i ≡ j) × (v ≡ x)) ⊎ ((i ≢ j) × (get_elem? xs j ≡ some x))
  get_elem?-set [] i j v x h = absurd (cc)
  get_elem?-set (y ∷ ys) zero zero v x h = inl (refl, cc)
  get_elem?-set (y ∷ ys) zero (suc j) v x h = inr (ground arith, h)
  get_elem?-set (y ∷ ys) (suc i) zero v x h = inr (ground arith, h)
  get_elem?-set (y ∷ ys) (suc i) (suc j) v x h = elim (get_elem?-set ys i j v x h) [
    | inl here ↦ inl (ap suc here.0, here.1)
    | inr there ↦ inr (ground (arith, there.0), there.1)
  ]
