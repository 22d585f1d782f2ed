-- ===== src/Assets/Windows.antt =====
-- The windows that scanInto of internal/service/gc.go takes from one run of digits.
use Prim.Native.Char.{Char}
use Prim.Native.String.{len}
use Prim.Native.String.len
use text.Mathlib.TextPositions.{len_utf8-pos}
use octo_docs_html_fork.Prelude.{
  ℕ, zero, suc, ◌≤◌, String, Bool, true, ◌&&◌, ◌≡◌, refl, ap, ◌∙◌, Option, none, some, List, arith,
  eq_iff, contains, ◌⊎◌, inl, inr, if◌then◌else◌,
}
use octo_docs_html_fork.Assets.Scan.{hex_char, hex_run, first_chars, with_window, slide}

-- Every character is a hexadecimal digit.
abbrev pub is_hex : String → Bool
is_hex String.[] = true
is_hex (String.◌∷◌ c s) = hex_char c && is_hex s

-- The text `w` stands in the page at some place, as the first 64 characters of what follows.
abbrev pub Occurs : String → String → Type 0
Occurs w String.[] = ⊥
Occurs w (String.◌∷◌ c s) = (first_chars 64 (String.◌∷◌ c s) ≡ some w) ⊎ Occurs w s

-- a window that is made of digits stands in the run at its place
pub first_chars-hex_run :
    (n : ℕ) (s w : String)
    → first_chars n s ≡ some w
    → is_hex w ≡ true
    → first_chars n (hex_run s) ≡ some w
unfolding first_chars hex_run
first_chars-hex_run zero s w h hex = h
first_chars-hex_run (suc n) String.[] w h hex = absurd (cc)
first_chars-hex_run (suc n) (String.◌∷◌ c s) w h hex =
    go (λ v here digits. first_chars-hex_run n s v here digits) (first_chars n s) refl h
  where
    go :
        ((v : String)
          → first_chars n s ≡ some v
          → is_hex v ≡ true
          → first_chars n (hex_run s) ≡ some v)
        → (o : Option String) → first_chars n s ≡ o
        → elim o as (λ _. Option String) [ none ↦ none | some v ↦ some (String.◌∷◌ c v) ] ≡ some w
        → first_chars (suc n) (hex_run (String.◌∷◌ c s)) ≡ some w
    go rest none here is = absurd (cc)
    go rest (some v) here is =
        let same : String.◌∷◌ c v ≡ w = cc in
        let digits : (hex_char c && is_hex v) ≡ true = ap is_hex same ∙ hex in
        let digit : hex_char c ≡ true = ground (arith, digits) in
        let later = rest v here (ground (arith, digits)) in
        ap (λ b. first_chars (suc n) (if b then String.◌∷◌ c (hex_run s) else "")) digit
        ∙ ap (λ o. elim o as (λ _. Option String) [ none ↦ none | some x ↦ some (String.◌∷◌ c x) ])
            later
        ∙ ap some same

first_chars-len : (n : ℕ) (s w : String) → first_chars n s ≡ some w → n ≤ len s
unfolding first_chars
first_chars-len zero s w h = omega arith
first_chars-len (suc n) String.[] w h = absurd (cc)
first_chars-len (suc n) (String.◌∷◌ c s) w h =
    go (λ v here. first_chars-len n s v here) (first_chars n s) refl h
  where
    go :
        ((v : String) → first_chars n s ≡ some v → n ≤ len s)
        → (o : Option String) → first_chars n s ≡ o
        → elim o as (λ _. Option String) [ none ↦ none | some v ↦ some (String.◌∷◌ c v) ] ≡ some w
        → suc n ≤ len (String.◌∷◌ c s)
    go rest none here is = absurd (cc)
    go rest (some v) here is = omega (arith, rest v here, len.cons c s, (len_utf8-pos c).1)

-- A window that is found leaves 64 characters at least.
pub slide-len : (s w : String) → contains w (slide s) ≡ true → 64 ≤ len s
unfolding slide with_window
slide-len String.[] w h = absurd (cc)
slide-len (String.◌∷◌ c s) w h =
    go (λ there. slide-len s w there) (first_chars 64 (String.◌∷◌ c s)) refl h
  where
    go :
        (contains w (slide s) ≡ true → 64 ≤ len s)
        → (o : Option String) → first_chars 64 (String.◌∷◌ c s) ≡ o
        → contains w (with_window o (slide s)) ≡ true
        → 64 ≤ len (String.◌∷◌ c s)
    go rest none here there = omega (arith, rest there, len.cons c s)
    go rest (some v) here there = first_chars-len 64 (String.◌∷◌ c s) v here

contains-with_window :
    (o : Option String) (ws : List String) (w : String)
    → (o ≡ some w) ⊎ (contains w ws ≡ true)
    → contains w (with_window o ws) ≡ true
unfolding with_window
contains-with_window none ws w (inl here) = absurd (cc)
contains-with_window none ws w (inr there) = there
contains-with_window (some v) ws w (inl here) =
    let same : v ≡ w = cc in ground (arith, (eq_iff v w).1 same)
contains-with_window (some v) ws w (inr there) = ground (arith, there)

-- The window of a place is found, and so is each that a shorter run has.
pub slide-here :
    (c : Char) (s w : String)
    → (first_chars 64 (String.◌∷◌ c s) ≡ some w) ⊎ (contains w (slide s) ≡ true)
    → contains w (slide (String.◌∷◌ c s)) ≡ true
unfolding slide
slide-here c s w h = contains-with_window (first_chars 64 (String.◌∷◌ c s)) (slide s) w h
