-- ===== src/Storage/Digits.antt =====
-- The decimal spelling of versions in internal/storage/memory/memory.go, read back.
use Prim.Native.Char.{Char, code}
use text.Mathlib.TextLemmas.{cons-ne-nil}
use octo_docs_html_fork.Prelude.{
  ℕ, zero, suc, ◌+◌, ◌*◌, ◌/◌, ◌%◌, ◌^◌, ◌<◌, String, false, ◌≡◌, ◌≢◌, refl, ap, ◌∙◌, Option, none,
  some, eqb, arith, Bool-cases, inl, inr, if◌then◌else◌,
}
use octo_docs_html_fork.Prelude.Int.{ℤ, pos, negsuc}
use octo_docs_html_fork.Storage.Decimal.{digit, write_digits, itoa, int_of_word, read_digits, atoi}

code-digit : (d : ℕ) → d < 10 → code (digit d) ≡ b'0' + d
unfolding digit
code-digit zero h = refl
code-digit (suc zero) h = refl
code-digit (suc (suc zero)) h = refl
code-digit (suc (suc (suc zero))) h = refl
code-digit (suc (suc (suc (suc zero)))) h = refl
code-digit (suc (suc (suc (suc (suc zero))))) h = refl
code-digit (suc (suc (suc (suc (suc (suc zero)))))) h = refl
code-digit (suc (suc (suc (suc (suc (suc (suc zero))))))) h = refl
code-digit (suc (suc (suc (suc (suc (suc (suc (suc zero)))))))) h = refl
code-digit (suc (suc (suc (suc (suc (suc (suc (suc (suc zero))))))))) h = refl
code-digit (suc (suc (suc (suc (suc (suc (suc (suc (suc (suc d)))))))))) h = absurd (omega arith)

-- Reading the last digit of `n` behind the digits before it gives `n`.
read_digits-digit :
    (n : ℕ) (out : String)
    → n < 2 ^ 63
    → read_digits (String.◌∷◌ (digit (n % 10)) out) (n / 10) ≡ read_digits out n
unfolding read_digits
read_digits-digit n out h = ground (arith, code-digit (n % 10) (omega arith))

-- 10 to a power
abbrev tens : ℕ → ℕ
tens zero = 1
tens (suc k) = 10 * tens k

read_digits-write_digits :
    (room n : ℕ) (out : String)
    → n < tens room
    → n < 2 ^ 63
    → read_digits (write_digits room n out) 0 ≡ read_digits out n
unfolding write_digits
read_digits-write_digits zero n out few small =
    let none_left : n ≡ 0 = omega arith in rw none_left refl
read_digits-write_digits (suc room) n out few small = elim (Bool-cases (eqb n 0)) [
  | inl done ↦ let none_left : n ≡ 0 = ground arith in rw none_left refl
  | inr left ↦ rw left (
      read_digits-write_digits room (n / 10) (String.◌∷◌ (digit (n % 10)) out) (omega arith)
        (omega arith)
      ∙ read_digits-digit n out small)
]

-- A text that the loop reads as a positive number is not empty.
atoi-read_digits :
    (s : String) (n : ℕ)
    → eqb n 0 ≡ false
    → read_digits s 0 ≡ some n
    → atoi s ≡ some (int_of_word n)
unfolding atoi read_digits
atoi-read_digits String.[] n positive h = absurd (ground arith)
atoi-read_digits (String.◌∷◌ c s) n positive h = rw (h, atoi) refl

int_of_word-small : (n : ℕ) → n < 2 ^ 63 → int_of_word n ≡ pos n
unfolding int_of_word
int_of_word-small n small = ground arith

read_digits-nil : (n : ℕ) → read_digits "" n ≡ some n
unfolding read_digits
read_digits-nil n = refl

atoi_zero : atoi "0" ≡ some (pos 0)
unfolding atoi
atoi_zero = refl

atoi_minus : (s : String) → atoi (String.◌∷◌ "-" s) ≡ none
unfolding atoi read_digits
atoi_minus s = refl

-- what a version reads back as: a negative one is no version
abbrev pub read_back : ℤ → Option ℤ
read_back (pos n) = some (pos n)
read_back (negsuc k) = none

-- the absolute value
abbrev pub magnitude : ℤ → ℕ
magnitude (pos n) = n
magnitude (negsuc k) = k + 1

-- The decimal spelling of an int above the least one reads back as the int where it is not
-- negative, and as no version where it is.
pub atoi-itoa : (z : ℤ) → magnitude z < 2 ^ 63 → atoi (itoa z) ≡ read_back z
unfolding itoa
atoi-itoa (pos n) small = elim (Bool-cases (eqb n 0)) [
  | inl spelled ↦ let zero_version : n ≡ 0 = ground arith in rw zero_version atoi_zero
  | inr positive ↦ rw positive (
      atoi-read_digits (write_digits 20 n "") n positive
        (read_digits-write_digits 20 n "" (omega arith) small ∙ read_digits-nil n)
      ∙ ap some (int_of_word-small n small))
]
atoi-itoa (negsuc k) small =
    atoi_minus (if eqb (k + 1) (2 ^ 63) then "" else write_digits 20 (k + 1) "")

write_digits-ne_nil :
    (room n : ℕ) (c : Char) (out : String) → write_digits room n (String.◌∷◌ c out) ≢ ""
unfolding write_digits
write_digits-ne_nil zero n c out = cons-ne-nil c out
write_digits-ne_nil (suc room) n c out = elim (Bool-cases (eqb n 0)) [
  | inl done ↦ rw done (cons-ne-nil c out)
  | inr left ↦ rw left (write_digits-ne_nil room (n / 10) (digit (n % 10)) (String.◌∷◌ c out))
]

first_digit : (n : ℕ) → eqb n 0 ≡ false → write_digits 20 n "" ≢ ""
unfolding write_digits
first_digit n positive = rw positive (write_digits-ne_nil 19 (n / 10) (digit (n % 10)) "")

-- No spelling is empty.
pub itoa-ne_nil : (z : ℤ) → itoa z ≢ ""
unfolding itoa
itoa-ne_nil (pos n) = elim (Bool-cases (eqb n 0)) [
  | inl spelled ↦ rw spelled (cons-ne-nil "0" "")
  | inr positive ↦ rw positive (first_digit n positive)
]
itoa-ne_nil (negsuc k) =
    cons-ne-nil "-" (if eqb (k + 1) (2 ^ 63) then "" else write_digits 20 (k + 1) "")
