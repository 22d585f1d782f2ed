-- ===== src/Storage/Decimal.antt =====
-- itoa and atoi of internal/storage/memory/memory.go.
use Prim.Native.Char.{Char, code}
use Prim.Native.String.{char_at}
use octo_docs_html_fork.Prelude.{
  ℕ, zero, suc, ◌+◌, ◌-◌, ◌*◌, ◌/◌, ◌%◌, ◌^◌, String, ◌||◌, Option, none, some, ltb, eqb,
  if◌then◌else◌,
}
use octo_docs_html_fork.Prelude.Int.{ℤ, pos, negsuc}

-- byte('0' + d), for a digit
unfoldable pub digit : ℕ → Char
digit d = char_at "0123456789" d

-- the loop `for n > 0`, in the room that is left in the buffer
unfoldable pub write_digits : ℕ → ℕ → String → String
unfolding digit
write_digits zero n out = out
write_digits (suc room) n out =
    let more = write_digits room (n / 10) (String.◌∷◌ (digit (n % 10)) out) in
    if eqb n 0 then out else more

-- The buffer has 20 bytes. On the least int `-n` is negative again, and no digit is written.
unfoldable pub itoa : ℤ → String
itoa (pos n) = if eqb n 0 then "0" else write_digits 20 n ""
itoa (negsuc k) = String.◌∷◌ "-" (if eqb (k + 1) (2 ^ 63) then "" else write_digits 20 (k + 1) "")

-- the int that a word of 64 bits stands for
unfoldable pub int_of_word : ℕ → ℤ
int_of_word n = if ltb n (2 ^ 63) then pos n else negsuc (2 ^ 64 - 1 - n)

-- The loop over the bytes, with `n` as a word. A byte of a character beyond ASCII is no digit, and
-- neither is the character.
unfoldable pub read_digits : String → ℕ → Option ℕ
read_digits String.[] n = some n
read_digits (String.◌∷◌ c s) n =
    let rest = read_digits s ((n * 10 + (code c - b'0')) % 2 ^ 64) in
    if ltb (code c) b'0' || ltb b'9' (code c) then none else rest

unfoldable pub atoi : String → Option ℤ
unfolding read_digits int_of_word
atoi String.[] = none
atoi (String.◌∷◌ c s) = elim (read_digits (String.◌∷◌ c s) 0) [
  | none ↦ none
  | some n ↦ some (int_of_word n)
]
