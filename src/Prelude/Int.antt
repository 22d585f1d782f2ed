-- ===== src/Prelude/Int.antt =====
-- Go's int, read as the integer that it stands for. The operations are those on integers; where the
-- source's can leave the range of an int64, the model wraps around by `wrap_int64`.
use Prim.Native.Nat.{ℕ, zero, suc, ◌+◌, ◌-◌, ◌*◌, ◌%◌, ◌^◌}
use mathlib.Core.Path.{◌≡◌, ap}
use mathlib.Core.Bool.{Bool, true, false}
use native.Mathlib.Omega.{arith}
use octo_docs_html_fork.Prelude.Tests.{ltb, leb, eqb, if◌then◌else◌}

-- `negsuc n` is -(n + 1).
pub data ℤ : Type 0 where
  pos : ℕ → ℤ
  negsuc : ℕ → ℤ

abbrev pub ltb_ℤ : ℤ → ℤ → Bool
ltb_ℤ (pos a) (pos b) = ltb a b
ltb_ℤ (pos a) (negsuc b) = false
ltb_ℤ (negsuc a) (pos b) = true
ltb_ℤ (negsuc a) (negsuc b) = ltb b a

abbrev pub leb_ℤ : ℤ → ℤ → Bool
leb_ℤ (pos a) (pos b) = leb a b
leb_ℤ (pos a) (negsuc b) = false
leb_ℤ (negsuc a) (pos b) = true
leb_ℤ (negsuc a) (negsuc b) = leb b a

abbrev pub eqb_ℤ : ℤ → ℤ → Bool
eqb_ℤ (pos a) (pos b) = eqb a b
eqb_ℤ (pos a) (negsuc b) = false
eqb_ℤ (negsuc a) (pos b) = false
eqb_ℤ (negsuc a) (negsuc b) = eqb a b

-- a - b of two natural numbers
abbrev pub difference : ℕ → ℕ → ℤ
difference a b = if ltb a b then negsuc (b - a - 1) else pos (a - b)

infixl 60 ◌+ℤ◌ ◌-ℤ◌
abbrev pub ◌+ℤ◌ : ℤ → ℤ → ℤ
pos a +ℤ pos b = pos (a + b)
pos a +ℤ negsuc b = difference a (suc b)
negsuc a +ℤ pos b = difference b (suc a)
negsuc a +ℤ negsuc b = negsuc (suc (a + b))

abbrev pub neg_ℤ : ℤ → ℤ
neg_ℤ (pos zero) = pos 0
neg_ℤ (pos (suc n)) = negsuc n
neg_ℤ (negsuc n) = pos (suc n)

abbrev pub ◌-ℤ◌ : ℤ → ℤ → ℤ
a -ℤ b = a +ℤ neg_ℤ b

-- the multiple by a positive number
abbrev pub scale_ℤ : ℕ → ℤ → ℤ
scale_ℤ k (pos a) = pos (a * k)
scale_ℤ k (negsuc a) = negsuc (suc a * k - 1)

-- from -2 ^ 63 to 2 ^ 63 - 1
abbrev pub is_int64 : ℤ → Bool
is_int64 (pos n) = ltb n (2 ^ 63)
is_int64 (negsuc n) = ltb n (2 ^ 63)

-- the int64 that a result wraps around to
unfoldable pub wrap_int64 : ℤ → ℤ
wrap_int64 (pos n) = let r = n % 2 ^ 64 in if ltb r (2 ^ 63) then pos r else negsuc (2 ^ 64 - 1 - r)
wrap_int64 (negsuc n) =
    let r = n % 2 ^ 64 in if ltb r (2 ^ 63) then negsuc r else pos (2 ^ 64 - 1 - r)

pub wrap_int64-small : (z : ℤ) → is_int64 z ≡ true → wrap_int64 z ≡ z
unfolding wrap_int64
wrap_int64-small (pos n) h = ground (arith, h)
wrap_int64-small (negsuc n) h = ground (arith, h)

-- math.MaxInt on a 64-bit platform
abbrev pub max_int : ℤ
max_int = pos (2 ^ 63 - 1)

-- the least int64
abbrev pub min_int : ℤ
min_int = negsuc (2 ^ 63 - 1)

pub leb_trans : (a b c : ℤ) → leb_ℤ a b ≡ true → leb_ℤ b c ≡ true → leb_ℤ a c ≡ true
leb_trans a b c h k = ground arith

pub leb_total : (a b : ℤ) → ltb_ℤ a b ≡ false → leb_ℤ b a ≡ true
leb_total a b h = ground arith

pub leb-ltb : (a b : ℤ) → ltb_ℤ a b ≡ true → leb_ℤ a b ≡ true
leb-ltb a b h = ground arith

pub leb_refl : (a : ℤ) → leb_ℤ a a ≡ true
leb_refl a = ground arith

pub not_before_le : (a b : ℤ) → leb_ℤ a b ≡ true → ltb_ℤ b a ≡ false
not_before_le a b h = ground arith

pub eq_of_test : (a b : ℤ) → eqb_ℤ a b ≡ true → a ≡ b
eq_of_test (pos a) (pos b) h = let same : a ≡ b = ground arith in ap pos same
eq_of_test (pos a) (negsuc b) h = absurd (ground arith)
eq_of_test (negsuc a) (pos b) h = absurd (ground arith)
eq_of_test (negsuc a) (negsuc b) h = let same : a ≡ b = ground arith in ap negsuc same
