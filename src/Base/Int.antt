-- ===== src/Base/Int.antt =====
-- Signed integers over the native numbers: chapter numbers, comparator results, pixel offsets.
use Prim.Native.Nat.{ℕ, suc, ◌+◌, ◌-◌, ◌≤◌}
use mathlib.Core.Path.{◌≡◌}
use mathlib.Core.Bool.{Bool}
use native.Mathlib.Omega.{arith}
use kiyomi.Base.Tests.{ltb, leb, if◌then◌else◌}

-- `negsuc n` is -(n + 1).
pub data ℤ : Type 0 where
  pos : ℕ → ℤ
  negsuc : ℕ → ℤ

abbrev pub pos_part : ℤ → ℕ
pos_part (pos n) = n
pos_part (negsuc n) = 0

abbrev pub neg_part : ℤ → ℕ
neg_part (pos n) = 0
neg_part (negsuc n) = suc n

-- a - b, as an integer.
abbrev pub sub_ℕ : ℕ → ℕ → ℤ
sub_ℕ a b = if leb b a then pos (a - b) else negsuc (b - a - 1)

infixl 65 ◌-ℤ◌
unfoldable pub ◌-ℤ◌ : ℤ → ℤ → ℤ
a -ℤ b = sub_ℕ (pos_part a + neg_part b) (neg_part a + pos_part b)

unfoldable pub negate : ℤ → ℤ
negate a = sub_ℕ (neg_part a) (pos_part a)

-- `Math.abs`.
abbrev pub abs : ℤ → ℕ
abs a = pos_part a + neg_part a

-- `0 < a` and `a < 0`.
abbrev pub is_pos : ℤ → Bool
is_pos a = ltb 0 (pos_part a)

abbrev pub is_neg : ℤ → Bool
is_neg a = ltb 0 (neg_part a)

infix 50 ◌≤ℤ◌
abbrev pub ◌≤ℤ◌ : ℤ → ℤ → Type 0
a ≤ℤ b = pos_part a + neg_part b ≤ pos_part b + neg_part a

abbrev pub leb_ℤ : ℤ → ℤ → Bool
leb_ℤ a b = leb (pos_part a + neg_part b) (pos_part b + neg_part a)

pub -ℤ_parts :
    (a b : ℤ)
    → pos_part (a -ℤ b) + neg_part a + pos_part b ≡ neg_part (a -ℤ b) + pos_part a + neg_part b
unfolding ◌-ℤ◌
-ℤ_parts a b = ground arith

pub is_pos-sub :
    (a b : ℤ) → is_pos (a -ℤ b) ≡ ltb (pos_part b + neg_part a) (pos_part a + neg_part b)
unfolding ◌-ℤ◌
is_pos-sub a b = ground arith

pub is_pos-negate : (a : ℤ) → is_pos (negate a) ≡ is_neg a
unfolding negate
is_pos-negate a = ground arith

pub is_neg-negate : (a : ℤ) → is_neg (negate a) ≡ is_pos a
unfolding negate
is_neg-negate a = ground arith

pub abs-negate : (a : ℤ) → abs (negate a) ≡ abs a
unfolding negate
abs-negate a = ground arith

pub negate-negate : (a : ℤ) → negate (negate a) ≡ a
unfolding negate
negate-negate a = ground arith
