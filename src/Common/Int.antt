-- ===== src/Common/Int.antt =====
-- Signed integers over the native numbers: heights, and results that may be negative.
use Prim.Native.Nat.{ℕ, zero, suc, ◌+◌, ◌-◌, ◌%◌, ◌≤◌, ◌<◌}
use mathlib.Core.Path.{◌≡◌}
use mathlib.Core.Bool.{Bool, true}
use mathlib.Core.Logic.{◌↔◌}
use native.Mathlib.Omega.{arith}
use mitum.Common.Tests.{ltb, leb, ◌==◌, if◌then◌else◌}

-- `negsuc n` is -(n + 1).
pub data ℤ : Type 0 where
  pos : ℕ → ℤ
  negsuc : ℕ → ℤ

abbrev pub pos_part : ℤ → ℕ
pos_part (pos n) = n
pos_part (negsuc n) = 0

abbrev pub neg_part : ℤ → ℕ
neg_part (pos n) = 0
neg_part (negsuc n) = suc n

-- a - b, as an integer.
abbrev pub sub_ℕ : ℕ → ℕ → ℤ
sub_ℕ a b = if leb b a then pos (a - b) else negsuc (b - a - 1)

infixl 65 ◌+ℤ◌ ◌-ℤ◌
infix 50 ◌≤ℤ◌ ◌<ℤ◌
abbrev pub ◌+ℤ◌ : ℤ → ℤ → ℤ
a +ℤ b = sub_ℕ (pos_part a + pos_part b) (neg_part a + neg_part b)

abbrev pub ◌-ℤ◌ : ℤ → ℤ → ℤ
a -ℤ b = sub_ℕ (pos_part a + neg_part b) (neg_part a + pos_part b)

abbrev pub ◌≤ℤ◌ : ℤ → ℤ → Type 0
a ≤ℤ b = pos_part a + neg_part b ≤ pos_part b + neg_part a

abbrev pub ◌<ℤ◌ : ℤ → ℤ → Type 0
a <ℤ b = pos_part a + neg_part b < pos_part b + neg_part a

abbrev pub ltb_ℤ : ℤ → ℤ → Bool
ltb_ℤ a b = ltb (pos_part a + neg_part b) (pos_part b + neg_part a)

abbrev pub leb_ℤ : ℤ → ℤ → Bool
leb_ℤ a b = leb (pos_part a + neg_part b) (pos_part b + neg_part a)

abbrev pub eqb_ℤ : ℤ → ℤ → Bool
eqb_ℤ a b = (pos_part a + neg_part b) == (pos_part b + neg_part a)

pub eqb_ℤ_iff : (a b : ℤ) → (eqb_ℤ a b ≡ true) ↔ (a ≡ b)
eqb_ℤ_iff a b = (λ h. ground arith, λ h. ground arith)

-- What an int64 holds of a sum or a difference: it wraps around at 2^63.
unfoldable pub wrap_int64 : ℤ → ℤ
wrap_int64 (pos n) =
    let m = n % 18446744073709551616 in
    if ltb m 9223372036854775808 then pos m else negsuc (18446744073709551615 - m)
wrap_int64 (negsuc n) =
    let m = n % 18446744073709551616 in
    if ltb m 9223372036854775808 then negsuc m else pos (18446744073709551615 - m)

-- The number is one that an int64 holds.
abbrev pub IsInt64 : ℤ → Type 0
IsInt64 (pos n) = n < 9223372036854775808
IsInt64 (negsuc n) = n < 9223372036854775808

pub wrap_int64-IsInt64 : (a : ℤ) → IsInt64 a → wrap_int64 a ≡ a
unfolding wrap_int64
wrap_int64-IsInt64 (pos n) h = ground arith
wrap_int64-IsInt64 (negsuc n) h = ground arith

-- The difference of an int64 and the successor of another one that is not less than -1.
pub sub-IsInt64 :
    (a b : ℤ)
    → negsuc 0 ≤ℤ a
    → negsuc 0 ≤ℤ b
    → a <ℤ pos 9223372036854775807
    → b <ℤ pos 9223372036854775807
    → IsInt64 (a -ℤ b) × IsInt64 (b +ℤ pos 1) × IsInt64 (a -ℤ (b +ℤ pos 1))
sub-IsInt64 (pos a) (pos b) l m h k = (ground arith, ground arith, ground arith)
sub-IsInt64 (pos a) (negsuc zero) l m h k = (ground arith, ground arith, ground arith)
sub-IsInt64 (negsuc zero) (pos b) l m h k = (ground arith, ground arith, ground arith)
sub-IsInt64 (negsuc zero) (negsuc zero) l m h k = (ground arith, ground arith, ground arith)
sub-IsInt64 (pos a) (negsuc (suc b)) l m h k = absurd (ground arith)
sub-IsInt64 (negsuc (suc a)) b l m h k = absurd (ground arith)
sub-IsInt64 (negsuc zero) (negsuc (suc b)) l m h k = absurd (ground arith)
