-- ===== src/Int.antt =====
-- Sums of `int`: the integers of Types with addition, subtraction and tests, and the range of `int`.
use objectlink_core_cpp.Prelude.{
  ℕ, suc, ◌+◌, ◌-◌, ◌^◌, ◌≡◌, ◌↔◌, Bool, true, arith, ltb, ◌==◌, if◌then◌else◌,
}
use objectlink_core_cpp.Types.{ℤ, pos, negsuc}
use objectlink_core_cpp.Json.{IsInt}

abbrev pos_part : ℤ → ℕ
pos_part (pos n) = n
pos_part (negsuc n) = 0

abbrev neg_part : ℤ → ℕ
neg_part (pos n) = 0
neg_part (negsuc n) = suc n

-- a - b, as an integer.
abbrev sub_ℕ : ℕ → ℕ → ℤ
sub_ℕ a b = if ltb a b then negsuc (b - a - 1) else pos (a - b)

infixl 65 ◌+ℤ◌ ◌-ℤ◌
unfoldable pub ◌+ℤ◌ : ℤ → ℤ → ℤ
a +ℤ b = sub_ℕ (pos_part a + pos_part b) (neg_part a + neg_part b)

unfoldable pub ◌-ℤ◌ : ℤ → ℤ → ℤ
a -ℤ b = sub_ℕ (pos_part a + neg_part b) (neg_part a + pos_part b)

-- `a == b` and `a <= b`
abbrev pub eq_ℤ : ℤ → ℤ → Bool
eq_ℤ (pos m) (pos n) = m == n
eq_ℤ (negsuc m) (negsuc n) = m == n
eq_ℤ (pos m) (negsuc n) = Bool.false
eq_ℤ (negsuc m) (pos n) = Bool.false

abbrev pub leb_ℤ : ℤ → ℤ → Bool
leb_ℤ a b = ltb (pos_part a + neg_part b) (suc (pos_part b + neg_part a))

pub eq_ℤ_iff : (a b : ℤ) → (eq_ℤ a b ≡ true) ↔ (a ≡ b)
eq_ℤ_iff a b = ground arith

-- The number fits in an `int`, which has 32 bits.
abbrev pub in_int : ℤ → Bool
in_int (pos n) = ltb n (2 ^ 31)
in_int (negsuc n) = ltb n (2 ^ 31)

pub in_int-IsInt : (z : ℤ) → in_int z ≡ true → IsInt z
in_int-IsInt (pos n) h = ground arith
in_int-IsInt (negsuc n) h = ground arith

pub IsInt-in_int : (z : ℤ) → IsInt z → in_int z ≡ true
IsInt-in_int (pos n) h = ground arith
IsInt-in_int (negsuc n) h = ground arith
