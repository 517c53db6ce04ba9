-- ===== src/Base/Int.antt =====
-- Go's `int` and `int64`: signed integers over the native numbers, with the wrap-around of 64 bits
-- written out at each operation that can leave the range.
use search_engine_service.Base.{
  ℕ, zero, suc, ◌+◌, ◌-◌, ◌*◌, ◌/◌, ◌%◌, ◌^◌, ◌≤◌, ◌<◌, ◌≡◌, refl, Bool, true, false, ◌↔◌, arith,
  ltb, leb, if◌then◌else◌, Eq, ◌==◌, nat_eq,
}

-- `negsuc n` is -(n + 1).
pub data ℤ : Type 0 where
  pos : ℕ → ℤ
  negsuc : ℕ → ℤ

abbrev pub pos_part : ℤ → ℕ
pos_part (pos n) = n
pos_part (negsuc n) = 0

abbrev pub neg_part : ℤ → ℕ
neg_part (pos n) = 0
neg_part (negsuc n) = suc n

-- a - b, as an integer.
abbrev pub sub_ℕ : ℕ → ℕ → ℤ
sub_ℕ a b = if leb b a then pos (a - b) else negsuc (b - a - 1)

infixl 65 ◌+ℤ◌ ◌-ℤ◌
infixl 70 ◌*ℤ◌
infix 50 ◌≤ℤ◌
abbrev pub ◌+ℤ◌ : ℤ → ℤ → ℤ
a +ℤ b = sub_ℕ (pos_part a + pos_part b) (neg_part a + neg_part b)

abbrev pub ◌-ℤ◌ : ℤ → ℤ → ℤ
a -ℤ b = sub_ℕ (pos_part a + neg_part b) (neg_part a + pos_part b)

abbrev pub ◌*ℤ◌ : ℤ → ℤ → ℤ
a *ℤ b =
    sub_ℕ (pos_part a * pos_part b + neg_part a * neg_part b)
      (pos_part a * neg_part b + neg_part a * pos_part b)

abbrev pub ◌≤ℤ◌ : ℤ → ℤ → Type 0
a ≤ℤ b = pos_part a + neg_part b ≤ pos_part b + neg_part a

abbrev pub ltb_ℤ : ℤ → ℤ → Bool
ltb_ℤ a b = ltb (pos_part a + neg_part b) (pos_part b + neg_part a)

abbrev pub leb_ℤ : ℤ → ℤ → Bool
leb_ℤ a b = leb (pos_part a + neg_part b) (pos_part b + neg_part a)

abbrev pub int_beq : ℤ → ℤ → Bool
int_beq (pos a) (pos b) = a == b
int_beq (pos a) (negsuc b) = false
int_beq (negsuc a) (pos b) = false
int_beq (negsuc a) (negsuc b) = a == b

pub int_beq_iff : (a b : ℤ) → (int_beq a b ≡ true) ↔ (a ≡ b)
int_beq_iff (pos a) (pos b) = ground arith
int_beq_iff (pos a) (negsuc b) = ground arith
int_beq_iff (negsuc a) (pos b) = ground arith
int_beq_iff (negsuc a) (negsuc b) = ground arith

instance abbrev pub int_eq : Eq ℤ
int_eq = record { same_iff = int_beq_iff; same = int_beq }

-- The value that the low 64 bits of a number stand for, in two's complement.
abbrev pub of_bits : ℕ → ℤ
of_bits r = if ltb r (2 ^ 63) then pos r else negsuc (2 ^ 64 - 1 - r)

unfoldable pub wrap64 : ℤ → ℤ
wrap64 (pos n) = of_bits (n % 2 ^ 64)
wrap64 (negsuc n) = of_bits (2 ^ 64 - 1 - n % 2 ^ 64)

-- Go's `+`, `-` and `*` of 64-bit integers.
abbrev pub add64 : ℤ → ℤ → ℤ
add64 a b = wrap64 (a +ℤ b)

abbrev pub sub64 : ℤ → ℤ → ℤ
sub64 a b = wrap64 (a -ℤ b)

abbrev pub mul64 : ℤ → ℤ → ℤ
mul64 a b = wrap64 (a *ℤ b)

abbrev neg_ℕ : ℕ → ℤ
neg_ℕ n = sub_ℕ 0 n

-- Go's `/` and `%` of a nonzero divisor: the quotient is cut towards zero, the remainder has the
-- sign of the dividend.
unfoldable pub quot64 : ℤ → ℤ → ℤ
quot64 (pos a) (pos b) = pos (a / b)
quot64 (pos a) (negsuc b) = neg_ℕ (a / suc b)
quot64 (negsuc a) (pos b) = neg_ℕ (suc a / b)
quot64 (negsuc a) (negsuc b) = wrap64 (pos (suc a / suc b))

unfoldable pub rem64 : ℤ → ℤ → ℤ
rem64 (pos a) (pos b) = pos (a % b)
rem64 (pos a) (negsuc b) = pos (a % suc b)
rem64 (negsuc a) (pos b) = neg_ℕ (suc a % b)
rem64 (negsuc a) (negsuc b) = neg_ℕ (suc a % suc b)

-- The range of the type.
abbrev pub IsInt64 : ℤ → Type 0
IsInt64 (pos n) = n < 2 ^ 63
IsInt64 (negsuc n) = n < 2 ^ 63

pub wrap64_of_IsInt64 : (z : ℤ) → IsInt64 z → wrap64 z ≡ z
unfolding wrap64
wrap64_of_IsInt64 (pos n) h = ground arith
wrap64_of_IsInt64 (negsuc n) h = ground arith

pub wrap64-IsInt64 : (z : ℤ) → IsInt64 (wrap64 z)
unfolding wrap64
wrap64-IsInt64 (pos n) = ground arith
wrap64-IsInt64 (negsuc n) = ground arith

pub add64_pos : (a b : ℕ) → a + b < 2 ^ 63 → add64 (pos a) (pos b) ≡ pos (a + b)
add64_pos a b h =
    let sum : pos a +ℤ pos b ≡ pos (a + b) = ground arith in
    rw sum (wrap64_of_IsInt64 (pos (a + b)) h)

-- An integer from 1 on is a successor.
pub suc_of_pos : (z : ℤ) → pos 1 ≤ℤ z → (n : ℕ) × (z ≡ pos (suc n))
suc_of_pos (pos zero) h = absurd (omega arith)
suc_of_pos (pos (suc n)) h = (n, refl)
suc_of_pos (negsuc n) h = absurd (omega arith)
