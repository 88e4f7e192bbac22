-- ===== src/Base/Int.antt =====
-- Signed integers over the native numbers, under the library's names.
use Prim.Native.Nat.{ℕ, zero, suc, ◌+◌, ◌-◌, ◌*◌, ◌%◌, ◌<◌, ◌≤◌}
use native.Mathlib.Nat.{mod-eq_of_lt}
use native.Mathlib.Omega.{arith}
use mathlib.Core.Path.{◌≡◌, ap, ◌∙◌}
use mathlib.Core.Bool.{Bool, true, false}
use kube_task.Base.Tests.{leb, ltb, nat_eq, if◌then◌else◌, ltb_of_lt, ltb_of_le}

-- `negsuc n` is -(n + 1).
pub data ℤ : Type 0 where
  pos : ℕ → ℤ
  negsuc : ℕ → ℤ

abbrev pub pos_part : ℤ → ℕ
pos_part (pos n) = n
pos_part (negsuc n) = 0

abbrev pub neg_part : ℤ → ℕ
neg_part (pos n) = 0
neg_part (negsuc n) = suc n

-- a - b, as an integer.
abbrev pub sub_ℕ : ℕ → ℕ → ℤ
sub_ℕ a b = if leb b a then pos (a - b) else negsuc (b - a - 1)

infixl 65 ◌+ℤ◌ ◌-ℤ◌
abbrev pub ◌+ℤ◌ : ℤ → ℤ → ℤ
a +ℤ b = sub_ℕ (pos_part a + pos_part b) (neg_part a + neg_part b)

abbrev pub ◌-ℤ◌ : ℤ → ℤ → ℤ
a -ℤ b = sub_ℕ (pos_part a + neg_part b) (neg_part a + pos_part b)

abbrev pub ltb_ℤ : ℤ → ℤ → Bool
ltb_ℤ a b = ltb (pos_part a + neg_part b) (pos_part b + neg_part a)

-- `n--`
abbrev pub pred_ℤ : ℤ → ℤ
pred_ℤ (pos zero) = negsuc 0
pred_ℤ (pos (suc n)) = pos n
pred_ℤ (negsuc n) = negsuc (suc n)

-- `n == 0`
abbrev pub is_zero : ℤ → Bool
is_zero (pos zero) = true
is_zero (pos (suc n)) = false
is_zero (negsuc n) = false

-- `n > 0`
abbrev pub is_positive : ℤ → Bool
is_positive (pos zero) = false
is_positive (pos (suc n)) = true
is_positive (negsuc n) = false

-- `n++` of an `int32`, which wraps around.
abbrev pub suc_int32 : ℤ → ℤ
suc_int32 (pos n) = if ltb n 2147483647 then pos (n + 1) else negsuc 2147483647
suc_int32 (negsuc zero) = pos 0
suc_int32 (negsuc (suc n)) = negsuc n

abbrev pub eqb_ℤ : ℤ → ℤ → Bool
eqb_ℤ (pos m) (pos n) = nat_eq m n
eqb_ℤ (negsuc m) (negsuc n) = nat_eq m n
eqb_ℤ _ _ = false

-- A number of 64 bits, as a signed one.
abbrev pub int64 : ℕ → ℤ
int64 n = if ltb n 9223372036854775808 then pos n else negsuc (18446744073709551615 - n)

-- What an `int` of 64 bits keeps of an integer.
unfoldable pub wrap_64 : ℤ → ℤ
wrap_64 (pos n) = int64 (n % 18446744073709551616)
wrap_64 (negsuc n) = int64 (18446744073709551615 - n % 18446744073709551616)

infixl 70 ◌*ℤ◌
abbrev pub ◌*ℤ◌ : ℤ → ℤ → ℤ
a *ℤ b =
    sub_ℕ (pos_part a * pos_part b + neg_part a * neg_part b)
      (pos_part a * neg_part b + neg_part a * pos_part b)

int64-below : (a h : ℕ) (x y : ℤ) → a < h → (if ltb a h then x else y) ≡ x
int64-below a h x y below = rw (ltb_of_lt a h below)

int64-above : (a h : ℕ) (x y : ℤ) → h ≤ a → (if ltb a h then x else y) ≡ y
int64-above a h x y above = rw (ltb_of_le a h above)

pub wrap_64-pos : (n : ℕ) → n < 9223372036854775808 → wrap_64 (pos n) ≡ pos n
unfolding wrap_64
wrap_64-pos n h =
    ap int64 (mod-eq_of_lt {m = 18446744073709551616} (omega arith))
    ∙ int64-below n 9223372036854775808 (pos n) _ h

pub wrap_64-negsuc : (n : ℕ) → n < 9223372036854775808 → wrap_64 (negsuc n) ≡ negsuc n
unfolding wrap_64
wrap_64-negsuc n h =
    ap (λ m. int64 (18446744073709551615 - m))
      (mod-eq_of_lt {m = 18446744073709551616} (omega arith))
    ∙ int64-above (18446744073709551615 - n) 9223372036854775808 _ (negsuc _) (omega arith)
    ∙ ap negsuc (omega arith)
