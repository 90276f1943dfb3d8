-- ===== src/Prelude/Int.antt =====
-- Go's signed integers before they wrap, over the native numbers. An order goes through the two
-- parts of an integer, which are numbers that `omega` reads.
use Prim.Native.Nat.{ℕ, suc, ◌+◌, ◌-◌, ◌*◌, ◌≤◌}
use mathlib.Core.Bool.{Bool, true, false}
use mathlib.Core.Logic.{◌↔◌}
use mathlib.Core.Path.{◌≡◌}
use native.Mathlib.Omega.{arith}
use certinv.Prelude.Tests.{leb, ltb, nat_eq, if◌then◌else◌}

-- `negsuc n` is -(n + 1).
pub data ℤ : Type 0 where
  pos : ℕ → ℤ
  negsuc : ℕ → ℤ

abbrev pub pos_part : ℤ → ℕ
pos_part (pos n) = n
pos_part (negsuc n) = 0

abbrev pub neg_part : ℤ → ℕ
neg_part (pos n) = 0
neg_part (negsuc n) = suc n

-- a - b, as an integer.
abbrev pub sub_ℕ : ℕ → ℕ → ℤ
sub_ℕ a b = if leb b a then pos (a - b) else negsuc (b - a - 1)

infixl 70 ◌*ℤ◌
unfoldable pub ◌*ℤ◌ : ℤ → ℤ → ℤ
a *ℤ b =
    sub_ℕ (pos_part a * pos_part b + neg_part a * neg_part b)
      (pos_part a * neg_part b + neg_part a * pos_part b)

infix 50 ◌≤ℤ◌
abbrev pub ◌≤ℤ◌ : ℤ → ℤ → Type 0
a ≤ℤ b = pos_part a + neg_part b ≤ pos_part b + neg_part a

abbrev pub leb_ℤ : ℤ → ℤ → Bool
leb_ℤ a b = leb (pos_part a + neg_part b) (pos_part b + neg_part a)

abbrev pub ltb_ℤ : ℤ → ℤ → Bool
ltb_ℤ a b = ltb (pos_part a + neg_part b) (pos_part b + neg_part a)

-- equality of machine integers, such as ports
unfoldable pub int_eq : ℤ → ℤ → Bool
int_eq (pos m) (pos n) = nat_eq m n
int_eq (negsuc m) (negsuc n) = nat_eq m n
int_eq (pos _) (negsuc _) = false
int_eq (negsuc _) (pos _) = false

pub int_eq_iff : (a b : ℤ) → (int_eq a b ≡ true) ↔ (a ≡ b)
unfolding int_eq
int_eq_iff (pos m) (pos n) = ground arith
int_eq_iff (negsuc m) (negsuc n) = ground arith
int_eq_iff (pos _) (negsuc _) = ground arith
int_eq_iff (negsuc _) (pos _) = ground arith

pub leb_ℤ_mono : (a b c : ℤ) → a ≤ℤ b → leb_ℤ b c ≡ true → leb_ℤ a c ≡ true
leb_ℤ_mono a b c h k = ground arith
