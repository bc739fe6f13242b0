-- ===== src/Base/Integers.antt =====
-- Numbers below zero, and their text.
use Prim.Native.Nat.{ℕ, suc, ◌+◌, ◌-◌}
use mathlib.Core.Path.{◌≡◌, ap, sym, subst}
use mathlib.Core.Logic.{◌↔◌, ◌≢◌}
use mathlib.Core.Bool.{Bool, true, false}
use mathlib.Core.List.{◌∷◌}
use native.Mathlib.Omega.{arith}
use bevy_noray.Base.Tests.{Eq, nat_eq, ◌==◌, if◌then◌else◌, leb}
use bevy_noray.Base.Lists.{elem}
use bevy_noray.Base.Texts.{Text, to_string}
use bevy_noray.Base.Texts.Decimal.{to_string-injective, sign-to_string}

-- `negsuc n` is -(n + 1).
pub data ℤ : Type 0 where
  pos : ℕ → ℤ
  negsuc : ℕ → ℤ

abbrev pub pos_part : ℤ → ℕ
pos_part (pos n) = n
pos_part (negsuc n) = 0

abbrev pub neg_part : ℤ → ℕ
neg_part (pos n) = 0
neg_part (negsuc n) = suc n

abbrev pub sub_ℕ : ℕ → ℕ → ℤ
sub_ℕ a b = if leb b a then pos (a - b) else negsuc (b - a - 1)

infixl 65 ◌+ℤ◌ ◌-ℤ◌
unfoldable pub ◌+ℤ◌ : ℤ → ℤ → ℤ
a +ℤ b = sub_ℕ (pos_part a + pos_part b) (neg_part a + neg_part b)

unfoldable pub ◌-ℤ◌ : ℤ → ℤ → ℤ
a -ℤ b = sub_ℕ (pos_part a + neg_part b) (neg_part a + pos_part b)

abbrev pub negate : ℕ → ℤ
negate n = sub_ℕ 0 n

abbrev pub leb_ℤ : ℤ → ℤ → Bool
leb_ℤ a b = leb (pos_part a + neg_part b) (pos_part b + neg_part a)

abbrev pub int_beq : ℤ → ℤ → Bool
int_beq (pos m) (pos n) = m == n
int_beq (negsuc m) (negsuc n) = m == n
int_beq (pos m) (negsuc n) = false
int_beq (negsuc m) (pos n) = false

pub int_beq_iff : (a b : ℤ) → (int_beq a b ≡ true) ↔ (a ≡ b)
int_beq_iff a b = ground arith

instance abbrev pub int_eq : Eq ℤ
int_eq = record { beq = int_beq; beq_iff = int_beq_iff }

-- `${n}`
abbrev pub int_to_string : ℤ → Text
int_to_string (pos n) = to_string n
int_to_string (negsuc n) = b'-' ∷ to_string (suc n)

unsigned : (n : ℕ) (t : Text) → to_string n ≢ b'-' ∷ t
unsigned n t e =
    let absent : elem b'-' (b'-' ∷ t) ≡ false =
      subst (λ x. elem b'-' x ≡ false) e (sign-to_string b'-' n (omega arith)) in
    ground arith

pub int_to_string-injective : (a b : ℤ) → int_to_string a ≡ int_to_string b → a ≡ b
int_to_string-injective (pos m) (pos n) e = ap pos (to_string-injective m n e)
int_to_string-injective (negsuc m) (negsuc n) e =
    ground (arith, to_string-injective (suc m) (suc n))
int_to_string-injective (pos m) (negsuc n) e = absurd (unsigned m (to_string (suc n)) e)
int_to_string-injective (negsuc m) (pos n) e = absurd (unsigned n (to_string (suc m)) (sym e))
