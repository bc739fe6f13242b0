-- ===== src/Base/Texts/Decimal.antt =====
-- The decimal text of a number says which number it is, and holds digits alone.
use Prim.Native.Nat.{ℕ, zero, suc, ◌+◌, ◌-◌, ◌*◌, ◌/◌, ◌%◌, ◌≤◌, ◌<◌}
use mathlib.Core.Path.{◌≡◌, refl, sym, ap, ◌∙◌}
use mathlib.Core.Bool.{false}
use mathlib.Core.Logic.{◌⊎◌, inl, inr}
use mathlib.Core.List.{[], ◌∷◌, ◌++◌}
use native.Mathlib.Omega.{arith}
use bevy_noray.Base.Tests.{ltb, nat_eq, Bool-cases}
use bevy_noray.Base.Lists.{elem, elem-append}
use bevy_noray.Base.Texts.{Text, digits_fuel, to_string}

-- The number that digits denote behind the digits of `acc`.
unfoldable pub value_from : ℕ → Text → ℕ
value_from acc [] = acc
value_from acc (d ∷ ds) = value_from (acc * 10 + (d - b'0')) ds

value_from-snoc :
    (acc : ℕ) (ds : Text) (d : ℕ)
    → value_from acc (ds ++ d ∷ []) ≡ value_from acc ds * 10 + (d - b'0')
unfolding value_from
value_from-snoc acc [] d = refl
value_from-snoc acc (x ∷ ds) d = value_from-snoc (acc * 10 + (x - b'0')) ds d

value_from-digits_fuel : (f n : ℕ) → n < f → value_from 0 (digits_fuel f n) ≡ n
unfolding digits_fuel value_from
value_from-digits_fuel zero n h = absurd (omega arith)
value_from-digits_fuel (suc f) n h = elim (Bool-cases (ltb n 10)) [
  | inl small ↦ rw (small) (omega arith)
  | inr large ↦
      let big : 10 ≤ n = ground arith in
      rw
        (
          large,
          value_from-snoc 0 (digits_fuel f (n / 10)) (b'0' + n % 10),
          value_from-digits_fuel f (n / 10) (omega arith),
        )
        (omega arith)
]

pub value_from-to_string : (n : ℕ) → value_from 0 (to_string n) ≡ n
unfolding to_string
value_from-to_string n = value_from-digits_fuel (suc n) n (omega arith)

pub to_string-injective : (m n : ℕ) → to_string m ≡ to_string n → m ≡ n
to_string-injective m n e =
    sym (value_from-to_string m) ∙ ap (value_from 0) e ∙ value_from-to_string n

elem-digits_fuel : (c f n : ℕ) → (c < b'0') ⊎ (b'9' < c) → elem c (digits_fuel f n) ≡ false
unfolding digits_fuel
elem-digits_fuel c zero n h = refl
elem-digits_fuel c (suc f) n h = ground (
  arith,
  elem-append c (digits_fuel f (n / 10)) ((b'0' + n % 10) ∷ []),
  elem-digits_fuel c f (n / 10),
)

-- A character above the digits, such as a colon, does not occur.
pub elem-to_string : (c n : ℕ) → b'9' < c → elem c (to_string n) ≡ false
unfolding to_string
elem-to_string c n h = elem-digits_fuel c (suc n) n (inr h)

-- Neither does one below them, such as a sign.
pub sign-to_string : (c n : ℕ) → c < b'0' → elem c (to_string n) ≡ false
unfolding to_string
sign-to_string c n h = elem-digits_fuel c (suc n) n (inl h)

-- A text is split at the last occurrence of a character in one way only.
pub split_last :
    (c : ℕ) (xs ys ds es : Text)
    → elem c ds ≡ false
    → elem c es ≡ false
    → xs ++ c ∷ ds ≡ ys ++ c ∷ es
    → (xs ≡ ys) × (ds ≡ es)
split_last c [] [] ds es hd he p = ground arith
split_last c [] (y ∷ ys) ds es hd he p = absurd (ground (arith, elem-append c ys (c ∷ es)))
split_last c (x ∷ xs) [] ds es hd he p = absurd (ground (arith, elem-append c xs (c ∷ ds)))
split_last c (x ∷ xs) (y ∷ ys) ds es hd he p = ground (arith, split_last c xs ys ds es hd he)
