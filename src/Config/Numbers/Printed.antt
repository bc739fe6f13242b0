-- ===== src/Config/Numbers/Printed.antt =====
-- noray/src/config.parsers.mjs, `integer`, on the text of a number.
use bevy_noray.Base.{
  subst, ℕ, zero, suc, ◌+◌, ◌-◌, ◌*◌, ◌/◌, ◌%◌, ◌≡◌, refl, ap, sym, ◌∙◌, inl, inr, true, ◌&&◌,
  Bool-cases, some, [], ◌∷◌, ◌++◌, arith, ltb, Text, to_string, digits_fuel, pos,
}
use bevy_noray.Base.Texts.Decimal.{value_from, value_from-to_string}
use bevy_noray.Config.Numbers.{
  all_digits, read_digits, parse_digits, parse_magnitude, parse_signed, integer,
}

pub all_digits-append : (xs ys : Text) → all_digits (xs ++ ys) ≡ (all_digits xs && all_digits ys)
all_digits-append [] ys = refl
all_digits-append (x ∷ xs) ys = ground (arith, all_digits-append xs ys)

all_digits-digits_fuel : (f n : ℕ) → all_digits (digits_fuel f n) ≡ true
unfolding digits_fuel
all_digits-digits_fuel zero n = refl
all_digits-digits_fuel (suc f) n = ground (
  arith,
  all_digits-append (digits_fuel f (n / 10)) ((b'0' + n % 10) ∷ []),
  all_digits-digits_fuel f (n / 10),
)

pub all_digits-to_string : (n : ℕ) → all_digits (to_string n) ≡ true
unfolding to_string
all_digits-to_string n = all_digits-digits_fuel (suc n) n

append_cons : (ts : Text) (c : ℕ) → (d : ℕ) × (ds : Text) × (ts ++ c ∷ [] ≡ d ∷ ds)
append_cons [] c = (c, [], refl)
append_cons (t ∷ ts) c = (t, ts ++ c ∷ [], refl)

-- The text of a number has a first digit.
pub to_string_cons : (n : ℕ) → (d : ℕ) × (ds : Text) × (to_string n ≡ d ∷ ds)
unfolding to_string digits_fuel
to_string_cons n = elim (Bool-cases (ltb n 10)) [
  | inl small ↦ (b'0' + n, [], rw small refl)
  | inr large ↦ rw large (append_cons (digits_fuel n (n / 10)) (b'0' + n % 10))
]

pub read_digits-value_from :
    (acc : ℕ) (ds : Text) → all_digits ds ≡ true → read_digits 10 acc ds ≡ value_from acc ds
unfolding read_digits value_from
read_digits-value_from acc [] h = refl
read_digits-value_from acc (d ∷ ds) h =
    ground (arith, read_digits-value_from (acc * 10 + (d - b'0')) ds)

parse_magnitude-digits :
    (d : ℕ) (ds : Text)
    → all_digits (d ∷ ds) ≡ true
    → parse_magnitude (d ∷ ds) ≡ some (value_from 0 (d ∷ ds))
unfolding parse_magnitude parse_digits value_from
parse_magnitude-digits d [] h = ground arith
parse_magnitude-digits d (x ∷ ds) h = ground (arith, read_digits-value_from (d - b'0') (x ∷ ds))

-- Digits are read as the number that they denote.
pub integer-digits :
    (d : ℕ) (ds : Text)
    → all_digits (d ∷ ds) ≡ true
    → integer (some (d ∷ ds)) ≡ some (pos (value_from 0 (d ∷ ds)))
unfolding integer parse_signed
integer-digits d ds h = ground (arith, parse_magnitude-digits d ds h)

-- The text of a number is read as that number.
pub integer-to_string : (n : ℕ) → integer (some (to_string n)) ≡ some (pos n)
integer-to_string n =
    let (d, ds, e) = to_string_cons n in
    ap (λ t. integer (some t)) e
    ∙ (integer-digits d ds (subst (λ t. all_digits t ≡ true) e (all_digits-to_string n))
        ∙ (ap (λ t. some (pos (value_from 0 t))) (sym e)
            ∙ ap (λ m. some (pos m)) (value_from-to_string n)))
