-- ===== src/Config/Units/Sizes.antt =====
-- noray/src/config.parsers.mjs, `byteSize`, reads what noray/src/utils.mjs, `formatByteSize`, prints.
use bevy_noray.Base.{
  ℕ, zero, suc, ◌+◌, ◌*◌, ◌^◌, ◌≡◌, refl, ap, sym, subst, ◌∙◌, Bool, true, false, ◌&&◌, Option,
  none, some, List, [], ◌∷◌, ◌++◌, append-nil, get_elem?, arith, Text, to_string, ok, pos,
}
use bevy_noray.Base.Texts.Decimal.{value_from, value_from-to_string}
use bevy_noray.Config.Numbers.{is_digit, all_digits}
use bevy_noray.Config.Numbers.Printed.{all_digits-to_string, to_string_cons, read_digits-value_from}
use bevy_noray.Config.Numbers.Decimals.{Number, finite, span, number, parse_float, parse_unsigned}
use bevy_noray.Config.Units.{Scaled, is_letter, in_nominator, extract_unit, postfix_of, byte_size}
use bevy_noray.Utils.{postfixes, format_byte_size}
use bevy_noray.Utils.Formats.{format_byte_size_unit}

abbrev all_letters : Text → Bool
all_letters [] = true
all_letters (c ∷ cs) = is_letter c && all_letters cs

span-letters : (u : Text) → all_letters u ≡ true → span is_letter u ≡ (u, [])
span-letters [] h = refl
span-letters (c ∷ cs) h = ground (arith, span-letters cs)

span-nominator :
    (w : Text) (c : ℕ) (cs : Text)
    → all_digits w ≡ true
    → is_letter c ≡ true
    → span in_nominator (w ++ c ∷ cs) ≡ (w, c ∷ cs)
span-nominator [] c cs h k = ground arith
span-nominator (d ∷ ds) c cs h k = ground (arith, span-nominator ds c cs)

span-digits : (w : Text) → all_digits w ≡ true → span is_digit w ≡ (w, [])
span-digits [] h = refl
span-digits (d ∷ ds) h = ground (arith, span-digits ds)

extract_unit-spans :
    (value : Text) (d : ℕ) (ds rest u end : Text)
    → span in_nominator value ≡ (d ∷ ds, rest)
    → span is_letter rest ≡ (u, end)
    → extract_unit value ≡ ok (d ∷ ds, u)
unfolding extract_unit
extract_unit-spans value d ds rest u end h k = ground (arith, h, k)

number-digits :
    (d : ℕ) (ds : Text)
    → all_digits (d ∷ ds) ≡ true
    → number (some (d ∷ ds)) ≡ some (finite false (value_from 0 (d ∷ ds)) 0 (pos 0))
unfolding number parse_float parse_unsigned
number-digits d ds h = ground (
  arith,
  span-digits (d ∷ ds) h,
  append-nil ds,
  append-nil (d ∷ ds),
  read_digits-value_from 0 (d ∷ ds) h,
)

number-to_string : (n : ℕ) → number (some (to_string n)) ≡ some (finite false n 0 (pos 0))
number-to_string n =
    let (d, ds, e) = to_string_cons n in
    ap (λ t. number (some t)) e
    ∙ (number-digits d ds (subst (λ t. all_digits t ≡ true) e (all_digits-to_string n))
        ∙ (ap (λ t. some (finite false (value_from 0 t) 0 (pos 0))) (sym e)
            ∙ ap (λ m. some (finite false m 0 (pos 0))) (value_from-to_string n)))

-- A unit of `formatByteSize` is a word of letters, and `byteSize` knows it by the same index.
abbrev IsPostfix : ℕ → Text → Type 0
IsPostfix i p =
    (c : ℕ) × (cs : Text) × (p ≡ c ∷ cs) × (all_letters p ≡ true) × (postfix_of p ≡ some i)

abbrev AllPostfixes : List Text → ℕ → Type 0
AllPostfixes [] k = Unit {0}
AllPostfixes (q ∷ qs) k = IsPostfix k q × AllPostfixes qs (suc k)

postfixes-AllPostfixes : AllPostfixes postfixes 0
unfolding postfix_of
postfixes-AllPostfixes = (
  (_, _, refl, refl, refl),
  (
    (_, _, refl, refl, refl),
    (
      (_, _, refl, refl, refl),
      (
        (_, _, refl, refl, refl),
        (
          (_, _, refl, refl, refl),
          (
            (_, _, refl, refl, refl),
            ((_, _, refl, refl, refl), ((_, _, refl, refl, refl), ((_, _, refl, refl, refl), tt))),
          ),
        ),
      ),
    ),
  ),
)

AllPostfixes-get_elem? :
    (qs : List Text) (k j : ℕ) (q : Text)
    → AllPostfixes qs k
    → get_elem? qs j ≡ some q
    → IsPostfix (k + j) q
AllPostfixes-get_elem? [] k j q a f = cc
AllPostfixes-get_elem? (x ∷ qs) k zero q a f =
    let same : x ≡ q = ground (arith, f) in
    let index : k ≡ k + 0 = omega arith in
    subst (λ i. IsPostfix i q) index (subst (IsPostfix k) same a.0)
AllPostfixes-get_elem? (x ∷ qs) k (suc j) q a f =
    let index : suc k + j ≡ k + suc j = omega arith in
    subst (λ i. IsPostfix i q) index (AllPostfixes-get_elem? qs (suc k) j q a.1 f)

byte_size-parts :
    (value nominator unit : Text) (idx : ℕ)
    → extract_unit value ≡ ok (nominator, unit)
    → postfix_of unit ≡ some idx
    → byte_size (some value)
      ≡ ok (some (record { base = number (some nominator); factor = some (1024 ^ idx, 1) }))
unfolding byte_size
byte_size-parts value nominator unit idx h k = ground (arith, h, k)

extract_unit-printed :
    (m c : ℕ) (cs : Text)
    → all_letters (c ∷ cs) ≡ true
    → extract_unit (to_string m ++ c ∷ cs) ≡ ok (to_string m, c ∷ cs)
extract_unit-printed m c cs letters =
    let (d, ds, first) = to_string_cons m in
    let parted : span in_nominator (to_string m ++ c ∷ cs) ≡ (d ∷ ds, c ∷ cs) =
      span-nominator (to_string m) c cs (all_digits-to_string m) (ground arith)
      ∙ ap (λ t. (t, c ∷ cs)) first in
    extract_unit-spans (to_string m ++ c ∷ cs) d ds (c ∷ cs) (c ∷ cs) [] parted
      (span-letters (c ∷ cs) letters)
    ∙ ap (λ t. ok (t, c ∷ cs)) (sym first)

-- The number that a product is, when it is a whole number of a whole factor.
abbrev pub whole_of : Option Number → Option (ℕ × ℕ) → Option ℕ
whole_of (some (finite false n zero (pos zero))) (some (f, suc zero)) = some (n * f)
whole_of _ _ = none

abbrev pub whole_value : Scaled → Option ℕ
whole_value s = whole_of s.base s.factor

-- `byteSize` of a number and a unit of `formatByteSize`.
byte_size-printed :
    (m i : ℕ) (p : Text)
    → get_elem? postfixes i ≡ some p
    → byte_size (some (to_string m ++ p))
      ≡ ok (some (record { base = some (finite false m 0 (pos 0)); factor = some (1024 ^ i, 1) }))
byte_size-printed m i p e =
    let (c, cs, shape, letters, known) =
      AllPostfixes-get_elem? postfixes 0 i p postfixes-AllPostfixes e in
    let parts : extract_unit (to_string m ++ p) ≡ ok (to_string m, p) =
      subst (λ t. extract_unit (to_string m ++ t) ≡ ok (to_string m, t)) (sym shape)
        (extract_unit-printed m c cs (subst (λ t. all_letters t ≡ true) shape letters)) in
    let index : 0 + i ≡ i = omega arith in
    byte_size-parts (to_string m ++ p) (to_string m) p i parts (known ∙ ap some index)
    ∙ ap (λ b. ok (some (record { base = b; factor = some (1024 ^ i, 1) }))) (number-to_string m)

-- For a size that is a whole number of the unit that `formatByteSize` chooses, `byteSize` of the text of
-- that number and the unit is the size again.
pub byte_size-format_byte_size :
    (size m : ℕ)
    → m * (format_byte_size size).denominator ≡ size
    → (s : Scaled) × (byte_size (some (to_string m ++ (format_byte_size size).unit)) ≡ ok (some s))
      × (whole_value s ≡ some size)
byte_size-format_byte_size size m whole =
    let (i, at, d, _, _) = format_byte_size_unit size in
    (
      _,
      byte_size-printed m i (format_byte_size size).unit at,
      ap (λ f. some (m * f)) (sym d) ∙ ap some whole,
    )
