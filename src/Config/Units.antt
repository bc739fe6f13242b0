-- ===== src/Config/Units.antt =====
-- noray/src/config.parsers.mjs, `byteSize` and `duration`: a number and a unit.
pub mod Sizes
use bevy_noray.Base.{
  ℕ, ◌+◌, ◌^◌, Bool, true, false, ◌&&◌, ◌||◌, Option, none, some, List, [], ◌∷◌, map, find_index,
  Text, text_beq, text_eq, codes, leb, ◌==◌, if◌then◌else◌, lookup, Store, Outcome, ok, throws,
  parse_error, unknown_unit,
}
use bevy_noray.Config.Numbers.{is_digit}
use bevy_noray.Config.Numbers.Decimals.{Number, number, span}

abbrev pub is_letter : ℕ → Bool
is_letter c = (leb b'a' c && leb c b'z') || (leb b'A' c && leb c b'Z')

abbrev pub in_nominator : ℕ → Bool
in_nominator c = is_digit c || (c == b'.') || (c == b',')

-- `toLowerCase`, on ASCII letters.
abbrev pub lower : ℕ → ℕ
lower c = if leb b'A' c && leb c b'Z' then c + 32 else c

-- `/^([0-9.,]+)([a-zA-Z]*)/`
unfoldable pub extract_unit : Text → Outcome (Text × Text)
extract_unit value =
    let (nominator, rest) = span in_nominator value in
    let (unit, tail) = span is_letter rest in
    elim nominator [ [] ↦ throws parse_error | c ∷ cs ↦ ok (c ∷ cs, unit) ]

-- A product that JavaScript computes: the number, which may be missing, times a quotient. A number or a
-- factor that is missing makes it NaN.
pub record Scaled : Type 0 where
  pub base : Option Number
  pub factor : Option (ℕ × ℕ)

abbrev pub size_postfixes : List Text
size_postfixes =
    codes "b"
    ∷ codes "kb"
    ∷ codes "mb"
    ∷ codes "gb"
    ∷ codes "tb"
    ∷ codes "pb"
    ∷ codes "eb"
    ∷ codes "zb"
    ∷ codes "yb"
    ∷ []

-- `unit || 'b'`
abbrev pub or_byte : Text → Text
or_byte [] = codes "b"
or_byte (c ∷ cs) = c ∷ cs

unfoldable pub postfix_of : Text → Option ℕ
postfix_of unit = find_index (λ pf. text_beq pf (map lower (or_byte unit))) size_postfixes

unfoldable pub byte_size : Option Text → Outcome (Option Scaled)
unfolding postfix_of
byte_size none = ok none
byte_size (some value) = elim (extract_unit value) [
  | throws e ↦ throws e
  | ok (nominator, unit) ↦ elim (postfix_of unit) [
    | none ↦ throws unknown_unit
    | some idx ↦
        ok (some (record { base = number (some nominator); factor = some (1024 ^ idx, 1) }))
  ]
]

-- The seconds of a unit, as a quotient. Every object has a property `constructor`, which is a function:
-- the assertion lets it through, and the product with it is NaN.
abbrev pub unit_factors : Store Text (Option (ℕ × ℕ))
unit_factors =
    ([], some (1, 1))
    ∷ (codes "us", some (1, 1_000_000))
    ∷ (codes "ms", some (1, 1_000))
    ∷ (codes "s", some (1, 1))
    ∷ (codes "m", some (60, 1))
    ∷ (codes "h", some (3_600, 1))
    ∷ (codes "hr", some (3_600, 1))
    ∷ (codes "d", some (86_400, 1))
    ∷ (codes "w", some (604_800, 1))
    ∷ (codes "mo", some (2_592_000, 1))
    ∷ (codes "yr", some (31_536_000, 1))
    ∷ (codes "constructor", none)
    ∷ []

-- `value.toLowerCase()`, as far as it yields ASCII letters: the dotted capital I becomes a letter and a
-- mark, and the Kelvin sign a letter.
abbrev pub lower_case : Text → Text
lower_case [] = []
lower_case (c ∷ cs) =
    if c == 304
    then b'i' ∷ 775 ∷ lower_case cs
    else if c == 8490
    then b'k' ∷ lower_case cs
    else lower c ∷ lower_case cs

unfoldable pub duration : Option Text → Outcome (Option Scaled)
duration none = ok none
duration (some value) = elim (extract_unit (lower_case value)) [
  | throws e ↦ throws e
  | ok (nominator, unit) ↦ elim (lookup unit unit_factors) [
    | none ↦ throws unknown_unit
    | some factor ↦ ok (some (record { base = number (some nominator); factor = factor }))
  ]
]
