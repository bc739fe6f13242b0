-- ===== src/Config/Numbers.antt =====
-- noray/src/config.parsers.mjs, `integer`: JavaScript's parseInt of a text, which reads as many digits
-- as there are.
pub mod Printed
pub mod Decimals
use bevy_noray.Base.{
  ℕ, ◌+◌, ◌-◌, ◌*◌, Bool, true, false, ◌&&◌, ◌||◌, Option, none, some, List, [], ◌∷◌, Text, codes,
  ltb, leb, ◌==◌, if◌then◌else◌, ℤ, pos, negate,
}

-- White space and line ends of JavaScript.
abbrev pub is_space : ℕ → Bool
is_space c =
    (leb 9 c && leb c 13)
    || (c == 32)
    || (c == 160)
    || (c == 5760)
    || (leb 8192 c && leb c 8202)
    || (c == 8232)
    || (c == 8233)
    || (c == 8239)
    || (c == 8287)
    || (c == 12288)
    || (c == 65279)

abbrev pub is_digit : ℕ → Bool
is_digit c = leb b'0' c && leb c b'9'

abbrev pub all_digits : Text → Bool
all_digits [] = true
all_digits (c ∷ cs) = is_digit c && all_digits cs

abbrev pub trim_start : Text → Text
trim_start [] = []
trim_start (c ∷ cs) = if is_space c then trim_start cs else c ∷ cs

abbrev pub trim_end : Text → Text
trim_end [] = []
trim_end (c ∷ cs) = elim (trim_end cs) [
  | [] ↦ if is_space c then [] else c ∷ []
  | x ∷ xs ↦ c ∷ x ∷ xs
]

abbrev pub trim : Text → Text
trim t = trim_end (trim_start t)

-- The value of a digit, if it is one in the radix, which is ten or sixteen.
abbrev pub digit_of : ℕ → ℕ → Option ℕ
digit_of radix c =
    if is_digit c
    then some (c - b'0')
    else if radix == 10
    then none
    else if leb b'a' c && leb c b'f'
    then some (c - b'a' + 10)
    else if leb b'A' c && leb c b'F'
    then some (c - b'A' + 10)
    else none

-- The digits up to the first character that is not one, behind what is read already.
unfoldable pub read_digits : ℕ → ℕ → Text → ℕ
read_digits radix acc [] = acc
read_digits radix acc (c ∷ cs) = elim (digit_of radix c) [
  | none ↦ acc
  | some d ↦ read_digits radix (acc * radix + d) cs
]

unfoldable pub parse_digits : ℕ → Text → Option ℕ
unfolding read_digits
parse_digits radix [] = none
parse_digits radix (c ∷ cs) = elim (digit_of radix c) [
  | none ↦ none
  | some d ↦ some (read_digits radix d cs)
]

-- A prefix `0x` makes the radix sixteen.
unfoldable pub parse_magnitude : Text → Option ℕ
unfolding parse_digits
parse_magnitude [] = none
parse_magnitude (c ∷ []) = parse_digits 10 (c ∷ [])
parse_magnitude (c ∷ x ∷ cs) =
    if (c == b'0') && ((x == b'x') || (x == b'X'))
    then parse_digits 16 cs
    else parse_digits 10 (c ∷ x ∷ cs)

unfoldable pub parse_signed : Text → Option ℤ
unfolding parse_magnitude
parse_signed [] = none
parse_signed (c ∷ cs) =
    if c == b'-'
    then elim (parse_magnitude cs) [ none ↦ none | some n ↦ some (negate n) ]
    else if c == b'+'
    then elim (parse_magnitude cs) [ none ↦ none | some n ↦ some (pos n) ]
    else elim (parse_magnitude (c ∷ cs)) [ none ↦ none | some n ↦ some (pos n) ]

-- A missing value is read as the text `undefined`, which has no digits.
unfoldable pub integer : Option Text → Option ℤ
unfolding parse_signed
integer none = parse_signed (codes "undefined")
integer (some value) = parse_signed (trim_start value)
