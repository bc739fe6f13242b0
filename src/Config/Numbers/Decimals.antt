-- ===== src/Config/Numbers/Decimals.antt =====
-- noray/src/config.parsers.mjs, `number`: JavaScript's parseFloat of a text. The result is kept as the
-- decimal that was read: the digits, how many of them are behind the point, and the exponent.
use bevy_noray.Base.{
  ℕ, Bool, true, false, ◌&&◌, ◌||◌, Option, none, some, [], ◌∷◌, ◌++◌, length, Text, codes, ◌==◌,
  if◌then◌else◌, ℤ, pos, negate,
}
use bevy_noray.Config.Numbers.{is_digit, trim_start, read_digits}

-- `finite negative digits places exponent` is digits / 10 ^ places * 10 ^ exponent, or that negated.
pub data Number : Type 0 where
  finite : Bool → ℕ → ℕ → ℤ → Number
  infinite : Bool → Number

-- The longest start of a text whose characters pass the test, and the rest.
abbrev pub span : (ℕ → Bool) → Text → Text × Text
span test [] = ([], [])
span test (c ∷ cs) = let (w, rest) = span test cs in if test c then (c ∷ w, rest) else ([], c ∷ cs)

abbrev pub starts : Text → Text → Bool
starts [] t = true
starts (p ∷ ps) [] = false
starts (p ∷ ps) (c ∷ cs) = (p == c) && starts ps cs

-- The digits behind a sign of an exponent, or zero if there are none.
abbrev pub exponent_digits : (ℕ → ℤ) → Text → ℤ
exponent_digits sign cs = let (ds, rest) = span is_digit cs in sign (read_digits 10 0 ds)

abbrev pub exponent : Text → ℤ
exponent [] = pos 0
exponent (e ∷ []) = pos 0
exponent (e ∷ s ∷ cs) =
    if (e == b'e') || (e == b'E')
    then (if s == b'-'
        then exponent_digits negate cs
        else if s == b'+'
        then exponent_digits pos cs
        else exponent_digits pos (s ∷ cs))
    else pos 0

-- There must be a digit before or behind the point.
abbrev pub with_digits : Bool → Text → Text → Text → Option Number
with_digits negative [] [] rest = none
with_digits negative (d ∷ ds) fs rest =
    some (finite negative (read_digits 10 0 ((d ∷ ds) ++ fs)) (length fs) (exponent rest))
with_digits negative [] (f ∷ fs) rest =
    some (finite negative (read_digits 10 0 (f ∷ fs)) (length (f ∷ fs)) (exponent rest))

abbrev pub behind_whole : Bool → Text × Text → Option Number
behind_whole negative (ds, []) = with_digits negative ds [] []
behind_whole negative (ds, c ∷ cs) =
    let (fs, rest) = span is_digit cs in
    if c == b'.' then with_digits negative ds fs rest else with_digits negative ds [] (c ∷ cs)

unfoldable pub parse_unsigned : Bool → Text → Option Number
parse_unsigned negative t =
    if starts (codes "Infinity") t
    then some (infinite negative)
    else behind_whole negative (span is_digit t)

unfoldable pub parse_float : Text → Option Number
unfolding parse_unsigned
parse_float [] = none
parse_float (c ∷ cs) =
    if c == b'-'
    then parse_unsigned true cs
    else if c == b'+'
    then parse_unsigned false cs
    else parse_unsigned false (c ∷ cs)

-- A missing value is read as the text `undefined`, which is no number.
unfoldable pub number : Option Text → Option Number
unfolding parse_float
number none = parse_float (codes "undefined")
number (some value) = parse_float (trim_start value)
