-- ===== src/Config/Ports.antt =====
-- noray/src/config.parsers.mjs, `ports`: the ports of a list of ranges.
pub mod Sorting
pub mod Contents
pub mod Printed
use bevy_noray.Base.{
  ℕ, zero, suc, ◌+◌, Bool, true, false, not, ◌&&◌, ◌||◌, Option, none, some, List, [], ◌∷◌, ◌++◌,
  map, Text, elem, nat_eq, leb, ◌==◌, if◌then◌else◌, Outcome, ok, throws, range_error, ℤ, pos,
  negsuc, ◌+ℤ◌, ◌-ℤ◌, int_beq, int_to_string, iota,
}
use bevy_noray.Config.Numbers.{integer, trim, all_digits}

-- `text.split(separator)` for one character; there is always a first part.
unfoldable pub split : ℕ → Text → List Text
split sep [] = [] ∷ []
split sep (c ∷ cs) = elim (split sep cs) [
  | [] ↦ (c ∷ []) ∷ []
  | w ∷ ws ↦ if c == sep then [] ∷ w ∷ ws else (c ∷ w) ∷ ws
]

-- `/^\d+$/`
abbrev pub is_literal : Text → Bool
is_literal [] = false
is_literal (c ∷ cs) = all_digits (c ∷ cs)

abbrev pub filter_map : {A B : Type 0} → (A → Option B) → List A → List B
filter_map f [] = []
filter_map f (x ∷ xs) = elim (f x) [ none ↦ filter_map f xs | some y ↦ y ∷ filter_map f xs ]

-- `.map(integer)`, unless one of them is undefined.
unfoldable pub integers : List Text → Option (List ℤ)
integers [] = some []
integers (t ∷ ts) = elim (integer (some t)) [
  | none ↦ none
  | some n ↦ elim (integers ts) [ none ↦ none | some ns ↦ some (n ∷ ns) ]
]

-- A range is its first and its last port.
abbrev pub Range : Type 0
Range = ℤ × ℤ

-- `([from, to]) => …` takes the first two.
abbrev pub first_two : List ℤ → Option Range
first_two (from ∷ to ∷ rest) = some (from, to)
first_two (from ∷ []) = none
first_two [] = none

unfoldable pub literal : Text → Option Range
literal r =
    if is_literal r
    then elim (integer (some r)) [
      | none ↦ none
      | some p ↦ if int_beq p (pos 0) then none else some (p, p)
    ]
    else none

unfoldable pub absolute : Text → Option Range
unfolding integers split
absolute r =
    if elem b'-' r
    then elim (integers (split b'-' r)) [ none ↦ none | some ns ↦ first_two ns ]
    else none

unfoldable pub relative : Text → Option Range
unfolding integers split
relative r =
    if elem b'+' r
    then elim (integers (split b'+' r)) [
      | none ↦ none
      | some ns ↦ elim (first_two ns) [
        | none ↦ none
        | some (from, offset) ↦ some (from, from +ℤ offset)
      ]
    ]
    else none

-- `[...literals, ...absolutes, ...relatives]`
unfoldable pub ranges : Text → List Range
unfolding literal absolute relative split
ranges value =
    let parts = map trim (split b',' value) in
    filter_map literal parts ++ (filter_map absolute parts ++ filter_map relative parts)

-- `[...new Array(to - from + 1)].map((_, i) => from + i)`: an array has a length below 2 ^ 32.
unfoldable pub expand : Range → Outcome (List ℤ)
expand (from, to) = elim (to -ℤ from +ℤ pos 1) [
  | pos n ↦
      if leb n 4_294_967_295 then ok (map (λ i. from +ℤ pos i) (iota 0 n)) else throws range_error
  | negsuc n ↦ throws range_error
]

-- `flatMap`: the first error ends it.
unfoldable pub expand_all : List Range → Outcome (List ℤ)
unfolding expand
expand_all [] = ok []
expand_all (r ∷ rs) = elim (expand r) [
  | throws e ↦ throws e
  | ok ps ↦ elim (expand_all rs) [ throws e ↦ throws e | ok qs ↦ ok (ps ++ qs) ]
]

-- `sort()` compares the texts, code unit by code unit.
abbrev pub text_leb : Text → Text → Bool
text_leb [] b = true
text_leb (x ∷ xs) [] = false
text_leb (x ∷ xs) (y ∷ ys) = if x == y then text_leb xs ys else leb x y

unfoldable pub insert_sorted : ℤ → List ℤ → List ℤ
insert_sorted p [] = p ∷ []
insert_sorted p (q ∷ qs) =
    if text_leb (int_to_string p) (int_to_string q) then p ∷ q ∷ qs else q ∷ insert_sorted p qs

unfoldable pub sort : List ℤ → List ℤ
unfolding insert_sorted
sort [] = []
sort (p ∷ ps) = insert_sorted p (sort ps)

-- `.filter((v, i, a) => i === 0 || v !== a[i - 1])`
unfoldable pub unique_after : ℤ → List ℤ → List ℤ
unique_after last [] = []
unique_after last (p ∷ ps) = if int_beq p last then unique_after p ps else p ∷ unique_after p ps

unfoldable pub unique : List ℤ → List ℤ
unfolding unique_after
unique [] = []
unique (p ∷ ps) = p ∷ unique_after p ps

-- `result.length > 0 ? result : undefined`
abbrev pub if_any : List ℤ → Option (List ℤ)
if_any [] = none
if_any (p ∷ ps) = some (p ∷ ps)

unfoldable pub ports : Option Text → Outcome (Option (List ℤ))
unfolding ranges expand_all sort unique
ports none = ok none
ports (some value) = elim (expand_all (ranges value)) [
  | throws e ↦ throws e
  | ok ps ↦ ok (if_any (unique (sort ps)))
]
