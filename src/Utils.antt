-- ===== src/Utils.antt =====
-- noray/src/utils.mjs and noray/src/assertions.mjs. Counts and indices are below 2 ^ 31, where `~~`
-- keeps them.
pub mod Words
pub mod Chunks
pub mod Combining
pub mod Timing
pub mod Memory
pub mod Formats
use bevy_noray.Base.{
  ℕ, zero, suc, ◌+◌, ◌-◌, ◌*◌, ◌/◌, ◌%◌, ◌^◌, Bool, true, false, ltb, leb, Option, none, some, List,
  [], ◌∷◌, ◌++◌, map, length, get_elem?, find, find_index, if◌then◌else◌, Text, text_eq, codes,
  Store, lookup, has, insert, Eq, elem, Outcome, ok, throws, range_error, missing_param,
  invalid_enum, Action, ◌>>=◌, ◌>>◌, pure, iota,
}

-- `value ?? fail(…)`
unfoldable pub require_param : {A : Type 0} → Option A → Outcome A
require_param none = throws missing_param
require_param (some value) = ok value

-- `values` are those of the enum.
unfoldable pub require_enum : {A : Type 0} ⦃e : Eq A⦄ → A → List A → Outcome A
require_enum value values = if elem value values then ok value else throws invalid_enum

unfoldable pub range : ℕ → List ℕ
range n = iota 0 n

module _ {A : Type 0} where
  abbrev pub take : ℕ → List A → List A
  take zero xs = []
  take (suc n) [] = []
  take (suc n) (x ∷ xs) = x ∷ take n xs

  abbrev pub drop : ℕ → List A → List A
  drop zero xs = xs
  drop (suc n) [] = []
  drop (suc n) (x ∷ xs) = drop n xs

  -- `data.slice(start, end)`
  abbrev pub slice : ℕ → ℕ → List A → List A
  slice start end xs = take (end - start) (drop start xs)

  -- A size of zero makes the count no length of an array.
  unfoldable pub chunks : List A → ℕ → Outcome (List (List A))
  chunks data_list zero = throws range_error
  chunks data_list (suc s) = ok (
      map (λ i. slice (i * suc s) ((i + 1) * suc s) data_list)
        (iota 0 ((length data_list + s) / suc s)))

  unfoldable pub count : List (List A) → ℕ
  count [] = 1
  count (a ∷ rest) = length a * count rest

  -- The item at an index: its place in the first array is the remainder, and so on.
  unfoldable pub item : List (List A) → ℕ → List (Option A)
  item [] idx = []
  item (a ∷ rest) idx = get_elem? a (idx % length a) ∷ item rest (idx / length a)

  unfoldable pub combine : List (List A) → List (List (Option A))
  unfolding count item range
  combine arrays = map (item arrays) (range (count arrays))

-- `key` is JSON.stringify of the arguments; the cache is the closure's.
module _ {A B S : Type 0} (key : A → Text) (f : A → Action S B) where
  unfoldable pub remember : Text → B → Action (Store Text B × S) B
  remember k b (cache, s) = (ok b, (insert k b cache, s))

  unfoldable pub evaluate : A → Action (Store Text B × S) B
  evaluate a (cache, s) = let (r, s') = f a s in (r, (cache, s'))

  unfoldable pub memoized : A → Action (Store Text B × S) B
  unfolding remember evaluate
  memoized a (cache, s) = elim (lookup (key a) cache) [
    | some b ↦ (ok b, (cache, s))
    | none ↦ (evaluate a >>= remember (key a)) (cache, s)
  ]

-- What is printed is a quotient and a unit.
pub record Formatted : Type 0 where
  pub numerator : ℕ
  pub denominator : ℕ
  pub unit : Text

abbrev pub postfixes : List Text
postfixes =
    codes "b"
    ∷ codes "kb"
    ∷ codes "Mb"
    ∷ codes "Gb"
    ∷ codes "Tb"
    ∷ codes "Pb"
    ∷ codes "Eb"
    ∷ codes "Zb"
    ∷ codes "Yb"
    ∷ []

-- `(length + findIndex(…)) % length`, where `findIndex` gives -1 if there is none.
unfoldable pub postfix_index : ℕ → ℕ
postfix_index size = elim (find_index (λ i. ltb size (1024 ^ (i + 1))) (iota 0 9)) [
  | none ↦ (9 - 1) % 9
  | some i ↦ (9 + i) % 9
]

unfoldable pub format_byte_size : ℕ → Formatted
unfolding postfix_index
format_byte_size size =
    let pfi = postfix_index size in
    record {
      numerator = size;
      denominator = 1024 ^ pfi;
      unit = elim (get_elem? postfixes pfi) [ none ↦ [] | some p ↦ p ];
    }

-- The units from the longest, in microseconds.
abbrev pub duration_units : List (Text × ℕ)
duration_units =
    (codes "yr", 31_536_000_000_000)
    ∷ (codes "mo", 2_592_000_000_000)
    ∷ (codes "wk", 604_800_000_000)
    ∷ (codes "day", 86_400_000_000)
    ∷ (codes "hr", 3_600_000_000)
    ∷ (codes "min", 60_000_000)
    ∷ (codes "sec", 1_000_000)
    ∷ (codes "ms", 1_000)
    ∷ (codes "us", 1)
    ∷ []

-- The duration is in microseconds.
unfoldable pub format_duration : ℕ → Formatted
format_duration duration =
    let (unit, multiplier) : Text × ℕ = elim (find (λ u. ltb u.1 duration) duration_units) [
      | none ↦ (codes "us", 1)
      | some u ↦ u
    ] in
    record { numerator = duration; denominator = multiplier; unit = unit }

-- `picks` are the random indices, one for each word.
unfoldable pub generate_word_id : List Text → List ℕ → Text
generate_word_id words [] = []
generate_word_id words (i ∷ is) =
    elim (get_elem? words i) [ none ↦ [] | some w ↦ w ] ++ generate_word_id words is
