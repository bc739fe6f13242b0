-- ===== src/Config/Ports/Printed.antt =====
-- noray/src/config.parsers.mjs, `ports`, on the text of ranges.
use bevy_noray.Base.{
  not, ℕ, nat_eq, ◌≡◌, refl, ap, ◌∙◌, inl, inr, Bool, true, false, ◌&&◌, Bool-cases, Option, none,
  some, List, [], ◌∷◌, ◌++◌, map, append-nil, arith, ◌==◌, Text, to_string, elem, elem-append, pos,
}
use bevy_noray.Config.Numbers.{is_space, is_digit, all_digits, trim, trim_end}
use bevy_noray.Config.Numbers.Printed.{all_digits-append, all_digits-to_string, integer-to_string}
use bevy_noray.Config.Ports.{
  split, is_literal, filter_map, integers, Range, literal, absolute, relative, ranges,
}

-- Ranges of ports, each with its first and its last, as they are written.
abbrev pub print_range : ℕ × ℕ → Text
print_range (from, to) = to_string from ++ b'-' ∷ to_string to

abbrev pub print_ranges : List (ℕ × ℕ) → Text
print_ranges [] = []
print_ranges (r ∷ []) = print_range r
print_ranges (r ∷ q ∷ rs) = print_range r ++ b',' ∷ print_ranges (q ∷ rs)

abbrev pub signed : ℕ × ℕ → Range
signed (from, to) = (pos from, pos to)

split_once : (sep : ℕ) (w : Text) → elem sep w ≡ false → split sep w ≡ w ∷ []
unfolding split
split_once sep [] h = refl
split_once sep (c ∷ cs) h = ground (arith, split_once sep cs)

split_cons : (sep : ℕ) (t : Text) → (w : Text) × (ws : List Text) × (split sep t ≡ w ∷ ws)
unfolding split
split_cons sep [] = ([], [], refl)
split_cons sep (c ∷ cs) =
    let (w, ws, e) = split_cons sep cs in
    elim (Bool-cases (c == sep)) [
      | inl cut ↦ ([], w ∷ ws, rw (e, cut, split))
      | inr kept ↦ (c ∷ w, ws, rw (e, kept, split))
    ]

split-append :
    (sep : ℕ) (w rest : Text)
    → elem sep w ≡ false
    → split sep (w ++ sep ∷ rest) ≡ w ∷ split sep rest
unfolding split
split-append sep [] rest h = let (v, vs, e) = split_cons sep rest in ground (arith, e)
split-append sep (c ∷ cs) rest h = ground (arith, split-append sep cs rest)

-- A text of digits has no other character.
elem-digits : (c : ℕ) (w : Text) → is_digit c ≡ false → all_digits w ≡ true → elem c w ≡ false
elem-digits c [] n h = refl
elem-digits c (x ∷ xs) n h = ground (arith, elem-digits c xs)

abbrev no_space : Text → Bool
no_space [] = true
no_space (c ∷ cs) = not (is_space c) && no_space cs

both : (a b : Bool) → (a && b) ≡ true → (a ≡ true) × (b ≡ true)
both a b h = ground arith

both_again : (a b c : Bool) → (a && (b && c)) ≡ (a && b && c)
both_again a b c = ground arith

trim_end_same : (t : Text) → no_space t ≡ true → trim_end t ≡ t
trim_end_same [] h = refl
trim_end_same (c ∷ []) h = elim (Bool-cases (is_space c)) [
  | inl space ↦ absurd (cc (h, space))
  | inr other ↦ rw other refl
]
trim_end_same (c ∷ x ∷ xs) h =
    rw (trim_end_same (x ∷ xs) (both (not (is_space c)) (no_space (x ∷ xs)) h).1)

trim_same : (t : Text) → no_space t ≡ true → trim t ≡ t
trim_same [] h = refl
trim_same (c ∷ cs) h = elim (Bool-cases (is_space c)) [
  | inl space ↦ absurd (cc (h, space))
  | inr other ↦ rw other (trim_end_same (c ∷ cs) h)
]

no_space-append : (xs ys : Text) → no_space (xs ++ ys) ≡ (no_space xs && no_space ys)
no_space-append [] ys = refl
no_space-append (x ∷ xs) ys =
    rw (no_space-append xs ys) (both_again (not (is_space x)) (no_space xs) (no_space ys))

digit_space : (c : ℕ) → is_digit c ≡ true → is_space c ≡ false
digit_space c h = ground arith

no_space-digits : (w : Text) → all_digits w ≡ true → no_space w ≡ true
no_space-digits [] h = refl
no_space-digits (x ∷ xs) h =
    let (one, rest) = both (is_digit x) (all_digits xs) h in
    rw (digit_space x one, no_space-digits xs rest)

no_space-range : (r : ℕ × ℕ) → no_space (print_range r) ≡ true
no_space-range (from, to) =
    no_space-append (to_string from) (b'-' ∷ to_string to)
    ∙ rw (
      no_space-digits (to_string from) (all_digits-to_string from),
      no_space-digits (to_string to) (all_digits-to_string to),
    )

elem-print_range : (c : ℕ) (r : ℕ × ℕ) → is_digit c ≡ false → elem c (print_range r) ≡ (b'-' == c)
elem-print_range c (from, to) h = ground (
  arith,
  elem-append c (to_string from) (b'-' ∷ to_string to),
  elem-digits c (to_string from) h (all_digits-to_string from),
  elem-digits c (to_string to) h (all_digits-to_string to),
)

absolute-print_range : (r : ℕ × ℕ) → absolute (print_range r) ≡ some (signed r)
unfolding absolute integers
absolute-print_range (from, to) =
    let cut : split b'-' (print_range (from, to)) ≡ to_string from ∷ to_string to ∷ [] =
      split-append b'-' (to_string from) (to_string to)
        (elem-digits b'-' (to_string from) refl (all_digits-to_string from))
      ∙ ap (λ ws. to_string from ∷ ws)
          (split_once b'-' (to_string to)
            (elem-digits b'-' (to_string to) refl (all_digits-to_string to))) in
    rw (elem-print_range b'-' (from, to) refl, cut, integer-to_string from, integer-to_string to)

relative-print_range : (r : ℕ × ℕ) → relative (print_range r) ≡ none
unfolding relative
relative-print_range r = rw (elem-print_range b'+' r refl)

literal_digits : (t : Text) → is_literal t ≡ true → all_digits t ≡ true
literal_digits [] h = cc
literal_digits (c ∷ cs) h = h

is_literal-print_range : (r : ℕ × ℕ) → is_literal (print_range r) ≡ false
is_literal-print_range (from, to) = elim (Bool-cases (is_literal (print_range (from, to)))) [
  | inr other ↦ other
  | inl one ↦ absurd (
      ground (
        arith,
        literal_digits (print_range (from, to)) one,
        all_digits-append (to_string from) (b'-' ∷ to_string to),
      ))
]

literal-print_range : (r : ℕ × ℕ) → literal (print_range r) ≡ none
unfolding literal
literal-print_range r = rw (is_literal-print_range r)

split-print_ranges :
    (r : ℕ × ℕ) (rs : List (ℕ × ℕ))
    → map trim (split b',' (print_ranges (r ∷ rs))) ≡ map print_range (r ∷ rs)
split-print_ranges r [] = rw (
  split_once b',' (print_range r) (elem-print_range b',' r refl),
  trim_same (print_range r) (no_space-range r),
)
split-print_ranges r (q ∷ rs) = rw (
  split-append b',' (print_range r) (print_ranges (q ∷ rs)) (elem-print_range b',' r refl),
  trim_same (print_range r) (no_space-range r),
  split-print_ranges q rs,
)

filtered :
    (f : Text → Option Range) (t : Text) (ts : List Text)
    → f t ≡ none
    → filter_map f (t ∷ ts) ≡ filter_map f ts
filtered f t ts e = ground (arith, e)

mapped :
    (f : Text → Option Range) (t : Text) (ts : List Text) (r : Range)
    → f t ≡ some r
    → filter_map f (t ∷ ts) ≡ r ∷ filter_map f ts
mapped f t ts r e = ground (arith, e)

kinds :
    (rs : List (ℕ × ℕ))
    → (filter_map literal (map print_range rs) ≡ [])
      × (filter_map absolute (map print_range rs) ≡ map signed rs)
      × (filter_map relative (map print_range rs) ≡ [])
kinds [] = (refl, refl, refl)
kinds (r ∷ rs) =
    let (l, a, e) = kinds rs in
    (
      filtered literal (print_range r) (map print_range rs) (literal-print_range r) ∙ l,
      mapped absolute (print_range r) (map print_range rs) (signed r) (absolute-print_range r)
          ∙ ap (λ qs. signed r ∷ qs) a,
      filtered relative (print_range r) (map print_range rs) (relative-print_range r) ∙ e,
    )

-- The text of ranges, joined by commas, is read as these ranges, in their order.
pub ranges-print_ranges : (rs : List (ℕ × ℕ)) → ranges (print_ranges rs) ≡ map signed rs
unfolding ranges
ranges-print_ranges [] = unfold split literal absolute relative in refl
ranges-print_ranges (r ∷ rs) =
    let (l, a, e) = kinds (r ∷ rs) in
    rw (split-print_ranges r rs, l, a, e) (append-nil (map signed (r ∷ rs)))
