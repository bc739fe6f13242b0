-- ===== src/Config/Ports/Contents.antt =====
-- noray/src/config.parsers.mjs, `ports`: what is in the result.
use bevy_noray.Base.{
  sym, subst, ap, ℕ, zero, suc, ◌+◌, ◌≡◌, refl, ◌∙◌, inl, inr, Bool, false, ◌||◌, ◌&&◌, some, List,
  [], ◌∷◌, ◌++◌, map, elem, elem-append, Distinct, leb, ltb, arith, Text, Outcome-cases, ok, ℤ, pos,
  negsuc, ◌+ℤ◌, ◌-ℤ◌, int_eq, leb_ℤ, pos_part, neg_part, iota,
}
use bevy_noray.Config.Ports.{Range, expand, expand_all, ranges, sort, unique, if_any, ports}
use bevy_noray.Config.Ports.Sorting.{sort-IsSorted, elem-sort, unique-Distinct, elem-unique}

-- One of the ranges has the port between its ends.
abbrev pub in_ranges : ℤ → List Range → Bool
in_ranges z [] = false
in_ranges z ((from, to) ∷ rs) = (leb_ℤ from z && leb_ℤ z to) || in_ranges z rs

-- `z` stands among the `n` ports from `from + k` on.
abbrev in_span : ℤ → ℤ → ℕ → ℕ → Bool
in_span z from k n =
    leb (pos_part from + k + neg_part z) (pos_part z + neg_part from)
    && ltb (pos_part z + neg_part from) (pos_part from + k + n + neg_part z)

elem-span :
    (z from : ℤ) (k n : ℕ) → elem z (map (λ i. from +ℤ pos i) (iota k n)) ≡ in_span z from k n
unfolding ◌+ℤ◌
elem-span z from k zero = ground arith
elem-span z from k (suc n) = ground (arith, elem-span z from (suc k) n)

-- The number of ports of a range that is expanded.
expand_length :
    (from to : ℤ) (ps : List ℤ)
    → expand (from, to) ≡ ok ps
    → (n : ℕ) × (to -ℤ from +ℤ pos 1 ≡ pos n) × (ps ≡ map (λ i. from +ℤ pos i) (iota 0 n))
unfolding expand
expand_length from to ps e = counted (to -ℤ from +ℤ pos 1) refl
  where
    counted :
        (count : ℤ)
        → to -ℤ from +ℤ pos 1 ≡ count
        → (n : ℕ) × (to -ℤ from +ℤ pos 1 ≡ pos n) × (ps ≡ map (λ i. from +ℤ pos i) (iota 0 n))
    counted (negsuc n) c = absurd (ground (arith, e))
    counted (pos n) c = (n, c, ground (arith, e))

between :
    (z from to : ℤ) (n : ℕ)
    → to -ℤ from +ℤ pos 1 ≡ pos n
    → in_span z from 0 n ≡ (leb_ℤ from z && leb_ℤ z to)
unfolding ◌+ℤ◌ ◌-ℤ◌
between z from to n c = ground arith

elem-expand :
    (z from to : ℤ) (ps : List ℤ)
    → expand (from, to) ≡ ok ps
    → elem z ps ≡ (leb_ℤ from z && leb_ℤ z to)
elem-expand z from to ps e =
    let (n, c, p) = expand_length from to ps e in
    ap (elem z) p ∙ elem-span z from 0 n ∙ between z from to n c

elem-expand_all :
    (z : ℤ) (rs : List Range) (ps : List ℤ) → expand_all rs ≡ ok ps → elem z ps ≡ in_ranges z rs
unfolding expand_all
elem-expand_all z [] ps e = ground (arith, e)
elem-expand_all z ((from, to) ∷ rs) ps e = elim (Outcome-cases (expand (from, to))) [
  | inr (x, h) ↦ absurd (ground (arith, e, h))
  | inl (qs, h) ↦ elim (Outcome-cases (expand_all rs)) [
    | inr (x, k) ↦ absurd (ground (arith, e, h, k))
    | inl (ts, k) ↦
        let whole : qs ++ ts ≡ ps = ground (arith, e, h, k) in
        rw (← whole) (
          ground
            (arith, elem-append z qs ts, elem-expand z from to qs h, elem-expand_all z rs ts k))
  ]
]

-- If `ports` gives a list, no port is in it twice, and the ports in it are exactly those between
-- the ends of one of the ranges that the text has.
pub ports_exact :
    (value : Text) (ps : List ℤ)
    → ports (some value) ≡ ok (some ps)
    → Distinct ps × ((z : ℤ) → elem z ps ≡ in_ranges z (ranges value))
unfolding ports
ports_exact value ps e = elim (Outcome-cases (expand_all (ranges value))) [
  | inr (x, h) ↦ absurd (ground (arith, e, h))
  | inl (qs, h) ↦
      let found : if_any (unique (sort qs)) ≡ some ps = ground (arith, e, h) in
      let same : unique (sort qs) ≡ ps = if_any_some (unique (sort qs)) found in
      (
        subst Distinct same (unique-Distinct (sort qs) (sort-IsSorted qs)),
        λ z.
            ap (elem z) (sym same)
            ∙ elem-unique z (sort qs)
            ∙ elem-sort z qs
            ∙ elem-expand_all z (ranges value) qs h,
      )
]
  where
    if_any_some : (xs : List ℤ) → if_any xs ≡ some ps → xs ≡ ps
    if_any_some [] f = cc
    if_any_some (x ∷ xs) f = ground (arith, f)
