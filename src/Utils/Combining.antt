-- ===== src/Utils/Combining.antt =====
-- noray/src/utils.mjs, `combine`.
use native.Mathlib.Nat.{
  mul-le-mul_left, mod-lt, add-mul-mod_self_left, add-mul-div_left, mod-eq_of_lt, div-eq_of_lt,
  div-add-mod, div-lt_iff_lt-mul,
}
use bevy_noray.Base.{
  sym, ℕ, zero, suc, ◌+◌, ◌*◌, ◌/◌, ◌%◌, ◌<◌, ◌≡◌, refl, ap, ◌∙◌, Option, some, List, [], ◌∷◌, map,
  length, get_elem?, arith, iota,
}
use bevy_noray.Utils.{count, item, combine, range}

mul_below : (l p r c : ℕ) → p < l → r < c → p + l * r < l * c
mul_below l p r c h k = omega (arith, mul-le-mul_left {m = r + 1} {n = c} l (omega (arith, k)))

place_of : (p l r : ℕ) → p < l → (p + l * r) % l ≡ p
place_of p l r h = add-mul-mod_self_left p l r ∙ mod-eq_of_lt h

rest_of : (p l r : ℕ) → p < l → (p + l * r) / l ≡ r
rest_of p l r h = add-mul-div_left p r (omega (arith, h)) ∙ rw (div-eq_of_lt h) (omega arith)

positive : (l c i : ℕ) → i < l * c → 0 < l
positive zero c i h = absurd (omega arith)
positive (suc l) c i h = omega arith

length-map-iota : {B : Type 0} (f : ℕ → B) (k n : ℕ) → length (map f (iota k n)) ≡ n
length-map-iota f k zero = refl
length-map-iota f k (suc n) = ap suc (length-map-iota f (suc k) n)

get_elem?-iota :
    {B : Type 0} (f : ℕ → B) (k n i : ℕ) → i < n → get_elem? (map f (iota k n)) i ≡ some (f (k + i))
get_elem?-iota f k zero i h = absurd (omega arith)
get_elem?-iota f k (suc n) zero h = ap (λ j. some (f j)) (omega arith)
get_elem?-iota f k (suc n) (suc i) h =
    get_elem?-iota f (suc k) n i (omega arith) ∙ ap (λ j. some (f j)) (omega arith)

module _ {A : Type 0} where
  -- A choice of a place in each array.
  abbrev pub Choice : List (List A) → List ℕ → Type 0
  Choice [] [] = Unit {0}
  Choice [] (p ∷ ps) = ⊥
  Choice (a ∷ rest) [] = ⊥
  Choice (a ∷ rest) (p ∷ ps) = (p < length a) × Choice rest ps

  -- What stands at the chosen places.
  abbrev pub chosen : List (List A) → List ℕ → List (Option A)
  chosen [] ps = []
  chosen (a ∷ rest) [] = []
  chosen (a ∷ rest) (p ∷ ps) = get_elem? a p ∷ chosen rest ps

  -- The index of a choice: the first array varies fastest.
  abbrev pub index_of : List (List A) → List ℕ → ℕ
  index_of [] ps = 0
  index_of (a ∷ rest) [] = 0
  index_of (a ∷ rest) (p ∷ ps) = p + length a * index_of rest ps

  index_below :
      (arrays : List (List A)) (ps : List ℕ) → Choice arrays ps → index_of arrays ps < count arrays
  unfolding count
  index_below [] [] v = omega arith
  index_below [] (p ∷ ps) v = absurd v
  index_below (a ∷ rest) [] v = absurd v
  index_below (a ∷ rest) (p ∷ ps) v =
      mul_below (length a) p (index_of rest ps) (count rest) v.0 (index_below rest ps v.1)

  item-index_of :
      (arrays : List (List A)) (ps : List ℕ)
      → Choice arrays ps
      → item arrays (index_of arrays ps) ≡ chosen arrays ps
  unfolding item
  item-index_of [] [] v = refl
  item-index_of [] (p ∷ ps) v = absurd v
  item-index_of (a ∷ rest) [] v = absurd v
  item-index_of (a ∷ rest) (p ∷ ps) v = rw (
    place_of p (length a) (index_of rest ps) v.0,
    rest_of p (length a) (index_of rest ps) v.0,
    item-index_of rest ps v.1,
  )

  -- The places that an index stands for.
  places : List (List A) → ℕ → List ℕ
  places [] i = []
  places (a ∷ rest) i = i % length a ∷ places rest (i / length a)

  places-index_of :
      (arrays : List (List A)) (ps : List ℕ)
      → Choice arrays ps
      → places arrays (index_of arrays ps) ≡ ps
  unfolding places
  places-index_of [] [] v = refl
  places-index_of [] (p ∷ ps) v = absurd v
  places-index_of (a ∷ rest) [] v = absurd v
  places-index_of (a ∷ rest) (p ∷ ps) v =
      rw (place_of p (length a) (index_of rest ps) v.0, rest_of p (length a) (index_of rest ps) v.0)
        (ap (λ qs. p ∷ qs) (places-index_of rest ps v.1))

  places-Choice :
      (arrays : List (List A)) (i : ℕ)
      → i < count arrays
      → Choice arrays (places arrays i) × (index_of arrays (places arrays i) ≡ i)
  unfolding count places
  places-Choice [] i h = (tt, omega arith)
  places-Choice (a ∷ rest) i h =
      let some_a : 0 < length a = positive (length a) (count rest) i h in
      let (v, e) =
        places-Choice rest (i / length a) ((div-lt_iff_lt-mul some_a).1 (omega (arith, h))) in
      ((mod-lt i some_a, v), rw e (omega (arith, div-add-mod i (length a))))

  -- `combine` has one item for each choice of a place in each array, at an index of its own: the item
  -- at a choice's index is what stands at its places, and every index is that of a choice.
  pub combine_exact :
      (arrays : List (List A))
      → ((ps : List ℕ)
          → Choice arrays ps
          → get_elem? (combine arrays) (index_of arrays ps) ≡ some (chosen arrays ps))
        × ((i : ℕ) → i < count arrays → (ps : List ℕ) × Choice arrays ps × (index_of arrays ps ≡ i))
        × ((ps qs : List ℕ)
            → Choice arrays ps
            → Choice arrays qs
            → index_of arrays ps ≡ index_of arrays qs
            → ps ≡ qs)
        × (length (combine arrays) ≡ count arrays)
  unfolding combine range
  combine_exact arrays = (
    (λ ps v.
        get_elem?-iota (item arrays) 0 (count arrays) (index_of arrays ps) (index_below arrays ps v)
        ∙ ap some (ap (item arrays) (omega arith) ∙ item-index_of arrays ps v)),
    (λ i h. (places arrays i, (places-Choice arrays i h).0, (places-Choice arrays i h).1)),
    (λ ps qs v w e.
        sym (places-index_of arrays ps v) ∙ (ap (places arrays) e ∙ places-index_of arrays qs w)),
    length-map-iota (item arrays) 0 (count arrays),
  )
