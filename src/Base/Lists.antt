-- ===== src/Base/Lists.antt =====
-- Arrays as lists, measured and indexed by native numbers, and the array methods in use.
use Prim.Native.Nat.{ℕ, zero, suc, ◌+◌, ◌≤◌}
use mathlib.Core.Path.{◌≡◌, refl}
use mathlib.Core.Bool.{Bool, true, false, ◌||◌}
use mathlib.Core.List.{List, [], ◌∷◌, ◌++◌}
use mathlib.Core.Option.{Option, none, some}
use native.Mathlib.Omega.{arith}
use bevy_noray.Base.Tests.{Eq, if◌then◌else◌, is_some}

-- The `n` indices from `i` on.
abbrev pub iota : ℕ → ℕ → List ℕ
iota i zero = []
iota i (suc n) = i ∷ iota (suc i) n

module _ {ℓ} {A : Type ℓ} where
  abbrev pub length : List A → ℕ
  length [] = 0
  length (x ∷ xs) = suc (length xs)

  abbrev pub get_elem? : List A → ℕ → Option A
  get_elem? [] i = none
  get_elem? (x ∷ xs) zero = some x
  get_elem? (x ∷ xs) (suc i) = get_elem? xs i

  -- `array.find(test)`
  abbrev pub find : (A → Bool) → List A → Option A
  find t [] = none
  find t (x ∷ xs) = if t x then some x else find t xs

  -- `array.findIndex(test)`, with `none` for -1
  abbrev pub find_index : (A → Bool) → List A → Option ℕ
  find_index t [] = none
  find_index t (x ∷ xs) =
      if t x then some 0 else elim (find_index t xs) [ none ↦ none | some i ↦ some (suc i) ]

  -- `array.filter((_, i) => i !== idx)`
  abbrev pub erase_idx : List A → ℕ → List A
  erase_idx [] i = []
  erase_idx (x ∷ xs) zero = xs
  erase_idx (x ∷ xs) (suc i) = x ∷ erase_idx xs i

  -- `array.filter(test)`
  abbrev pub select : (A → Bool) → List A → List A
  select t [] = []
  select t (x ∷ xs) = if t x then x ∷ select t xs else select t xs

  pub length-append : (xs ys : List A) → length (xs ++ ys) ≡ length xs + length ys
  length-append [] ys = omega arith
  length-append (x ∷ xs) ys = omega (arith, length-append xs ys)

  pub length-select-le : (t : A → Bool) (xs : List A) → length (select t xs) ≤ length xs
  length-select-le t [] = omega arith
  length-select-le t (x ∷ xs) = ground (arith, length-select-le t xs)

  -- The first hit passes the test and stands at the index that `findIndex` reports.
  pub find_index-find :
      (t : A → Bool) (xs : List A) → is_some (find_index t xs) ≡ is_some (find t xs)
  find_index-find t [] = refl
  find_index-find t (x ∷ xs) = ground (arith, find_index-find t xs)

  pub find_test : (t : A → Bool) (xs : List A) (a : A) → find t xs ≡ some a → t a ≡ true
  find_test t [] a e = cc
  find_test t (x ∷ xs) a e = ground (arith, find_test t xs a)

  pub find-append :
      (t : A → Bool) (xs ys : List A)
      → find t (xs ++ ys) ≡ elim (find t xs) [ none ↦ find t ys | some a ↦ some a ]
  find-append t [] ys = refl
  find-append t (x ∷ xs) ys = ground (arith, find-append t xs ys)

module _ {ℓ} {A : Type ℓ} ⦃e : Eq A⦄ where
  -- `array.includes(x)`
  abbrev pub elem : A → List A → Bool
  elem a [] = false
  elem a (x ∷ xs) = e.beq x a || elem a xs

  -- No two positions hold the same value.
  abbrev pub Distinct : List A → Type 0
  Distinct [] = Unit {0}
  Distinct (x ∷ xs) = (elem x xs ≡ false) × Distinct xs

  pub elem-append : (a : A) (xs ys : List A) → elem a (xs ++ ys) ≡ (elem a xs || elem a ys)
  elem-append a [] ys = refl
  elem-append a (x ∷ xs) ys = ground (arith, elem-append a xs ys)
