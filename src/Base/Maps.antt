-- ===== src/Base/Maps.antt =====
-- JavaScript's `Map`: an association list in insertion order, where `set` keeps the place of a key.
use mathlib.Core.Path.{◌≡◌, refl}
use mathlib.Core.Bool.{Bool, ◌||◌, ◌&&◌, not}
use mathlib.Core.List.{List, [], ◌∷◌}
use mathlib.Core.Option.{Option, none, some}
use native.Mathlib.Omega.{arith}
use bevy_noray.Base.Tests.{Eq, if◌then◌else◌, is_some}
use bevy_noray.Base.Lists.{elem, Distinct}

abbrev pub Store {ℓ κ} : Type ℓ → Type κ → Type (ℓ ⊔ κ)
Store K V = List (K × V)

module _ {ℓ κ} {K : Type ℓ} {V : Type κ} where
  -- `map.keys()` and `map.values()`
  abbrev pub keys : Store K V → List K
  keys [] = []
  keys ((k, v) ∷ m) = k ∷ keys m

  abbrev pub values : Store K V → List V
  values [] = []
  values ((k, v) ∷ m) = v ∷ values m

module _ {ℓ κ} {K : Type ℓ} {V : Type κ} ⦃e : Eq K⦄ where
  -- `map.get(k)`
  unfoldable pub lookup : K → Store K V → Option V
  lookup k [] = none
  lookup k ((j, v) ∷ m) = if e.beq j k then some v else lookup k m

  -- `map.has(k)`
  abbrev pub has : K → Store K V → Bool
  has k m = is_some (lookup k m)

  -- `map.set(k, v)`
  unfoldable pub insert : K → V → Store K V → Store K V
  insert k v [] = (k, v) ∷ []
  insert k v ((j, w) ∷ m) = if e.beq j k then (j, v) ∷ m else (j, w) ∷ insert k v m

  -- `map.delete(k)`, whose result is `map.has(k)`
  unfoldable pub erase : K → Store K V → Store K V
  erase k [] = []
  erase k ((j, w) ∷ m) = if e.beq j k then erase k m else (j, w) ∷ erase k m

  pub lookup-insert :
      (k j : K) (v : V) (m : Store K V)
      → lookup j (insert k v m) ≡ (if e.beq k j then some v else lookup j m)
  unfolding lookup insert
  lookup-insert k j v [] = refl
  lookup-insert k j v ((i, w) ∷ m) =
      ground (arith, e.beq_iff k j, e.beq_iff i k, e.beq_iff i j, lookup-insert k j v m)

  pub lookup-erase :
      (k j : K) (m : Store K V) → lookup j (erase k m) ≡ (if e.beq k j then none else lookup j m)
  unfolding lookup erase
  lookup-erase k j [] = ground arith
  lookup-erase k j ((i, w) ∷ m) =
      ground (arith, e.beq_iff k j, e.beq_iff i k, e.beq_iff i j, lookup-erase k j m)

  pub has-elem : (k : K) (m : Store K V) → has k m ≡ elem k (keys m)
  unfolding lookup
  has-elem k [] = refl
  has-elem k ((i, w) ∷ m) = ground (arith, has-elem k m)

  pub elem-insert :
      (k j : K) (v : V) (m : Store K V)
      → elem j (keys (insert k v m)) ≡ (e.beq k j || elem j (keys m))
  unfolding insert
  elem-insert k j v [] = refl
  elem-insert k j v ((i, w) ∷ m) =
      ground (arith, e.beq_iff k j, e.beq_iff i k, e.beq_iff i j, elem-insert k j v m)

  pub elem-erase :
      (k j : K) (m : Store K V) → elem j (keys (erase k m)) ≡ (not (e.beq k j) && elem j (keys m))
  unfolding erase
  elem-erase k j [] = ground arith
  elem-erase k j ((i, w) ∷ m) =
      ground (arith, e.beq_iff k j, e.beq_iff i k, e.beq_iff i j, elem-erase k j m)

  -- The keys of a map stay distinct.
  pub insert-Distinct :
      (k : K) (v : V) (m : Store K V) → Distinct (keys m) → Distinct (keys (insert k v m))
  unfolding insert
  insert-Distinct k v [] d = (refl, tt)
  insert-Distinct k v ((i, w) ∷ m) d =
      ground (arith, e.beq_iff i k, e.beq_iff k i, elem-insert k i v m, insert-Distinct k v m)

  pub erase-Distinct : (k : K) (m : Store K V) → Distinct (keys m) → Distinct (keys (erase k m))
  unfolding erase
  erase-Distinct k [] d = tt
  erase-Distinct k ((i, w) ∷ m) d = ground (arith, elem-erase k i m, erase-Distinct k m)
