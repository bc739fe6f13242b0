-- ===== src/Repository.antt =====
-- noray/src/repository.mjs: items under the identifier that a mapper reads from them.
pub mod Laws
pub mod Refinement
pub mod Objects
use bevy_noray.Base.{
  ℕ, Eq, Bool, true, false, Option, none, some, List, if◌then◌else◌, Store, lookup, has, insert,
  erase, values, Outcome, ok, throws, Action, id_in_use, unknown_item,
}

module _ {ℓ κ} {K : Type ℓ} {T : Type κ} ⦃e : Eq K⦄ where
  unfoldable pub add : (T → K) → T → Action (Store K T) T
  add id_mapper item items =
      if has (id_mapper item) items
      then (throws id_in_use, items)
      else (ok item, insert (id_mapper item) item items)

  -- `this.has(id)` and then `this.find(id)`, which is there.
  unfoldable pub update : (T → K) → (T → T → T) → T → Action (Store K T) (Unit {0})
  update id_mapper merger item items = elim (lookup (id_mapper item) items) [
    | none ↦ (throws unknown_item, items)
    | some current ↦ (ok tt, insert (id_mapper item) (merger current item) items)
  ]

  unfoldable pub find_item : K → Store K T → Option T
  find_item k items = lookup k items

  unfoldable pub has_id : K → Store K T → Bool
  has_id k items = has k items

  unfoldable pub list : Store K T → List T
  list items = values items

  unfoldable pub remove : K → Store K T → Bool × Store K T
  remove k items = (has k items, erase k items)

  unfoldable pub has_item : (T → K) → T → Store K T → Bool
  has_item id_mapper item items = has (id_mapper item) items

  unfoldable pub remove_item : (T → K) → T → Store K T → Bool × Store K T
  unfolding remove
  remove_item id_mapper item items = remove (id_mapper item) items
