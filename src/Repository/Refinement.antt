-- ===== src/Repository/Refinement.antt =====
-- noray/src/repository.mjs: a repository against a partial map, over any sequence of calls.
use mathlib.Core.Path.{fun_ext}
use bevy_noray.Base.{
  Eq, ◌≡◌, refl, ap, ◌∙◌, inl, inr, Bool, Option, none, some, Option-cases, is_some, List, [], ◌∷◌,
  Store, lookup, insert, erase, lookup-insert, lookup-erase, Outcome, ok, throws, id_in_use,
  unknown_item,
}
use bevy_noray.Repository.{add, update, find_item, has_id, remove, has_item, remove_item}
use bevy_noray.Repository.Laws.{view, assign}

-- A call of a method.
pub data Call {ℓ κ} (K : Type ℓ) (T : Type κ) : Type (ℓ ⊔ κ) where
  adds updates : T → Call K T
  finds tests removes : K → Call K T
  tests_item removes_item : T → Call K T

-- What a call gives back.
pub data Answer {κ} (T : Type κ) : Type κ where
  added : Outcome T → Answer T
  updated : Outcome (Unit {0}) → Answer T
  found : Option T → Answer T
  told : Bool → Answer T

module _ {ℓ κ} {K : Type ℓ} {T : Type κ} ⦃e : Eq K⦄ (id_mapper : T → K) (merger : T → T → T) where
  -- The methods.
  abbrev pub call : Call K T → Store K T → Answer T × Store K T
  call (adds item) s = let (r, s') = add id_mapper item s in (added r, s')
  call (updates item) s = let (r, s') = update id_mapper merger item s in (updated r, s')
  call (finds k) s = (found (find_item k s), s)
  call (tests k) s = (told (has_id k s), s)
  call (removes k) s = let (b, s') = remove k s in (told b, s')
  call (tests_item item) s = (told (has_item id_mapper item s), s)
  call (removes_item item) s = let (b, s') = remove_item id_mapper item s in (told b, s')

  -- The same calls on a partial map.
  abbrev pub specified : Call K T → (K → Option T) → Answer T × (K → Option T)
  specified (adds item) v = elim (v (id_mapper item)) [
    | some _ ↦ (added (throws id_in_use), v)
    | none ↦ (added (ok item), assign v (id_mapper item) (some item))
  ]
  specified (updates item) v = elim (v (id_mapper item)) [
    | none ↦ (updated (throws unknown_item), v)
    | some current ↦ (updated (ok tt), assign v (id_mapper item) (some (merger current item)))
  ]
  specified (finds k) v = (found (v k), v)
  specified (tests k) v = (told (is_some (v k)), v)
  specified (removes k) v = (told (is_some (v k)), assign v k none)
  specified (tests_item item) v = (told (is_some (v (id_mapper item))), v)
  specified (removes_item item) v =
      (told (is_some (v (id_mapper item))), assign v (id_mapper item) none)

  abbrev pub call_all : List (Call K T) → Store K T → List (Answer T) × Store K T
  call_all [] s = ([], s)
  call_all (c ∷ cs) s = let (r, s') = call c s in let (rs, s'') = call_all cs s' in (r ∷ rs, s'')

  abbrev pub specified_all : List (Call K T) → (K → Option T) → List (Answer T) × (K → Option T)
  specified_all [] v = ([], v)
  specified_all (c ∷ cs) v =
      let (r, v') = specified c v in let (rs, v'') = specified_all cs v' in (r ∷ rs, v'')

  view-insert :
      (k : K) (item : T) (s : Store K T) → view (insert k item s) ≡ assign (view s) k (some item)
  view-insert k item s = fun_ext (λ j. lookup-insert k j item s)

  view-erase : (k : K) (s : Store K T) → view (erase k s) ≡ assign (view s) k none
  view-erase k s = fun_ext (λ j. lookup-erase k j s)

  -- A single call gives the specified answer and leaves the specified map.
  call-view :
      (c : Call K T) (s : Store K T)
      → ((call c s).0 ≡ (specified c (view s)).0) × (view (call c s).1 ≡ (specified c (view s)).1)
  unfolding add update find_item has_id remove has_item remove_item
  call-view (adds item) s = elim (Option-cases (lookup (id_mapper item) s)) [
    | inl n ↦ (rw (n, specified), rw (n, specified) (view-insert (id_mapper item) item s))
    | inr (x, h) ↦ (rw (h, specified), rw (h, specified) refl)
  ]
  call-view (updates item) s = elim (Option-cases (lookup (id_mapper item) s)) [
    | inl n ↦ (rw (n, update, specified), rw (n, update, specified) refl)
    | inr (x, h) ↦ (
      rw (h, update, specified),
      rw (h, update, specified) (view-insert (id_mapper item) (merger x item) s),
    )
  ]
  call-view (finds k) s = (refl, refl)
  call-view (tests k) s = (refl, refl)
  call-view (removes k) s = (refl, view-erase k s)
  call-view (tests_item item) s = (refl, refl)
  call-view (removes_item item) s = (refl, view-erase (id_mapper item) s)

  -- Any sequence of calls of `add`, `update`, `find`, `has`, `remove`, `hasItem` and `removeItem` on a
  -- repository gives the answers, errors included, that a partial map from identifiers to items gives,
  -- and leaves the same map: a taken identifier is refused by `add` and an unknown one by `update`, and
  -- each call changes the map at the item's identifier alone.
  pub calls_refine :
      (cs : List (Call K T)) (s : Store K T)
      → ((call_all cs s).0 ≡ (specified_all cs (view s)).0)
        × (view (call_all cs s).1 ≡ (specified_all cs (view s)).1)
  calls_refine [] s = (refl, refl)
  calls_refine (c ∷ cs) s =
      let (r, v) = call-view c s in
      let (rs, w) = calls_refine cs (call c s).1 in
      (
        rw (r, rs) (ap (λ x. (specified c (view s)).0 ∷ (specified_all cs x).0) v),
        w ∙ ap (λ x. (specified_all cs x).1) v,
      )
