-- ===== src/Repository/Laws.antt =====
-- noray/src/repository.mjs: a repository implements a partial map from identifiers to items.
use bevy_noray.Base.{
  Eq, ◌≡◌, ◌⊎◌, refl, inl, inr, true, false, Bool-cases, Option, none, some, Option-cases, arith,
  if◌then◌else◌, Store, lookup, has, insert, lookup-insert, lookup-erase, ok, throws, id_in_use,
  unknown_item, keys, Distinct, insert-Distinct, erase-Distinct,
}
use bevy_noray.Repository.{add, update, remove}

module _ {ℓ κ} {K : Type ℓ} {T : Type κ} ⦃e : Eq K⦄ where
  -- The abstract view of a repository: a partial map.
  abbrev pub view : Store K T → K → Option T
  view items k = lookup k items

  abbrev pub assign : (K → Option T) → K → Option T → K → Option T
  assign v k o j = if e.beq k j then o else v j

  -- Every item is kept under its own identifier, and no identifier is kept twice.
  pub record IsRepository (id_mapper : T → K) (items : Store K T) : Type (ℓ ⊔ κ) where
    pub own_id : (k : K) (item : T) → lookup k items ≡ some item → id_mapper item ≡ k
    pub once : Distinct (keys items)

  module _ (id_mapper : T → K) where
    -- `add` of an identifier that is in use throws and changes nothing; otherwise it returns the item,
    -- and the map has the item at its identifier and is unchanged elsewhere.
    pub add_refines :
        (item : T) (items : Store K T)
        → ((has (id_mapper item) items ≡ true)
            × (add id_mapper item items ≡ (throws id_in_use, items)))
          ⊎ ((has (id_mapper item) items ≡ false)
              × ((add id_mapper item items).0 ≡ ok item)
              × ((k : K)
                  → view (add id_mapper item items).1 k
                    ≡ assign (view items) (id_mapper item) (some item) k))
    unfolding add
    add_refines item items = elim (Bool-cases (has (id_mapper item) items)) [
      | inl u ↦ inl (u, rw u)
      | inr f ↦ inr (f, rw f, λ k. rw f (lookup-insert (id_mapper item) k item items))
    ]

    -- `update` of an unknown identifier throws and changes nothing; otherwise the map has the merged
    -- item at the identifier and is unchanged elsewhere.
    pub update_refines :
        (merger : T → T → T) (item : T) (items : Store K T)
        → ((lookup (id_mapper item) items ≡ none)
            × (update id_mapper merger item items ≡ (throws unknown_item, items)))
          ⊎ ((current : T) × (lookup (id_mapper item) items ≡ some current)
              × ((update id_mapper merger item items).0 ≡ ok tt)
              × ((k : K)
                  → view (update id_mapper merger item items).1 k
                    ≡ assign (view items) (id_mapper item) (some (merger current item)) k))
    unfolding update
    update_refines merger item items = elim (Option-cases (lookup (id_mapper item) items)) [
      | inl n ↦ inl (n, rw (n, update))
      | inr (c, s) ↦ inr (
        c,
        s,
        rw (s, update),
        λ k. rw (s, update) (lookup-insert (id_mapper item) k (merger c item) items),
      )
    ]

    -- `remove` reports whether the identifier was there; after it the identifier is not, and the map is
    -- unchanged elsewhere.
    pub remove_refines :
        (k : K) (items : Store K T)
        → ((remove k items).0 ≡ has k items)
          × ((j : K) → view (remove k items).1 j ≡ assign (view items) k none j)
    unfolding remove
    remove_refines k items = (refl, λ j. lookup-erase k j items)

    pub insert-IsRepository :
        (item : T) (k : K) (items : Store K T)
        → id_mapper item ≡ k
        → IsRepository id_mapper items
        → IsRepository id_mapper (insert k item items)
    insert-IsRepository item k items here v = record {
      own_id = λ j x p. elim (Bool-cases (e.beq k j)) [
        | inl same ↦ ground (arith, lookup-insert k j item items, e.beq_iff k j)
        | inr other ↦ v.own_id j x (ground (arith, lookup-insert k j item items))
      ];
      once = insert-Distinct k item items v.once;
    }

    pub add-IsRepository :
        (item : T) (items : Store K T)
        → IsRepository id_mapper items
        → IsRepository id_mapper (add id_mapper item items).1
    unfolding add
    add-IsRepository item items v = elim (Bool-cases (has (id_mapper item) items)) [
      | inl u ↦ rw u v
      | inr f ↦ rw f (insert-IsRepository item (id_mapper item) items refl v)
    ]

    -- The merger must keep the identifier.
    pub update-IsRepository :
        (merger : T → T → T) (item : T) (items : Store K T)
        → ((c : T) → id_mapper c ≡ id_mapper item → id_mapper (merger c item) ≡ id_mapper item)
        → IsRepository id_mapper items
        → IsRepository id_mapper (update id_mapper merger item items).1
    unfolding update
    update-IsRepository merger item items keeps v =
        elim (Option-cases (lookup (id_mapper item) items)) [
          | inl n ↦ rw (n, update) v
          | inr (c, s) ↦
              rw (s, update)
                (insert-IsRepository (merger c item) (id_mapper item) items
                  (keeps c (v.own_id (id_mapper item) c s)) v)
        ]

    pub remove-IsRepository :
        (k : K) (items : Store K T)
        → IsRepository id_mapper items
        → IsRepository id_mapper (remove k items).1
    unfolding remove
    remove-IsRepository k items v = record {
      own_id = λ j x p. v.own_id j x (ground (arith, lookup-erase k j items));
      once = erase-Distinct k items v.once;
    }
