-- ===== src/Repository/Objects.antt =====
-- noray/src/repository.mjs: the default identifier mappers and the default merger, over objects as maps
-- from field names to values.
use bevy_noray.Base.{
  ◌≡◌, refl, inl, inr, Bool-cases, Option, [], ◌∷◌, arith, if◌then◌else◌, Text, text_eq,
  text_beq_iff, codes, Store, lookup, has, insert, lookup-insert, keys, Distinct, has-elem,
}

abbrev pub Object {ℓ} : Type ℓ → Type ℓ
Object V = Store Text V

module _ {ℓ} {V : Type ℓ} where
  unfoldable pub field_id_mapper : Text → Object V → Option V
  field_id_mapper field v = lookup field v

  unfoldable pub id_field_mapper : Object V → Option V
  id_field_mapper v = lookup (codes "id") v

  -- `Object.assign(current, update)`: each field of the update is set in turn.
  unfoldable pub object_assign : Object V → Object V → Object V
  object_assign current [] = current
  object_assign current ((k, v) ∷ rest) = object_assign (insert k v current) rest

  unfoldable pub assign_merger : Object V → Object V → Object V
  unfolding object_assign
  assign_merger current update = object_assign current update

  lookup-object_assign :
      (current update : Object V) (k : Text)
      → Distinct (keys update)
      → lookup k (object_assign current update)
        ≡ (if has k update then lookup k update else lookup k current)
  unfolding object_assign lookup
  lookup-object_assign current [] k d = refl
  lookup-object_assign current ((j, v) ∷ rest) k d = ground (
    arith,
    lookup-object_assign (insert j v current) rest k d.1,
    lookup-insert j k v current,
    text_beq_iff j k,
    has-elem j rest,
    has-elem k rest,
  )

  -- After a merge of an update that has no field twice, each field of the update has the update's
  -- value, and each other field keeps its own.
  pub assign_merger_fields :
      (current update : Object V) (k : Text)
      → Distinct (keys update)
      → lookup k (assign_merger current update)
        ≡ (if has k update then lookup k update else lookup k current)
  unfolding assign_merger
  assign_merger_fields current update k d = lookup-object_assign current update k d

  -- So a merge of an update with the same identifier keeps the identifier.
  pub assign_merger_id :
      (current update : Object V)
      → Distinct (keys update)
      → id_field_mapper current ≡ id_field_mapper update
      → id_field_mapper (assign_merger current update) ≡ id_field_mapper update
  unfolding id_field_mapper
  assign_merger_id current update d same = elim (Bool-cases (has (codes "id") update)) [
    | inl there ↦ rw (assign_merger_fields current update (codes "id") d, there)
    | inr missing ↦ rw (assign_merger_fields current update (codes "id") d, missing) same
  ]
