-- ===== src/Relay/Handler/Invariant/Table.antt =====
-- noray/src/relay/udp.relay.handler.mjs: the relay table under an added and a removed entry.
use bevy_noray.Base.{
  ℕ, nat_eq, zero, suc, ◌+◌, ◌≡◌, refl, ap, Eq, inl, inr, Option-cases, Bool-cases, Bool, true,
  false, none, some, List, [], ◌∷◌, ◌++◌, arith, length, find, find_index, erase_idx, elem,
  elem-append, Distinct, lookup-insert, insert-Distinct,
}
use bevy_noray.Relay.Address.{NetAddress, address_eq}
use bevy_noray.Relay.Entry.{RelayEntry, entry_equals}
use bevy_noray.Relay.Pool.{UdpSocketPool}
use bevy_noray.Relay.Pool.Invariant.{IsPool}
use bevy_noray.Relay.Handler.{set_listener}
use bevy_noray.Relay.Handler.Invariant.{ports, addresses, listening, IsTable}

pub ports-append : (xs ys : List RelayEntry) → ports (xs ++ ys) ≡ ports xs ++ ports ys
ports-append [] ys = refl
ports-append (x ∷ xs) ys = ap (◌∷◌ x.port) (ports-append xs ys)

pub addresses-append :
    (xs ys : List RelayEntry) → addresses (xs ++ ys) ≡ addresses xs ++ addresses ys
addresses-append [] ys = refl
addresses-append (x ∷ xs) ys = ap (◌∷◌ x.address) (addresses-append xs ys)

Distinct-snoc {ℓ} :
    {A : Type ℓ} ⦃e : Eq A⦄ (xs : List A) (a : A)
    → elem a xs ≡ false
    → Distinct xs
    → Distinct (xs ++ a ∷ [])
Distinct-snoc [] a h d = (refl, tt)
Distinct-snoc ⦃e⦄ (x ∷ xs) a h d =
    ground (arith, elem-append x xs (a ∷ []), e.beq_iff a x, e.beq_iff x a, Distinct-snoc xs a)

-- An address that `find` misses is not in the table.
pub find-addresses :
    (r : RelayEntry) (es : List RelayEntry)
    → find (λ e. entry_equals e r) es ≡ none
    → elem r.address (addresses es) ≡ false
unfolding entry_equals
find-addresses r [] h = refl
find-addresses r (e ∷ es) h = ground (arith, find-addresses r es)

module _ (port : ℕ) (rest : List ℕ) (p : UdpSocketPool) (free : p.free_ports ≡ port ∷ rest)
    (v : IsPool p) where
  -- A granted port whose socket listens leaves the pool well-formed.
  pub set_listener-IsPool : IsPool (set_listener port (record p { free_ports = rest }))
  set_listener-IsPool = record {
    bound = λ q h. ground (arith, lookup-insert port q (listening port) p.sockets, v.bound q);
    free_once = ground (arith, v.free_once);
    bound_once = insert-Distinct port (listening port) p.sockets v.bound_once;
  }

  -- An entry for the granted port joins the table.
  pub append-IsTable :
      (table : List RelayEntry) (e : RelayEntry)
      → e.port ≡ port
      → elem e.address (addresses table) ≡ false
      → IsTable p table
      → IsTable (set_listener port (record p { free_ports = rest })) (table ++ e ∷ [])
  append-IsTable table e here new t = record {
    ports_once =
        rw (ports-append table (e ∷ []))
          (Distinct-snoc (ports table) e.port (ground (arith, t.busy e.port)) t.ports_once);
    addresses_once =
        rw (addresses-append table (e ∷ []))
          (Distinct-snoc (addresses table) e.address new t.addresses_once);
    wired = λ q h. ground (
      arith,
      lookup-insert port q (listening port) p.sockets,
      ports-append table (e ∷ []),
      elem-append q (ports table) (e.port ∷ []),
      t.wired q,
    );
    busy = λ q h. ground (
      arith,
      ports-append table (e ∷ []),
      elem-append q (ports table) (e.port ∷ []),
      t.busy q,
      v.free_once,
    );
  }

-- The entry that `findIndex` points at is the one that `find` returns.
pub find-find_index :
    (t : RelayEntry → Bool) (es : List RelayEntry) (i : ℕ)
    → find_index t es ≡ some i
    → (e : RelayEntry) × (find t es ≡ some e)
find-find_index t [] i h = absurd (ground arith)
find-find_index t (x ∷ es) i h = elim (Bool-cases (t x)) [
  | inl hit ↦ (x, rw hit)
  | inr miss ↦ elim (Option-cases (find_index t es)) [
    | inl n ↦ absurd (ground arith)
    | inr (j, s) ↦ let (e, p) = find-find_index t es j s in (e, rw miss p)
  ]
]

pub length-erase_idx :
    (t : RelayEntry → Bool) (es : List RelayEntry) (i : ℕ)
    → find_index t es ≡ some i
    → length (erase_idx es i) + 1 ≡ length es
length-erase_idx t [] i h = absurd (ground arith)
length-erase_idx t (x ∷ es) i h = elim (Option-cases (find_index t es)) [
  | inl n ↦ ground arith
  | inr (j, s) ↦ ground (arith, length-erase_idx t es j)
]

elem-ports-erase_idx :
    (es : List RelayEntry) (i q : ℕ)
    → elem q (ports (erase_idx es i)) ≡ true
    → elem q (ports es) ≡ true
elem-ports-erase_idx [] i q h = h
elem-ports-erase_idx (x ∷ es) zero q h = ground arith
elem-ports-erase_idx (x ∷ es) (suc i) q h = ground (arith, elem-ports-erase_idx es i q)

elem-addresses-erase_idx :
    (es : List RelayEntry) (i : ℕ) (a : NetAddress)
    → elem a (addresses (erase_idx es i)) ≡ true
    → elem a (addresses es) ≡ true
elem-addresses-erase_idx [] i a h = h
elem-addresses-erase_idx (x ∷ es) zero a h = ground arith
elem-addresses-erase_idx (x ∷ es) (suc i) a h = ground (arith, elem-addresses-erase_idx es i a)

ports-erase_idx-Distinct :
    (es : List RelayEntry) (i : ℕ) → Distinct (ports es) → Distinct (ports (erase_idx es i))
ports-erase_idx-Distinct [] i d = tt
ports-erase_idx-Distinct (x ∷ es) zero d = d.1
ports-erase_idx-Distinct (x ∷ es) (suc i) d =
    ground (arith, ports-erase_idx-Distinct es i d.1, elem-ports-erase_idx es i x.port)

addresses-erase_idx-Distinct :
    (es : List RelayEntry) (i : ℕ) → Distinct (addresses es) → Distinct (addresses (erase_idx es i))
addresses-erase_idx-Distinct [] i d = tt
addresses-erase_idx-Distinct (x ∷ es) zero d = d.1
addresses-erase_idx-Distinct (x ∷ es) (suc i) d =
    ground (arith, addresses-erase_idx-Distinct es i d.1, elem-addresses-erase_idx es i x.address)

-- The removed entry's port was in the table, and is not any more.
pub removed_port :
    (t : RelayEntry → Bool) (es : List RelayEntry) (i : ℕ) (e : RelayEntry)
    → find_index t es ≡ some i
    → find t es ≡ some e
    → Distinct (ports es)
    → (elem e.port (ports es) ≡ true) × (elem e.port (ports (erase_idx es i)) ≡ false)
removed_port t [] i e h f d = absurd (ground arith)
removed_port t (x ∷ es) i e h f d = elim (Option-cases (find_index t es)) [
  | inl n ↦ ground arith
  | inr (j, s) ↦ ground (arith, removed_port t es j e)
]

-- A table from which the entry of a port has gone, with the port given back.
pub erase_idx-IsTable :
    (p : UdpSocketPool) (es : List RelayEntry) (i port : ℕ)
    → elem port (ports (erase_idx es i)) ≡ false
    → IsTable p es
    → IsTable (record p { free_ports = port ∷ p.free_ports }) (erase_idx es i)
erase_idx-IsTable p es i port gone t = record {
  ports_once = ports-erase_idx-Distinct es i t.ports_once;
  addresses_once = addresses-erase_idx-Distinct es i t.addresses_once;
  wired = λ q h. t.wired q (elem-ports-erase_idx es i q h);
  busy = λ q h. ground (arith, t.busy q, elem-ports-erase_idx es i q);
}
