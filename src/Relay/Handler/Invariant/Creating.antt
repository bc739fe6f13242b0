-- ===== src/Relay/Handler/Invariant/Creating.antt =====
-- noray/src/relay/udp.relay.handler.mjs, `createRelay`: it keeps the invariant on every branch, with
-- any listeners.
use bevy_noray.Base.{
  Failure, no_free_ports, ℕ, nat_eq, ◌≡◌, refl, inl, inr, Option-cases, true, none, List, [], ◌∷◌,
  ◌++◌, arith, length-append, find, lookup, has, Outcome, Outcome-cases, ok, throws,
}
use bevy_noray.Relay.Entry.{RelayEntry, entry_equals}
use bevy_noray.Relay.Pool.{UdpSocketPool, get_socket, get_port}
use bevy_noray.Relay.Pool.Invariant.{IsPool}
use bevy_noray.Relay.Pool.Laws.{Grants, refused, granted, get_port-Grants}
use bevy_noray.Relay.Handler.{
  Handler, Listeners, listen_on, push_entry, set_listener, add_relay, create_relay, gauge_inc,
}
use bevy_noray.Relay.Handler.Invariant.{IsHandler}
use bevy_noray.Relay.Handler.Invariant.Table.{find-addresses, set_listener-IsPool, append-IsTable}
use bevy_noray.Relay.Address.{address_eq}

-- A port that was taken and not given back leaves the rest well-formed.
pub shrunk-IsHandler :
    {L : Type 0} (port : ℕ) (rest : List ℕ) (h : Handler L) (l : L)
    → h.pool.free_ports ≡ port ∷ rest
    → IsHandler h
    → IsHandler (record h { pool = record h.pool { free_ports = rest }; listeners = l })
shrunk-IsHandler port rest h l f v = record {
  pool_ok = record {
    bound = λ q e. v.pool_ok.bound q (ground arith);
    free_once = ground (arith, v.pool_ok.free_once);
    bound_once = v.pool_ok.bound_once;
  };
  table_ok = record {
    ports_once = v.table_ok.ports_once;
    addresses_once = v.table_ok.addresses_once;
    wired = v.table_ok.wired;
    busy = λ q e. ground (arith, v.table_ok.busy q);
  };
  gauge_ok = v.gauge_ok;
}

module _ {L : Type 0} (ls : Listeners L) (now : ℕ) (relay : RelayEntry) (h : Handler L) where
  -- The entry that `createRelay` appends for a granted port, and the handler that it leaves.
  abbrev pub entry_on : ℕ → RelayEntry
  entry_on port = record relay { port = port; last_received = now; created = now }

  abbrev pub created_on : ℕ → List ℕ → L → Handler L
  created_on port rest l = record h {
    pool = set_listener port (record pool { free_ports = rest });
    table = table ++ entry_on port ∷ [];
    listeners = l;
    trace = gauge_inc ∷ trace;
  }
    where
      open h use {pool, table, trace}

  -- How `createRelay` ends once the table has no entry for the address.
  pub data Creates : Outcome RelayEntry × Handler L → Type 0 where
    full : h.pool.free_ports ≡ [] → Creates (throws no_free_ports, h)
    rejected :
        (port : ℕ) (rest : List ℕ) (l : L) (e : Failure)
        → h.pool.free_ports ≡ port ∷ rest
        → ls.on_create now (record relay { port = port }) h.listeners ≡ (throws e, l)
        → Creates (throws e, record h { pool = record h.pool { free_ports = rest }; listeners = l })
    created :
        (port : ℕ) (rest : List ℕ) (l : L)
        → h.pool.free_ports ≡ port ∷ rest
        → ls.on_create now (record relay { port = port }) h.listeners ≡ (ok tt, l)
        → Creates (ok (entry_on port), created_on port rest l)

  from_grant :
      (g : Outcome ℕ × UdpSocketPool)
      → get_port h.pool ≡ g
      → Grants h.pool g
      → Creates (add_relay ls now relay h)
  unfolding add_relay listen_on push_entry get_socket
  from_grant g e (refused f) =
      let eq : add_relay ls now relay h ≡ (throws no_free_ports, h) = ground arith in rw eq (full f)
  from_grant g e (granted port rest f bound new v) =
      let l : L = (ls.on_create now (record relay { port = port }) h.listeners).1 in
      elim (Outcome-cases (ls.on_create now (record relay { port = port }) h.listeners).0) [
        | inl (u, c) ↦
            let eq : add_relay ls now relay h ≡ (ok (entry_on port), created_on port rest l) =
              ground (arith, bound) in
            rw eq (created port rest l f (ground arith))
        | inr (x, c) ↦
            let eq : add_relay ls now relay h ≡ (
              throws x,
              record h { pool = record h.pool { free_ports = rest }; listeners = l },
            ) =
              ground arith in
            rw eq (rejected port rest l x f (ground arith))
      ]

  -- Without an entry for the address, `createRelay` fails for want of a port and changes nothing, or
  -- a listener rejects the relay and the port is gone, or the entry joins the table.
  pub add_relay-Creates : IsPool h.pool → Creates (add_relay ls now relay h)
  add_relay-Creates v = from_grant (get_port h.pool) refl (get_port-Grants h.pool v)

  Creates-IsHandler :
      {r : Outcome RelayEntry × Handler L}
      → Creates r
      → find (λ e. entry_equals e relay) h.table ≡ none
      → IsHandler h
      → IsHandler r.1
  Creates-IsHandler (full f) n v = v
  Creates-IsHandler (rejected port rest l e f _) n v = shrunk-IsHandler port rest h l f v
  Creates-IsHandler (created port rest l f _) n v = record {
    pool_ok = set_listener-IsPool port rest h.pool f v.pool_ok;
    table_ok =
        append-IsTable port rest h.pool f v.pool_ok h.table (entry_on port) refl
          (find-addresses relay h.table n) v.table_ok;
    gauge_ok = omega (arith, v.gauge_ok, length-append h.table (entry_on port ∷ []));
  }

  -- `createRelay` keeps the handler well-formed, on every branch and whatever the listeners do.
  pub create_relay-IsHandler : IsHandler h → IsHandler (create_relay ls now relay h).1
  unfolding create_relay
  create_relay-IsHandler v = elim (Option-cases (find (λ e. entry_equals e relay) h.table)) [
    | inl n ↦ rw (n, create_relay) (Creates-IsHandler (add_relay-Creates v.pool_ok) n v)
    | inr (e, s) ↦ rw (s, create_relay) v
  ]

  -- For a new address, with a free port and listeners of 'create' that accept it, `createRelay`
  -- returns the entry on the port, and appends it.
  pub create_relay_creates :
      (port : ℕ) (rest : List ℕ)
      → find (λ e. entry_equals e relay) h.table ≡ none
      → h.pool.free_ports ≡ port ∷ rest
      → has port h.pool.sockets ≡ true
      → (ls.on_create now (record relay { port = port }) h.listeners).0 ≡ ok tt
      → create_relay ls now relay h ≡ (
        ok (entry_on port),
        created_on port rest (ls.on_create now (record relay { port = port }) h.listeners).1,
      )
  unfolding create_relay listen_on push_entry get_socket get_port
  create_relay_creates port rest n f b c = elim (Option-cases (lookup port h.pool.sockets)) [
    | inl missing ↦ absurd (ground arith)
    | inr (s, found) ↦ ground arith
  ]
