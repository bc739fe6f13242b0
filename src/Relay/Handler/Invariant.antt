-- ===== src/Relay/Handler/Invariant.antt =====
-- noray/src/relay/udp.relay.handler.mjs: what holds of a handler at all times.
pub mod Table
pub mod Creating
pub mod Freeing
pub mod Clearing
pub mod Touching
pub mod Relaying
pub mod Routing
use bevy_noray.Base.{
  ℕ, nat_eq, suc, ◌+◌, ◌-◌, ◌≡◌, ◌↔◌, ◌⊎◌, refl, inl, inr, Option-cases, Bool-cases, Bool, true,
  false, ◌&&◌, ◌||◌, Option, ap, Eq, none, some, List, [], ◌∷◌, ◌++◌, ◌==◌, arith, if◌then◌else◌,
  length, length-append, find, find_index, erase_idx, elem, elem-append, Distinct, map, lookup, has,
  insert, lookup-insert, insert-Distinct, elem-insert, Outcome, ok, throws, Action, ◌>>=◌, ◌>>◌,
}
use bevy_noray.Relay.Address.{NetAddress, address_eq, equals, equals_iff}
use bevy_noray.Relay.Entry.{RelayEntry, entry_equals}
use bevy_noray.Relay.Pool.{UdpSocketPool, Socket, get_socket, return_port, get_port}
use bevy_noray.Relay.Pool.Invariant.{IsPool, return_port-IsPool}
use bevy_noray.Relay.Pool.Laws.{Grants, refused, granted, get_port-Grants}
use bevy_noray.Relay.Handler.{
  Handler, Listeners, Effect, gauge_inc, gauge_dec, gauge_reset, send, drop_inc, expired_inc,
  size_observe, update_first, set_listener, emit, add_relay, create_relay, drop_entry, free_relay,
  free_all, clear,
}

abbrev pub ports : List RelayEntry → List ℕ
ports [] = []
ports (e ∷ es) = e.port ∷ ports es

abbrev pub addresses : List RelayEntry → List NetAddress
addresses [] = []
addresses (e ∷ es) = e.address ∷ addresses es

-- What the documented gauge shows after a trace.
abbrev pub gauge : List Effect → ℕ
gauge [] = 0
gauge (gauge_inc ∷ t) = suc (gauge t)
gauge (gauge_dec ∷ t) = gauge t - 1
gauge (gauge_reset ∷ t) = 0
gauge (send p a m ∷ t) = gauge t
gauge (drop_inc ∷ t) = gauge t
gauge (expired_inc ∷ t) = gauge t
gauge (size_observe n ∷ t) = gauge t

abbrev pub listening : ℕ → Socket
listening port = record { listeners = port ∷ [] }

-- The parts of a handler that the invariant speaks of.
pub record IsTable (pool : UdpSocketPool) (table : List RelayEntry) : Type 0 where
  pub ports_once : Distinct (ports table)
  pub addresses_once : Distinct (addresses table)
  pub wired : (q : ℕ) → elem q (ports table) ≡ true → lookup q pool.sockets ≡ some (listening q)
  pub busy : (q : ℕ) → elem q (ports table) ≡ true → elem q pool.free_ports ≡ false

-- The pool is well-formed; no port or address has two relays; the port of a relay is not free, and
-- its socket listens for that relay alone; the gauge shows the number of relays.
pub record IsHandler {L : Type 0} (h : Handler L) : Type 0 where
  pub pool_ok : IsPool h.pool
  pub table_ok : IsTable h.pool h.table
  pub gauge_ok : gauge h.trace ≡ length h.table
