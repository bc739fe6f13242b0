-- ===== src/Relay/Handler.antt =====
-- noray/src/relay/udp.relay.handler.mjs: the relay table over the socket pool. The listeners that
-- others attach to the handler's events are a parameter; `L` is the state that they keep.
pub mod Transmit
pub mod Invariant
pub mod Frame
pub mod Accounting
pub mod Releasing
pub mod Routes
pub mod Refinement
use bevy_noray.Base.{
  ℕ, nat_eq, suc, ◌+◌, ◌-◌, Bool, true, false, ◌&&◌, Option, none, some, List, [], ◌∷◌, ◌++◌, ◌==◌,
  if◌then◌else◌, length, find, find_index, erase_idx, is_some, map, insert, Text, text_beq, Outcome,
  ok, throws, Action, type_error, pure, throw, gets, or_throw, modify, ◌>>=◌, ◌>>◌,
}
use bevy_noray.Relay.Address.{NetAddress, RemoteInfo, from_rinfo}
use bevy_noray.Relay.Entry.{RelayEntry, entry_equals}
use bevy_noray.Relay.Pool.{UdpSocketPool, Socket, PoolAction, get_port, get_socket, return_port}

-- A datagram's bytes.
abbrev pub Message : Type 0
Message = List ℕ

-- What the program does to the world outside: datagrams sent, from the socket of a port to an
-- address, and calls of the metrics.
pub data Effect : Type 0 where
  send : ℕ → NetAddress → Message → Effect
  gauge_inc gauge_dec gauge_reset drop_inc expired_inc : Effect
  size_observe : ℕ → Effect

-- `trace` has the effects so far, newest first.
pub record Handler (L : Type 0) : Type 0 where
  pub pool : UdpSocketPool
  pub table : List RelayEntry
  pub listeners : L
  pub trace : List Effect

-- The listeners of 'create', 'transmit' and 'destroy', which may throw; `now` is the time.
pub record Listeners (L : Type 0) : Type 0 where
  pub on_create : ℕ → RelayEntry → Action L (Unit {0})
  pub on_transmit : ℕ → RelayEntry → RelayEntry → Message → Action L (Unit {0})
  pub on_destroy : ℕ → RelayEntry → Action L (Unit {0})

-- The listener of 'drop' calls the handler back, so it works on the whole handler.
abbrev pub DropListener : Type 0 → Type 0
DropListener L =
    ℕ
    → Option RelayEntry
    → Option RelayEntry
    → NetAddress
    → ℕ
    → Message
    → Action (Handler L) (Unit {0})

-- A change of the first entry that passes a test: `find` hands out a reference, which is written to.
unfoldable pub update_first :
    (RelayEntry → Bool) → (RelayEntry → RelayEntry) → List RelayEntry → List RelayEntry
update_first t f [] = []
update_first t f (e ∷ es) = if t e then f e ∷ es else e ∷ update_first t f es

-- The socket of `port` hands what arrives to the relay on `port`, and to nothing else.
abbrev pub set_listener : ℕ → UdpSocketPool → UdpSocketPool
set_listener port p = record p {
  sockets = insert port (record { listeners = port ∷ [] }) p.sockets;
}

module _ {L : Type 0} where
  abbrev pub on_pool : {A : Type 0} → PoolAction A → Action (Handler L) A
  on_pool m h = let (r, p) = m h.pool in (r, record h { pool = p })

  abbrev pub emit : {A : Type 0} → Action L A → Action (Handler L) A
  emit m h = let (r, l) = m h.listeners in (r, record h { listeners = l })

  abbrev pub note : Effect → Action (Handler L) (Unit {0})
  note e h = (ok tt, record h { trace = e ∷ h.trace })

  -- `socket.removeAllListeners('message').on('message', …)` on the socket of a port.
  unfoldable pub listen_on : ℕ → Action (Handler L) (Unit {0})
  listen_on port h = elim (get_socket port h.pool) [
    | none ↦ (throws type_error, h)
    | some s ↦ (ok tt, record h { pool = set_listener port h.pool })
  ]

  unfoldable pub has_relay : RelayEntry → Handler L → Bool
  has_relay relay h = is_some (find (λ e. entry_equals e relay) h.table)

  unfoldable pub push_entry : RelayEntry → Action (Handler L) (Unit {0})
  push_entry entry h = (ok tt, record h { table = h.table ++ entry ∷ [] })

module _ {L : Type 0} (ls : Listeners L) where
  -- The part of `createRelay` behind the early return.
  unfoldable pub add_relay : ℕ → RelayEntry → Action (Handler L) RelayEntry
  add_relay now relay = do
    port ← on_pool get_port
    emit (ls.on_create now (record relay { port = port }))
    listen_on port
    let entry = record relay { port = port; last_received = now; created = now }
    push_entry entry
    note gauge_inc
    pure entry

  unfoldable pub create_relay : ℕ → RelayEntry → Action (Handler L) RelayEntry
  unfolding add_relay
  create_relay now relay h = elim (find (λ e. entry_equals e relay) h.table) [
    | some existing ↦ (ok existing, h)
    | none ↦ add_relay now relay h
  ]

  drop_entry : ℕ → RelayEntry → ℕ → Action (Handler L) Bool
  drop_entry now relay idx = do
    emit (ls.on_destroy now relay)
    modify (λ h. record h { pool = return_port relay.port h.pool; table = erase_idx h.table idx })
    note gauge_dec
    pure true

  unfoldable pub free_relay : ℕ → RelayEntry → Action (Handler L) Bool
  unfolding drop_entry
  free_relay now relay h = elim (find_index (λ e. entry_equals e relay) h.table) [
    | none ↦ (ok false, h)
    | some idx ↦ drop_entry now relay idx h
  ]

  unfoldable pub free_all : ℕ → List RelayEntry → Action (Handler L) (Unit {0})
  free_all now [] = pure tt
  free_all now (e ∷ es) = free_relay now e >> free_all now es

  unfoldable pub clear : ℕ → Action (Handler L) (Unit {0})
  unfolding free_all
  clear now h = (free_all now h.table >> note gauge_reset) h
