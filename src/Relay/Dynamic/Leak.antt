-- ===== src/Relay/Dynamic/Leak.antt =====
-- noray/src/relay/dynamic.relaying.mjs: the ports that a dynamic relay takes.
use bevy_noray.Base.{
  text_beq_iff, ℕ, nat_eq, ◌≡◌, refl, true, false, none, some, List, [], ◌∷◌, ◌++◌, arith, text_eq,
  lookup, has, elem, elem-append, find, lookup-insert, ok,
}
use bevy_noray.Relay.Address.{NetAddress}
use bevy_noray.Relay.Entry.{RelayEntry, new_entry, entry_equals}
use bevy_noray.Relay.Pool.{get_port}
use bevy_noray.Relay.Handler.{Handler, Listeners, Message, on_pool, create_relay}
use bevy_noray.Relay.Handler.Invariant.{IsHandler, ports, listening}
use bevy_noray.Relay.Handler.Invariant.Creating.{entry_on, created_on, create_relay_creates}
use bevy_noray.Relay.Handler.Invariant.Table.{ports-append}
use bevy_noray.Relay.Dynamic.{
  with_dynamic, lift_action, Dynamic, buffer_key, start_relay, handle, set_buffer, buffer_or_start,
}

-- A bound port that is neither free nor the port of a relay: nothing will ever use it again.
abbrev pub IsLost : {L : Type 0} → ℕ → Handler L → Type 0
IsLost q h =
    (has q h.pool.sockets ≡ true)
    × (elem q h.pool.free_ports ≡ false)
    × (elem q (ports h.table) ≡ false)

module _ {L : Type 0} (ls : Listeners (Dynamic L)) (now : ℕ) (sender : NetAddress)
    (h : Handler (Dynamic L))
    (unknown : find (λ e. entry_equals e (new_entry now sender 0)) h.table ≡ none)
    (accepting : (r : RelayEntry) (d : Dynamic L) → (ls.on_create now r d).0 ≡ ok tt)
    (port next : ℕ) (rest : List ℕ) (free : h.pool.free_ports ≡ port ∷ next ∷ rest)
    (bound : has next h.pool.sockets ≡ true) where
  taken : Handler (Dynamic L)
  taken = record h { pool = record h.pool { free_ports = next ∷ rest } }

  unknown_at : find (λ e. entry_equals e (new_entry now sender port)) h.table ≡ none
  unfolding new_entry entry_equals
  unknown_at = unknown

  -- `getPort` takes the one port, and the `getPort` of `createRelay` the other.
  start_relay_takes : start_relay ls now sender h ≡ (
    ok (entry_on ls now (new_entry now sender port) taken next),
    created_on ls now
        (new_entry now sender port)
        taken
        next
        rest
        (ls.on_create now (record (new_entry now sender port) { port = next }) h.listeners).1,
  )
  unfolding start_relay get_port taken
  start_relay_takes =
      let first : on_pool get_port h ≡ (ok port, taken) = ground arith in
      let then_create : create_relay ls now (new_entry now sender port) taken ≡ (
        ok (entry_on ls now (new_entry now sender port) taken next),
        created_on ls now (new_entry now sender port) taken next rest
            (ls.on_create now (record (new_entry now sender port) { port = next }) h.listeners).1,
      ) =
        create_relay_creates ls now (new_entry now sender port) taken next rest unknown_at refl
          bound (accepting _ _) in
      ground (arith, first, then_create)

-- In a well-formed handler with two free ports, a datagram from an unknown sender without a buffer, to
-- a port that has a relay, makes dynamic relaying take both ports, if no listener of 'create' objects:
-- the second becomes the port of the sender's new relay, at the end of the table, and the first is lost.
-- The datagram waits in its buffer, for a job at the end of the queue.
pub handle_leaks :
    {L : Type 0} (ls : Listeners L) (now : ℕ) (t : RelayEntry) (sender : NetAddress) (target : ℕ)
    (msg : Message) (h : Handler (Dynamic L))
    → IsHandler h
    → lookup (buffer_key sender target) h.listeners.buffers ≡ none
    → find (λ e. entry_equals e (new_entry now sender 0)) h.table ≡ none
    → ((r : RelayEntry) (l : L) → (ls.on_create now r l).0 ≡ ok tt)
    → (port next : ℕ) (rest : List ℕ) → h.pool.free_ports ≡ port ∷ next ∷ rest
    → let h' = (handle (with_dynamic ls) now none (some t) sender target msg h).1 in
      (h'.pool.free_ports ≡ rest)
      × (h'.table
          ≡ h.table
            ++ record (new_entry now sender next) { last_received = now; created = now } ∷ [])
      × IsLost port h'
      × (lookup (buffer_key sender target) h'.listeners.buffers ≡ some (msg ∷ []))
      × (h'.listeners.jobs
          ≡ h.listeners.jobs
            ++ record {
              key = buffer_key sender target;
              sender_address = sender;
              target_port = target;
            }
              ∷ [])
unfolding handle new_entry taken with_dynamic lift_action
handle_leaks ls now t sender target msg h v unbuffered unknown accepting port next rest free =
    let next_bound : has next h.pool.sockets ≡ true = v.pool_ok.bound next (ground arith) in
    let h1 = set_buffer (buffer_key sender target) (msg ∷ []) h in
    let started =
      start_relay_takes (with_dynamic ls) now sender h1 unknown (λ r d. accepting r d.inner) port
        next rest free next_bound in
    let added = entry_on (with_dynamic ls) now (new_entry now sender port) h1 next in
    rw (unbuffered, buffer_or_start)
      (rw started (
        refl,
        refl,
        (
          ground (
            arith,
            lookup-insert next port (listening next) h.pool.sockets,
            v.pool_ok.bound port,
          ),
          ground (arith, v.pool_ok.free_once),
          ground (
            arith,
            ports-append h.table (added ∷ []),
            elem-append port (ports h.table) (next ∷ []),
            v.pool_ok.free_once,
            v.table_ok.busy port,
          ),
        ),
        ground (
          arith,
          lookup-insert (buffer_key sender target) (buffer_key sender target) (msg ∷ [])
              h.listeners.buffers,
          text_beq_iff (buffer_key sender target) (buffer_key sender target),
        ),
        refl,
      ))
