-- ===== src/System/Capacity.antt =====
-- The whole of noray: how many of the ports that it has bound are left for relays.
use bevy_noray.Base.{
  ℕ, ◌+◌, ◌≤◌, Option, List, length, Outcome, ok, throws, codes, arith, Keeps, text_eq,
}
use bevy_noray.Relay.Entry.{RelayEntry}
use bevy_noray.Relay.Pool.{empty_pool}
use bevy_noray.Relay.Handler.{create_relay}
use bevy_noray.Relay.Handler.Transmit.{on_message}
use bevy_noray.Relay.Handler.Accounting.{drops, IsWorth, create_relay-worth, cleanup-worth}
use bevy_noray.Relay.Handler.Invariant.Creating.{create_relay-IsHandler}
use bevy_noray.Relay.Cleanup.{cleanup_udp_relay_table}
use bevy_noray.Relay.Cleanup.Expiry.{cleanup-IsHandler}
use bevy_noray.Relay.Dynamic.{Job, resume, with_dynamic}
use bevy_noray.Relay.Dynamic
use bevy_noray.Relay.Dynamic.Loss.{on_message-IsWorth, resume-IsWorth}
use bevy_noray.Server.{Server, on_relays}
use bevy_noray.Server.Hosting.{register_host}
use bevy_noray.Server.Frame.{
  IsStable, OfRelays, OfRelays-IsStable, OfRelays-IsHosting, register_host-Keeps, dispatch-keeps,
  disconnect-keeps,
}
use bevy_noray.System.{Settings, State, System, Event, attached, start, run}
use bevy_noray.System.Induction.{
  Anything, Settles, IsInvariant, taking, run-Holds, start-Holds, Holds-weaker, AllReceived-any,
}
use bevy_noray.System.Framing.{attached-accepting}
use bevy_noray.System.Safety.{BindsFresh, start-IsServer}

module _ (n : ℕ) (c : Settings) where
  Left : Server State → Type 0
  Left = OfRelays (IsWorth n)

  create_relay-IsWorth :
      (now : ℕ) (r : RelayEntry) → Keeps (IsWorth n) (create_relay (attached c) now r)
  create_relay-IsWorth now r h v = record {
    well = create_relay-IsHandler (attached c) now r h v.well;
    least = rw (create_relay-worth (attached c) now r h (attached-accepting c now) v.well) v.least;
  }

  stable : IsStable (attached c) (OfRelays (IsWorth n))
  stable = OfRelays-IsStable (IsWorth n) (attached c) create_relay-IsWorth

  either : (r : Outcome (Unit {0}) × Server State) → Left r.1 → Settles Anything Left Left r
  either (ok u, s) v = v
  either (throws x, s) v = v

  Left-IsInvariant : IsInvariant Anything Left Left c
  unfolding Left
  Left-IsInvariant = record {
    weaker = λ s v. v;
    stable = stable;
    registering = λ oid pid socket s v.
        dispatch-keeps (attached c) (OfRelays (IsWorth n)) stable socket (codes "register-host")
          (register_host oid pid socket) s
          (register_host-Keeps (attached c) (OfRelays (IsWorth n)) stable
            (OfRelays-IsHosting (IsWorth n)) oid pid socket s v);
    disconnecting =
        disconnect-keeps (attached c) (OfRelays (IsWorth n)) stable
          (OfRelays-IsHosting (IsWorth n));
    receiving = λ now port rinfo msg s m v.
        either
          (on_relays (on_message (attached c) (Dynamic.handle (attached c)) now port rinfo msg) s)
          (on_message-IsWorth (attached c) (attached-accepting c) n now port rinfo msg s.relays v);
    resuming = λ now j js s e v. either (on_relays (resume (attached c) now j) (taking js s)) (
        resume-IsWorth (attached c) (attached-accepting c) n now j (taking js s).relays (record {
          well = record {
            pool_ok = v.well.pool_ok;
            table_ok = v.well.table_ok;
            gauge_ok = v.well.gauge_ok;
          };
          least = v.least;
        }));
    cleaning = λ now s v.
        either (on_relays (cleanup_udp_relay_table (attached c) now c.timeout) s) (record {
          well = cleanup-IsHandler (attached c) now c.timeout s.relays v.well;
          least = rw (cleanup-worth (attached c) now c.timeout s.relays v.well) v.least;
        });
  }

-- From its start, if the operating system binds no two of the configured ports to one port, and
-- under any events in any order, noray loses at most one port for each datagram that it drops: the
-- ports that were free at the start are no more than those that are free, those of the relays, and the
-- dropped datagrams together.
pub ports_lost :
    (bind : ℕ → Option ℕ) (now : ℕ) (c : Settings) (es : List Event)
    → BindsFresh bind c.relay_ports empty_pool
    → let h = (run c es (start bind now c)).server.relays in
      length (start bind now c).server.relays.pool.free_ports
      ≤ length h.pool.free_ports + length h.table + drops h.trace
unfolding Left
ports_lost bind now c es f =
    let y0 : System = start bind now c in
    let n : ℕ = length y0.server.relays.pool.free_ports in
    let first : IsWorth n y0.server.relays = record {
      well = (start-IsServer bind now c f).relays_ok;
      least = omega arith;
    } in
    (Holds-weaker Anything (Left n c) (Left n c) (λ s v. v) (run c es y0)
      (run-Holds Anything (Left n c) (Left n c) c (Left-IsInvariant n c) es y0
        (AllReceived-any Anything (λ msg. tt) es)
        (start-Holds Anything (Left n c) (Left n c) bind now c first))).least
