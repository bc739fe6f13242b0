-- ===== src/System/Safety.antt =====
-- The whole of noray: what holds after every history.
use bevy_noray.Base.{
  codes, false, ℕ, nat_eq, ◌≡◌, refl, inl, inr, Option, some, Option-cases, List, [], ◌∷◌, has,
  lookup, Outcome, ok, throws,
}
use bevy_noray.Relay.Pool.{UdpSocketPool, empty_pool, allocate_port, new_socket}
use bevy_noray.Relay.Pool.Invariant.{IsPool, empty-IsPool, add_socket-IsPool}
use bevy_noray.Relay.Handler.Invariant.Relaying.{on_message-IsHandler}
use bevy_noray.Relay.Handler.Invariant.{IsHandler}
use bevy_noray.Relay.Cleanup.Expiry.{cleanup-IsHandler}
use bevy_noray.Relay.Dynamic.{Dynamic, Job, resume}
use bevy_noray.Relay.Dynamic
use bevy_noray.Relay.Dynamic.Keeping.{handle-DropKeeps, resume-IsHandler}
use bevy_noray.Server.{on_relays, Server}
use bevy_noray.Server.Invariant.{IsServer, IsServer-IsStable, IsServer-IsHosting}
use bevy_noray.Server.Frame.{register_host-Keeps, dispatch-keeps, disconnect-keeps}
use bevy_noray.System.Induction.{
  start-Holds, Anything, Settles, IsInvariant, taking, run-Holds, Holds-weaker, AllReceived-any,
}
use bevy_noray.System.{
  cleanup_udp_relay_table, on_message, register_host, Handler, Settings, State, Event, attached,
  bind_ports, start, run,
}

-- The operating system never hands out a port that is still bound.
abbrev pub BindsFresh : (ℕ → Option ℕ) → List ℕ → UdpSocketPool → Type 0
BindsFresh bind [] p = Unit {0}
BindsFresh bind (port ∷ ports) p =
    ((q : ℕ) → bind port ≡ some q → has q p.sockets ≡ false)
    × BindsFresh bind ports (allocate_port bind (some port) p).1

allocate_port-IsPool :
    (bind : ℕ → Option ℕ) (port : ℕ) (p : UdpSocketPool)
    → ((q : ℕ) → bind port ≡ some q → has q p.sockets ≡ false)
    → IsPool p
    → IsPool (allocate_port bind (some port) p).1
unfolding allocate_port
allocate_port-IsPool bind port p fresh v = elim (Option-cases (bind port)) [
  | inl n ↦ rw (n, allocate_port) v
  | inr (q, e) ↦ rw (e, allocate_port) (add_socket-IsPool q new_socket p (fresh q e) v)
]

bind_ports-IsPool :
    (bind : ℕ → Option ℕ) (ports : List ℕ) (p : UdpSocketPool)
    → BindsFresh bind ports p
    → IsPool p
    → IsPool (bind_ports bind ports p)
unfolding bind_ports
bind_ports-IsPool bind [] p f v = v
bind_ports-IsPool bind (port ∷ ports) p f v =
    bind_ports-IsPool bind ports _ f.1 (allocate_port-IsPool bind port p f.0 v)

pub start-IsServer :
    (bind : ℕ → Option ℕ) (now : ℕ) (c : Settings)
    → BindsFresh bind c.relay_ports empty_pool
    → IsServer (start bind now c).server
unfolding start lookup
start-IsServer bind now c f = record {
  hosts_ok = record { own_id = λ k x e. cc; once = tt };
  relays_ok = record {
    pool_ok = bind_ports-IsPool bind c.relay_ports empty_pool f empty-IsPool;
    table_ok = record { ports_once = tt; addresses_once = tt; wired = λ q h. cc; busy = λ q h. cc };
    gauge_ok = refl;
  };
}

module _ (c : Settings) where
  both :
      (r : Outcome (Unit {0}) × Server State) → IsServer r.1 → Settles Anything IsServer IsServer r
  both (ok u, s) v = v
  both (throws x, s) v = v

  relays :
      {h : Handler State} (s : Server State)
      → IsServer s
      → IsHandler h
      → IsServer (record s { relays = h })
  relays s v w = record { hosts_ok = v.hosts_ok; relays_ok = w }

  pub IsServer-IsInvariant : IsInvariant Anything IsServer IsServer c
  IsServer-IsInvariant = record {
    weaker = λ s v. v;
    stable = IsServer-IsStable (attached c);
    registering = λ oid pid socket s v.
        dispatch-keeps (attached c) IsServer (IsServer-IsStable (attached c)) socket
          (codes "register-host") (register_host oid pid socket) s
          (register_host-Keeps (attached c) IsServer (IsServer-IsStable (attached c))
            IsServer-IsHosting oid pid socket s v);
    disconnecting =
        disconnect-keeps (attached c) IsServer (IsServer-IsStable (attached c)) IsServer-IsHosting;
    receiving = λ now port rinfo msg s m v.
        both
          (on_relays (on_message (attached c) (Dynamic.handle (attached c)) now port rinfo msg) s)
          (relays s v (
            on_message-IsHandler (attached c) (Dynamic.handle (attached c)) now port rinfo msg
              s.relays (handle-DropKeeps (attached c)) v.relays_ok));
    resuming = λ now j js s e v. both (on_relays (resume (attached c) now j) (taking js s)) (
        relays s v (
          resume-IsHandler (attached c) now j (taking js s).relays (record {
            pool_ok = v.relays_ok.pool_ok;
            table_ok = v.relays_ok.table_ok;
            gauge_ok = v.relays_ok.gauge_ok;
          })));
    cleaning = λ now s v.
        both (on_relays (cleanup_udp_relay_table (attached c) now c.timeout) s)
          (relays s v (cleanup-IsHandler (attached c) now c.timeout s.relays v.relays_ok));
  }

-- From its start, if the operating system binds no two of the configured ports to one port, and
-- under any events in any order, noray keeps each host under its own open identifier, no port and
-- no address has two relays, the port of a relay is bound, is not free and listens for that relay
-- alone, and the gauge shows the number of relays.
pub start-run-IsServer :
    (bind : ℕ → Option ℕ) (now : ℕ) (c : Settings) (es : List Event)
    → BindsFresh bind c.relay_ports empty_pool
    → IsServer (run c es (start bind now c)).server
start-run-IsServer bind now c es f =
    Holds-weaker Anything IsServer IsServer (λ s v. v) (run c es (start bind now c))
      (run-Holds Anything IsServer IsServer c (IsServer-IsInvariant c) es (start bind now c)
        (AllReceived-any Anything (λ msg. tt) es)
        (start-Holds Anything IsServer IsServer bind now c (start-IsServer bind now c f)))
