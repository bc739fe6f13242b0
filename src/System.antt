-- ===== src/System.antt =====
-- The whole of noray: the server with the listeners that noray/src/relay/relay.mjs attaches, from its
-- start to its end, under the events that reach it in any order. Node stops the process at an error
-- that nothing catches, in an event or in a promise; `crashed` says so.
pub mod Induction
pub mod Framing
pub mod Safety
pub mod Progress
pub mod Capacity
pub mod Departure
pub mod Traffic
pub mod Expiry
pub mod Stopping
pub mod Ending
use bevy_noray.Base.{
  not_running, if◌then◌else◌, false, Bool, ℕ, Option, none, some, List, [], ◌∷◌, Text, codes,
  Action, Outcome, ok, throws, Failure, ◌>>=◌, ◌>>◌,
}
use bevy_noray.Relay.Address.{RemoteInfo}
use bevy_noray.Relay.Limiter.{BandwidthLimiter, second}
use bevy_noray.Relay.Pool.{UdpSocketPool, empty_pool, allocate_port}
use bevy_noray.Relay.Pool
use bevy_noray.Relay.Handler
use bevy_noray.Relay.Handler.{Handler, Listeners, Message}
use bevy_noray.Relay.Handler.Transmit.{on_message}
use bevy_noray.Relay.Constraints.{Counters, Limits, constraints}
use bevy_noray.Relay.Cleanup.{cleanup_udp_relay_table}
use bevy_noray.Relay.Dynamic.{Dynamic, Job, with_dynamic, resume}
use bevy_noray.Relay.Dynamic
use bevy_noray.Hosts.{TcpSocket}
use bevy_noray.Server.{Server, on_relays}
use bevy_noray.Server.Hosting.{register_host, disconnect}
use bevy_noray.Server.Connecting.{handle_connect, handle_connect_relay, dispatch}
use bevy_noray.Server.Registrar

-- What the relay module reads of `config.udpRelay`.
pub record Settings : Type 0 where
  pub relay_ports : List ℕ
  pub timeout : ℕ
  pub limits : Limits

abbrev pub State : Type 0
State = Dynamic Counters

-- The listeners of the program.
abbrev pub attached : Settings → Listeners State
attached c = with_dynamic (constraints c.limits)

pub record System : Type 0 where
  pub server : Server State
  pub crashed : Option Failure

-- The configured ports are bound in turn; one that cannot be bound is passed over.
unfoldable pub bind_ports : (ℕ → Option ℕ) → List ℕ → UdpSocketPool → UdpSocketPool
bind_ports bind [] p = p
bind_ports bind (port ∷ ports) p = bind_ports bind ports (allocate_port bind (some port) p).1

-- The state when the hooks have run, at the time `now`.
unfoldable pub start : (ℕ → Option ℕ) → ℕ → Settings → System
unfolding bind_ports
start bind now c = record {
  server = record {
    hosts = [];
    closing = [];
    relays = record {
      pool = bind_ports bind c.relay_ports empty_pool;
      table = [];
      listeners = record {
        inner = record {
          limiters = [];
          limiter = record {
            interval = elim c.limits.traffic_interval [ none ↦ second | some i ↦ i ];
            max_traffic = c.limits.max_global_traffic;
            traffic = 0;
            last_interval = now;
          };
          relay_traffic = [];
        };
        buffers = [];
        jobs = [];
        unhandled = [];
      };
      trace = [];
    };
    output = [];
  };
  crashed = none;
}

pub data Event : Type 0 where
  registers_host : TcpSocket → Text → Text → Event
  connects : TcpSocket → Option Text → Event
  connects_relay : ℕ → TcpSocket → Option Text → Event
  disconnects : TcpSocket → Event
  registers_remote : Text → RemoteInfo → Event
  receives : ℕ → ℕ → RemoteInfo → Message → Event
  runs_job cleans_up : ℕ → Event

-- The first error that nothing has caught.
abbrev pub uncaught : List Failure → Option Failure
uncaught [] = none
uncaught (e ∷ es) = some e

-- Back in the event loop: an error has stopped the process, or it goes on.
abbrev pub settled : Outcome (Unit {0}) × Server State → System
settled (throws e, s) = record { server = s; crashed = some e }
settled (ok _, s) = record { server = s; crashed = uncaught s.relays.listeners.unhandled }

-- The oldest job that waits is taken off the queue and run.
run_job : Settings → ℕ → List Job → Server State → System
run_job c now [] s = record { server = s; crashed = none }
run_job c now (j ∷ js) s =
    settled (on_relays (resume (attached c) now j) (record s { relays = h' }))
  where
    d : State
    d = s.relays.listeners

    h : Handler State
    h = s.relays

    h' : Handler State
    h' = record h { listeners = record d { jobs = js } }

react : Settings → Event → Server State → System
unfolding run_job
react c (registers_host socket oid pid) s =
    settled (ok tt, dispatch socket (codes "register-host") (register_host oid pid socket) s)
react c (connects socket text) s =
    settled (ok tt, dispatch socket (codes "connect") (handle_connect socket text) s)
react c (connects_relay now socket text) s = settled (
  ok tt,
  dispatch socket (codes "connect-relay") (handle_connect_relay (attached c) now socket text) s,
)
react c (disconnects socket) s = settled (ok tt, disconnect socket s)
react c (registers_remote pid rinfo) s = settled (ok tt, Registrar.handle pid rinfo s)
react c (receives now port rinfo msg) s =
    settled (on_relays (on_message (attached c) (Dynamic.handle (attached c)) now port rinfo msg) s)
react c (runs_job now) s = run_job c now s.relays.listeners.jobs s
react c (cleans_up now) s =
    settled (on_relays (cleanup_udp_relay_table (attached c) now c.timeout) s)

unfoldable pub step : Settings → Event → System → System
unfolding react
step c e y = elim y.crashed [ some _ ↦ y | none ↦ react c e y.server ]

unfoldable pub run : Settings → List Event → System → System
run c [] y = y
run c (e ∷ es) y = run c es (step c e y)

-- What the listener of 'close' ends: the interval of the cleanup, the registrar's socket, and the server.
pub record RelayModule : Type 0 where
  pub cleaning : Bool
  pub registrar_open : Bool
  pub server : Server State

-- `clearInterval`.
clear_interval : Action RelayModule (Unit {0})
clear_interval m = (ok tt, record m { cleaning = false })

-- `socket.close()` of the registrar, which throws at a socket that is closed already.
close_registrar : Action RelayModule (Unit {0})
close_registrar m =
    if m.registrar_open
    then (ok tt, record m { registrar_open = false })
    else (throws not_running, m)

clear_pool : Action RelayModule (Unit {0})
clear_pool m =
    (ok tt, record m { server = record s { relays = record h { pool = Pool.clear h.pool } } })
  where
    s : Server State
    s = m.server

    h : Handler State
    h = s.relays

clear_relays : Settings → ℕ → Action RelayModule (Unit {0})
clear_relays c now m =
    let (r, s) = on_relays (Handler.clear (attached c) now) m.server in (r, record m { server = s })

-- The listener of 'close'.
unfoldable pub shutdown : Settings → ℕ → Action RelayModule (Unit {0})
unfolding clear_interval close_registrar clear_pool clear_relays
shutdown c now = clear_interval >> (close_registrar >> (clear_pool >> clear_relays c now))
