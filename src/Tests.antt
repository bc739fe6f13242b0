-- ===== src/Tests.antt =====
-- Concrete states of the program, and, in the modules below, the theorems at such states.
pub mod Relays
pub mod Routes
pub mod Servers
pub mod Systems
pub mod Programs
pub mod Utilities
use bevy_noray.Base.{
  ℕ, nat_eq, ◌≡◌, refl, true, false, Option, none, some, List, [], ◌∷◌, codes, lookup, has, elem,
  arith, text_eq, text_beq_iff, Text,
}
use bevy_noray.Relay.Address.{NetAddress, RemoteInfo, address_eq, equals}
use bevy_noray.Relay.Entry.{RelayEntry}
use bevy_noray.Relay.Pool.{UdpSocketPool, Socket, new_socket}
use bevy_noray.Relay.Pool.Invariant.{IsPool}
use bevy_noray.Relay.Limiter.{BandwidthLimiter}
use bevy_noray.Relay.Handler.{Handler, gauge_inc}
use bevy_noray.Relay.Handler.Invariant.{IsHandler, IsTable, listening}
use bevy_noray.Relay.Constraints.{Counters, Limits}
use bevy_noray.Relay.Dynamic.{Dynamic}
use bevy_noray.Repository.Laws.{IsRepository}
use bevy_noray.Hosts.{HostEntity, Hosts, host_id}
use bevy_noray.Server.{Server}
use bevy_noray.Server.Invariant.{IsServer}
use bevy_noray.Relay.Dynamic.{with_dynamic}
use bevy_noray.Relay.Constraints.{constraints, destroy}
use bevy_noray.Base.{ok}
use bevy_noray.System.{Settings, State, System, attached}

abbrev pub alice : NetAddress
alice = record { address = codes "10.0.0.1"; port = 5000 }

abbrev pub bob : NetAddress
bob = record { address = codes "10.0.0.2"; port = 6000 }

abbrev pub carol : NetAddress
carol = record { address = codes "10.0.0.3"; port = 7000 }

abbrev pub alice_rinfo : RemoteInfo
alice_rinfo = record { address = codes "10.0.0.1"; port = 5000 }

abbrev pub bob_rinfo : RemoteInfo
bob_rinfo = record { address = codes "10.0.0.2"; port = 6000 }

abbrev pub alice_relay : RelayEntry
alice_relay = record {
  port = 20;
  address = alice;
  last_sent = 0;
  last_received = 100;
  created = 100;
}

abbrev pub bob_relay : RelayEntry
bob_relay = record { port = 21; address = bob; last_sent = 0; last_received = 900; created = 100 }

-- Two relays on two ports, and two more ports that are free.
abbrev pub pool : UdpSocketPool
pool = record {
  sockets = (20, listening 20) ∷ (21, listening 21) ∷ (22, new_socket) ∷ (23, new_socket) ∷ [];
  free_ports = 22 ∷ 23 ∷ [];
  closed = [];
}

abbrev pub limits : Limits
limits = record {
  max_individual_traffic = 1_000;
  max_global_traffic = 10_000;
  traffic_interval = some 100_000;
  max_lifetime_duration = 1_000_000;
  max_lifetime_traffic = 5_000;
}

abbrev pub settings : Settings
settings = record { relay_ports = 20 ∷ 21 ∷ []; timeout = 500; limits = limits }

abbrev pub counters : Counters
counters = record {
  limiters = [];
  limiter = record { interval = 100_000; max_traffic = 10_000; traffic = 0; last_interval = 0 };
  relay_traffic = [];
}

abbrev pub listeners : State
listeners = record { inner = counters; buffers = []; jobs = []; unhandled = [] }

abbrev pub handler : Handler State
handler = record {
  pool = pool;
  table = alice_relay ∷ bob_relay ∷ [];
  listeners = listeners;
  trace = gauge_inc ∷ gauge_inc ∷ [];
}

abbrev pub alice_host : HostEntity
alice_host = record {
  oid = codes "alice";
  pid = codes "secret-a";
  socket = 1;
  relay = none;
  rinfo = some alice_rinfo;
}

abbrev pub bob_host : HostEntity
bob_host = record {
  oid = codes "bob";
  pid = codes "secret-b";
  socket = 2;
  relay = none;
  rinfo = some bob_rinfo;
}

abbrev pub hosts : Hosts
hosts = (codes "alice", alice_host) ∷ (codes "bob", bob_host) ∷ []

abbrev pub server : Server State
server = record {
  hosts = hosts;
  closing = (2, codes "bob") ∷ (1, codes "alice") ∷ [];
  relays = handler;
  output = [];
}

pub pool-IsPool : IsPool pool
unfolding lookup
pool-IsPool = record {
  bound = λ q h. ground arith;
  free_once = ground arith;
  bound_once = ground arith;
}

pub handler-IsHandler : IsHandler handler
unfolding lookup equals
handler-IsHandler = record {
  pool_ok = pool-IsPool;
  table_ok = record {
    ports_once = ground arith;
    addresses_once = (refl, (refl, tt));
    wired = λ q h. ground arith;
    busy = λ q h. ground arith;
  };
  gauge_ok = refl;
}

pub hosts-IsRepository : IsRepository host_id hosts
unfolding lookup
hosts-IsRepository = record {
  own_id = λ k h e. ground (arith, text_beq_iff (codes "alice") k, text_beq_iff (codes "bob") k);
  once = (refl, (refl, tt));
}

pub server-IsServer : IsServer server
server-IsServer = record { hosts_ok = hosts-IsRepository; relays_ok = handler-IsHandler }
