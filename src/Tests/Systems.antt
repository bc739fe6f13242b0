-- ===== src/Tests/Systems.antt =====
-- The theorems on the whole program at concrete histories.
use bevy_noray.Base.{
  not, select, map, ℕ, nat_eq, ◌≡◌, ◌⊎◌, refl, Bool, true, false, Option, none, some, List, [], ◌∷◌,
  codes, Text, text_eq, text_beq_iff, Store, lookup, has, insert, elem, arith, Outcome, ok, throws,
  Failure, if◌then◌else◌, to_string, keys, Distinct,
}
use bevy_noray.Relay.Address.{from_rinfo, equals}
use bevy_noray.Relay.Pool.{empty_pool, allocate_port, add_socket}
use bevy_noray.Relay.Constraints.{constraints}
use bevy_noray.Relay.Dynamic.{with_dynamic}
use bevy_noray.Repository.{find_item, list, add}
use bevy_noray.Hosts.{modify_host, find_by_pid, new_host, find_by_socket}
use bevy_noray.Server.{Server, command, hosts_inc}
use bevy_noray.Server.Invariant.{IsServer}
use bevy_noray.Server.Hosting.{on_close, register_host}
use bevy_noray.Server.Connecting.{get_relay, dispatch, handle_connect_relay}
use bevy_noray.Server.Registrar.{register_rinfo, try_register, handle}
use bevy_noray.Relay.Handler.{create_relay}
use bevy_noray.Relay.Handler.{add_relay}
use bevy_noray.Relay.Pool.{get_port}
use bevy_noray.Relay.Handler.{listen_on}
use bevy_noray.Relay.Handler.{push_entry}
use bevy_noray.Relay.Pool.{get_socket}
use bevy_noray.Relay.Handler.Transmit.{on_message}
use bevy_noray.Relay.Handler.Transmit.{deliver}
use bevy_noray.Relay.Handler.Transmit.{relay}
use bevy_noray.Relay.Dynamic.{buffer_key}
use bevy_noray.Relay.Entry.{new_entry}
use bevy_noray.Relay.Entry.{entry_equals}
use bevy_noray.Relay.Address.{address_to_string}
use bevy_noray.System.{
  Settings, runs_job, connects_relay, disconnects, registers_remote, shutdown, Event,
  registers_host, receives, cleans_up, start, run, step,
}
use bevy_noray.System.Ending.{shutdown_releases}
use bevy_noray.Relay.Handler.Invariant.{gauge}
use bevy_noray.System.Stopping.{overdue_datagram_stops}
use bevy_noray.System.Progress.{HasCrashed, waiting_served}
use bevy_noray.System.Expiry.{idle_gone}
use bevy_noray.System.Capacity.{ports_lost}
use bevy_noray.Relay.Handler.Accounting.{drops}
use bevy_noray.Base.{length, ◌+◌, ◌≤◌}
use bevy_noray.Relay.Cleanup.{is_idle}
use bevy_noray.Base.{not_running}
use bevy_noray.System.{RelayModule}
use bevy_noray.Relay.Dynamic.Carrying.{AllSent}
use bevy_noray.System.Traffic.{received, sends_received}
use bevy_noray.Server.Hosting.Ownership.{unless_from}
use bevy_noray.System.Departure.{departed}
use bevy_noray.System.Safety.{BindsFresh, start-run-IsServer}
use bevy_noray.Tests.{
  bob_relay, alice_relay, bob, alice_rinfo, bob_rinfo, settings, server, server-IsServer,
}

-- Every port that is asked for is bound.
fresh : BindsFresh some (20 ∷ 21 ∷ []) empty_pool
unfolding allocate_port lookup add_socket bevy_noray.Base.insert
fresh = (λ q e. refl, (λ q e. ground arith, tt))

abbrev history : List Event
history =
    registers_host 1 (codes "alice") (codes "secret-a")
    ∷ receives 950 20 bob_rinfo (1 ∷ [])
    ∷ cleans_up 2_000
    ∷ []

start-run-IsServer_example : IsServer (run settings history (start some 0 settings)).server
start-run-IsServer_example = start-run-IsServer some 0 settings history fresh

overdue_datagram_stops_example :
    (x : Failure) × ((step settings
        (receives 1_000_100 21 alice_rinfo (1 ∷ []))
        (record { server = server; crashed = none })).crashed
      ≡ some x)
overdue_datagram_stops_example =
    overdue_datagram_stops settings (record { server = server; crashed = none }) 1_000_100
      alice_rinfo (1 ∷ []) bob 20 21 server-IsServer refl
      (alice_relay, (unfold equals from_rinfo in refl), (unfold from_rinfo in refl), refl)
      (bob_relay, (unfold equals in refl), refl, refl) (omega arith)

abbrev relay_module : RelayModule
relay_module = record { cleaning = true; registrar_open = true; server = server }

shutdown_releases_example :
    let (r, m') = shutdown settings 950 relay_module in
    (r ≡ ok tt)
    × (m'.cleaning ≡ false)
    × (m'.registrar_open ≡ false)
    × (m'.server.relays.table ≡ [])
    × (gauge m'.server.relays.trace ≡ 0)
    × (m'.server.relays.pool.sockets ≡ [])
    × (m'.server.relays.pool.free_ports ≡ [])
    × ((q : ℕ)
        → has q server.relays.pool.sockets ≡ true
        → elem q m'.server.relays.pool.closed ≡ true)
    × (m'.server.hosts ≡ server.hosts)
    × (shutdown settings 960 m' ≡ (throws not_running, m'))
shutdown_releases_example = shutdown_releases settings 950 960 relay_module server-IsServer refl

-- Ports for a relay, and for a dynamic one, which takes two.
abbrev spacious : Settings
spacious = record settings { relay_ports = 20 ∷ 21 ∷ 22 ∷ [] }

free : BindsFresh some (20 ∷ 21 ∷ 22 ∷ []) empty_pool
unfolding allocate_port lookup add_socket bevy_noray.Base.insert
free = (λ q e. refl, (λ q e. ground arith, (λ q e. ground arith, tt)))

-- A host, a relay for it, and a datagram from somebody without a relay, who gets one.
abbrev visit : List Event
visit =
    registers_host 1 (codes "alice") (codes "secret-a")
    ∷ registers_remote (codes "secret-a") alice_rinfo
    ∷ connects_relay 100 1 (some (codes "alice"))
    ∷ receives 150 22 bob_rinfo (7 ∷ [])
    ∷ []

-- One call of `#handle` waits, and nothing has stopped noray.
visited :
    let y = run spacious visit (start some 0 spacious) in
    (y.server.relays.listeners.jobs
      ≡ record { key = codes "10.0.0.2:6000>22"; sender_address = bob; target_port = 22 } ∷ [])
    × (y.crashed ≡ none)
unfolding run start step allocate_port add_socket dispatch register_host new_host add on_close
    bevy_noray.Server.Registrar.handle try_register register_rinfo find_by_pid list
    handle_connect_relay get_relay find_item find_by_socket modify_host create_relay add_relay
    get_port listen_on push_entry get_socket on_message deliver relay
    bevy_noray.Relay.Dynamic.handle with_dynamic constraints buffer_key from_rinfo
    bevy_noray.Base.insert lookup new_entry equals entry_equals address_to_string to_string
visited = (refl, refl)

waiting_served_example :
    let y' = run spacious (map runs_job (160 ∷ [])) (run spacious visit (start some 0 spacious)) in
    HasCrashed spacious y'
    ⊎ ((y'.server.relays.listeners.jobs ≡ [])
        × ((k : Text) → lookup k y'.server.relays.listeners.buffers ≡ none))
waiting_served_example =
    waiting_served spacious some 0 visit (160 ∷ []) (rw visited.0 (omega arith))

idle_gone_example :
    let y = run spacious visit (start some 0 spacious) in
    let y' = step spacious (cleans_up 601) y in
    (y'.crashed ≡ none)
    × (y'.server.relays.table ≡ select (λ e. not (is_idle 500 601 e)) y.server.relays.table)
idle_gone_example = idle_gone some 0 601 spacious visit free visited.1

sends_received_example :
    AllSent
      (λ msg. elem msg (received visit) ≡ true)
      (run spacious visit (start some 0 spacious)).server.relays.trace
sends_received_example = sends_received some 0 spacious visit

departed_example :
    lookup
      (codes "alice")
      (step spacious (disconnects 1) (run spacious visit (start some 0 spacious))).server.hosts
    ≡ unless_from 1
        (lookup (codes "alice") (run spacious visit (start some 0 spacious)).server.hosts)
departed_example = departed spacious some 0 visit 1 (codes "alice") visited.1

ports_lost_example :
    let h = (run spacious visit (start some 0 spacious)).server.relays in
    length (start some 0 spacious).server.relays.pool.free_ports
    ≤ length h.pool.free_ports + length h.table + drops h.trace
ports_lost_example = ports_lost some 0 spacious visit free
