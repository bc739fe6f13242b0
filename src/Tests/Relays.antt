-- ===== src/Tests/Relays.antt =====
-- The theorems on noray/src/relay at concrete states, and runs of its operations.
use bevy_noray.Base.{
  bandwidth_limit, Failure, ◌<◌, ℕ, nat_eq, ◌≡◌, ◌≢◌, ◌≤◌, ◌⊎◌, ◌+◌, ◌*◌, max, refl, inl, inr, Bool,
  true, false, not, Option, none, some, List, [], ◌∷◌, ◌++◌, codes, lookup, has, elem, arith,
  text_eq, Text, select, length, Outcome, ok, throws, find, to_string,
}
use bevy_noray.Relay.Address.{equals, address_to_string}
use bevy_noray.Relay.Entry.{new_entry, entry_equals, id}
use bevy_noray.Relay.Entry.Identity.{id-injective}
use bevy_noray.Relay.Pool.{get_socket, UdpSocketPool, get_port, return_port}
use bevy_noray.Relay.Pool
use bevy_noray.Relay.Pool.Laws.{Grants, get_port-Grants, clear_releases}
use bevy_noray.Relay.Limiter.{BandwidthLimiter, validate, second}
use bevy_noray.Relay.Limiter.Bounds.{accepted, slices, accepted_over_time}
use bevy_noray.Relay.Handler.{Listeners, Listeners, send, size_observe, Handler, free_relay}
use bevy_noray.Relay.Handler.Transmit.{relay}
use bevy_noray.Relay.Handler.Invariant.{IsHandler}
use bevy_noray.Relay.Handler.Invariant.Freeing.{Agrees}
use bevy_noray.Relay.Handler.Releasing.{Releases, free_relay-Releases}
use bevy_noray.Relay.Handler.Invariant.Relaying.{Relays, relay-Relays}
use bevy_noray.Relay.Handler.Invariant.Touching.{touched}
use bevy_noray.Relay.Handler.Invariant.Routing.{relay_forwards}
use bevy_noray.Relay.Constraints.{
  Counters, transmit, constraints, transmit_individual, transmit_global, transmit_lifetime,
  transmit_traffic,
}
use bevy_noray.Relay.Constraints.Laws.{Attempt, transmitted, transmitted_bound, counted}
use bevy_noray.Relay.Constraints.Isolation.{transmit_isolated}
use bevy_noray.Relay.Cleanup.{is_idle}
use bevy_noray.Relay.Dynamic.{with_dynamic, Job, buffer_key, resume, handle}
use bevy_noray.Relay.Dynamic.Replay.{AllAllowed, resume_forwards, sent_all}
use bevy_noray.Relay.Dynamic.Leak.{handle_leaks, IsLost}
use bevy_noray.System.{State, attached}
use bevy_noray.Tests.{
  listeners, alice, bob, carol, alice_relay, bob_relay, pool, limits, settings, counters, handler,
  pool-IsPool, handler-IsHandler,
}

get_port-Grants_example : Grants pool (get_port pool)
get_port-Grants_example = get_port-Grants pool pool-IsPool

clear_releases_example :
    ((Pool.clear pool).sockets ≡ [])
    × ((Pool.clear pool).free_ports ≡ [])
    × ((q : ℕ) → has q pool.sockets ≡ true → elem q (Pool.clear pool).closed ≡ true)
clear_releases_example = clear_releases pool pool-IsPool

id-injective_example : (alice_relay.address ≡ alice) × (alice_relay.port ≡ 20)
id-injective_example =
    id-injective alice_relay (record alice_relay { last_sent = 7 }) (unfold id in refl)

free_relay-Releases_example :
    Releases
      (attached settings)
      950
      bob_relay
      handler
      (free_relay (attached settings) 950 bob_relay handler)
free_relay-Releases_example =
    free_relay-Releases (attached settings) 950 bob_relay handler bob-Agrees handler-IsHandler
  where
    bob-Agrees : Agrees handler.table bob_relay
    bob-Agrees e f = unfold entry_equals equals in ground arith

-- Alice's relay has been silent for too long; Bob's has not.
cleanup_keeps_bob : select (λ e. not (is_idle 500 950 e)) handler.table ≡ bob_relay ∷ []
cleanup_keeps_bob = refl

relay-Relays_example :
    Relays
      (attached settings)
      (handle (attached settings))
      950
      (1 ∷ 2 ∷ [])
      alice
      21
      handler
      (relay (attached settings) (handle (attached settings)) 950 (1 ∷ 2 ∷ []) alice 21 handler)
relay-Relays_example =
    relay-Relays (attached settings) (handle (attached settings)) 950 (1 ∷ 2 ∷ []) alice 21 handler

handle_leaks_example :
    let h' = (handle (attached settings) 950 none (some alice_relay) carol 20 (7 ∷ []) handler).1 in
    (h'.pool.free_ports ≡ [])
    × (h'.table
        ≡ handler.table
          ++ record (new_entry 950 carol 23) { last_received = 950; created = 950 } ∷ [])
    × IsLost 22 h'
    × (lookup (buffer_key carol 20) h'.listeners.buffers ≡ some ((7 ∷ []) ∷ []))
    × (h'.listeners.jobs
        ≡ handler.listeners.jobs
          ++ record { key = buffer_key carol 20; sender_address = carol; target_port = 20 } ∷ [])
handle_leaks_example =
    handle_leaks (constraints limits) 950 alice_relay carol 20 (7 ∷ []) handler handler-IsHandler
      (unfold lookup in refl) (unfold entry_equals equals new_entry in refl)
      (unfold constraints in λ r l. refl) 22 23 [] refl

-- 100 kB/s in slices of a tenth of a second.
limiter : BandwidthLimiter
limiter = record { interval = 100_000; max_traffic = 10_000; traffic = 600; last_interval = 0 }

accepted_over_time_example :
    let calls : List (ℕ × ℕ) = (50, 300) ∷ (150_000, 900) ∷ [] in
    (((accepted calls limiter).0 + 600) * second ≤ (slices calls limiter + 1) * (10_000 * 100_000))
    × (slices calls limiter * 100_000 + 0 ≤ (accepted calls limiter).1.last_interval)
unfolding limiter
accepted_over_time_example =
    accepted_over_time ((50, 300) ∷ (150_000, 900) ∷ []) 900 (10_000 * 100_000) limiter
      (omega arith) (omega arith) (omega arith) (omega arith)

attempts : List Attempt
attempts =
    record { now = 200; source = alice_relay; target = bob_relay; msg = 1 ∷ 2 ∷ [] }
    ∷ record { now = 300; source = bob_relay; target = alice_relay; msg = 3 ∷ [] }
    ∷ []

transmitted_bound_example :
    transmitted limits (id alice_relay) attempts counters + counted (id alice_relay) counters
    ≤ max (counted (id alice_relay) counters) 5_000
transmitted_bound_example = transmitted_bound limits (id alice_relay) attempts counters

transmit_isolated_example :
    let s' = (transmit limits 200 alice_relay bob_relay (1 ∷ []) counters).1 in
    (lookup (id bob_relay) s'.limiters ≡ lookup (id bob_relay) counters.limiters)
    × (lookup (id bob_relay) s'.relay_traffic ≡ lookup (id bob_relay) counters.relay_traffic)
transmit_isolated_example =
    transmit_isolated limits 200 alice_relay bob_relay bob_relay (1 ∷ []) counters
      (λ same. omega (arith, same.1))

-- The handler of `relay_forwards` without dynamic relaying.
bare : Handler Counters
bare = record {
  pool = pool;
  table = alice_relay ∷ bob_relay ∷ [];
  listeners = counters;
  trace = handler.trace;
}

bare-IsHandler : IsHandler bare
unfolding bare
bare-IsHandler = record {
  pool_ok = pool-IsPool;
  table_ok = record {
    ports_once = handler-IsHandler.table_ok.ports_once;
    addresses_once = handler-IsHandler.table_ok.addresses_once;
    wired = handler-IsHandler.table_ok.wired;
    busy = handler-IsHandler.table_ok.busy;
  };
  gauge_ok = refl;
}

-- The constraints let a short datagram from Alice to Bob through.
relay_forwards_example :
    let (r, h') =
      relay (constraints limits) (λ now s t a p m h. (ok tt, h)) 950 (1 ∷ 2 ∷ []) alice 21 bare in
    (r ≡ ok true)
    × (h'.trace ≡ size_observe 2 ∷ send 20 bob (1 ∷ 2 ∷ []) ∷ bare.trace)
    × (h'.table ≡ touched 950 alice 21 bare.table)
unfolding bare constraints bevy_noray.Relay.Limiter.new_limiter bevy_noray.Base.insert
    address_to_string to_string
relay_forwards_example =
    relay_forwards (constraints limits) (λ now s t a p m h. (ok tt, h)) 950 (1 ∷ 2 ∷ []) alice bob
      20 21 bare bare-IsHandler (alice_relay, (unfold equals in refl), refl, refl)
      (bob_relay, (unfold equals in refl), refl, refl)
      (unfold transmit transmit_individual transmit_global transmit_lifetime transmit_traffic
          validate id lookup in
        refl)

-- Two datagrams of Alice's wait for her relay.
abbrev waiting : Job
waiting = record { key = buffer_key alice 21; sender_address = alice; target_port = 21 }

abbrev buffered : Handler State
buffered = record handler {
  listeners = record listeners {
    buffers = (buffer_key alice 21, (1 ∷ []) ∷ (2 ∷ 3 ∷ []) ∷ []) ∷ [];
  };
}

buffered-IsHandler : IsHandler buffered
buffered-IsHandler = record {
  pool_ok = pool-IsPool;
  table_ok = record {
    ports_once = handler-IsHandler.table_ok.ports_once;
    addresses_once = handler-IsHandler.table_ok.addresses_once;
    wired = handler-IsHandler.table_ok.wired;
    busy = handler-IsHandler.table_ok.busy;
  };
  gauge_ok = refl;
}

-- The constraints let both through.
passing : AllAllowed (attached settings) 950 ((1 ∷ []) ∷ (2 ∷ 3 ∷ []) ∷ []) alice bob 21 buffered
unfolding with_dynamic constraints relay transmit transmit_individual transmit_global
    transmit_lifetime transmit_traffic validate id lookup get_socket address_to_string to_string
    bevy_noray.Relay.Limiter.new_limiter bevy_noray.Base.insert
    bevy_noray.Relay.Handler.update_first
passing = (refl, (refl, tt))

resume_forwards_example :
    let (r, h') = resume (attached settings) 950 waiting buffered in
    (r ≡ ok tt)
    × (h'.trace
        ≡ sent_all (attached settings) 950 ((1 ∷ []) ∷ (2 ∷ 3 ∷ []) ∷ []) 20 bob handler.trace)
    × (lookup waiting.key h'.listeners.buffers ≡ none)
resume_forwards_example =
    resume_forwards (attached settings) 950 waiting bob 20 ((1 ∷ []) ∷ (2 ∷ 3 ∷ []) ∷ []) buffered
      buffered-IsHandler (alice_relay, (unfold equals in refl), refl, refl)
      (bob_relay, (unfold equals in refl), refl, refl)
      (unfold lookup buffer_key address_to_string to_string in refl) passing
