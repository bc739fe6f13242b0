-- ===== src/Tests/Routes.antt =====
-- Calls of noray/src/relay/udp.relay.handler.mjs at a concrete relay table, and at a start of noray.
use bevy_noray.Base.{ℕ, ◌≡◌, refl, List, [], ◌∷◌, ok, some, none, codes}
use bevy_noray.Relay.Entry.{new_entry}
use bevy_noray.Relay.Handler.Refinement.{
  Call, creates, frees, on_port, was_freed, routes, call_all, specified_all, calls_route,
}
use bevy_noray.Relay.Handler.{create_relay, add_relay, free_relay, listen_on, push_entry}
use bevy_noray.Relay.Pool.{get_port, get_socket, return_port}
use bevy_noray.Relay.Dynamic.{with_dynamic}
use bevy_noray.Relay.Constraints.{constraints, destroy}
use bevy_noray.Relay.Entry.{entry_equals}
use bevy_noray.Relay.Address.{equals}
use bevy_noray.Base.{lookup, true, false}
use bevy_noray.System.Framing.{attached-quiet, attached-accepting}
use bevy_noray.System.{attached}
use bevy_noray.Tests.{alice, carol, settings, handler, handler-IsHandler}

-- Carol gets a relay, Alice's goes, Carol asks again, and Alice's is gone already.
calls : List Call
calls =
    creates 950 (new_entry 940 carol 0)
    ∷ frees 960 alice
    ∷ creates 970 (new_entry 940 carol 0)
    ∷ frees 980 alice
    ∷ []

-- What they answer.
answers :
    (call_all (attached settings) calls handler).0
    ≡ on_port (ok 22) ∷ was_freed (ok true) ∷ on_port (ok 22) ∷ was_freed (ok false) ∷ []
unfolding calls create_relay add_relay free_relay listen_on push_entry get_port get_socket
    return_port with_dynamic constraints destroy entry_equals equals new_entry
    bevy_noray.Base.insert lookup
answers = refl

calls_route_example :
    ((call_all (attached settings) calls handler).0 ≡ (specified_all calls (routes handler)).0)
    × (routes (call_all (attached settings) calls handler).1
        ≡ (specified_all calls (routes handler)).1)
calls_route_example =
    calls_route (attached settings) (attached-accepting settings) (attached-quiet settings) calls
      handler handler-IsHandler
