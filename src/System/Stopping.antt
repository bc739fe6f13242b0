-- ===== src/System/Stopping.antt =====
-- noray/src/relay/udp.relay.handler.mjs with noray/src/relay/constraints.mjs: the listeners of
-- 'transmit' throw inside of the socket's 'message' event, and nothing there catches.
use bevy_noray.Base.{ℕ, ◌≡◌, ◌≤◌, ◌+◌, none, some, Failure}
use bevy_noray.Relay.Address.{NetAddress, RemoteInfo, from_rinfo}
use bevy_noray.Relay.Handler.{Message}
use bevy_noray.Relay.Constraints.{constraints}
use bevy_noray.Relay.Constraints.Laws.{transmit_expired}
use bevy_noray.Relay.Dynamic.{with_dynamic}
use bevy_noray.Relay.Dynamic
use bevy_noray.Relay.Handler.Invariant.Routing.{HasRelay, on_message_refused}
use bevy_noray.Server.Invariant.{IsServer}
use bevy_noray.System.{Settings, System, receives, attached, step, react}

-- While a well-formed noray runs, a datagram from the address of a relay that is as old as the
-- lifetime limit, to the port of a relay, stops the whole program.
pub overdue_datagram_stops :
    (c : Settings) (y : System) (now : ℕ) (rinfo : RemoteInfo) (msg : Message)
    (receiver : NetAddress) (own target : ℕ)
    → IsServer y.server
    → y.crashed ≡ none
    → (hs : HasRelay y.server.relays (from_rinfo rinfo) own)
    → HasRelay y.server.relays receiver target
    → hs.0.created + c.limits.max_lifetime_duration ≤ now
    → (x : Failure) × ((step c (receives now target rinfo msg) y).crashed ≡ some x)
unfolding step react with_dynamic constraints
overdue_datagram_stops c y now rinfo msg receiver own target v up hs hr old =
    let (x, e) = transmit_expired c.limits now hs.0 hr.0 msg y.server.relays.listeners.inner old in
    let refused =
      on_message_refused (attached c) (Dynamic.handle (attached c)) now msg rinfo receiver own
        target y.server.relays x v.relays_ok hs hr e in
    (x, rw (up, refused))
