-- ===== src/System/Expiry.antt =====
-- The whole of noray: the periodic job of noray/src/relay/relay.mjs.
use bevy_noray.Base.{ℕ, ◌≡◌, ap, not, none, Option, List, [], select, Outcome, ok, throws, arith}
use bevy_noray.Relay.Handler.{Handler}
use bevy_noray.Relay.Handler.Frame.{cleanup-Keeps}
use bevy_noray.Relay.Entry.{RelayEntry}
use bevy_noray.Relay.Pool.{empty_pool}
use bevy_noray.Relay.Constraints.{constraints}
use bevy_noray.Relay.Cleanup.{is_idle, cleanup_udp_relay_table}
use bevy_noray.Relay.Cleanup.Expiry.{cleanup_exact}
use bevy_noray.Relay.Dynamic.Waiting.{Waiting, Waiting-IsFrame}
use bevy_noray.Server.{Server}
use bevy_noray.Server.Invariant.{IsServer}
use bevy_noray.System.{
  uncaught, Settings, State, System, Event, attached, start, run, step, react, cleans_up, settled,
}
use bevy_noray.System.Induction.{Anything, run-Holds, start-Holds, AllReceived-any}
use bevy_noray.System.Framing.{attached-quiet}
use bevy_noray.System.Safety.{BindsFresh, start-IsServer, IsServer-IsInvariant}

settled_quietly :
    (r : Outcome (Unit {0}) × Handler State) (s : Server State) (t : List RelayEntry)
    → r.0 ≡ ok tt
    → r.1.table ≡ t
    → r.1.listeners.unhandled ≡ []
    → let y = settled (r.0, record s { relays = r.1 }) in
      (y.crashed ≡ none) × (y.server.relays.table ≡ t)
settled_quietly (ok u, h) s t o e k = (ap uncaught k, e)
settled_quietly (throws x, h) s t o e k = absurd (ground arith)

-- From its start, if the operating system binds no two of the configured ports to one port, and under
-- any events after which noray still runs, a cleanup leaves exactly the relays that have sent or
-- received within the timeout, in their order, and does not stop noray.
pub idle_gone :
    (bind : ℕ → Option ℕ) (began now : ℕ) (c : Settings) (es : List Event)
    → BindsFresh bind c.relay_ports empty_pool
    → let y = run c es (start bind began c) in
      y.crashed ≡ none
      → let y' = step c (cleans_up now) y in
        (y'.crashed ≡ none)
        × (y'.server.relays.table
            ≡ select (λ e. not (is_idle c.timeout now e)) y.server.relays.table)
unfolding step react
idle_gone bind began now c es f up =
    let y : System = run c es (start bind began c) in
    let h =
      run-Holds Anything IsServer IsServer c (IsServer-IsInvariant c) es (start bind began c)
        (AllReceived-any Anything (λ msg. tt) es)
        (start-Holds Anything IsServer IsServer bind began c (start-IsServer bind began c f)) in
    let (v, u) = rw up at h in
    let (r, t) =
      cleanup_exact (attached c) now c.timeout (attached-quiet c now) y.server.relays v.relays_ok in
    let kept =
      cleanup-Keeps (attached c) (Waiting (λ w. w.2 ≡ []))
        (Waiting-IsFrame (constraints c.limits) (λ w. w.2 ≡ [])) now c.timeout y.server.relays u in
    rw up (
      settled_quietly (cleanup_udp_relay_table (attached c) now c.timeout y.server.relays) y.server
        _ r t kept)
