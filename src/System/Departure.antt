-- ===== src/System/Departure.antt =====
-- The whole of noray: a host is there as long as its TCP connection.
use bevy_noray.Base.{ℕ, ◌≡◌, none, Option, List, Outcome, ok, throws, Text, text_eq, codes, lookup}
use bevy_noray.Hosts.{TcpSocket}
use bevy_noray.Relay.Handler.Transmit.{on_message}
use bevy_noray.Relay.Dynamic.{resume}
use bevy_noray.Relay.Dynamic
use bevy_noray.Relay.Cleanup.{cleanup_udp_relay_table}
use bevy_noray.Server.{Server, on_relays}
use bevy_noray.Server.Hosting.{register_host}
use bevy_noray.Server.Hosting.Ownership.{
  Owned, Owned-IsStable, empty-IsOwned, register_host-Owned, disconnect-Owned, disconnect-lookup,
  unless_from,
}
use bevy_noray.Server.Frame.{dispatch-keeps}
use bevy_noray.System.{
  Settings, State, System, Event, disconnects, attached, start, run, step, react,
}
use bevy_noray.System.Induction.{
  Anything, Settles, IsInvariant, taking, run-Holds, start-Holds, Holds-weaker, AllReceived-any,
}

Kept : Server State → Type 0
Kept = Owned {L = State}

module _ (c : Settings) where
  either : (r : Outcome (Unit {0}) × Server State) → Kept r.1 → Settles Anything Kept Kept r
  either (ok u, s) v = v
  either (throws x, s) v = v

  Kept-IsInvariant : IsInvariant Anything Kept Kept c
  unfolding Kept
  Kept-IsInvariant = record {
    weaker = λ s v. v;
    stable = Owned-IsStable (attached c);
    registering = λ oid pid socket s v.
        dispatch-keeps (attached c) Owned (Owned-IsStable (attached c)) socket
          (codes "register-host") (register_host oid pid socket) s
          (register_host-Owned oid pid socket s v);
    disconnecting = disconnect-Owned;
    receiving = λ now port rinfo msg s m v.
        either
          (on_relays (on_message (attached c) (Dynamic.handle (attached c)) now port rinfo msg) s)
          v;
    resuming = λ now j js s e v. either (on_relays (resume (attached c) now j) (taking js s)) v;
    cleaning =
        λ now s v. either (on_relays (cleanup_udp_relay_table (attached c) now c.timeout) s) v;
  }

  start-Kept : (bind : ℕ → Option ℕ) (now : ℕ) → Kept (start bind now c).server
  unfolding start Kept
  start-Kept bind now = empty-IsOwned

  -- From its start and under any events after which noray still runs, the closing of a TCP connection
  -- removes exactly the hosts that registered over it.
  pub departed :
      (bind : ℕ → Option ℕ) (began : ℕ) (es : List Event) (socket : TcpSocket) (k : Text)
      → let y = run c es (start bind began c) in
        y.crashed ≡ none
        → lookup k (step c (disconnects socket) y).server.hosts
          ≡ unless_from socket (lookup k y.server.hosts)
  unfolding step react Kept
  departed bind began es socket k up =
      let y : System = run c es (start bind began c) in
      let v =
        Holds-weaker Anything Kept Kept (λ s w. w) y
          (run-Holds Anything Kept Kept c Kept-IsInvariant es (start bind began c)
            (AllReceived-any Anything (λ msg. tt) es)
            (start-Holds Anything Kept Kept bind began c (start-Kept bind began))) in
      rw up (disconnect-lookup socket y.server k v)
