-- ===== src/System/Traffic.antt =====
-- The whole of noray: which datagrams go out at the sockets of relays.
use bevy_noray.Base.{
  Option, ℕ, ◌≡◌, true, List, [], ◌∷◌, Outcome, ok, throws, text_eq, elem, arith, lookup,
  text_beq_iff,
}
use bevy_noray.Relay.Handler.{Handler, Message}
use bevy_noray.Relay.Constraints.{Counters, constraints}
use bevy_noray.Relay.Dynamic.{Job, resume}
use bevy_noray.Relay.Dynamic.Carrying.{
  AllSent, Carries, Carries-IsFrame, sending, handle-Carries, resume-Carries,
}
use bevy_noray.Server.{Server, on_relays}
use bevy_noray.Server.Frame.{OfRelays}
use bevy_noray.System.{
  Settings, State, Event, registers_host, connects, connects_relay, disconnects, registers_remote,
  receives, runs_job, cleans_up, attached, start, run,
}
use bevy_noray.System.Induction.{
  Settles, IsInvariant, taking, run-Holds, start-Holds, Holds-weaker, AllReceived,
}
use bevy_noray.System.Framing.{of_relays}

-- The datagrams that arrived.
abbrev pub received : List Event → List Message
received [] = []
received (receives now port rinfo msg ∷ es) = msg ∷ received es
received (_ ∷ es) = received es

all_received :
    (N : Message → Type 0) (es : List Event)
    → ((msg : Message) → elem msg (received es) ≡ true → N msg)
    → AllReceived N es
all_received N [] k = tt
all_received N (registers_host socket oid pid ∷ es) k = all_received N es k
all_received N (connects socket text ∷ es) k = all_received N es k
all_received N (connects_relay now socket text ∷ es) k = all_received N es k
all_received N (disconnects socket ∷ es) k = all_received N es k
all_received N (registers_remote pid rinfo ∷ es) k = all_received N es k
all_received N (receives now port rinfo msg ∷ es) k = (
  k msg (ground (arith, text_beq_iff msg msg)),
  all_received N es (λ other e. k other (ground (arith, e))),
)
all_received N (runs_job now ∷ es) k = all_received N es k
all_received N (cleans_up now ∷ es) k = all_received N es k

module _ (M : Message → Type 0) (c : Settings) where
  Carrying : Server State → Type 0
  Carrying = OfRelays (Carries M {L = Counters})

  resume-Settles :
      (now : ℕ) (j : Job) (js : List Job) (s : Server State)
      → s.relays.listeners.jobs ≡ j ∷ js
      → Carrying s
      → Settles M Carrying Carrying (on_relays (resume (attached c) now j) (taking js s))
  unfolding Carrying
  resume-Settles now j js s e v = either (resume (attached c) now j (taking js s).relays) (
      resume-Carries M (constraints c.limits) now j (taking js s).relays
        (record { sent = v.sent; buffered = v.buffered }))
    where
      either :
          (r : Outcome (Unit {0}) × Handler State)
          → Carries M r.1
          → Settles M Carrying Carrying (r.0, record s { relays = r.1 })
      either (ok u, h) v = v
      either (throws x, h) v = v

  Carrying-IsInvariant : IsInvariant M Carrying Carrying c
  unfolding Carrying
  Carrying-IsInvariant =
      of_relays M (Carries M) Carrying c (λ s v. v) (Carries-IsFrame M (constraints c.limits))
        (λ msg m. sending M (constraints c.limits) msg m)
        (λ now s t sender target msg m.
          handle-Carries M (constraints c.limits) now s t sender target msg m)
        resume-Settles

  start-Carrying : (bind : ℕ → Option ℕ) (now : ℕ) → Carrying (start bind now c).server
  unfolding start lookup Carrying
  start-Carrying bind now = record { sent = tt; buffered = λ k msgs e. absurd (ground arith) }

-- From its start and under any events in any order, noray relays no datagram that it did not receive:
-- each one that goes out at a relay's socket, at once or from a buffer, has the bytes of one that arrived
-- at such a socket. The registrar's own answers are not among them.
pub sends_received :
    (bind : ℕ → Option ℕ) (now : ℕ) (c : Settings) (es : List Event)
    → AllSent
        (λ msg. elem msg (received es) ≡ true)
        (run c es (start bind now c)).server.relays.trace
unfolding Carrying
sends_received bind now c es =
    let M : Message → Type 0 = λ msg. elem msg (received es) ≡ true in
    (Holds-weaker M (Carrying M c) (Carrying M c) (λ s v. v) (run c es (start bind now c))
      (run-Holds M (Carrying M c) (Carrying M c) c (Carrying-IsInvariant M c) es (start bind now c)
        (all_received M es (λ msg e. e))
        (start-Holds M (Carrying M c) (Carrying M c) bind now c
          (start-Carrying M c bind now)))).sent
