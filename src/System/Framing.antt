-- ===== src/System/Framing.antt =====
-- The whole of noray: how a property of the relays alone is shown of every history.
use bevy_noray.Base.{codes, ℕ, ◌≡◌, refl, Option, List, ◌∷◌, Outcome, ok, throws, Keeps, text_eq}
use bevy_noray.Relay.Address.{NetAddress}
use bevy_noray.Relay.Entry.{RelayEntry}
use bevy_noray.Relay.Handler.{Handler, Message, note, send}
use bevy_noray.Relay.Handler.Frame.{IsFrame, create_relay-Keeps, on_message-Keeps, cleanup-Keeps}
use bevy_noray.Relay.Handler.Transmit.{on_message}
use bevy_noray.Relay.Cleanup.{cleanup_udp_relay_table}
use bevy_noray.Relay.Dynamic.{with_dynamic, with_dynamic, Job, resume}
use bevy_noray.Relay.Dynamic
use bevy_noray.Relay.Constraints.{constraints, destroy}
use bevy_noray.Server.{Server, on_relays}
use bevy_noray.Server.Frame.{
  IsStable, OfRelays, OfRelays-IsStable, OfRelays-IsHosting, register_host-Keeps, dispatch-keeps,
  disconnect-keeps,
}
use bevy_noray.System.{constraints, register_host, Settings, State, attached}
use bevy_noray.System.Induction.{IsInvariant, Settles, taking}

-- No listener of 'destroy' of the program throws.
pub attached-quiet :
    (c : Settings) (now : ℕ) (r : RelayEntry) (d : State)
    → ((attached c).on_destroy now r d).0 ≡ ok tt
unfolding with_dynamic constraints destroy
attached-quiet c now r d = refl

-- Nor does one of 'create'.
pub attached-accepting :
    (c : Settings) (now : ℕ) (r : RelayEntry) (d : State)
    → ((attached c).on_create now r d).0 ≡ ok tt
unfolding with_dynamic constraints
attached-accepting c now r d = refl

-- The frame of the handler gives a property of the relays alone but for the jobs: a property that the
-- methods of the handler and the 'drop' listener keep.
module _ (M : Message → Type 0) (Q : Handler State → Type 0) (C : Server State → Type 0)
    (c : Settings) (weaker : (s : Server State) → Q s.relays → C s) (f : IsFrame (attached c) Q)
    (sending : (msg : Message)
      → M msg
      → (port : ℕ) (to : NetAddress) → Keeps Q (note (send port to msg)))
    (dropping : (now : ℕ) (s t : Option RelayEntry) (sender : NetAddress) (target : ℕ)
        (msg : Message)
      → M msg
      → Keeps Q (Dynamic.handle (attached c) now s t sender target msg))
    (resuming : (now : ℕ) (j : Job) (js : List Job) (s : Server State)
      → s.relays.listeners.jobs ≡ j ∷ js
      → Q s.relays
      → Settles M (OfRelays Q) C (on_relays (resume (attached c) now j) (taking js s))) where
  relays_settle :
      (r : Outcome (Unit {0}) × Server State) → Q r.1.relays → Settles M (OfRelays Q) C r
  relays_settle (ok u, s) q = q
  relays_settle (throws x, s) q = weaker s q

  relays_stable : IsStable (attached c) (OfRelays Q)
  relays_stable = OfRelays-IsStable Q (attached c) (create_relay-Keeps (attached c) Q f)

  pub of_relays : IsInvariant M (OfRelays Q) C c
  of_relays = record {
    weaker = weaker;
    stable = relays_stable;
    registering = λ oid pid socket s q.
        dispatch-keeps (attached c) (OfRelays Q) relays_stable socket (codes "register-host")
          (register_host oid pid socket) s
          (register_host-Keeps (attached c) (OfRelays Q) relays_stable (OfRelays-IsHosting Q) oid
            pid socket s q);
    disconnecting = disconnect-keeps (attached c) (OfRelays Q) relays_stable (OfRelays-IsHosting Q);
    receiving = λ now port rinfo msg s m q.
        relays_settle
          (on_relays (on_message (attached c) (Dynamic.handle (attached c)) now port rinfo msg) s)
          (on_message-Keeps (attached c) Q f (Dynamic.handle (attached c)) msg (sending msg m)
            (λ n a b sender target. dropping n a b sender target msg m) now port rinfo s.relays q);
    resuming = resuming;
    cleaning = λ now s q.
        relays_settle (on_relays (cleanup_udp_relay_table (attached c) now c.timeout) s)
          (cleanup-Keeps (attached c) Q f now c.timeout s.relays q);
  }
