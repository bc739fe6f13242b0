-- ===== src/System/Induction.antt =====
-- The whole of noray: how a property of the server is shown of every history.
use bevy_noray.Base.{
  codes, Text, ℕ, ◌≡◌, refl, inl, inr, Option, none, some, Option-cases, List, [], ◌∷◌, Outcome, ok,
  throws, Failure, text_eq,
}
use bevy_noray.Relay.Address.{RemoteInfo}
use bevy_noray.Relay.Handler.{Message}
use bevy_noray.Relay.Handler.Transmit.{on_message}
use bevy_noray.Relay.Cleanup.{cleanup_udp_relay_table}
use bevy_noray.Relay.Dynamic.{with_dynamic, with_dynamic, Job, resume}
use bevy_noray.Relay.Dynamic
use bevy_noray.Server.{Server, on_relays}
use bevy_noray.Server.Frame.{
  IsStable, handle_connect-Keeps, handle_connect_relay-Keeps, dispatch-keeps, handle-keeps,
}
use bevy_noray.Server.Registrar
use bevy_noray.System.{
  start, handle_connect_relay, handle_connect, disconnect, register_host, dispatch, TcpSocket,
  Settings, State, System, Event, registers_host, connects, connects_relay, disconnects,
  registers_remote, receives, runs_job, cleans_up, attached, settled, run_job, react, step, run,
  uncaught,
}

-- The server without the job that runs next.
abbrev pub taking : List Job → Server State → Server State
taking js s = record s {
  relays = record s.relays { listeners = record s.relays.listeners { jobs = js } };
}

abbrev pub Anything : Message → Type 0
Anything msg = Unit

-- What is said of each datagram that noray receives.
abbrev pub AllReceived : (Message → Type 0) → List Event → Type 0
AllReceived M [] = Unit
AllReceived M (receives now port rinfo msg ∷ es) = M msg × AllReceived M es
AllReceived M (_ ∷ es) = AllReceived M es

AllReceived-split :
    (M : Message → Type 0) (e : Event) (es : List Event)
    → AllReceived M (e ∷ es)
    → AllReceived M (e ∷ []) × AllReceived M es
AllReceived-split M (registers_host socket oid pid) es m = (tt, m)
AllReceived-split M (connects socket text) es m = (tt, m)
AllReceived-split M (connects_relay now socket text) es m = (tt, m)
AllReceived-split M (disconnects socket) es m = (tt, m)
AllReceived-split M (registers_remote pid rinfo) es m = (tt, m)
AllReceived-split M (receives now port rinfo msg) es m = ((m.0, tt), m.1)
AllReceived-split M (runs_job now) es m = (tt, m)
AllReceived-split M (cleans_up now) es m = (tt, m)

pub AllReceived-any :
    (M : Message → Type 0) → ((msg : Message) → M msg) → (es : List Event) → AllReceived M es
AllReceived-any M k [] = tt
AllReceived-any M k (registers_host socket oid pid ∷ es) = AllReceived-any M k es
AllReceived-any M k (connects socket text ∷ es) = AllReceived-any M k es
AllReceived-any M k (connects_relay now socket text ∷ es) = AllReceived-any M k es
AllReceived-any M k (disconnects socket ∷ es) = AllReceived-any M k es
AllReceived-any M k (registers_remote pid rinfo ∷ es) = AllReceived-any M k es
AllReceived-any M k (receives now port rinfo msg ∷ es) = (k msg, AllReceived-any M k es)
AllReceived-any M k (runs_job now ∷ es) = AllReceived-any M k es
AllReceived-any M k (cleans_up now ∷ es) = AllReceived-any M k es

-- `P` holds while noray runs, and `C` once an error has stopped it.
module _ (M : Message → Type 0) (P C : Server State → Type 0) where
  abbrev pub Settles : Outcome (Unit {0}) × Server State → Type 0
  Settles (ok _, s) = P s
  Settles (throws _, s) = C s

  abbrev HoldsAt : Option Failure → Server State → Type 0
  HoldsAt none s = P s × (s.relays.listeners.unhandled ≡ [])
  HoldsAt (some _) s = C s

  -- While noray runs, no promise is rejected either.
  abbrev pub Holds : System → Type 0
  Holds y = HoldsAt y.crashed y.server

  pub record IsInvariant (c : Settings) : Type 0 where
    pub weaker : (s : Server State) → P s → C s
    pub stable : IsStable (attached c) P
    pub registering :
        (oid pid : Text) (socket : TcpSocket) (s : Server State)
        → P s
        → P (dispatch socket (codes "register-host") (register_host oid pid socket) s)
    pub disconnecting : (socket : TcpSocket) (s : Server State) → P s → P (disconnect socket s)
    pub receiving :
        (now port : ℕ) (rinfo : RemoteInfo) (msg : Message) (s : Server State)
        → M msg
        → P s
        → Settles
            (on_relays (on_message (attached c) (Dynamic.handle (attached c)) now port rinfo msg) s)
    pub resuming :
        (now : ℕ) (j : Job) (js : List Job) (s : Server State)
        → s.relays.listeners.jobs ≡ j ∷ js
        → P s
        → Settles (on_relays (resume (attached c) now j) (taking js s))
    pub cleaning :
        (now : ℕ) (s : Server State)
        → P s
        → Settles (on_relays (cleanup_udp_relay_table (attached c) now c.timeout) s)

  module _ (c : Settings) (i : IsInvariant c) where
    settled_ok :
        (us : List Failure) (s : Server State)
        → s.relays.listeners.unhandled ≡ us
        → P s
        → HoldsAt (uncaught us) s
    settled_ok [] s e p = (p, e)
    settled_ok (u ∷ us) s e p = i.weaker s p

    settled-Holds : (r : Outcome (Unit {0}) × Server State) → Settles r → Holds (settled r)
    settled-Holds (ok u, s) p = settled_ok s.relays.listeners.unhandled s refl p
    settled-Holds (throws x, s) q = q

    commanded : (s : Server State) → P s → Holds (settled (ok tt, s))
    commanded s p = settled_ok s.relays.listeners.unhandled s refl p

    run_job-Holds :
        (now : ℕ) (js : List Job) (s : Server State)
        → s.relays.listeners.jobs ≡ js
        → s.relays.listeners.unhandled ≡ []
        → P s
        → Holds (run_job c now js s)
    unfolding run_job
    run_job-Holds now [] s e u p = (p, u)
    run_job-Holds now (j ∷ js) s e u p =
        settled-Holds (on_relays (resume (attached c) now j) (taking js s))
          (i.resuming now j js s e p)

    react-Holds :
        (e : Event) (s : Server State)
        → AllReceived M (e ∷ [])
        → s.relays.listeners.unhandled ≡ []
        → P s
        → Holds (react c e s)
    unfolding react
    react-Holds (registers_host socket oid pid) s m u p =
        commanded (dispatch socket (codes "register-host") (register_host oid pid socket) s)
          (i.registering oid pid socket s p)
    react-Holds (connects socket text) s m u p =
        let k = handle_connect-Keeps (attached c) P i.stable socket text s p in
        commanded (dispatch socket (codes "connect") (handle_connect socket text) s) (
          dispatch-keeps (attached c) P i.stable socket (codes "connect")
            (handle_connect socket text) s k)
    react-Holds (connects_relay now socket text) s m u p =
        let act = handle_connect_relay (attached c) now socket text in
        let k = handle_connect_relay-Keeps (attached c) P i.stable now socket text s p in
        commanded (dispatch socket (codes "connect-relay") act s)
          (dispatch-keeps (attached c) P i.stable socket (codes "connect-relay") act s k)
    react-Holds (disconnects socket) s m u p =
        commanded (disconnect socket s) (i.disconnecting socket s p)
    react-Holds (registers_remote pid rinfo) s m u p =
        commanded (Registrar.handle pid rinfo s)
          (handle-keeps (attached c) P i.stable pid rinfo s p)
    react-Holds (receives now port rinfo msg) s m u p =
        settled-Holds
          (on_relays (on_message (attached c) (Dynamic.handle (attached c)) now port rinfo msg) s)
          (i.receiving now port rinfo msg s m.0 p)
    react-Holds (runs_job now) s m u p = run_job-Holds now s.relays.listeners.jobs s refl u p
    react-Holds (cleans_up now) s m u p =
        settled-Holds (on_relays (cleanup_udp_relay_table (attached c) now c.timeout) s)
          (i.cleaning now s p)

    pub step-Holds :
        (e : Event) (y : System) → AllReceived M (e ∷ []) → Holds y → Holds (step c e y)
    unfolding step
    step-Holds e y m h = elim (Option-cases y.crashed) [
      | inl n ↦ let (p, u) = rw n at h in rw (n, step) (react-Holds e y.server m u p)
      | inr (x, n) ↦ rw (n, step) h
    ]

    -- What each event keeps, holds after every history.
    pub run-Holds : (es : List Event) (y : System) → AllReceived M es → Holds y → Holds (run c es y)
    unfolding run
    run-Holds [] y m h = h
    run-Holds (e ∷ es) y m h =
        let (m0, m1) = AllReceived-split M e es m in
        run-Holds es (step c e y) m1 (step-Holds e y m0 h)

  -- A property that noray running and noray stopped share.
  pub Holds-weaker : ((s : Server State) → P s → C s) → (y : System) → Holds y → C y.server
  Holds-weaker w y h = elim (Option-cases y.crashed) [
    | inl n ↦ w y.server (rw n at h).0
    | inr (x, n) ↦ rw n at h
  ]

  -- At the start nothing has been rejected.
  pub start-Holds :
      (bind : ℕ → Option ℕ) (now : ℕ) (c : Settings)
      → P (start bind now c).server
      → Holds (start bind now c)
  unfolding start
  start-Holds bind now c p = (p, refl)
