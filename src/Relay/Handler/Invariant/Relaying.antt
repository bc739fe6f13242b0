-- ===== src/Relay/Handler/Invariant/Relaying.antt =====
-- noray/src/relay/udp.relay.handler.mjs, `relay` and the sockets' 'message' listeners.
use bevy_noray.Base.{
  has, >>=_keeps, sym, ◌∙◌, ℕ, nat_eq, ◌≡◌, refl, inl, inr, Option-cases, Bool, true, false, none,
  some, List, [], ◌∷◌, ap, arith, length, find, lookup, Outcome, Outcome-cases, ok, throws, Failure,
  Option, ◌>>=◌, pure, ◌⊎◌,
}
use bevy_noray.Relay.Address.{NetAddress, address_eq, RemoteInfo, from_rinfo}
use bevy_noray.Relay.Entry.{RelayEntry}
use bevy_noray.Relay.Pool.{get_socket}
use bevy_noray.Relay.Handler.{
  Handler, Listeners, DropListener, Message, note, send, size_observe, drop_inc,
}
use bevy_noray.Relay.Handler.Transmit.{is_sender, is_target, relay, deliver, on_message}
use bevy_noray.Relay.Handler.Invariant.{IsHandler}
use bevy_noray.Relay.Handler.Invariant.Touching.{touched, touched-IsTable, length-touched}

module _ {L : Type 0} (ls : Listeners L) (on_drop : DropListener L) where
  -- How `relay` ends.
  pub data Relays (now : ℕ) (msg : Message) (sender : NetAddress) (target : ℕ) (h : Handler L)
      : Outcome Bool × Handler L → Type 0 where
    dropped :
        (s t : Option RelayEntry) (h' : Handler L)
        → find (is_sender sender) h.table ≡ s
        → find (is_target target) h.table ≡ t
        → (s ≡ none) ⊎ (t ≡ none)
        → (on_drop now s t sender target msg h) ≡ (ok tt, h')
        → Relays now msg sender target h (ok false, record h' { trace = drop_inc ∷ h'.trace })
    drop_failed :
        (s t : Option RelayEntry) (h' : Handler L) (x : Failure)
        → find (is_sender sender) h.table ≡ s
        → find (is_target target) h.table ≡ t
        → (s ≡ none) ⊎ (t ≡ none)
        → (on_drop now s t sender target msg h) ≡ (throws x, h')
        → Relays now msg sender target h (throws x, h')
    stopped :
        (s t : RelayEntry)
        → find (is_sender sender) h.table ≡ some s
        → find (is_target target) h.table ≡ some t
        → lookup s.port h.pool.sockets ≡ none
        → Relays now msg sender target h (ok false, h)
    blocked :
        (s t : RelayEntry) (l : L) (x : Failure)
        → find (is_sender sender) h.table ≡ some s
        → find (is_target target) h.table ≡ some t
        → has s.port h.pool.sockets ≡ true
        → ls.on_transmit now s t msg h.listeners ≡ (throws x, l)
        → Relays now msg sender target h (throws x, record h { listeners = l })
    sent :
        (s t : RelayEntry) (l : L)
        → find (is_sender sender) h.table ≡ some s
        → find (is_target target) h.table ≡ some t
        → has s.port h.pool.sockets ≡ true
        → ls.on_transmit now s t msg h.listeners ≡ (ok tt, l)
        → Relays now msg sender target h (
          ok true,
          record h {
            table = touched now sender target h.table;
            listeners = l;
            trace = size_observe (length msg) ∷ send s.port t.address msg ∷ h.trace;
          },
        )

  missed-Relays :
      (now : ℕ) (msg : Message) (sender : NetAddress) (target : ℕ) (h : Handler L)
      (s t : Option RelayEntry)
      → find (is_sender sender) h.table ≡ s
      → find (is_target target) h.table ≡ t
      → (s ≡ none) ⊎ (t ≡ none)
      → relay ls on_drop now msg sender target h
        ≡ (on_drop now s t sender target msg >>= λ _. note drop_inc >>= λ _. pure false) h
      → Relays now msg sender target h (relay ls on_drop now msg sender target h)
  missed-Relays now msg sender target h s t es et miss e =
      elim (Outcome-cases (on_drop now s t sender target msg h).0) [
        | inl (u, c) ↦
            let eq : relay ls on_drop now msg sender target h ≡ (
              ok false,
              record (on_drop now s t sender target msg h).1 {
                trace = drop_inc ∷ (on_drop now s t sender target msg h).1.trace;
              },
            ) =
              ground (arith, e) in
            rw eq (dropped s t _ es et miss (ground arith))
        | inr (x, c) ↦
            let eq : relay ls on_drop now msg sender target h
                ≡ (throws x, (on_drop now s t sender target msg h).1) =
              ground (arith, e) in
            rw eq (drop_failed s t _ x es et miss (ground arith))
      ]

  known-Relays :
      (now : ℕ) (msg : Message) (sender : NetAddress) (target : ℕ) (h : Handler L)
      (s t : RelayEntry)
      → find (is_sender sender) h.table ≡ some s
      → find (is_target target) h.table ≡ some t
      → Relays now msg sender target h (relay ls on_drop now msg sender target h)
  unfolding relay get_socket
  known-Relays now msg sender target h s t found_s found_t =
      elim (Option-cases (lookup s.port h.pool.sockets)) [
        | inl no_socket ↦
            let eq : relay ls on_drop now msg sender target h ≡ (ok false, h) = ground arith in
            rw eq (stopped s t found_s found_t no_socket)
        | inr (socket, found) ↦
            let l : L = (ls.on_transmit now s t msg h.listeners).1 in
            elim (Outcome-cases (ls.on_transmit now s t msg h.listeners).0) [
              | inl (u, c) ↦
                  let eq : relay ls on_drop now msg sender target h ≡ (
                    ok true,
                    record h {
                      table = touched now sender target h.table;
                      listeners = l;
                      trace = size_observe (length msg) ∷ send s.port t.address msg ∷ h.trace;
                    },
                  ) =
                    ground arith in
                  rw eq (sent s t l found_s found_t (rw found refl) (ground arith))
              | inr (x, c) ↦
                  let eq : relay ls on_drop now msg sender target h
                      ≡ (throws x, record h { listeners = l }) =
                    ground arith in
                  rw eq (blocked s t l x found_s found_t (rw found refl) (ground arith))
            ]
      ]

  -- `relay` returns false after the 'drop' listeners for an unknown sender or target, and throws what
  -- they throw. For known ones it returns false and changes nothing where the sender's port has no
  -- socket. Where it has one, `relay` throws what a 'transmit' listener throws, or sends the datagram
  -- from the sender's port to the target's address and stamps both entries.
  pub relay-Relays :
      (now : ℕ) (msg : Message) (sender : NetAddress) (target : ℕ) (h : Handler L)
      → Relays now msg sender target h (relay ls on_drop now msg sender target h)
  unfolding relay
  relay-Relays now msg sender target h = elim (Option-cases (find (is_sender sender) h.table)) [
    | inl no_sender ↦
        missed-Relays now msg sender target h none (find (is_target target) h.table) no_sender refl
          (inl refl) (ground arith)
    | inr (s, found_s) ↦ elim (Option-cases (find (is_target target) h.table)) [
      | inl no_target ↦
          missed-Relays now msg sender target h (some s) none found_s no_target (inr refl)
            (ground arith)
      | inr (t, found_t) ↦ known-Relays now msg sender target h s t found_s found_t
    ]
  ]

  -- A 'drop' listener that keeps the handler well-formed, whether it returns or throws.
  abbrev pub DropKeeps : Type 0
  DropKeeps =
      (now : ℕ) (s t : Option RelayEntry) (sender : NetAddress) (target : ℕ) (msg : Message)
      (h : Handler L)
      → IsHandler h
      → IsHandler (on_drop now s t sender target msg h).1

  Relays-IsHandler :
      (now : ℕ) (msg : Message) (sender : NetAddress) (target : ℕ) (h : Handler L)
      {r : Outcome Bool × Handler L}
      → Relays now msg sender target h r
      → DropKeeps
      → IsHandler h
      → IsHandler r.1
  Relays-IsHandler now msg sender target h (dropped s t h' _ _ _ e) k v =
      let w : IsHandler h' = rw (ap (λ r. r.1) e) at (k now s t sender target msg h v) in
      record { pool_ok = w.pool_ok; table_ok = w.table_ok; gauge_ok = w.gauge_ok }
  Relays-IsHandler now msg sender target h (drop_failed s t h' x _ _ _ e) k v =
      rw (ap (λ r. r.1) e) at (k now s t sender target msg h v)
  Relays-IsHandler now msg sender target h (stopped s t _ _ _) k v = v
  Relays-IsHandler now msg sender target h (blocked s t l x _ _ _ _) k v = record {
    pool_ok = v.pool_ok;
    table_ok = v.table_ok;
    gauge_ok = v.gauge_ok;
  }
  Relays-IsHandler now msg sender target h (sent s t l fs ft b e) k v = record {
    pool_ok = v.pool_ok;
    table_ok = touched-IsTable now sender target h.pool h.table v.table_ok;
    gauge_ok = v.gauge_ok ∙ sym (length-touched now sender target h.table);
  }

  -- `relay` keeps the handler well-formed on every branch, with any listeners of 'transmit', if the
  -- 'drop' listener does.
  pub relay-IsHandler :
      (now : ℕ) (msg : Message) (sender : NetAddress) (target : ℕ) (h : Handler L)
      → DropKeeps
      → IsHandler h
      → IsHandler (relay ls on_drop now msg sender target h).1
  relay-IsHandler now msg sender target h k v =
      Relays-IsHandler now msg sender target h (relay-Relays now msg sender target h) k v

  deliver-IsHandler :
      (targets : List ℕ) (now : ℕ) (rinfo : RemoteInfo) (msg : Message) (h : Handler L)
      → DropKeeps
      → IsHandler h
      → IsHandler (deliver ls on_drop targets now rinfo msg h).1
  unfolding deliver
  deliver-IsHandler [] now rinfo msg h k v = v
  deliver-IsHandler (q ∷ qs) now rinfo msg h k v =
      >>=_keeps (relay ls on_drop now msg (from_rinfo rinfo) q)
        (λ _. deliver ls on_drop qs now rinfo msg) h IsHandler
        (relay-IsHandler now msg (from_rinfo rinfo) q h k v)
        (λ b _.
          deliver-IsHandler qs now rinfo msg _ k
            (relay-IsHandler now msg (from_rinfo rinfo) q h k v))

  -- A datagram that arrives at a port keeps the handler well-formed.
  pub on_message-IsHandler :
      (now port : ℕ) (rinfo : RemoteInfo) (msg : Message) (h : Handler L)
      → DropKeeps
      → IsHandler h
      → IsHandler (on_message ls on_drop now port rinfo msg h).1
  unfolding on_message get_socket
  on_message-IsHandler now port rinfo msg h k v = elim (Option-cases (lookup port h.pool.sockets)) [
    | inl e ↦ rw (e, on_message) v
    | inr (s, e) ↦ rw (e, on_message) (deliver-IsHandler s.listeners now rinfo msg h k v)
  ]
