-- ===== src/Relay/Dynamic/Loss.antt =====
-- noray/src/relay/dynamic.relaying.mjs: how many ports a dropped datagram can cost.
use bevy_noray.Base.{
  ℕ, ◌≤◌, suc, ◌≡◌, refl, ap, inl, inr, none, some, Option, Option-cases, List, [], ◌∷◌, text_eq,
  lookup, arith, length, Outcome, ok, throws, >>=_keeps, Keeps, Keeps-bind, Keeps-pure, nat_eq,
}
use bevy_noray.Relay.Address.{NetAddress, RemoteInfo, from_rinfo}
use bevy_noray.Relay.Entry.{RelayEntry, new_entry}
use bevy_noray.Relay.Pool.{get_port, get_socket}
use bevy_noray.Relay.Pool.Laws.{Grants, refused, granted, get_port-Grants}
use bevy_noray.Relay.Handler.{Handler, Listeners, Message, on_pool, create_relay}
use bevy_noray.Relay.Handler.Transmit.{relay, deliver, on_message}
use bevy_noray.Relay.Handler.Accounting.{worth, IsWorth, create_relay-worth, relay-worth}
use bevy_noray.Relay.Handler.Invariant.{IsHandler}
use bevy_noray.Relay.Handler.Invariant.Relaying.{relay-IsHandler}
use bevy_noray.Relay.Dynamic.{
  Dynamic, Job, buffer_key, start_relay, settle, start, set_buffer, buffer_or_start, handle,
  relay_all, forget_buffer, resume,
}
use bevy_noray.Relay.Dynamic.Keeping.{get_port-IsHandler, handle-DropKeeps, relisten}

module _ {L : Type 0} (ls : Listeners (Dynamic L))
    (quiet : (now : ℕ) (r : RelayEntry) (d : Dynamic L) → (ls.on_create now r d).0 ≡ ok tt) where
  get_port-worth :
      (h : Handler (Dynamic L)) (o : Outcome ℕ × _)
      → Grants h.pool o
      → worth h ≤ suc (worth (record h { pool = o.1 }))
  get_port-worth h o (refused e) = omega arith
  get_port-worth h o (granted port rest f _ _ _) = omega (arith, ap length f)

  start_relay-worth :
      (now : ℕ) (sender : NetAddress) (h : Handler (Dynamic L))
      → IsHandler h
      → worth h ≤ suc (worth (start_relay ls now sender h).1)
  unfolding start_relay
  start_relay-worth now sender h v =
      let w = get_port-IsHandler h v in
      let one = get_port-worth h (get_port h.pool) (get_port-Grants h.pool v.pool_ok) in
      >>=_keeps (on_pool get_port) (λ port. create_relay ls now (new_entry now sender port)) h
        (λ h'. worth h ≤ suc (worth h')) one
        (λ port _. omega (
          arith,
          one,
          create_relay-worth ls now (new_entry now sender port) (on_pool get_port h).1 (quiet now)
              w,
        ))

  settle-worth :
      (job : Job) (o : Outcome RelayEntry × Handler (Dynamic L))
      → worth (settle ls job o) ≡ worth o.1
  unfolding settle
  settle-worth job (ok e, h) = refl
  settle-worth job (throws x, h) = refl

  start-worth :
      (now : ℕ) (sender : NetAddress) (target : ℕ) (msg : Message) (h : Handler (Dynamic L))
      → IsHandler h
      → worth h ≤ suc (worth (start ls now sender target msg h))
  unfolding start set_buffer
  start-worth now sender target msg h v =
      let key = buffer_key sender target in
      let job : Job = record { key = key; sender_address = sender; target_port = target } in
      let h' : Handler (Dynamic L) = set_buffer key (msg ∷ []) h in
      rw (settle-worth job (start_relay ls now sender h'))
        (start_relay-worth now sender h' (relisten h'.listeners v))

  handle_returns :
      (now : ℕ) (s t : Option RelayEntry) (sender : NetAddress) (target : ℕ) (msg : Message)
      (h : Handler (Dynamic L))
      → (handle ls now s t sender target msg h).0 ≡ ok tt
  unfolding handle
  handle_returns now (some s) t sender target msg h = refl
  handle_returns now none none sender target msg h = refl
  handle_returns now none (some t) sender target msg h = refl

  handle_loses :
      (now : ℕ) (s t : Option RelayEntry) (sender : NetAddress) (target : ℕ) (msg : Message)
      (h : Handler (Dynamic L))
      → IsHandler h
      → worth h ≤ suc (worth (handle ls now s t sender target msg h).1)
  unfolding handle buffer_or_start start set_buffer
  handle_loses now (some s) t sender target msg h v = omega arith
  handle_loses now none none sender target msg h v = omega arith
  handle_loses now none (some t) sender target msg h v =
      elim (Option-cases (lookup (buffer_key sender target) h.listeners.buffers)) [
        | inl e ↦ rw (e, buffer_or_start) (start-worth now sender target msg h v)
        | inr (msgs, e) ↦ rw (e, buffer_or_start) (omega arith)
      ]

  relay-IsWorth :
      (n now : ℕ) (msg : Message) (sender : NetAddress) (target : ℕ)
      → Keeps (IsWorth n) (relay ls (handle ls) now msg sender target)
  relay-IsWorth n now msg sender target h v = record {
    well = relay-IsHandler ls (handle ls) now msg sender target h (handle-DropKeeps ls) v.well;
    least = omega (
      arith,
      v.least,
      relay-worth ls (handle ls) handle_returns handle_loses now msg sender target h v.well,
    );
  }

  deliver-IsWorth :
      (n : ℕ) (targets : List ℕ) (now : ℕ) (rinfo : RemoteInfo) (msg : Message)
      → Keeps (IsWorth n) (deliver ls (handle ls) targets now rinfo msg)
  unfolding deliver
  deliver-IsWorth n [] now rinfo msg = Keeps-pure {0, 0, 0} _ tt
  deliver-IsWorth n (q ∷ qs) now rinfo msg =
      Keeps-bind (IsWorth n) (relay ls (handle ls) now msg (from_rinfo rinfo) q)
        (λ _. deliver ls (handle ls) qs now rinfo msg)
        (relay-IsWorth n now msg (from_rinfo rinfo) q) (λ _. deliver-IsWorth n qs now rinfo msg)

  pub on_message-IsWorth :
      (n now port : ℕ) (rinfo : RemoteInfo) (msg : Message)
      → Keeps (IsWorth n) (on_message ls (handle ls) now port rinfo msg)
  unfolding on_message
  on_message-IsWorth n now port rinfo msg h v = elim (Option-cases (get_socket port h.pool)) [
    | inl e ↦ rw (e, on_message) v
    | inr (s, e) ↦ rw (e, on_message) (deliver-IsWorth n s.listeners now rinfo msg h v)
  ]

  relay_all-IsWorth :
      (n now : ℕ) (msgs : List Message) (sender : NetAddress) (target : ℕ)
      → Keeps (IsWorth n) (relay_all ls now msgs sender target)
  unfolding relay_all
  relay_all-IsWorth n now [] sender target = Keeps-pure {0, 0, 0} _ tt
  relay_all-IsWorth n now (msg ∷ msgs) sender target =
      Keeps-bind (IsWorth n) (relay ls (handle ls) now msg sender target)
        (λ _. relay_all ls now msgs sender target) (relay-IsWorth n now msg sender target)
        (λ _. relay_all-IsWorth n now msgs sender target)

  forget-IsWorth : (n : ℕ) (key : _) → Keeps (IsWorth n) (forget_buffer ls key)
  unfolding forget_buffer
  forget-IsWorth n key h v = record { well = relisten _ v.well; least = v.least }

  pub resume-IsWorth : (n now : ℕ) (job : Job) → Keeps (IsWorth n) (resume ls now job)
  unfolding resume
  resume-IsWorth n now job h v =
      Keeps-bind (IsWorth n) (relay_all ls now _ job.sender_address job.target_port)
        (λ _. forget_buffer ls job.key)
        (relay_all-IsWorth n now _ job.sender_address job.target_port)
        (λ _. forget-IsWorth n job.key) h v
