-- ===== src/Relay/Dynamic/Carrying.antt =====
-- noray/src/relay/dynamic.relaying.mjs: which datagrams are buffered and sent.
use bevy_noray.Base.{
  erase, sym, ◌>>◌, ℕ, ◌≡◌, inl, inr, Bool-cases, false, Option, none, some, Option-cases, List, [],
  ◌∷◌, ◌++◌, Outcome, ok, throws, text_eq, Text, Keeps, Keeps-bind, Keeps-pure, >>=_keeps, lookup,
  insert, Store, lookup-insert, lookup-erase, arith,
}
use bevy_noray.Relay.Address.{NetAddress}
use bevy_noray.Relay.Entry.{RelayEntry, new_entry}
use bevy_noray.Relay.Pool.{get_port}
use bevy_noray.Relay.Handler.{
  Handler, Listeners, Message, Effect, send, gauge_inc, gauge_dec, gauge_reset, drop_inc,
  expired_inc, size_observe, note, on_pool, create_relay,
}
use bevy_noray.Relay.Handler.Frame.{IsFrame, is_send, create_relay-Keeps, relay-Keeps}
use bevy_noray.Relay.Handler.Transmit.{relay}
use bevy_noray.Relay.Dynamic.{
  Dynamic, Job, buffer_key, lift_action, with_dynamic, start_relay, settle, start, set_buffer,
  buffer_or_start, handle, relay_all, forget_buffer, resume,
}

module _ (M : Message → Type 0) where
  -- All the datagrams that were sent, and all in a list.
  abbrev pub AllSent : List Effect → Type 0
  AllSent [] = Unit
  AllSent (send port to msg ∷ es) = M msg × AllSent es
  AllSent (_ ∷ es) = AllSent es

  abbrev pub AllOf : List Message → Type 0
  AllOf [] = Unit
  AllOf (msg ∷ msgs) = M msg × AllOf msgs

  AllOf-append :
      (msgs : List Message) (msg : Message) → AllOf msgs → M msg → AllOf (msgs ++ msg ∷ [])
  AllOf-append [] msg v m = (m, tt)
  AllOf-append (x ∷ msgs) msg v m = (v.0, AllOf-append msgs msg v.1 m)

  AllSent-metric :
      (e : Effect) (es : List Effect) → is_send e ≡ false → AllSent es → AllSent (e ∷ es)
  AllSent-metric (send port to msg) es q v = absurd (ground arith)
  AllSent-metric gauge_inc es q v = v
  AllSent-metric gauge_dec es q v = v
  AllSent-metric gauge_reset es q v = v
  AllSent-metric drop_inc es q v = v
  AllSent-metric expired_inc es q v = v
  AllSent-metric (size_observe n) es q v = v

  abbrev pub Buffered : Store Text (List Message) → Type 0
  Buffered b = (k : Text) (msgs : List Message) → lookup k b ≡ some msgs → AllOf msgs

  insert-Buffered :
      (key : Text) (new : List Message) (b : Store Text (List Message))
      → AllOf new
      → Buffered b
      → Buffered (insert key new b)
  insert-Buffered key new b n v k msgs e = elim (Bool-cases (text_eq.beq key k)) [
    | inl same ↦ let eq : new ≡ msgs = ground (arith, lookup-insert key k new b) in rw (sym eq) n
    | inr other ↦ v k msgs (ground (arith, lookup-insert key k new b))
  ]

  erase-Buffered :
      (key : Text) (b : Store Text (List Message)) → Buffered b → Buffered (erase key b)
  erase-Buffered key b v k msgs e = elim (Bool-cases (text_eq.beq key k)) [
    | inl same ↦ absurd (ground (arith, lookup-erase key k b))
    | inr other ↦ v k msgs (ground (arith, lookup-erase key k b))
  ]

  -- What was sent and what is buffered.
  pub record Carries {L : Type 0} (h : Handler (Dynamic L)) : Type 0 where
    pub sent : AllSent h.trace
    pub buffered : Buffered h.listeners.buffers

  module _ {L : Type 0} (ls : Listeners L) where
    pub Carries-IsFrame : IsFrame (with_dynamic ls) Carries
    unfolding with_dynamic lift_action
    Carries-IsFrame = record {
      free_pool = λ p h v. record { sent = v.sent; buffered = v.buffered };
      free_table = λ t h v. record { sent = v.sent; buffered = v.buffered };
      metric =
          λ e h q v. record { sent = AllSent-metric e h.trace q v.sent; buffered = v.buffered };
      creating = λ now r h v. record { sent = v.sent; buffered = v.buffered };
      transmitting = λ now s t msg h v. record { sent = v.sent; buffered = v.buffered };
      destroying = λ now r h v. record { sent = v.sent; buffered = v.buffered };
    }

    pub sending :
        (msg : Message)
        → M msg
        → (port : ℕ) (to : NetAddress) → Keeps (Carries {L = L}) (note (send port to msg))
    sending msg m port to h v = record { sent = (m, v.sent); buffered = v.buffered }

    set_buffer-Carries :
        (key : Text) (msgs : List Message) (h : Handler (Dynamic L))
        → AllOf msgs
        → Carries h
        → Carries (set_buffer key msgs h)
    unfolding set_buffer
    set_buffer-Carries key msgs h m v = record {
      sent = v.sent;
      buffered = insert-Buffered key msgs h.listeners.buffers m v.buffered;
    }

    start_relay-Carries :
        (now : ℕ) (sender : NetAddress) → Keeps Carries (start_relay (with_dynamic ls) now sender)
    unfolding start_relay
    start_relay-Carries now sender h v =
        let w : Carries (on_pool get_port h).1 = record { sent = v.sent; buffered = v.buffered } in
        >>=_keeps (on_pool get_port)
          (λ port. create_relay (with_dynamic ls) now (new_entry now sender port)) h Carries w
          (λ port _.
            create_relay-Keeps (with_dynamic ls) Carries Carries-IsFrame now
              (new_entry now sender port) _ w)

    settle-Carries :
        (job : Job) (r : Outcome RelayEntry × Handler (Dynamic L))
        → Carries r.1
        → Carries (settle (with_dynamic ls) job r)
    unfolding settle
    settle-Carries job (ok e, h) v = record { sent = v.sent; buffered = v.buffered }
    settle-Carries job (throws x, h) v = record { sent = v.sent; buffered = v.buffered }

    pub handle-Carries :
        (now : ℕ) (s t : Option RelayEntry) (sender : NetAddress) (target : ℕ) (msg : Message)
        → M msg
        → Keeps Carries (handle (with_dynamic ls) now s t sender target msg)
    unfolding handle buffer_or_start start
    handle-Carries now (some s) t sender target msg m h v = v
    handle-Carries now none none sender target msg m h v = v
    handle-Carries now none (some t) sender target msg m h v =
        let key = buffer_key sender target in
        elim (Option-cases (lookup key h.listeners.buffers)) [
          | inl e ↦
              rw (e, buffer_or_start)
                (settle-Carries _ _ (
                  start_relay-Carries now sender _ (set_buffer-Carries key (msg ∷ []) h (m, tt) v)))
          | inr (msgs, e) ↦
              rw (e, buffer_or_start)
                (set_buffer-Carries key (msgs ++ msg ∷ []) h
                  (AllOf-append msgs msg (v.buffered key msgs e) m) v)
        ]

    relay_all-Carries :
        (now : ℕ) (msgs : List Message) (sender : NetAddress) (target : ℕ)
        → AllOf msgs
        → Keeps Carries (relay_all (with_dynamic ls) now msgs sender target)
    unfolding relay_all
    relay_all-Carries now [] sender target m = Keeps-pure {0, 0, 0} _ tt
    relay_all-Carries now (msg ∷ msgs) sender target m =
        let rest = relay_all-Carries now msgs sender target m.1 in
        Keeps-bind Carries
          (relay (with_dynamic ls) (handle (with_dynamic ls)) now msg sender target)
          (λ _. relay_all (with_dynamic ls) now msgs sender target)
          (relay-Keeps (with_dynamic ls) Carries Carries-IsFrame (handle (with_dynamic ls)) msg
            (sending msg m.0) now sender target
            (λ s t. handle-Carries now s t sender target msg m.0))
          (λ _. rest)

    forget-Carries : (key : Text) → Keeps Carries (forget_buffer (with_dynamic ls) key)
    unfolding forget_buffer
    forget-Carries key h v = record {
      sent = v.sent;
      buffered = erase-Buffered key h.listeners.buffers v.buffered;
    }

    pub resume-Carries : (now : ℕ) (job : Job) → Keeps Carries (resume (with_dynamic ls) now job)
    unfolding resume
    resume-Carries now job h v = elim (Option-cases (lookup job.key h.listeners.buffers)) [
      | inl n ↦ rw (n, resume) (replayed [] tt h v)
      | inr (msgs, e) ↦ rw (e, resume) (replayed msgs (v.buffered job.key msgs e) h v)
    ]
      where
        replayed :
            (msgs : List Message)
            → AllOf msgs
            → Keeps Carries (
                relay_all (with_dynamic ls) now msgs job.sender_address job.target_port
                >> forget_buffer (with_dynamic ls) job.key)
        replayed msgs m =
            Keeps-bind Carries
              (relay_all (with_dynamic ls) now msgs job.sender_address job.target_port)
              (λ _. forget_buffer (with_dynamic ls) job.key)
              (relay_all-Carries now msgs job.sender_address job.target_port m)
              (λ _. forget-Carries job.key)
