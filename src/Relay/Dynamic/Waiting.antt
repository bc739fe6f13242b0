-- ===== src/Relay/Dynamic/Waiting.antt =====
-- noray/src/relay/dynamic.relaying.mjs: what waits, that is the buffers, the calls of `#handle` that
-- stand at their `await`, and the rejected ones.
use bevy_noray.Base.{
  lookup-insert, text_beq_iff, Option, Bool-cases, ◌⊎◌, ℕ, ◌≡◌, refl, ap, true, inl, inr, none,
  some, Option-cases, List, [], ◌∷◌, ◌++◌, Text, text_eq, Store, has, elem, map, Outcome, ok,
  throws, Failure, Keeps, >>=_keeps, arith, lookup, insert,
}
use bevy_noray.Relay.Address.{NetAddress}
use bevy_noray.Relay.Entry.{RelayEntry, new_entry}
use bevy_noray.Relay.Pool.{get_port}
use bevy_noray.Relay.Handler.{Handler, Listeners, Message, create_relay, on_pool}
use bevy_noray.Relay.Handler.Frame.{IsFrame, create_relay-Keeps}
use bevy_noray.Relay.Dynamic.{
  Dynamic, Job, buffer_key, lift_action, with_dynamic, start_relay, settle, start, set_buffer,
  buffer_or_start, handle,
}

-- The part of the state that only `#handle` changes.
abbrev pub Waits : Type 0
Waits = Store Text (List Message) × List Job × List Failure

module _ {L : Type 0} where
  abbrev pub waits : Dynamic L → Waits
  waits d = (d.buffers, d.jobs, d.unhandled)

  -- The state says something of what waits only.
  abbrev pub Waiting : (Waits → Type 0) → Handler (Dynamic L) → Type 0
  Waiting W h = W (waits h.listeners)

  pub Waiting-IsFrame :
      (ls : Listeners L) (W : Waits → Type 0) → IsFrame (with_dynamic ls) (Waiting W)
  unfolding with_dynamic lift_action
  Waiting-IsFrame ls W = record {
    free_pool = λ p h v. v;
    free_table = λ t h v. v;
    metric = λ e h q v. v;
    creating = λ now r h v. v;
    transmitting = λ now s t msg h v. v;
    destroying = λ now r h v. v;
  }

abbrev pub job_keys : List Job → List Text
job_keys = map (λ j. j.key)

abbrev pub IsKeyed : List Job → Type 0
IsKeyed [] = Unit
IsKeyed (j ∷ js) = (j.key ≡ buffer_key j.sender_address j.target_port) × IsKeyed js

-- Each call that waits is for the buffer of its addresses, and as long as none has been rejected, each
-- buffer has a call that waits.
pub record IsAwaited (w : Waits) : Type 0 where
  pub keyed : IsKeyed w.1
  pub awaited : w.2 ≡ [] → (k : Text) → has k w.0 ≡ true → elem k (job_keys w.1) ≡ true

IsKeyed-append :
    (js : List Job) (j : Job)
    → IsKeyed js
    → j.key ≡ buffer_key j.sender_address j.target_port
    → IsKeyed (js ++ j ∷ [])
IsKeyed-append [] j v e = (e, tt)
IsKeyed-append (x ∷ js) j v e = (v.0, IsKeyed-append js j v.1 e)

elem-job_keys :
    (k : Text) (js : List Job) (j : Job)
    → (elem k (job_keys js) ≡ true) ⊎ (k ≡ j.key)
    → elem k (job_keys (js ++ j ∷ [])) ≡ true
elem-job_keys k [] j (inl e) = absurd (ground arith)
elem-job_keys k [] j (inr e) = ground (arith, text_beq_iff j.key k, text_beq_iff k j.key)
elem-job_keys k (x ∷ js) j h = elim (Bool-cases (text_eq.beq k x.key)) [
  | inl s ↦ ground (arith, text_beq_iff x.key k, text_beq_iff k x.key)
  | inr o ↦ ground (arith, elem-job_keys k js j, text_beq_iff x.key k, text_beq_iff k x.key)
]

-- A new buffer, with the call that will empty it.
new_call :
    (job : Job) (msgs : List Message) (w : Waits)
    → job.key ≡ buffer_key job.sender_address job.target_port
    → IsAwaited w
    → IsAwaited (insert job.key msgs w.0, w.1 ++ job ∷ [], w.2)
new_call job msgs w e v = record {
  keyed = IsKeyed-append w.1 job v.keyed e;
  awaited = λ none_rejected k h. elim (Bool-cases (text_eq.beq job.key k)) [
    | inl same ↦ elem-job_keys k w.1 job (inr (ground (arith, text_beq_iff job.key k)))
    | inr other ↦
        elem-job_keys k w.1 job
          (inl (v.awaited none_rejected k (ground (arith, lookup-insert job.key k msgs w.0))))
  ];
}

-- More in a buffer that is there.
more_buffered :
    (key : Text) (msgs : List Message) (w : Waits)
    → has key w.0 ≡ true
    → IsAwaited w
    → IsAwaited (insert key msgs w.0, w.1, w.2)
more_buffered key msgs w there v = record {
  keyed = v.keyed;
  awaited = λ none_rejected k h. elim (Bool-cases (text_eq.beq key k)) [
    | inl same ↦ v.awaited none_rejected k (ground (arith, text_beq_iff key k))
    | inr other ↦ v.awaited none_rejected k (ground (arith, lookup-insert key k msgs w.0))
  ];
}

module _ {L : Type 0} (ls : Listeners L) where
  start_relay-Waiting :
      (W : Waits → Type 0) (now : ℕ) (sender : NetAddress)
      → Keeps (Waiting W) (start_relay (with_dynamic ls) now sender)
  unfolding start_relay
  start_relay-Waiting W now sender h v =
      >>=_keeps (on_pool get_port)
        (λ port. create_relay (with_dynamic ls) now (new_entry now sender port)) h (Waiting W) v
        (λ port _.
          create_relay-Keeps (with_dynamic ls) (Waiting W) (Waiting-IsFrame ls W) now
            (new_entry now sender port) _ v)

  settle-IsAwaited :
      (job : Job) (w : Waits) (msg : Message) (r : Outcome RelayEntry × Handler (Dynamic L))
      → IsAwaited w
      → job.key ≡ buffer_key job.sender_address job.target_port
      → waits r.1.listeners ≡ (insert job.key (msg ∷ []) w.0, w.1, w.2)
      → Waiting IsAwaited (settle (with_dynamic ls) job r)
  unfolding settle
  settle-IsAwaited job w msg (ok e, h) v k q =
      rw (ap (λ x. x.0) q, ap (λ x. x.1) q, ap (λ x. x.2) q) (new_call job (msg ∷ []) w k v)
  settle-IsAwaited job w msg (throws x, h) v k q = record {
    keyed = rw (ap (λ x. x.1) q) v.keyed;
    awaited = λ h. absurd (ground arith);
  }

  start-IsAwaited :
      (now : ℕ) (sender : NetAddress) (target : ℕ) (msg : Message) (h : Handler (Dynamic L))
      → Waiting IsAwaited h
      → Waiting IsAwaited (start (with_dynamic ls) now sender target msg h)
  unfolding start set_buffer
  start-IsAwaited now sender target msg h v =
      let key = buffer_key sender target in
      let w : Waits = waits h.listeners in
      settle-IsAwaited _ w msg _ v refl
        (start_relay-Waiting (λ x. x ≡ (insert key (msg ∷ []) w.0, w.1, w.2)) now sender _ refl)

  buffer_or_start-IsAwaited :
      (now : ℕ) (sender : NetAddress) (target : ℕ) (msg : Message) (h : Handler (Dynamic L))
      → Waiting IsAwaited h
      → Waiting IsAwaited (buffer_or_start (with_dynamic ls) now sender target msg h)
  unfolding buffer_or_start set_buffer
  buffer_or_start-IsAwaited now sender target msg h v =
      elim (Option-cases (lookup (buffer_key sender target) h.listeners.buffers)) [
        | inl e ↦ rw (e, buffer_or_start) (start-IsAwaited now sender target msg h v)
        | inr (msgs, e) ↦
            rw (e, buffer_or_start)
              (more_buffered (buffer_key sender target) (msgs ++ msg ∷ []) (waits h.listeners)
                (rw e refl) v)
      ]

  -- A datagram that is dropped leaves no buffer without a call that waits, unless that call was rejected.
  pub handle-IsAwaited :
      (now : ℕ) (s t : Option RelayEntry) (sender : NetAddress) (target : ℕ) (msg : Message)
      → Keeps (Waiting IsAwaited) (handle (with_dynamic ls) now s t sender target msg)
  unfolding handle
  handle-IsAwaited now (some s) t sender target msg h v = v
  handle-IsAwaited now none none sender target msg h v = v
  handle-IsAwaited now none (some t) sender target msg h v =
      buffer_or_start-IsAwaited now sender target msg h v
