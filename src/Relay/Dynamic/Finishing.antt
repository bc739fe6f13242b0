-- ===== src/Relay/Dynamic/Finishing.antt =====
-- noray/src/relay/dynamic.relaying.mjs: how a call of `#handle` goes on behind its `await`.
use bevy_noray.Base.{
  lookup-insert, text_beq_iff, Option, ◌⊎◌, ℕ, ◌≡◌, refl, if◌then◌else◌, Outcome-cases, ◌>>◌,
  >>=_of_ok, >>=_of_throws, lookup-erase, true, false, inl, inr, none, some, Option-cases, List, [],
  ◌∷◌, ◌++◌, Text, text_eq, has, Outcome, ok, throws, Failure, Action, Keeps, Keeps-bind,
  Keeps-pure, arith, lookup,
}
use bevy_noray.Relay.Address.{NetAddress}
use bevy_noray.Relay.Entry.{RelayEntry}
use bevy_noray.Relay.Handler.{Handler, Listeners, Message}
use bevy_noray.Relay.Handler.Frame.{relay-Keeps}
use bevy_noray.Relay.Handler.Transmit.{relay}
use bevy_noray.Relay.Dynamic.{
  Dynamic, Job, buffer_key, with_dynamic, set_buffer, buffer_or_start, handle, relay_all,
  forget_buffer, resume,
}
use bevy_noray.Relay.Dynamic.Waiting.{Waits, waits, Waiting, Waiting-IsFrame}

module _ {L : Type 0} (ls : Listeners L) where
  -- The same calls wait, the same were rejected, and there are buffers for the same keys.
  abbrev Resuming : Waits → Waits → Type 0
  Resuming w x = ((k : Text) → has k x.0 ≡ has k w.0) × (x.1 ≡ w.1) × (x.2 ≡ w.2)

  -- While the buffered datagrams are sent on, no other call and no other buffer comes.
  module _ (w : Waits) (sender : NetAddress) (target : ℕ)
      (there : has (buffer_key sender target) w.0 ≡ true) where
    handle-Resuming :
        (now : ℕ) (s t : Option RelayEntry) (msg : Message)
        → Keeps (Waiting (Resuming w)) (handle (with_dynamic ls) now s t sender target msg)
    unfolding handle buffer_or_start set_buffer
    handle-Resuming now (some s) t msg h v = v
    handle-Resuming now none none msg h v = v
    handle-Resuming now none (some t) msg h v =
        elim (Option-cases (lookup (buffer_key sender target) h.listeners.buffers)) [
          | inl e ↦ absurd (ground (arith, v.0 (buffer_key sender target)))
          | inr (msgs, e) ↦
              rw (e, buffer_or_start)
                (
                  λ k. ground (
                    arith,
                    lookup-insert (buffer_key sender target) k (msgs ++ msg ∷ [])
                        h.listeners.buffers,
                    text_beq_iff (buffer_key sender target) k,
                    v.0 k,
                  ),
                  v.1,
                  v.2,
                )
        ]

    relay_all-Resuming :
        (now : ℕ) (msgs : List Message)
        → Keeps (Waiting (Resuming w)) (relay_all (with_dynamic ls) now msgs sender target)
    unfolding relay_all
    relay_all-Resuming now [] = Keeps-pure {0, 0, 0} _ tt
    relay_all-Resuming now (msg ∷ msgs) =
        let rest = relay_all-Resuming now msgs in
        Keeps-bind (Waiting (Resuming w))
          (relay (with_dynamic ls) (handle (with_dynamic ls)) now msg sender target)
          (λ _. relay_all (with_dynamic ls) now msgs sender target)
          (relay-Keeps (with_dynamic ls) (Waiting (Resuming w)) (Waiting-IsFrame ls (Resuming w))
            (handle (with_dynamic ls)) msg (λ port to h v. v) now sender target
            (λ s t. handle-Resuming now s t msg))
          (λ _. rest)

  -- How the rest of a call of `#handle` ends: it throws, or it leaves the other calls as they are and
  -- takes its own buffer away.
  abbrev pub Finishes :
      Job → Handler (Dynamic L) → Outcome (Unit {0}) × Handler (Dynamic L) → Type 0
  Finishes job h (r, h') =
      ((x : Failure) × (r ≡ throws x))
      ⊎ ((r ≡ ok tt)
          × (h'.listeners.jobs ≡ h.listeners.jobs)
          × (h'.listeners.unhandled ≡ h.listeners.unhandled)
          × ((k : Text)
              → has k h'.listeners.buffers
                ≡ (if text_eq.beq job.key k then false else has k h.listeners.buffers)))

  forgetting :
      (job : Job) (m : Action (Handler (Dynamic L)) (Unit {0})) (h : Handler (Dynamic L))
      → Waiting (Resuming (waits h.listeners)) (m h).1
      → Finishes job h ((m >> forget_buffer (with_dynamic ls) job.key) h)
  unfolding forget_buffer
  forgetting job m h (b, j, u) = elim (Outcome-cases (m h).0) [
    | inl (_, o) ↦
        rw (>>=_of_ok m (λ _. forget_buffer (with_dynamic ls) job.key) h tt (ground (arith, o))) (
          inr (
            refl,
            j,
            u,
            λ k. ground (arith, lookup-erase job.key k (m h).1.listeners.buffers, b k),
          ))
    | inr (x, o) ↦
        rw (>>=_of_throws m (λ _. forget_buffer (with_dynamic ls) job.key) h x o) (inl (x, refl))
  ]

  pub resume-Finishes :
      (now : ℕ) (job : Job) (h : Handler (Dynamic L))
      → job.key ≡ buffer_key job.sender_address job.target_port
      → Finishes job h (resume (with_dynamic ls) now job h)
  unfolding resume relay_all
  resume-Finishes now job h e = elim (Option-cases (lookup job.key h.listeners.buffers)) [
    | inl n ↦
        rw (n, resume)
          (forgetting job (relay_all (with_dynamic ls) now [] job.sender_address job.target_port) h
            (λ k. refl, refl, refl))
    | inr (msgs, f) ↦
        rw (f, resume)
          (forgetting job (relay_all (with_dynamic ls) now msgs job.sender_address job.target_port)
            h
            (relay_all-Resuming (waits h.listeners) job.sender_address job.target_port
              (rw (← e, f) refl) now msgs h (λ k. refl, refl, refl)))
  ]
