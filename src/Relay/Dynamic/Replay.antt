-- ===== src/Relay/Dynamic/Replay.antt =====
-- noray/src/relay/dynamic.relaying.mjs: the part of `#handle` behind the `await`, which sends what was
-- buffered.
use bevy_noray.Base.{
  Option, text_beq, ◌&&◌, ◌==◌, ℕ, ◌≡◌, refl, ap, ◌∙◌, inl, inr, Bool, true, false, Bool-cases,
  none, some, List, [], ◌∷◌, find, length, arith, lookup, text_eq, ok, >>=_of_ok, lookup-erase,
  text_beq_iff, text_beq, ◌==◌, ◌&&◌,
}
use bevy_noray.Relay.Address.{NetAddress}
use bevy_noray.Relay.Entry.{RelayEntry}
use bevy_noray.Relay.Handler.{Handler, Listeners, Message, Effect, send, size_observe, update_first}
use bevy_noray.Relay.Handler.Transmit.{relay, is_sender, is_target}
use bevy_noray.Relay.Handler.Invariant.{IsHandler}
use bevy_noray.Relay.Handler.Invariant.Relaying.{relay-IsHandler}
use bevy_noray.Relay.Handler.Invariant.Touching.{KeepsPlace, touched}
use bevy_noray.Relay.Handler.Invariant.Routing.{HasRelay, relay_forwards}
use bevy_noray.Relay.Dynamic.{Dynamic, Job, handle, relay_all, forget_buffer, resume}
use bevy_noray.Relay.Dynamic.Keeping.{handle-DropKeeps}

-- A change of an entry's times leaves the relay of an address where it is.
find-update_first :
    (a : NetAddress) (t : RelayEntry → Bool) (f : RelayEntry → RelayEntry) (es : List RelayEntry)
    (e : RelayEntry)
    → KeepsPlace f
    → find (is_sender a) es ≡ some e
    → (e' : RelayEntry) × (find (is_sender a) (update_first t f es) ≡ some e')
      × (e'.address ≡ e.address)
      × (e'.port ≡ e.port)
unfolding update_first
find-update_first a t f [] e k h = absurd (ground (arith, h))
find-update_first a t f (x ∷ es) e k h = elim (Bool-cases (is_sender a x)) [
  | inl hit ↦
      let here : x ≡ e = ground (arith, h, hit) in
      elim (Bool-cases (t x)) [
        | inl changed ↦
            let same : is_sender a (f x) ≡ true = ap (is_at a) (k x).1 ∙ hit in
            (
              f x,
              rw (changed, update_first) (rw same refl),
              (k x).1 ∙ ap (λ r. r.address) here,
              (k x).0 ∙ ap (λ r. r.port) here,
            )
        | inr kept ↦ (
          x,
          rw (kept, update_first) (rw hit refl),
          ap (λ r. r.address) here,
          ap (λ r. r.port) here,
        )
      ]
  | inr miss ↦ elim (Bool-cases (t x)) [
    | inl changed ↦
        let same : is_sender a (f x) ≡ false = ap (is_at a) (k x).1 ∙ miss in
        (e, rw (changed, update_first) (ground (arith, same, h, miss)), refl, refl)
    | inr kept ↦
        let (e', g, ad, po) = find-update_first a t f es e k (ground (arith, h, miss)) in
        (e', rw (kept, update_first) (ground (arith, g, miss)), ad, po)
  ]
]
  where
    is_at : NetAddress → NetAddress → Bool
    is_at sender b = (b.port == sender.port) && text_beq b.address sender.address

HasRelay-touched :
    {L : Type 0} (h h' : Handler L) (now : ℕ) (sender a : NetAddress) (target port : ℕ)
    → h'.table ≡ touched now sender target h.table
    → HasRelay h a port
    → HasRelay h' a port
HasRelay-touched h h' now sender a target port t (e, f, ad, po) =
    let (x, g, ad1, po1) =
      find-update_first a (is_sender sender) (λ r. record r { last_received = now }) h.table e
        (λ r. (refl, refl)) f in
    let (y, g2, ad2, po2) =
      find-update_first a (is_target target) (λ r. record r { last_sent = now }) _ x
        (λ r. (refl, refl)) g in
    (y, ap (find (is_sender a)) t ∙ g2, ad2 ∙ (ad1 ∙ ad), po2 ∙ (po1 ∙ po))

module _ {L : Type 0} (ls : Listeners (Dynamic L)) (now : ℕ) where
  -- The effects of datagrams that are sent one after the other.
  abbrev pub sent_all : List Message → ℕ → NetAddress → List Effect → List Effect
  sent_all [] own receiver trace = trace
  sent_all (msg ∷ msgs) own receiver trace =
      sent_all msgs own receiver (size_observe (length msg) ∷ send own receiver msg ∷ trace)

  -- The listeners of 'transmit' let a datagram between two relays through.
  abbrev Allowed : Option RelayEntry → Option RelayEntry → Message → Dynamic L → Type 0
  Allowed (some s) (some t) msg d = (ls.on_transmit now s t msg d).0 ≡ ok tt
  Allowed _ _ msg d = Unit {0}

  -- They let datagrams through that are relayed one after the other, each in the state that the one
  -- before has left.
  abbrev pub AllAllowed : List Message → NetAddress → NetAddress → ℕ → Handler (Dynamic L) → Type 0
  AllAllowed [] sender receiver target h = Unit {0}
  AllAllowed (msg ∷ msgs) sender receiver target h =
      Allowed (find (is_sender sender) h.table) (find (is_sender receiver) h.table) msg h.listeners
      × AllAllowed msgs sender receiver target (relay ls (handle ls) now msg sender target h).1

  relay_all_sends :
      (msgs : List Message) (sender receiver : NetAddress) (own target : ℕ)
      (h : Handler (Dynamic L))
      → IsHandler h
      → HasRelay h sender own
      → HasRelay h receiver target
      → AllAllowed msgs sender receiver target h
      → (h' : Handler (Dynamic L)) × (relay_all ls now msgs sender target h ≡ (ok tt, h'))
        × (h'.trace ≡ sent_all msgs own receiver h.trace)
  unfolding relay_all
  relay_all_sends [] sender receiver own target h v hs hr a = (h, refl, refl)
  relay_all_sends (msg ∷ msgs) sender receiver own target h v hs hr a =
      let open_way = rw (hs.1, hr.1) at a.0 in
      let (r, tr, tab) =
        relay_forwards ls (handle ls) now msg sender receiver own target h v hs hr open_way in
      let h1 = (relay ls (handle ls) now msg sender target h).1 in
      let (h', e, out) =
        relay_all_sends msgs sender receiver own target h1
          (relay-IsHandler ls (handle ls) now msg sender target h (handle-DropKeeps ls) v)
          (HasRelay-touched h h1 now sender sender target own tab hs)
          (HasRelay-touched h h1 now sender receiver target target tab hr) a.1 in
      (
        h',
        >>=_of_ok (relay ls (handle ls) now msg sender target)
              (λ _. relay_all ls now msgs sender target) h true r
            ∙ e,
        out ∙ ap (sent_all msgs own receiver) tr,
      )

  -- In a well-formed handler where the sender and the target have relays, the datagrams that were
  -- buffered for a job are sent from the sender's port to the target, in the order in which they came,
  -- and the buffer is gone, if the listeners of 'transmit' let each of them through in the state that
  -- the ones before have left.
  pub resume_forwards :
      (job : Job) (receiver : NetAddress) (own : ℕ) (msgs : List Message) (h : Handler (Dynamic L))
      → IsHandler h
      → HasRelay h job.sender_address own
      → HasRelay h receiver job.target_port
      → lookup job.key h.listeners.buffers ≡ some msgs
      → AllAllowed msgs job.sender_address receiver job.target_port h
      → let (r, h') = resume ls now job h in
        (r ≡ ok tt)
        × (h'.trace ≡ sent_all msgs own receiver h.trace)
        × (lookup job.key h'.listeners.buffers ≡ none)
  unfolding resume forget_buffer
  resume_forwards job receiver own msgs h v hs hr buffered a =
      let (h', e, out) =
        relay_all_sends msgs job.sender_address receiver own job.target_port h v hs hr a in
      ground (
        arith,
        buffered,
        e,
        out,
        lookup-erase job.key job.key h'.listeners.buffers,
        text_beq_iff job.key job.key,
      )
