-- ===== src/Relay/Handler/Frame.antt =====
-- noray/src/relay/udp.relay.handler.mjs: what the handler's methods keep, by what they do: they write the
-- pool and the table, call listeners and note effects.
use bevy_noray.Base.{
  erase_idx, modify, ℕ, inl, inr, Bool, true, false, none, some, Option, Option-cases, List, [],
  ◌∷◌, ◌≡◌, refl, find, find_index, Keeps, Keeps-bind, Keeps-pure, ◌>>◌, pure, modify, length,
  nat_eq, >>=_keeps,
}
use bevy_noray.Relay.Address.{NetAddress, RemoteInfo}
use bevy_noray.Relay.Entry.{RelayEntry, entry_equals}
use bevy_noray.Relay.Pool.{UdpSocketPool, PoolAction, get_socket}
use bevy_noray.Relay.Handler.{
  size_observe, gauge_dec, return_port, Handler, Listeners, DropListener, Message, Effect, send,
  on_pool, emit, note, listen_on, push_entry, add_relay, create_relay, drop_entry, free_relay,
  set_listener,
}
use bevy_noray.Relay.Handler.Transmit.{
  drop_message, forward, forward_or_stop, route, relay, deliver, on_message,
}
use bevy_noray.Relay.Handler.Invariant.Touching.{touched}
use bevy_noray.Relay.Cleanup.{expire_all, cleanup_udp_relay_table}

abbrev pub is_send : Effect → Bool
is_send (send port address msg) = true
is_send _ = false

-- A property of the handler that says nothing of the pool, the table and the metrics, and that the
-- listeners keep.
pub record IsFrame {L : Type 0} (ls : Listeners L) (P : Handler L → Type 0) : Type 0 where
  pub free_pool : (p : UdpSocketPool) (h : Handler L) → P h → P (record h { pool = p })
  pub free_table : (t : List RelayEntry) (h : Handler L) → P h → P (record h { table = t })
  pub metric :
      (e : Effect) (h : Handler L) → is_send e ≡ false → P h → P (record h { trace = e ∷ h.trace })
  pub creating : (now : ℕ) (r : RelayEntry) → Keeps P (emit (ls.on_create now r))
  pub transmitting :
      (now : ℕ) (s t : RelayEntry) (msg : Message) → Keeps P (emit (ls.on_transmit now s t msg))
  pub destroying : (now : ℕ) (r : RelayEntry) → Keeps P (emit (ls.on_destroy now r))

module _ {L : Type 0} (ls : Listeners L) (P : Handler L → Type 0) (f : IsFrame ls P) where
  on_pool-Keeps : {A : Type 0} (m : PoolAction A) → Keeps P (on_pool m)
  on_pool-Keeps m h v = f.free_pool (m h.pool).1 h v

  listen_on-Keeps : (port : ℕ) → Keeps P (listen_on port)
  unfolding listen_on
  listen_on-Keeps port h v = elim (Option-cases (get_socket port h.pool)) [
    | inl n ↦ rw (n, listen_on) v
    | inr (s, e) ↦ rw (e, listen_on) (f.free_pool (set_listener port h.pool) h v)
  ]

  push_entry-Keeps : (e : RelayEntry) → Keeps P (push_entry e)
  unfolding push_entry
  push_entry-Keeps e h v = f.free_table _ h v

  note-Keeps : (e : Effect) → is_send e ≡ false → Keeps P (note e)
  note-Keeps e q h v = f.metric e h q v

  add_relay-Keeps : (now : ℕ) (r : RelayEntry) → Keeps P (add_relay ls now r)
  unfolding add_relay
  add_relay-Keeps now r =
      search (Keeps-bind, on_pool-Keeps, listen_on-Keeps, push_entry-Keeps, note-Keeps, f.creating)
        depth 20

  pub create_relay-Keeps : (now : ℕ) (r : RelayEntry) → Keeps P (create_relay ls now r)
  unfolding create_relay
  create_relay-Keeps now r h v = elim (Option-cases (find (λ e. entry_equals e r) h.table)) [
    | inl n ↦ rw (n, create_relay) (add_relay-Keeps now r h v)
    | inr (e, s) ↦ rw (s, create_relay) v
  ]

  drop_entry-Keeps : (now : ℕ) (r : RelayEntry) (i : ℕ) → Keeps P (drop_entry ls now r i)
  unfolding drop_entry
  drop_entry-Keeps now r i h v =
      let w = f.destroying now r h v in
      >>=_keeps (emit (ls.on_destroy now r))
        (λ _.
          modify (λ x. record x { pool = return_port r.port x.pool; table = erase_idx x.table i })
          >> (note gauge_dec >> pure true))
        h P w (λ _ _. f.metric gauge_dec _ refl (f.free_table _ _ (f.free_pool _ _ w)))

  pub free_relay-Keeps : (now : ℕ) (r : RelayEntry) → Keeps P (free_relay ls now r)
  unfolding free_relay
  free_relay-Keeps now r h v = elim (Option-cases (find_index (λ e. entry_equals e r) h.table)) [
    | inl n ↦ rw (n, free_relay) v
    | inr (i, s) ↦ rw (s, free_relay) (drop_entry-Keeps now r i h v)
  ]

  expire_all-Keeps : (now : ℕ) (es : List RelayEntry) → Keeps P (expire_all ls now es)
  unfolding expire_all
  expire_all-Keeps now [] = Keeps-pure {0, 0, 0} P tt
  expire_all-Keeps now (e ∷ es) =
      let rest = expire_all-Keeps now es in
      search (Keeps-bind, free_relay-Keeps, note-Keeps, rest) depth 12

  pub cleanup-Keeps : (now timeout : ℕ) → Keeps P (cleanup_udp_relay_table ls now timeout)
  unfolding cleanup_udp_relay_table
  cleanup-Keeps now timeout h v = expire_all-Keeps now _ h v

  module _ (on_drop : DropListener L) (msg : Message)
      (sending : (port : ℕ) (to : NetAddress) → Keeps P (note (send port to msg))) where
    drop_message-Keeps :
        (now : ℕ) (s t : Option RelayEntry) (sender : NetAddress) (target : ℕ)
        → Keeps P (on_drop now s t sender target msg)
        → Keeps P (drop_message ls on_drop now s t sender target msg)
    unfolding drop_message
    drop_message-Keeps now s t sender target k = search (Keeps-bind, note-Keeps, k) depth 12

    forward-Keeps :
        (now : ℕ) (s t : RelayEntry) (sender : NetAddress) (target : ℕ)
        → Keeps P (forward ls on_drop now s t sender target msg)
    unfolding forward
    forward-Keeps now s t sender target h v =
        let w = f.transmitting now s t msg h v in
        >>=_keeps (emit (ls.on_transmit now s t msg))
          (λ _.
            note (send s.port t.address msg)
            >> (modify (λ x. record x { table = touched now sender target x.table })
                >> (note (size_observe (length msg)) >> pure true)))
          h P w (λ _ _. f.metric _ _ refl (f.free_table _ _ (sending s.port t.address _ w)))

    forward_or_stop-Keeps :
        (now : ℕ) (s t : RelayEntry) (sender : NetAddress) (target : ℕ)
        → Keeps P (forward_or_stop ls on_drop now s t sender target msg)
    unfolding forward_or_stop
    forward_or_stop-Keeps now s t sender target h v =
        elim (Option-cases (get_socket s.port h.pool)) [
          | inl n ↦ rw (n, forward_or_stop) v
          | inr (x, e) ↦ rw (e, forward_or_stop) (forward-Keeps now s t sender target h v)
        ]

    route-Keeps :
        (now : ℕ) (s t : Option RelayEntry) (sender : NetAddress) (target : ℕ)
        → Keeps P (on_drop now s t sender target msg)
        → Keeps P (route ls on_drop s t now sender target msg)
    unfolding route
    route-Keeps now none t sender target k = drop_message-Keeps now none t sender target k
    route-Keeps now (some s) none sender target k =
        drop_message-Keeps now (some s) none sender target k
    route-Keeps now (some s) (some t) sender target k = forward_or_stop-Keeps now s t sender target

    pub relay-Keeps :
        (now : ℕ) (sender : NetAddress) (target : ℕ)
        → ((s t : Option RelayEntry) → Keeps P (on_drop now s t sender target msg))
        → Keeps P (relay ls on_drop now msg sender target)
    unfolding relay
    relay-Keeps now sender target k h v = route-Keeps now _ _ sender target (k _ _) h v

    module _
        (dropping : (now : ℕ) (s t : Option RelayEntry) (sender : NetAddress) (target : ℕ)
          → Keeps P (on_drop now s t sender target msg)) where
      deliver-Keeps :
          (targets : List ℕ) (now : ℕ) (rinfo : RemoteInfo)
          → Keeps P (deliver ls on_drop targets now rinfo msg)
      unfolding deliver
      deliver-Keeps [] now rinfo = Keeps-pure {0, 0, 0} P tt
      deliver-Keeps (q ∷ qs) now rinfo =
          let rest = deliver-Keeps qs now rinfo in
          search (Keeps-bind, relay-Keeps, dropping, rest) depth 8

      pub on_message-Keeps :
          (now port : ℕ) (rinfo : RemoteInfo) → Keeps P (on_message ls on_drop now port rinfo msg)
      unfolding on_message
      on_message-Keeps now port rinfo h v = elim (Option-cases (get_socket port h.pool)) [
        | inl n ↦ rw (n, on_message) v
        | inr (s, e) ↦ rw (e, on_message) (deliver-Keeps s.listeners now rinfo h v)
      ]
