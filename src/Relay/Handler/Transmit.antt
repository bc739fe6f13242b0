-- ===== src/Relay/Handler/Transmit.antt =====
-- noray/src/relay/udp.relay.handler.mjs, `relay`: one datagram through the table.
use bevy_noray.Base.{
  ℕ, Bool, true, false, ◌&&◌, Option, none, some, List, [], ◌∷◌, ◌==◌, find, length, text_beq, ok,
  Action, pure, modify, ◌>>◌,
}
use bevy_noray.Relay.Address.{NetAddress, RemoteInfo, from_rinfo}
use bevy_noray.Relay.Entry.{RelayEntry}
use bevy_noray.Relay.Pool.{get_socket}
use bevy_noray.Relay.Handler.{
  Handler, Listeners, DropListener, Message, Effect, update_first, emit, note,
}

abbrev pub is_sender : NetAddress → RelayEntry → Bool
is_sender sender r = (r.address.port == sender.port) && text_beq r.address.address sender.address

abbrev pub is_target : ℕ → RelayEntry → Bool
is_target target r = r.port == target

module _ {L : Type 0} (ls : Listeners L) (on_drop : DropListener L) where
  -- The sender, the target or both have no relay.
  unfoldable pub drop_message :
      ℕ → Option RelayEntry → Option RelayEntry → NetAddress → ℕ → Message → Action (Handler L) Bool
  drop_message now sender_relay target_relay sender target msg = do
    on_drop now sender_relay target_relay sender target msg
    note Effect.drop_inc
    pure false

  -- Both have one, and the sender's socket is there.
  unfoldable pub forward :
      ℕ → RelayEntry → RelayEntry → NetAddress → ℕ → Message → Action (Handler L) Bool
  forward now sender_relay target_relay sender target msg = do
    emit (ls.on_transmit now sender_relay target_relay msg)
    note (Effect.send sender_relay.port target_relay.address msg)
    modify (λ h. record h {
      table =
          update_first (is_target target) (λ e. record e { last_sent = now })
            (update_first (is_sender sender) (λ e. record e { last_received = now }) h.table);
    })
    note (Effect.size_observe (length msg))
    pure true

  unfoldable pub forward_or_stop :
      ℕ → RelayEntry → RelayEntry → NetAddress → ℕ → Message → Action (Handler L) Bool
  unfolding forward
  forward_or_stop now s t sender target msg h = elim (get_socket s.port h.pool) [
    | none ↦ (ok false, h)
    | some socket ↦ forward now s t sender target msg h
  ]

  unfoldable pub route :
      Option RelayEntry → Option RelayEntry → ℕ → NetAddress → ℕ → Message → Action (Handler L) Bool
  unfolding drop_message forward_or_stop
  route none t now sender target msg = drop_message now none t sender target msg
  route (some s) none now sender target msg = drop_message now (some s) none sender target msg
  route (some s) (some t) now sender target msg = forward_or_stop now s t sender target msg

  unfoldable pub relay : ℕ → Message → NetAddress → ℕ → Action (Handler L) Bool
  unfolding route
  relay now msg sender target h =
      route (find (is_sender sender) h.table) (find (is_target target) h.table) now sender target
        msg h

  -- The 'message' listeners of a socket, in turn.
  unfoldable pub deliver : List ℕ → ℕ → RemoteInfo → Message → Action (Handler L) (Unit {0})
  deliver [] now rinfo msg = pure tt
  deliver (port ∷ ports) now rinfo msg =
      relay now msg (from_rinfo rinfo) port >> deliver ports now rinfo msg

  -- A datagram arrives at the socket that is bound to `port`, if there is one.
  unfoldable pub on_message : ℕ → ℕ → RemoteInfo → Message → Action (Handler L) (Unit {0})
  unfolding deliver
  on_message now port rinfo msg h = elim (get_socket port h.pool) [
    | none ↦ (ok tt, h)
    | some s ↦ deliver s.listeners now rinfo msg h
  ]
