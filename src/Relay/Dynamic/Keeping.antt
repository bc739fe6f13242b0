-- ===== src/Relay/Dynamic/Keeping.antt =====
-- noray/src/relay/dynamic.relaying.mjs: both halves of `#handle` keep the handler well-formed.
use bevy_noray.Base.{
  ℕ, inl, inr, none, some, Option-cases, List, [], ◌∷◌, text_eq, lookup, Outcome, ok, throws,
  >>=_keeps,
}
use bevy_noray.Relay.Address.{NetAddress}
use bevy_noray.Relay.Entry.{RelayEntry, new_entry}
use bevy_noray.Relay.Pool.{get_port}
use bevy_noray.Relay.Pool.Laws.{Grants, refused, granted, get_port-Grants}
use bevy_noray.Relay.Handler.{Handler, Listeners, Message, on_pool, create_relay}
use bevy_noray.Relay.Handler.Transmit.{relay}
use bevy_noray.Relay.Handler.Invariant.{IsHandler}
use bevy_noray.Relay.Handler.Invariant.Creating.{shrunk-IsHandler, create_relay-IsHandler}
use bevy_noray.Relay.Handler.Invariant.Relaying.{DropKeeps, relay-IsHandler}
use bevy_noray.Relay.Dynamic.{
  Dynamic, Job, buffer_key, start_relay, settle, start, buffer_or_start, handle, relay_all,
  forget_buffer, resume,
}

module _ {L : Type 0} where
  -- The listeners' state is no part of the invariant.
  pub relisten : {h : Handler L} (l : L) → IsHandler h → IsHandler (record h { listeners = l })
  relisten l v = record { pool_ok = v.pool_ok; table_ok = v.table_ok; gauge_ok = v.gauge_ok }

  from_grant :
      (h : Handler L) (g : Outcome ℕ × _)
      → Grants h.pool g
      → IsHandler h
      → IsHandler (record h { pool = g.1 })
  from_grant h g (refused e) v = record {
    pool_ok = v.pool_ok;
    table_ok = v.table_ok;
    gauge_ok = v.gauge_ok;
  }
  from_grant h g (granted port rest f _ _ _) v = shrunk-IsHandler port rest h h.listeners f v

  pub get_port-IsHandler : (h : Handler L) → IsHandler h → IsHandler (on_pool get_port h).1
  get_port-IsHandler h v = from_grant h (get_port h.pool) (get_port-Grants h.pool v.pool_ok) v

module _ {L : Type 0} (ls : Listeners (Dynamic L)) where
  start_relay-IsHandler :
      (now : ℕ) (sender : NetAddress) (h : Handler (Dynamic L))
      → IsHandler h
      → IsHandler (start_relay ls now sender h).1
  unfolding start_relay
  start_relay-IsHandler now sender h v =
      >>=_keeps (on_pool get_port) (λ port. create_relay ls now (new_entry now sender port)) h
        IsHandler (get_port-IsHandler h v)
        (λ port _. create_relay-IsHandler ls now _ _ (get_port-IsHandler h v))

  settle-IsHandler :
      (job : Job) (r : Outcome RelayEntry × Handler (Dynamic L))
      → IsHandler r.1
      → IsHandler (settle ls job r)
  unfolding settle
  settle-IsHandler job (ok e, h) v = relisten _ v
  settle-IsHandler job (throws x, h) v = relisten _ v

  start-IsHandler :
      (now : ℕ) (sender : NetAddress) (target : ℕ) (msg : Message) (h : Handler (Dynamic L))
      → IsHandler h
      → IsHandler (start ls now sender target msg h)
  unfolding start
  start-IsHandler now sender target msg h v =
      settle-IsHandler _ _ (start_relay-IsHandler now sender _ (relisten _ v))

  buffer_or_start-IsHandler :
      (now : ℕ) (sender : NetAddress) (target : ℕ) (msg : Message) (h : Handler (Dynamic L))
      → IsHandler h
      → IsHandler (buffer_or_start ls now sender target msg h)
  unfolding buffer_or_start
  buffer_or_start-IsHandler now sender target msg h v =
      elim (Option-cases (lookup (buffer_key sender target) h.listeners.buffers)) [
        | inl e ↦ rw (e, buffer_or_start) (start-IsHandler now sender target msg h v)
        | inr (msgs, e) ↦ rw (e, buffer_or_start) (relisten _ v)
      ]

  -- The 'drop' listener of dynamic relaying keeps the handler well-formed, also when no port is left.
  pub handle-DropKeeps : DropKeeps ls (handle ls)
  unfolding handle
  handle-DropKeeps now (some s) t sender target msg h v = v
  handle-DropKeeps now none none sender target msg h v = v
  handle-DropKeeps now none (some t) sender target msg h v =
      buffer_or_start-IsHandler now sender target msg h v

  relay_all-IsHandler :
      (now : ℕ) (msgs : List Message) (sender : NetAddress) (target : ℕ) (h : Handler (Dynamic L))
      → IsHandler h
      → IsHandler (relay_all ls now msgs sender target h).1
  unfolding relay_all
  relay_all-IsHandler now [] sender target h v = v
  relay_all-IsHandler now (msg ∷ msgs) sender target h v =
      let w = relay-IsHandler ls (handle ls) now msg sender target h handle-DropKeeps v in
      >>=_keeps (relay ls (handle ls) now msg sender target)
        (λ _. relay_all ls now msgs sender target) h IsHandler w
        (λ b _. relay_all-IsHandler now msgs sender target _ w)

  -- The rest of `#handle` keeps the handler well-formed, whatever the listeners of 'transmit' do to
  -- the datagrams that were buffered.
  pub resume-IsHandler :
      (now : ℕ) (job : Job) (h : Handler (Dynamic L))
      → IsHandler h
      → IsHandler (resume ls now job h).1
  unfolding resume
  resume-IsHandler now job h v =
      let buffered : List Message = elim (lookup job.key h.listeners.buffers) [
        | none ↦ []
        | some msgs ↦ msgs
      ] in
      let w = relay_all-IsHandler now buffered job.sender_address job.target_port h v in
      >>=_keeps (relay_all ls now buffered job.sender_address job.target_port)
        (λ _. forget_buffer ls job.key) h IsHandler w (λ u _. relisten _ w)
