-- ===== src/Relay/Dynamic.antt =====
-- noray/src/relay/dynamic.relaying.mjs. `#handle` is an async function: it runs up to its `await`
-- within the 'drop' event, and the rest is a job that runs later. A failure before the `await`
-- rejects the promise, which nobody awaits: it is not thrown into the event.
pub mod Keeping
pub mod Leak
pub mod Loss
pub mod Replay
pub mod Waiting
pub mod Finishing
pub mod Carrying
use bevy_noray.Base.{
  ℕ, ◌+◌, Bool, Option, none, some, List, [], ◌∷◌, ◌++◌, if◌then◌else◌, has, Text, text_eq, codes,
  to_string, Store, lookup, insert, erase, Outcome, ok, throws, Failure, Action, pure, throw, ◌>>=◌,
  ◌>>◌,
}
use bevy_noray.Relay.Address.{NetAddress, address_to_string}
use bevy_noray.Relay.Entry.{RelayEntry, new_entry}
use bevy_noray.Relay.Pool.{get_port}
use bevy_noray.Relay.Handler.{Handler, Listeners, DropListener, Message, on_pool, create_relay}
use bevy_noray.Relay.Handler.Transmit.{relay}

-- What a call of `#handle` will go on with after its `await`.
pub record Job : Type 0 where
  pub key : Text
  pub sender_address : NetAddress
  pub target_port : ℕ

-- The state of the listeners: that of the constraints, the buffers by key, the jobs that wait, oldest
-- first, and the rejections that nobody handled.
pub record Dynamic (L : Type 0) : Type 0 where
  pub inner : L
  pub buffers : Store Text (List Message)
  pub jobs : List Job
  pub unhandled : List Failure

unfoldable pub buffer_key : NetAddress → ℕ → Text
buffer_key sender target = address_to_string sender ++ (codes ">" ++ to_string target)

module _ {L : Type 0} where
  -- The listeners of the other events, on the larger state.
  lift_action : Action L (Unit {0}) → Action (Dynamic L) (Unit {0})
  lift_action m d = let (r, l) = m d.inner in (r, record d { inner = l })

  unfoldable pub with_dynamic : Listeners L → Listeners (Dynamic L)
  unfolding lift_action
  with_dynamic ls = record {
    on_create = λ now r. lift_action (ls.on_create now r);
    on_transmit = λ now s t msg. lift_action (ls.on_transmit now s t msg);
    on_destroy = λ now r. lift_action (ls.on_destroy now r);
  }

  set_buffer : Text → List Message → Handler (Dynamic L) → Handler (Dynamic L)
  set_buffer key msgs h = record h { listeners = record d { buffers = insert key msgs d.buffers } }
    where
      d : Dynamic L
      d = h.listeners

  wait_for : Job → Handler (Dynamic L) → Handler (Dynamic L)
  wait_for job h = record h { listeners = record d { jobs = d.jobs ++ job ∷ [] } }
    where
      d : Dynamic L
      d = h.listeners

  reject : Failure → Handler (Dynamic L) → Handler (Dynamic L)
  reject e h = record h { listeners = record d { unhandled = e ∷ d.unhandled } }
    where
      d : Dynamic L
      d = h.listeners

module _ {L : Type 0} (ls : Listeners (Dynamic L)) where
  -- The port taken here goes into the entry, whose port `createRelay` then overwrites.
  start_relay : ℕ → NetAddress → Action (Handler (Dynamic L)) RelayEntry
  start_relay now sender = do
    port ← on_pool get_port
    create_relay ls now (new_entry now sender port)

  -- The call up to the `await`: an error becomes a rejected promise.
  settle : Job → Outcome RelayEntry × Handler (Dynamic L) → Handler (Dynamic L)
  unfolding wait_for reject
  settle job (ok r, h) = wait_for job h
  settle job (throws e, h) = reject e h

  start : ℕ → NetAddress → ℕ → Message → Handler (Dynamic L) → Handler (Dynamic L)
  unfolding start_relay settle set_buffer
  start now sender target msg h =
      let key = buffer_key sender target in
      settle (record { key = key; sender_address = sender; target_port = target })
        (start_relay now sender (set_buffer key (msg ∷ []) h))

  buffer_or_start : ℕ → NetAddress → ℕ → Message → Handler (Dynamic L) → Handler (Dynamic L)
  unfolding start
  buffer_or_start now sender target msg h =
      elim (lookup (buffer_key sender target) h.listeners.buffers) [
        | some msgs ↦ set_buffer (buffer_key sender target) (msgs ++ msg ∷ []) h
        | none ↦ start now sender target msg h
      ]

  -- `#handle`, as the listener of 'drop'.
  unfoldable pub handle : DropListener (Dynamic L)
  unfolding buffer_or_start
  handle now (some s) target_relay sender target msg h = (ok tt, h)
  handle now none none sender target msg h = (ok tt, h)
  handle now none (some t) sender target msg h = (ok tt, buffer_or_start now sender target msg h)

  -- `buffers.get(key)?.forEach(msg => relayHandler.relay(msg, senderAddress, targetPort))`
  unfoldable pub relay_all :
      ℕ → List Message → NetAddress → ℕ → Action (Handler (Dynamic L)) (Unit {0})
  relay_all now [] sender target = pure tt
  relay_all now (msg ∷ msgs) sender target =
      relay ls handle now msg sender target >> relay_all now msgs sender target

  forget_buffer : Text → Action (Handler (Dynamic L)) (Unit {0})
  forget_buffer key h = (ok tt, record h { listeners = record d { buffers = erase key d.buffers } })
    where
      d : Dynamic L
      d = h.listeners

  -- The rest of `#handle`, behind the `await`.
  unfoldable pub resume : ℕ → Job → Action (Handler (Dynamic L)) (Unit {0})
  unfolding relay_all forget_buffer
  resume now job h =
      (relay_all now (elim (lookup job.key h.listeners.buffers) [ none ↦ [] | some msgs ↦ msgs ])
            job.sender_address job.target_port
          >> forget_buffer job.key)
        h
