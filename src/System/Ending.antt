-- ===== src/System/Ending.antt =====
-- noray/src/relay/relay.mjs: the listener of 'close', which ends the relay module.
use bevy_noray.Base.{
  sym, subst, not_running, throws, false, Bool, ℕ, nat_eq, ◌≡◌, refl, ap, ◌∙◌, true, List, [], ◌∷◌,
  has, lookup, elem, Outcome, ok, >>=_of_ok, >>=_keeps,
}
use bevy_noray.Relay.Entry.{RelayEntry}
use bevy_noray.Relay.Pool.{return_port}
use bevy_noray.Relay.Pool
use bevy_noray.Relay.Pool.Laws.{clear_releases}
use bevy_noray.Relay.Handler.{Handler, Listeners, free_relay, free_all, note, gauge_reset}
use bevy_noray.Relay.Handler
use bevy_noray.Relay.Handler.Invariant.{gauge}
use bevy_noray.Relay.Handler.Invariant.Freeing.{Frees, absent, vetoed, freed, free_relay-Frees}
use bevy_noray.Relay.Handler.Invariant.Clearing.{free_all_empties}
use bevy_noray.Server.{on_relays, Server}
use bevy_noray.Server.Invariant.{IsServer}
use bevy_noray.System.Framing.{attached-quiet}
use bevy_noray.System.{
  RelayModule, clear_relays, clear_pool, close_registrar, clear_interval, Settings, State, attached,
  shutdown,
}

module _ {L : Type 0} (ls : Listeners L) (now : ℕ) where
  -- A relay whose port has no socket gives nothing back to the pool.
  Frees-pool :
      (e : RelayEntry) (h : Handler L) {r : Outcome Bool × Handler L}
      → Frees ls now e h r
      → h.pool.sockets ≡ []
      → r.1.pool ≡ h.pool
  unfolding return_port lookup
  Frees-pool e h (absent n) s = refl
  Frees-pool e h (vetoed i l x _ _) s = refl
  Frees-pool e h (freed i l f _) s = rw (s, return_port) refl

  free_all-pool :
      (es : List RelayEntry) (h : Handler L)
      → h.pool.sockets ≡ []
      → (free_all ls now es h).1.pool ≡ h.pool
  unfolding free_all
  free_all-pool [] h s = refl
  free_all-pool (e ∷ es) h s =
      let one = Frees-pool e h (free_relay-Frees ls now e h) s in
      >>=_keeps (free_relay ls now e) (λ _. free_all ls now es) h (λ h'. h'.pool ≡ h.pool) one
        (λ b _. free_all-pool es (free_relay ls now e h).1 (ap (λ p. p.sockets) one ∙ s) ∙ one)

module _ (c : Settings) (now : ℕ) where
  -- The pool is cleared first, and then the handler.
  abbrev cleared : Server State → Outcome (Unit {0}) × Server State
  cleared s =
      on_relays (Handler.clear (attached c) now)
        (record s { relays = record s.relays { pool = Pool.clear s.relays.pool } })

  cleared_releases :
      (s : Server State)
      → IsServer s
      → let (r, s') = cleared s in
        (r ≡ ok tt)
        × (s'.relays.table ≡ [])
        × (gauge s'.relays.trace ≡ 0)
        × (s'.relays.pool.sockets ≡ [])
        × (s'.relays.pool.free_ports ≡ [])
        × ((q : ℕ) → has q s.relays.pool.sockets ≡ true → elem q s'.relays.pool.closed ≡ true)
        × (s'.hosts ≡ s.hosts)
  unfolding Handler.clear
  cleared_releases s v =
      let h : Handler State = s.relays in
      let h0 : Handler State = record h { pool = Pool.clear h.pool } in
      let (none_left, none_free, closed) = clear_releases h.pool v.relays_ok.pool_ok in
      let (r, t) = free_all_empties (attached c) now h.table h0 (attached-quiet c now) refl in
      let p = free_all-pool (attached c) now h.table h0 none_left in
      rw (>>=_of_ok (free_all (attached c) now h.table) (λ _. note gauge_reset) h0 tt r) (
        refl,
        t,
        refl,
        ap (λ x. x.sockets) p ∙ none_left,
        ap (λ x. x.free_ports) p ∙ none_free,
        (λ q b. ap (λ x. elem q x.closed) p ∙ closed q b),
        refl,
      )

  shutdown_open :
      (running : Bool) (s : Server State)
      → shutdown c now (record { cleaning = running; registrar_open = true; server = s }) ≡ (
        (cleared s).0,
        record { cleaning = false; registrar_open = false; server = (cleared s).1 },
      )
  unfolding shutdown clear_interval close_registrar clear_pool clear_relays
  shutdown_open running s = refl

  shutdown_ended :
      (s : Server State)
      → shutdown c now (record { cleaning = false; registrar_open = false; server = s })
        ≡ (throws not_running, record { cleaning = false; registrar_open = false; server = s })
  unfolding shutdown clear_interval close_registrar
  shutdown_ended s = refl

-- A shutdown of a well-formed relay module, whose registrar's socket is open, throws nothing,
-- ends the cleanup, closes the registrar's socket and every socket that was bound, leaves no socket, no
-- free port and no relay, and brings the gauge to zero; the hosts stay as they are. A shutdown after it
-- throws at the registrar's socket and changes nothing.
pub shutdown_releases :
    (c : Settings) (now later : ℕ) (m : RelayModule)
    → IsServer m.server
    → m.registrar_open ≡ true
    → let (r, m') = shutdown c now m in
      (r ≡ ok tt)
      × (m'.cleaning ≡ false)
      × (m'.registrar_open ≡ false)
      × (m'.server.relays.table ≡ [])
      × (gauge m'.server.relays.trace ≡ 0)
      × (m'.server.relays.pool.sockets ≡ [])
      × (m'.server.relays.pool.free_ports ≡ [])
      × ((q : ℕ)
          → has q m.server.relays.pool.sockets ≡ true
          → elem q m'.server.relays.pool.closed ≡ true)
      × (m'.server.hosts ≡ m.server.hosts)
      × (shutdown c later m' ≡ (throws not_running, m'))
shutdown_releases c now later m v o =
    let (r, t, g, s, f, k, e) = cleared_releases c now m.server v in
    let end : Outcome (Unit {0}) × RelayModule = (
      (cleared c now m.server).0,
      record { cleaning = false; registrar_open = false; server = (cleared c now m.server).1 },
    ) in
    let first =
      subst (λ b. shutdown c now (record m { registrar_open = b }) ≡ end) (sym o)
        (shutdown_open c now m.cleaning m.server) in
    rw first (r, refl, refl, t, g, s, f, k, e, shutdown_ended c later _)
