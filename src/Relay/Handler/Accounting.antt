-- ===== src/Relay/Handler/Accounting.antt =====
-- noray/src/relay/udp.relay.handler.mjs and noray/src/relay/udp.relay.cleanup.mjs: where the ports are.
use bevy_noray.Base.{
  ◌≤◌, Bool, ℕ, ◌+◌, suc, nat_eq, ◌≡◌, ◌∙◌, sym, refl, ap, inl, inr, Option-cases, some, Option,
  List, [], ◌∷◌, arith, length, length-append, find, find_index, select, Outcome, ok, >>=_keeps,
  ◌>>◌,
}
use bevy_noray.Relay.Address.{NetAddress}
use bevy_noray.Relay.Entry.{RelayEntry, entry_equals}
use bevy_noray.Relay.Pool.{return_port}
use bevy_noray.Relay.Handler.{
  Handler, Listeners, DropListener, Message, create_relay, free_relay, note, expired_inc, drop_inc,
  Effect,
}
use bevy_noray.Relay.Handler.Transmit.{relay}
use bevy_noray.Relay.Handler.Invariant.{IsHandler}
use bevy_noray.Relay.Handler.Invariant.Table.{find-find_index, length-erase_idx, removed_port}
use bevy_noray.Relay.Handler.Invariant.Creating.{
  Creates, full, rejected, created, add_relay-Creates,
}
use bevy_noray.Relay.Handler.Invariant.Freeing.{
  Agrees, Frees, absent, vetoed, freed, free_relay-Frees,
}
use bevy_noray.Relay.Handler.Invariant.Clearing.{
  Snapshot, Matches-Agrees, free_relay-keeps, self-Snapshot, Snapshot-select,
}
use bevy_noray.Relay.Handler.Invariant.Relaying.{
  Relays, dropped, drop_failed, stopped, blocked, sent, relay-Relays,
}
use bevy_noray.Relay.Handler.Invariant.Touching.{length-touched}
use bevy_noray.Relay.Cleanup.{is_idle, expire_all, cleanup_udp_relay_table}

-- How many datagrams were dropped.
abbrev pub drops : List Effect → ℕ
drops [] = 0
drops (drop_inc ∷ es) = suc (drops es)
drops (_ ∷ es) = drops es

-- The ports that are free, those of relays, and one for each datagram that was dropped.
abbrev pub worth : {L : Type 0} → Handler L → ℕ
worth h = length h.pool.free_ports + length h.table + drops h.trace

module _ {L : Type 0} (ls : Listeners L) where
  Creates-worth :
      (now : ℕ) (r : RelayEntry) (h : Handler L) {o : Outcome RelayEntry × Handler L}
      → ((e : RelayEntry) (l : L) → (ls.on_create now e l).0 ≡ ok tt)
      → Creates ls now r h o
      → worth o.1 ≡ worth h
  Creates-worth now r h q (full f) = refl
  Creates-worth now r h q (rejected port rest l e f c) =
      absurd (ground (arith, q (record r { port = port }) h.listeners, c))
  Creates-worth now r h q (created port rest l f c) = omega (
    arith,
    ap length f,
    length-append h.table (record r { port = port; last_received = now; created = now } ∷ []),
  )

  pub create_relay-worth :
      (now : ℕ) (r : RelayEntry) (h : Handler L)
      → ((e : RelayEntry) (l : L) → (ls.on_create now e l).0 ≡ ok tt)
      → IsHandler h
      → worth (create_relay ls now r h).1 ≡ worth h
  unfolding create_relay
  create_relay-worth now r h q v = elim (Option-cases (find (λ e. entry_equals e r) h.table)) [
    | inl n ↦
        rw (n, create_relay) (Creates-worth now r h q (add_relay-Creates ls now r h v.pool_ok))
    | inr (e, s) ↦ rw (s, create_relay) refl
  ]

  -- The port of a relay that is freed is on top of the free ports, and nothing else of the pool changes.
  pub freed_pool :
      (r : RelayEntry) (h : Handler L) (i : ℕ)
      → find_index (λ x. entry_equals x r) h.table ≡ some i
      → Agrees h.table r
      → IsHandler h
      → return_port r.port h.pool ≡ record h.pool { free_ports = r.port ∷ h.pool.free_ports }
  unfolding return_port
  freed_pool r h i s a v =
      let (e, f) = find-find_index (λ x. entry_equals x r) h.table i s in
      let gone = removed_port (λ x. entry_equals x r) h.table i e s f v.table_ok.ports_once in
      let same : r.port ≡ e.port = sym (a e f) in
      rw (same, return_port, v.table_ok.wired e.port gone.0) refl

  pub freed_port :
      (r : RelayEntry) (h : Handler L) (i : ℕ)
      → find_index (λ x. entry_equals x r) h.table ≡ some i
      → Agrees h.table r
      → IsHandler h
      → (return_port r.port h.pool).free_ports ≡ r.port ∷ h.pool.free_ports
  freed_port r h i s a v = ap (λ p. p.free_ports) (freed_pool r h i s a v)

  Frees-worth :
      (now : ℕ) (r : RelayEntry) (h : Handler L) {o : Outcome Bool × Handler L}
      → Frees ls now r h o
      → Agrees h.table r
      → IsHandler h
      → worth o.1 ≡ worth h
  Frees-worth now r h (absent n) a v = refl
  Frees-worth now r h (vetoed i l x _ _) a v = refl
  Frees-worth now r h (freed i l s _) a v = omega (
    arith,
    ap length (freed_port r h i s a v),
    length-erase_idx (λ x. entry_equals x r) h.table i s,
  )

  expire_all-worth :
      (now : ℕ) (rs : List RelayEntry) (h : Handler L)
      → Snapshot h.table rs
      → IsHandler h
      → worth (expire_all ls now rs h).1 ≡ worth h
  unfolding expire_all
  expire_all-worth now [] h s v = refl
  expire_all-worth now (e ∷ rs) h s v =
      let (w, s') = free_relay-keeps ls now e h rs s v in
      let one =
        Frees-worth now e h (free_relay-Frees ls now e h) (Matches-Agrees h.table e s.0) v in
      >>=_keeps (free_relay ls now e) (λ _. note expired_inc >> expire_all ls now rs) h
        (λ h'. worth h' ≡ worth h) one
        (λ b _.
          expire_all-worth now rs _ s'
            (record { pool_ok = w.pool_ok; table_ok = w.table_ok; gauge_ok = w.gauge_ok })
          ∙ one)

  pub cleanup-worth :
      (now timeout : ℕ) (h : Handler L)
      → IsHandler h
      → worth (cleanup_udp_relay_table ls now timeout h).1 ≡ worth h
  unfolding cleanup_udp_relay_table
  cleanup-worth now timeout h v =
      expire_all-worth now (select (is_idle timeout now) h.table) h
        (Snapshot-select (is_idle timeout now) h.table h.table
          (self-Snapshot h.table v.table_ok.addresses_once))
        v

  module _ (on_drop : DropListener L)
      (returns : (now : ℕ) (s t : Option RelayEntry) (sender : NetAddress) (target : ℕ)
          (msg : Message) (h : Handler L)
        → (on_drop now s t sender target msg h).0 ≡ ok tt)
      (loses : (now : ℕ) (s t : Option RelayEntry) (sender : NetAddress) (target : ℕ)
          (msg : Message) (h : Handler L)
        → IsHandler h
        → worth h ≤ suc (worth (on_drop now s t sender target msg h).1)) where
    Relays-worth :
        (now : ℕ) (msg : Message) (sender : NetAddress) (target : ℕ) (h : Handler L)
        {o : Outcome Bool × Handler L}
        → Relays ls on_drop now msg sender target h o
        → IsHandler h
        → worth h ≤ worth o.1
    Relays-worth now msg sender target h (dropped s t h' _ _ _ e) v =
        omega (arith, rw (ap (λ x. x.1) e) at (loses now s t sender target msg h v))
    Relays-worth now msg sender target h (drop_failed s t h' x _ _ _ e) v =
        absurd (ground (arith, returns now s t sender target msg h, ap (λ o. o.0) e))
    Relays-worth now msg sender target h (stopped s t _ _ _) v = omega arith
    Relays-worth now msg sender target h (blocked s t l x _ _ _ _) v = omega arith
    Relays-worth now msg sender target h (sent s t l _ _ _ _) v =
        omega (arith, length-touched now sender target h.table)

    pub relay-worth :
        (now : ℕ) (msg : Message) (sender : NetAddress) (target : ℕ) (h : Handler L)
        → IsHandler h
        → worth h ≤ worth (relay ls on_drop now msg sender target h).1
    relay-worth now msg sender target h v =
        Relays-worth now msg sender target h (relay-Relays ls on_drop now msg sender target h) v

-- A well-formed handler of at least a worth.
pub record IsWorth (n : ℕ) {L : Type 0} (h : Handler L) : Type 0 where
  pub well : IsHandler h
  pub least : n ≤ worth h
