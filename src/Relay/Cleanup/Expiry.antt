-- ===== src/Relay/Cleanup/Expiry.antt =====
-- noray/src/relay/udp.relay.cleanup.mjs: which relays a cleanup frees.
use bevy_noray.Base.{
  ◌∙◌, ℕ, nat_eq, suc, ◌≡◌, refl, ap, sym, inl, inr, Bool-cases, true, false, not, some, List, [],
  ◌∷◌, ◌++◌, append_assoc, arith, elem, elem-append, find_index, erase_idx, select, Distinct, ok,
  >>=_of_ok, >>=_keeps, ◌>>◌,
}
use bevy_noray.Relay.Address.{address_eq, equals_iff}
use bevy_noray.Relay.Entry.{RelayEntry, entry_equals}
use bevy_noray.Relay.Handler.{Handler, Listeners, free_relay, note, expired_inc}
use bevy_noray.Relay.Handler.Invariant.{addresses, IsHandler}
use bevy_noray.Relay.Handler.Invariant.Freeing.{freed_at, free_relay_frees}
use bevy_noray.Relay.Handler.Invariant.Clearing.{
  Snapshot, self-Snapshot, Snapshot-select, free_relay-keeps,
}
use bevy_noray.Relay.Handler.Invariant.Table.{addresses-append}
use bevy_noray.Relay.Cleanup.{is_idle, expire_all, cleanup_udp_relay_table}

module _ {L : Type 0} (ls : Listeners L) (now : ℕ) where
  expire_all-IsHandler :
      (rs : List RelayEntry) (h : Handler L)
      → Snapshot h.table rs
      → IsHandler h
      → IsHandler (expire_all ls now rs h).1
  unfolding expire_all
  expire_all-IsHandler [] h s v = v
  expire_all-IsHandler (e ∷ rs) h s v =
      let (w, s') = free_relay-keeps ls now e h rs s v in
      >>=_keeps (free_relay ls now e) (λ _. note expired_inc >> expire_all ls now rs) h IsHandler w
        (λ b _.
          expire_all-IsHandler rs _ s'
            (record { pool_ok = w.pool_ok; table_ok = w.table_ok; gauge_ok = w.gauge_ok }))

  -- A cleanup keeps the handler well-formed, whatever the listeners do.
  pub cleanup-IsHandler :
      (timeout : ℕ) (h : Handler L)
      → IsHandler h
      → IsHandler (cleanup_udp_relay_table ls now timeout h).1
  unfolding cleanup_udp_relay_table
  cleanup-IsHandler timeout h v =
      expire_all-IsHandler (select (is_idle timeout now) h.table) h
        (Snapshot-select (is_idle timeout now) h.table h.table
          (self-Snapshot h.table v.table_ok.addresses_once))
        v

-- `filter` by the index of a relay cuts it out of the table.
cut_out :
    (pre : List RelayEntry) (x : RelayEntry) (r : List RelayEntry)
    → elem x.address (addresses pre) ≡ false
    → (i : ℕ) × (find_index (λ e. entry_equals e x) (pre ++ x ∷ r) ≡ some i)
      × (erase_idx (pre ++ x ∷ r) i ≡ pre ++ r)
unfolding entry_equals
cut_out [] x r h = (0, ground (arith, equals_iff x.address x.address), refl)
cut_out (y ∷ pre) x r h =
    let (i, f, e) = cut_out pre x r (ground arith) in (suc i, ground (arith, f), ap (◌∷◌ y) e)

-- What stands before a relay of a table has other addresses.
apart :
    (pre : List RelayEntry) (x : RelayEntry) (r : List RelayEntry)
    → Distinct (addresses (pre ++ x ∷ r))
    → (elem x.address (addresses pre) ≡ false) × Distinct (addresses (pre ++ r))
apart [] x r d = (refl, d.1)
apart (y ∷ pre) x r d =
    let (a, b) = apart pre x r d.1 in
    ground (
      arith,
      a,
      b,
      addresses-append pre (x ∷ r),
      addresses-append pre r,
      elem-append y.address (addresses pre) (x.address ∷ addresses r),
      elem-append y.address (addresses pre) (addresses r),
      equals_iff x.address y.address,
      equals_iff y.address x.address,
    )

module _ {L : Type 0} (ls : Listeners L) (now timeout : ℕ)
    (quiet : (r : RelayEntry) (l : L) → (ls.on_destroy now r l).0 ≡ ok tt) where
  expire_all_exact :
      (pre rest : List RelayEntry) (h : Handler L)
      → h.table ≡ pre ++ rest
      → Distinct (addresses (pre ++ rest))
      → let (r, h') = expire_all ls now (select (is_idle timeout now) rest) h in
        (r ≡ ok tt) × (h'.table ≡ pre ++ select (λ e. not (is_idle timeout now e)) rest)
  unfolding expire_all
  expire_all_exact pre [] h e d = (refl, e)
  expire_all_exact pre (x ∷ rest) h e d = elim (Bool-cases (is_idle timeout now x)) [
    | inl idle ↦
        let (a, d') = apart pre x rest d in
        let (i, f, c) = cut_out pre x rest a in
        let h' = freed_at ls now x h i (ls.on_destroy now x h.listeners).1 in
        let step : free_relay ls now x h ≡ (ok true, h') =
          free_relay_frees ls now x h i (rw e f) (quiet x h.listeners) in
        rw
          (
            idle,
            >>=_of_ok (free_relay ls now x)
                (λ _. note expired_inc >> expire_all ls now (select (is_idle timeout now) rest)) h
                true (ap (λ r. r.0) step),
            step,
          )
          (expire_all_exact pre rest (record h' { trace = expired_inc ∷ h'.trace }) (rw e c) d')
    | inr busy ↦
        rw (busy, ← append_assoc pre (x ∷ []) (select (λ e. not (is_idle timeout now e)) rest))
          (expire_all_exact (pre ++ x ∷ []) rest h (e ∙ sym (append_assoc pre (x ∷ []) rest))
            (rw (append_assoc pre (x ∷ []) rest) d))
  ]

  -- After a cleanup whose 'destroy' listeners do not throw, the table has exactly the relays that have
  -- sent or received within the timeout, in their old order.
  pub cleanup_exact :
      (h : Handler L)
      → IsHandler h
      → ((cleanup_udp_relay_table ls now timeout h).0 ≡ ok tt)
        × ((cleanup_udp_relay_table ls now timeout h).1.table
            ≡ select (λ e. not (is_idle timeout now e)) h.table)
  unfolding cleanup_udp_relay_table
  cleanup_exact h v = expire_all_exact [] h.table h refl v.table_ok.addresses_once
