-- ===== src/Relay/Handler/Invariant/Clearing.antt =====
-- noray/src/relay/udp.relay.handler.mjs, `clear`, and any loop that frees relays of a copy of the
-- table.
use bevy_noray.Base.{
  >>=_of_ok, >>=_keeps, suc, ℕ, nat_eq, zero, ◌≡◌, refl, inl, inr, Bool-cases, Bool, true, false,
  List, [], ◌∷◌, arith, elem, erase_idx, select, Distinct, Outcome, ok,
}
use bevy_noray.Relay.Address.{address_eq, equals_iff}
use bevy_noray.Relay.Entry.{RelayEntry, entry_equals}
use bevy_noray.Relay.Handler.{Handler, Listeners, free_relay, free_all, clear, gauge_reset, note}
use bevy_noray.Relay.Handler.Invariant.{addresses, IsHandler, gauge}
use bevy_noray.Relay.Handler.Invariant.Freeing.{
  Agrees, Frees, absent, vetoed, freed, free_relay-Frees, free_relay-IsHandler,
}

-- Every relay of the table for the address has the same port.
abbrev pub Matches : List RelayEntry → RelayEntry → Type 0
Matches [] relay = Unit {0}
Matches (e ∷ es) relay = (entry_equals e relay ≡ true → e.port ≡ relay.port) × Matches es relay

abbrev pub Snapshot : List RelayEntry → List RelayEntry → Type 0
Snapshot table [] = Unit {0}
Snapshot table (r ∷ rs) = Matches table r × Snapshot table rs

pub Matches-Agrees : (es : List RelayEntry) (r : RelayEntry) → Matches es r → Agrees es r
Matches-Agrees [] r m e f = cc
Matches-Agrees (x ∷ es) r m e f = ground (arith, Matches-Agrees es r m.1 e)

Matches-erase_idx :
    (es : List RelayEntry) (i : ℕ) (r : RelayEntry) → Matches es r → Matches (erase_idx es i) r
Matches-erase_idx [] i r m = tt
Matches-erase_idx (x ∷ es) zero r m = m.1
Matches-erase_idx (x ∷ es) (suc i) r m = (m.0, Matches-erase_idx es i r m.1)

Snapshot-erase_idx :
    (es rs : List RelayEntry) (i : ℕ) → Snapshot es rs → Snapshot (erase_idx es i) rs
Snapshot-erase_idx es [] i s = tt
Snapshot-erase_idx es (r ∷ rs) i s = (Matches-erase_idx es i r s.0, Snapshot-erase_idx es rs i s.1)

absent-Matches :
    (es : List RelayEntry) (r : RelayEntry) → elem r.address (addresses es) ≡ false → Matches es r
unfolding entry_equals
absent-Matches [] r h = tt
absent-Matches (x ∷ es) r h = (λ e. ground arith, absent-Matches es r (ground arith))

Snapshot-cons :
    (x : RelayEntry) (es rs : List RelayEntry)
    → elem x.address (addresses rs) ≡ false
    → Snapshot es rs
    → Snapshot (x ∷ es) rs
unfolding entry_equals
Snapshot-cons x es [] h s = tt
Snapshot-cons x es (r ∷ rs) h s = (
  (λ e. ground (arith, equals_iff x.address r.address, equals_iff r.address x.address), s.0),
  Snapshot-cons x es rs (ground arith) s.1,
)

-- A table agrees with the copy of itself.
pub self-Snapshot : (es : List RelayEntry) → Distinct (addresses es) → Snapshot es es
self-Snapshot [] d = tt
self-Snapshot (x ∷ es) d =
    ((λ e. refl, absent-Matches es x d.0), Snapshot-cons x es es d.0 (self-Snapshot es d.1))

pub Snapshot-select :
    (t : RelayEntry → Bool) (es rs : List RelayEntry) → Snapshot es rs → Snapshot es (select t rs)
Snapshot-select t es [] s = tt
Snapshot-select t es (r ∷ rs) s = elim (Bool-cases (t r)) [
  | inl e ↦ rw e (s.0, Snapshot-select t es rs s.1)
  | inr e ↦ rw e (Snapshot-select t es rs s.1)
]

module _ {L : Type 0} (ls : Listeners L) (now : ℕ) where
  Frees-Snapshot :
      (e : RelayEntry) (h : Handler L) (rs : List RelayEntry) {r : Outcome Bool × Handler L}
      → Frees ls now e h r
      → Snapshot h.table rs
      → Snapshot r.1.table rs
  Frees-Snapshot e h rs (absent n) s = s
  Frees-Snapshot e h rs (vetoed i l x _ _) s = s
  Frees-Snapshot e h rs (freed i l f _) s = Snapshot-erase_idx h.table rs i s

  -- A freed relay leaves a handler that is well-formed and still agrees with the copy.
  pub free_relay-keeps :
      (e : RelayEntry) (h : Handler L) (rs : List RelayEntry)
      → Snapshot h.table (e ∷ rs)
      → IsHandler h
      → IsHandler (free_relay ls now e h).1 × Snapshot (free_relay ls now e h).1.table rs
  free_relay-keeps e h rs s v = (
    free_relay-IsHandler ls now e h (Matches-Agrees h.table e s.0) v,
    Frees-Snapshot e h rs (free_relay-Frees ls now e h) s.1,
  )

  pub free_all-IsHandler :
      (rs : List RelayEntry) (h : Handler L)
      → Snapshot h.table rs
      → IsHandler h
      → IsHandler (free_all ls now rs h).1
  unfolding free_all
  free_all-IsHandler [] h s v = v
  free_all-IsHandler (e ∷ rs) h s v =
      let (v', s') = free_relay-keeps e h rs s v in
      >>=_keeps (free_relay ls now e) (λ _. free_all ls now rs) h IsHandler v'
        (λ b _. free_all-IsHandler rs (free_relay ls now e h).1 s' v')

  free_head :
      (e : RelayEntry) (es : List RelayEntry) (h : Handler L)
      → ((r : RelayEntry) (l : L) → (ls.on_destroy now r l).0 ≡ ok tt)
      → h.table ≡ e ∷ es
      → ((free_relay ls now e h).0 ≡ ok true) × ((free_relay ls now e h).1.table ≡ es)
  unfolding free_relay entry_equals
  free_head e es h q t = ground (arith, q e h.listeners, equals_iff e.address e.address)

  -- Where no listener of 'destroy' throws, freeing the whole table empties it.
  pub free_all_empties :
      (es : List RelayEntry) (h : Handler L)
      → ((r : RelayEntry) (l : L) → (ls.on_destroy now r l).0 ≡ ok tt)
      → h.table ≡ es
      → ((free_all ls now es h).0 ≡ ok tt) × ((free_all ls now es h).1.table ≡ [])
  unfolding free_all
  free_all_empties [] h q t = (refl, t)
  free_all_empties (e ∷ es) h q t =
      let step = free_head e es h q t in
      rw (>>=_of_ok (free_relay ls now e) (λ _. free_all ls now es) h true step.0)
        (free_all_empties es (free_relay ls now e h).1 q step.1)

  clear-IsHandler_lem : (h : Handler L) → IsHandler h → IsHandler (free_all ls now h.table h).1
  clear-IsHandler_lem h v =
      free_all-IsHandler h.table h (self-Snapshot h.table v.table_ok.addresses_once) v

  -- `clear` on a well-formed handler whose 'destroy' listeners do not throw returns, leaves no relay,
  -- and leaves the handler well-formed, so that the gauge shows zero.
  pub clear_empties :
      (h : Handler L)
      → ((r : RelayEntry) (l : L) → (ls.on_destroy now r l).0 ≡ ok tt)
      → IsHandler h
      → ((clear ls now h).0 ≡ ok tt)
        × ((clear ls now h).1.table ≡ [])
        × (gauge (clear ls now h).1.trace ≡ 0)
        × IsHandler (clear ls now h).1
  unfolding clear
  clear_empties h q v =
      let (r, t) = free_all_empties h.table h q refl in
      let w = clear-IsHandler_lem h v in
      rw (>>=_of_ok (free_all ls now h.table) (λ _. note gauge_reset) h tt r)
        (refl, t, refl, record { pool_ok = w.pool_ok; table_ok = w.table_ok; gauge_ok = rw t })
