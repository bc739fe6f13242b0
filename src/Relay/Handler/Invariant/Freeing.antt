-- ===== src/Relay/Handler/Invariant/Freeing.antt =====
-- noray/src/relay/udp.relay.handler.mjs, `freeRelay` and `clear`: they keep the invariant on every
-- branch, with any listeners, where the relays that are freed are those of the table.
use bevy_noray.Base.{
  sym, ℕ, nat_eq, ◌≡◌, inl, inr, Option-cases, Bool, true, false, none, some, List, ◌∷◌, arith,
  find, find_index, erase_idx, Outcome, Outcome-cases, ok, throws, Failure,
}
use bevy_noray.Relay.Entry.{RelayEntry, entry_equals}
use bevy_noray.Relay.Pool.{return_port}
use bevy_noray.Relay.Handler.{Handler, Listeners, free_relay, gauge_dec}
use bevy_noray.Relay.Handler.Invariant.{IsHandler}
use bevy_noray.Relay.Handler.Invariant.Table.{
  find-find_index, length-erase_idx, removed_port, erase_idx-IsTable,
}

-- Where the table has a relay for the address, that relay has the same port.
abbrev pub Agrees : List RelayEntry → RelayEntry → Type 0
Agrees table relay =
    (e : RelayEntry) → find (λ x. entry_equals x relay) table ≡ some e → e.port ≡ relay.port

module _ {L : Type 0} (ls : Listeners L) (now : ℕ) (relay : RelayEntry) (h : Handler L) where
  -- The handler after the relay at an index of the table is gone.
  abbrev pub freed_at : ℕ → L → Handler L
  freed_at i l = record h {
    pool = return_port relay.port pool;
    table = erase_idx table i;
    listeners = l;
    trace = gauge_dec ∷ trace;
  }
    where
      open h use {pool, table, trace}

  -- How `freeRelay` ends.
  pub data Frees : Outcome Bool × Handler L → Type 0 where
    absent : find_index (λ x. entry_equals x relay) h.table ≡ none → Frees (ok false, h)
    vetoed :
        (i : ℕ) (l : L) (x : Failure)
        → find_index (λ x. entry_equals x relay) h.table ≡ some i
        → ls.on_destroy now relay h.listeners ≡ (throws x, l)
        → Frees (throws x, record h { listeners = l })
    freed :
        (i : ℕ) (l : L)
        → find_index (λ x. entry_equals x relay) h.table ≡ some i
        → ls.on_destroy now relay h.listeners ≡ (ok tt, l)
        → Frees (ok true, freed_at i l)

  -- `freeRelay` returns false and changes nothing for an unknown address; a listener may throw, and
  -- then only the listeners' state has changed; or the entry is removed and its port given back.
  pub free_relay-Frees : Frees (free_relay ls now relay h)
  unfolding free_relay
  free_relay-Frees = elim (Option-cases (find_index (λ x. entry_equals x relay) h.table)) [
    | inl n ↦ let eq : free_relay ls now relay h ≡ (ok false, h) = ground arith in rw eq (absent n)
    | inr (i, s) ↦
        let l : L = (ls.on_destroy now relay h.listeners).1 in
        elim (Outcome-cases (ls.on_destroy now relay h.listeners).0) [
          | inl (u, c) ↦
              let eq : free_relay ls now relay h ≡ (ok true, freed_at i l) = ground arith in
              rw eq (freed i l s (ground arith))
          | inr (x, c) ↦
              let eq : free_relay ls now relay h ≡ (throws x, record h { listeners = l }) =
                ground arith in
              rw eq (vetoed i l x s (ground arith))
        ]
  ]

  freed-IsHandler :
      (i : ℕ) (l : L)
      → find_index (λ x. entry_equals x relay) h.table ≡ some i
      → Agrees h.table relay
      → IsHandler h
      → IsHandler (freed_at i l)
  unfolding return_port
  freed-IsHandler i l s a v =
      let (e, f) = find-find_index (λ x. entry_equals x relay) h.table i s in
      let gone = removed_port (λ x. entry_equals x relay) h.table i e s f v.table_ok.ports_once in
      let busy = v.table_ok.busy e.port gone.0 in
      let wired = v.table_ok.wired e.port gone.0 in
      let same : relay.port ≡ e.port = sym (a e f) in
      rw (same, return_port, wired)
        (record {
          pool_ok = record {
            bound = λ q b. ground (arith, v.pool_ok.bound q);
            free_once = (busy, v.pool_ok.free_once);
            bound_once = v.pool_ok.bound_once;
          };
          table_ok = erase_idx-IsTable h.pool h.table i e.port gone.1 v.table_ok;
          gauge_ok =
              omega (arith, v.gauge_ok, length-erase_idx (λ x. entry_equals x relay) h.table i s);
        })

  Frees-IsHandler :
      {r : Outcome Bool × Handler L} → Frees r → Agrees h.table relay → IsHandler h → IsHandler r.1
  Frees-IsHandler (absent n) a v = v
  Frees-IsHandler (vetoed i l x _ _) a v = record {
    pool_ok = v.pool_ok;
    table_ok = v.table_ok;
    gauge_ok = v.gauge_ok;
  }
  Frees-IsHandler (freed i l s _) a v = freed-IsHandler i l s a v

  -- `freeRelay` keeps the handler well-formed, on every branch and whatever the listeners do, when it
  -- is given a relay whose port agrees with the table.
  pub free_relay-IsHandler :
      Agrees h.table relay → IsHandler h → IsHandler (free_relay ls now relay h).1
  free_relay-IsHandler a v = Frees-IsHandler free_relay-Frees a v

  -- A relay of the table is freed if no listener of 'destroy' objects.
  pub free_relay_frees :
      (i : ℕ)
      → find_index (λ x. entry_equals x relay) h.table ≡ some i
      → (ls.on_destroy now relay h.listeners).0 ≡ ok tt
      → free_relay ls now relay h ≡ (ok true, freed_at i (ls.on_destroy now relay h.listeners).1)
  unfolding free_relay
  free_relay_frees i s c = ground arith
