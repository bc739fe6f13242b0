-- ===== src/Relay/Handler/Releasing.antt =====
-- noray/src/relay/udp.relay.handler.mjs, `freeRelay`: what it does to a well-formed handler.
use bevy_noray.Base.{
  ◌∙◌, sym, ap, ℕ, nat_eq, ◌≡◌, refl, inl, inr, Option-cases, Bool, Bool-cases, true, false, not,
  none, some, List, [], ◌∷◌, arith, find_index-find, find, find_index, erase_idx, select, elem,
  Distinct, Outcome, ok, throws, Failure, suc,
}
use bevy_noray.Relay.Address.{address_eq, equals, equals_iff}
use bevy_noray.Relay.Entry.{RelayEntry, entry_equals}
use bevy_noray.Relay.Pool.{return_port}
use bevy_noray.Relay.Handler.{Handler, Listeners, free_relay, gauge_dec}
use bevy_noray.Relay.Handler.Accounting.{freed_pool}
use bevy_noray.Relay.Handler.Invariant.{IsHandler, addresses}
use bevy_noray.Relay.Handler.Invariant.Table.{find-find_index}
use bevy_noray.Relay.Handler.Invariant.Freeing.{
  Agrees, Frees, absent, vetoed, freed, free_relay-Frees,
}

-- The relays of other addresses.
abbrev pub others : RelayEntry → List RelayEntry → List RelayEntry
others relay es = select (λ e. not (entry_equals e relay)) es

others-absent :
    (relay : RelayEntry) (es : List RelayEntry)
    → elem relay.address (addresses es) ≡ false
    → others relay es ≡ es
unfolding entry_equals
others-absent relay [] n = refl
others-absent relay (x ∷ es) n = ground (
  arith,
  n,
  others-absent relay es,
  equals_iff x.address relay.address,
  equals_iff relay.address x.address,
)

-- The index of the address's relay is that of the only one.
others-erase_idx :
    (relay : RelayEntry) (es : List RelayEntry) (i : ℕ)
    → find_index (λ x. entry_equals x relay) es ≡ some i
    → Distinct (addresses es)
    → erase_idx es i ≡ others relay es
unfolding entry_equals
others-erase_idx relay [] i s d = absurd (ground (arith, s))
others-erase_idx relay (x ∷ es) i s d = elim (Bool-cases (equals x.address relay.address)) [
  | inl hit ↦
      let here : i ≡ 0 = ground (arith, s, hit) in
      let same : relay.address ≡ x.address = sym ((equals_iff x.address relay.address).0 hit) in
      let rest : others relay es ≡ es = others-absent relay es (rw same d.0) in
      rw here (ground (arith, hit, rest))
  | inr miss ↦ elim (Option-cases (find_index (λ x. entry_equals x relay) es)) [
    | inl n ↦ absurd (ground (arith, s, miss, n))
    | inr (j, t) ↦
        let there : i ≡ suc j = ground (arith, s, miss, t) in
        let rest : erase_idx es j ≡ others relay es = others-erase_idx relay es j t d.1 in
        rw there (ground (arith, miss, rest))
  ]
]

module _ {L : Type 0} (ls : Listeners L) (now : ℕ) (relay : RelayEntry) (h : Handler L) where
  -- How `freeRelay` ends.
  pub data Releases : Outcome Bool × Handler L → Type 0 where
    unknown : find (λ x. entry_equals x relay) h.table ≡ none → Releases (ok false, h)
    refused :
        (e : RelayEntry) (l : L) (x : Failure)
        → find (λ x. entry_equals x relay) h.table ≡ some e
        → ls.on_destroy now relay h.listeners ≡ (throws x, l)
        → Releases (throws x, record h { listeners = l })
    released :
        (e : RelayEntry) (l : L)
        → find (λ x. entry_equals x relay) h.table ≡ some e
        → ls.on_destroy now relay h.listeners ≡ (ok tt, l)
        → Releases (
          ok true,
          record h {
            pool = record h.pool { free_ports = e.port ∷ h.pool.free_ports };
            table = others relay h.table;
            listeners = l;
            trace = gauge_dec ∷ h.trace;
          },
        )

  Frees-Releases :
      {r : Outcome Bool × Handler L}
      → Frees ls now relay h r
      → Agrees h.table relay
      → IsHandler h
      → Releases r
  Frees-Releases (absent n) a v =
      unknown (ground (arith, n, find_index-find (λ x. entry_equals x relay) h.table))
  Frees-Releases (vetoed i l x s c) a v =
      let (e, f) = find-find_index (λ x. entry_equals x relay) h.table i s in refused e l x f c
  Frees-Releases (freed i l s c) a v =
      let (e, f) = find-find_index (λ x. entry_equals x relay) h.table i s in
      let back : return_port relay.port h.pool
          ≡ record h.pool { free_ports = e.port ∷ h.pool.free_ports } =
        freed_pool ls relay h i s a v
        ∙ ap (λ q. record h.pool { free_ports = q ∷ h.pool.free_ports }) (sym (a e f)) in
      rw (back, others-erase_idx relay h.table i s v.table_ok.addresses_once) (released e l f c)

  -- In a well-formed handler, where the table's relay for the address, if there is one, has the same
  -- port, `freeRelay` returns false and changes nothing for an address without a relay. For one with a
  -- relay it throws what a listener of 'destroy' throws, and only the listeners' state has changed; or
  -- the port of the address's relay comes on top of the free ports, and exactly the relays of other
  -- addresses are left, in their order.
  pub free_relay-Releases :
      Agrees h.table relay → IsHandler h → Releases (free_relay ls now relay h)
  free_relay-Releases a v = Frees-Releases (free_relay-Frees ls now relay h) a v
