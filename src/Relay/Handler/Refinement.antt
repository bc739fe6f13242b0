-- ===== src/Relay/Handler/Refinement.antt =====
-- noray/src/relay/udp.relay.handler.mjs: the relay table over the socket pool implements a map from
-- addresses to ports, with a stack of free ports.
use mathlib.Core.Path.{fun_ext}
use bevy_noray.Base.{
  subst, find_index-find, find_test, ℕ, nat_eq, ◌≡◌, ◌∙◌, ap, refl, inl, inr, Bool, true, false,
  Option, Option-cases, none, some, List, [], ◌∷◌, arith, find, find_index, erase_idx, Outcome, ok,
  throws, no_free_ports,
}
use bevy_noray.Relay.Address.{NetAddress, address_eq, equals, equals_iff}
use bevy_noray.Relay.Entry.{RelayEntry, entry_equals}
use bevy_noray.Relay.Handler.{Handler, Listeners, create_relay, free_relay}
use bevy_noray.Relay.Handler.Accounting.{freed_port}
use bevy_noray.Relay.Handler.Invariant.{IsHandler}
use bevy_noray.Relay.Handler.Invariant.Creating.{
  Creates, full, rejected, created, add_relay-Creates, create_relay-IsHandler,
}
use bevy_noray.Relay.Handler.Invariant.Freeing.{Agrees, free_relay_frees, free_relay-IsHandler}
use bevy_noray.Repository.Laws.{assign}
use bevy_noray.Relay.Handler.Routes.{
  find-route, route-append, route-erase_idx, found, unique, route,
}

-- The abstract state.
abbrev pub Routes : Type 0
Routes = (NetAddress → Option ℕ) × List ℕ

abbrev pub routes : {L : Type 0} → Handler L → Routes
routes h = (route h.table, h.pool.free_ports)

-- A call of `createRelay` at a time, or of `freeRelay` for the relay of an address, as the program frees
-- the table's own relays only.
pub data Call : Type 0 where
  creates : ℕ → RelayEntry → Call
  frees : ℕ → NetAddress → Call

-- The port of the relay that `createRelay` returns, or what `freeRelay` returns.
pub data Answer : Type 0 where
  on_port : Outcome ℕ → Answer
  was_freed : Outcome Bool → Answer

abbrev port_of : Outcome RelayEntry → Outcome ℕ
port_of (ok e) = ok e.port
port_of (throws x) = throws x

-- An address without a port gets the free port on top.
abbrev pub grant : NetAddress → (NetAddress → Option ℕ) → List ℕ → Answer × Routes
grant a v [] = (on_port (throws no_free_ports), (v, []))
grant a v (p ∷ rest) = (on_port (ok p), (assign v a (some p), rest))

abbrev pub specified : Call → Routes → Answer × Routes
specified (creates now r) (v, free) = elim (v r.address) [
  | some p ↦ (on_port (ok p), (v, free))
  | none ↦ grant r.address v free
]
specified (frees now a) (v, free) = elim (v a) [
  | none ↦ (was_freed (ok false), (v, free))
  | some p ↦ (was_freed (ok true), (assign v a none, p ∷ free))
]

abbrev pub specified_all : List Call → Routes → List Answer × Routes
specified_all [] w = ([], w)
specified_all (c ∷ cs) w =
    let (a, w') = specified c w in let (answers, w'') = specified_all cs w' in (a ∷ answers, w'')

module _ {L : Type 0} (ls : Listeners L) where
  abbrev pub free_found : ℕ → Option RelayEntry → Handler L → Answer × Handler L
  free_found now none h = (was_freed (ok false), h)
  free_found now (some e) h = let (o, h') = free_relay ls now e h in (was_freed o, h')

  abbrev pub call : Call → Handler L → Answer × Handler L
  call (creates now r) h = let (o, h') = create_relay ls now r h in (on_port (port_of o), h')
  call (frees now a) h = free_found now (find (λ e. equals e.address a) h.table) h

  abbrev pub call_all : List Call → Handler L → List Answer × Handler L
  call_all [] h = ([], h)
  call_all (c ∷ cs) h =
      let (a, h') = call c h in let (answers, h'') = call_all cs h' in (a ∷ answers, h'')

module _ {L : Type 0} (ls : Listeners L)
    (accepts : (now : ℕ) (r : RelayEntry) (l : L) → (ls.on_create now r l).0 ≡ ok tt)
    (agrees : (now : ℕ) (r : RelayEntry) (l : L) → (ls.on_destroy now r l).0 ≡ ok tt) where
  Implements : Handler L → Call → Answer × Handler L → Type 0
  Implements h c (a, h') =
      (a ≡ (specified c (routes h)).0) × (routes h' ≡ (specified c (routes h)).1)

  Creates-Implements :
      (now : ℕ) (r : RelayEntry) (h : Handler L) {o : Outcome RelayEntry × Handler L}
      → Creates ls now r h o
      → route h.table r.address ≡ none
      → Implements h (creates now r) (on_port (port_of o.0), o.1)
  unfolding Implements
  Creates-Implements now r h (full f) n = rw (n, f, specified) (refl, refl)
  Creates-Implements now r h (rejected port rest l e f c) n =
      absurd (ground (arith, accepts now (record r { port = port }) h.listeners, c))
  Creates-Implements now r h (created port rest l f c) n =
      rw (n, f, specified)
        (
          refl,
          ap (λ v. (v, rest))
              (fun_ext (λ a.
                route-append h.table (record r { port = port; last_received = now; created = now })
                  a n)),
        )

  create-Implements :
      (now : ℕ) (r : RelayEntry) (h : Handler L)
      → IsHandler h
      → Implements h (creates now r) (call ls (creates now r) h)
  unfolding Implements create_relay entry_equals
  create-Implements now r h v =
      elim (Option-cases (find (λ e. equals e.address r.address) h.table)) [
        | inl n ↦
            rw (n, create_relay)
              (Creates-Implements now r h (add_relay-Creates ls now r h v.pool_ok)
                (find-route h.table r.address ∙ rw n refl))
        | inr (e, s) ↦
            let known : route h.table r.address ≡ some e.port =
              find-route h.table r.address ∙ rw s refl in
            rw (s, create_relay, known, specified) (refl, refl)
      ]

  freed-Implements :
      (now : ℕ) (a : NetAddress) (e : RelayEntry) (h : Handler L)
      → find (λ x. equals x.address a) h.table ≡ some e
      → IsHandler h
      → let (o, h') = free_relay ls now e h in
        (was_freed o ≡ was_freed (ok true))
        × (routes h' ≡ (assign (route h.table) a none, e.port ∷ h.pool.free_ports))
  unfolding entry_equals
  freed-Implements now a e h s v =
      let here : e.address ≡ a =
        (equals_iff e.address a).0 (find_test (λ x. equals x.address a) h.table e s) in
      let known : find (λ x. entry_equals x e) h.table ≡ some e = found h.table a e s in
      elim (Option-cases (find_index (λ x. entry_equals x e) h.table)) [
        | inl n ↦ absurd (ground (arith, n, known, find_index-find (λ x. entry_equals x e) h.table))
        | inr (i, t) ↦
            let agree : Agrees h.table e = unique h.table e known in
            let away : route (erase_idx h.table i) ≡ assign (route h.table) a none =
              subst (λ b. route (erase_idx h.table i) ≡ assign (route h.table) b none) here
                (fun_ext (λ b. route-erase_idx h.table i e b t v.table_ok.addresses_once)) in
            let done = free_relay_frees ls now e h i t (agrees now e h.listeners) in
            rw done (refl, rw (away, freed_port ls e h i t agree v) refl)
      ]

  free-Implements :
      (now : ℕ) (a : NetAddress) (h : Handler L)
      → IsHandler h
      → Implements h (frees now a) (call ls (frees now a) h)
  unfolding Implements
  free-Implements now a h v = elim (Option-cases (find (λ e. equals e.address a) h.table)) [
    | inl n ↦
        let unknown : route h.table a ≡ none = find-route h.table a ∙ rw n refl in
        rw (n, unknown, specified) (refl, refl)
    | inr (e, s) ↦
        let known : route h.table a ≡ some e.port = find-route h.table a ∙ rw s refl in
        rw (s, known, specified) (freed-Implements now a e h s v)
  ]

  call-Implements : (c : Call) (h : Handler L) → IsHandler h → Implements h c (call ls c h)
  call-Implements (creates now r) h v = create-Implements now r h v
  call-Implements (frees now a) h v = free-Implements now a h v

  free_found-IsHandler :
      (now : ℕ) (a : NetAddress) (h : Handler L)
      → IsHandler h
      → IsHandler (call ls (frees now a) h).1
  free_found-IsHandler now a h v = elim (Option-cases (find (λ e. equals e.address a) h.table)) [
    | inl n ↦ rw n v
    | inr (e, s) ↦ rw s (free_relay-IsHandler ls now e h (unique h.table e (found h.table a e s)) v)
  ]

  call-IsHandler : (c : Call) (h : Handler L) → IsHandler h → IsHandler (call ls c h).1
  call-IsHandler (creates now r) h v = create_relay-IsHandler ls now r h v
  call-IsHandler (frees now a) h v = free_found-IsHandler now a h v

  -- From a well-formed handler, if no listener throws, any sequence of calls of `createRelay`, and of
  -- `freeRelay` for relays of the table, gives the answers that a map from addresses to ports over a
  -- stack of free ports gives, and leaves the same map and stack: an address that has a port keeps it,
  -- another one gets the port on top or the error that there is none, and a freed port goes on top.
  pub calls_route :
      (cs : List Call) (h : Handler L)
      → IsHandler h
      → ((call_all ls cs h).0 ≡ (specified_all cs (routes h)).0)
        × (routes (call_all ls cs h).1 ≡ (specified_all cs (routes h)).1)
  unfolding Implements
  calls_route [] h v = (refl, refl)
  calls_route (c ∷ cs) h v =
      let (r, w) = call-Implements c h v in
      let (rs, ws) = calls_route cs (call ls c h).1 (call-IsHandler c h v) in
      (
        rw (r, rs) (ap (λ x. (specified c (routes h)).0 ∷ (specified_all cs x).0) w),
        ws ∙ ap (λ x. (specified_all cs x).1) w,
      )
