-- ===== src/Relay/Handler/Invariant/Routing.antt =====
-- noray/src/relay/udp.relay.handler.mjs: a relay that the table has is found by its address and by its
-- port, and datagrams go through it.
use bevy_noray.Base.{
  Failure, ℕ, nat_eq, ◌≡◌, refl, sym, ◌∙◌, inl, inr, Option-cases, Bool, true, ◌⊎◌, none, some,
  List, [], ◌∷◌, ◌++◌, ==_iff, arith, elem, find, find-append, find_test, Distinct, length, ok,
  throws,
}
use bevy_noray.Relay.Address.{from_rinfo, RemoteInfo, NetAddress, address_eq, equals, equals_iff}
use bevy_noray.Relay.Entry.{RelayEntry, entry_equals, new_entry}
use bevy_noray.Relay.Pool.{get_socket}
use bevy_noray.Relay.Handler.{
  Handler, Listeners, DropListener, Message, send, size_observe, create_relay,
}
use bevy_noray.Relay.Handler.Transmit.{on_message, is_sender, is_target, relay}
use bevy_noray.Relay.Handler.Invariant.{ports, IsHandler}
use bevy_noray.Relay.Handler.Invariant.Creating.{entry_on, created_on, create_relay_creates}
use bevy_noray.Relay.Handler.Invariant.Touching.{touched}

-- The table has a relay for the address, and it is on the port.
abbrev pub HasRelay : {L : Type 0} → Handler L → NetAddress → ℕ → Type 0
HasRelay h a port =
    (e : RelayEntry) × (find (is_sender a) h.table ≡ some e) × (e.address ≡ a) × (e.port ≡ port)

is_sender-equals : (a : NetAddress) (e : RelayEntry) → is_sender a e ≡ equals e.address a
unfolding equals
is_sender-equals a e = ground arith

find_sender :
    (now : ℕ) (a : NetAddress) (port : ℕ) (es : List RelayEntry)
    → find (λ e. entry_equals e (new_entry now a port)) es ≡ find (is_sender a) es
unfolding entry_equals new_entry
find_sender now a port [] = refl
find_sender now a port (e ∷ es) = ground (arith, is_sender-equals a e, find_sender now a port es)

find_sender_address :
    (a : NetAddress) (es : List RelayEntry) (e : RelayEntry)
    → find (is_sender a) es ≡ some e
    → e.address ≡ a
find_sender_address a es e f =
    (equals_iff e.address a).0 (sym (is_sender-equals a e) ∙ find_test (is_sender a) es e f)

find-ports :
    (t : RelayEntry → Bool) (es : List RelayEntry) (e : RelayEntry)
    → find t es ≡ some e
    → elem e.port (ports es) ≡ true
find-ports t [] e f = cc
find-ports t (x ∷ es) e f = ground (arith, find-ports t es e)

-- Ports are distinct, so a relay that is found in any way is found by its port.
find_target :
    (t : RelayEntry → Bool) (es : List RelayEntry) (e : RelayEntry)
    → Distinct (ports es)
    → find t es ≡ some e
    → find (is_target e.port) es ≡ some e
find_target t [] e d f = cc
find_target t (x ∷ es) e d f =
    ground (arith, find-ports t es e, find_target t es e d.1, ==_iff x.port e.port)

found_last :
    (a : NetAddress) (es : List RelayEntry) (e : RelayEntry)
    → e.address ≡ a
    → find (is_sender a) es ≡ none
    → find (is_sender a) (es ++ e ∷ []) ≡ some e
found_last a es e here n =
    ground
      (arith, find-append (is_sender a) es (e ∷ []), is_sender-equals a e, equals_iff e.address a)

module _ {L : Type 0} (ls : Listeners L) where
  -- What `createRelay` ensures for an address: a relay on the port that it returns.
  pub create_relay_ensures :
      (now : ℕ) (a : NetAddress) (h : Handler L)
      → IsHandler h
      → ((r : RelayEntry) (l : L) → (ls.on_create now r l).0 ≡ ok tt)
      → (port : ℕ) (rest : List ℕ) → h.pool.free_ports ≡ port ∷ rest
      → (e : RelayEntry) × (h' : Handler L) × (create_relay ls now (new_entry now a 0) h
          ≡ (ok e, h'))
        × HasRelay h' a e.port
        × ((b : NetAddress) (p : ℕ) → HasRelay h b p → HasRelay h' b p)
        × ((h'.pool.free_ports ≡ rest) × (h'.table ≡ h.table ++ e ∷ []) ⊎ (h' ≡ h))
  unfolding create_relay new_entry
  create_relay_ensures now a h v accepting port rest free =
      elim (Option-cases (find (λ e. entry_equals e (new_entry now a 0)) h.table)) [
        | inr (e, f) ↦
            let f' = sym (find_sender now a 0 h.table) ∙ f in
            (
              e,
              h,
              rw (f, create_relay),
              (e, f', find_sender_address a h.table e f', refl),
              (λ b p r. r),
              inr refl,
            )
        | inl n ↦
            let e = entry_on ls now (new_entry now a 0) h port in
            let h' =
              created_on ls now (new_entry now a 0) h port rest
                (ls.on_create now (record (new_entry now a 0) { port = port }) h.listeners).1 in
            (
              e,
              h',
              create_relay_creates ls now (new_entry now a 0) h port rest n free
                  (v.pool_ok.bound port (ground arith)) (accepting _ _),
              (e, found_last a h.table e refl (sym (find_sender now a 0 h.table) ∙ n), refl, refl),
              (λ b p r. (r.0, find-append (is_sender b) h.table (e ∷ []) ∙ rw r.1, r.2, r.3)),
              inl (refl, refl),
            )
      ]

  -- In a well-formed handler, a datagram from a relay's address to another relay's port is sent
  -- once, from the sender's port to the target's address, and both entries are stamped, if the
  -- listeners of 'transmit' let it through.
  pub relay_forwards :
      (on_drop : DropListener L) (now : ℕ) (msg : Message) (sender receiver : NetAddress)
      (own target : ℕ) (h : Handler L)
      → IsHandler h
      → (hs : HasRelay h sender own) → (hr : HasRelay h receiver target)
      → (ls.on_transmit now hs.0 hr.0 msg h.listeners).0 ≡ ok tt
      → let (r, h') = relay ls on_drop now msg sender target h in
        (r ≡ ok true)
        × (h'.trace ≡ size_observe (length msg) ∷ send own receiver msg ∷ h.trace)
        × (h'.table ≡ touched now sender target h.table)
  unfolding relay get_socket
  relay_forwards on_drop now msg sender receiver own target h v (s, fs, _, ps) (t, ft, at, pt)
        open_way =
      let found : find (is_target target) h.table ≡ some t =
        rw (← pt) (find_target (is_sender receiver) h.table t v.table_ok.ports_once ft) in
      ground (
        arith,
        found,
        open_way,
        v.table_ok.wired s.port (find-ports (is_sender sender) h.table s fs),
      )

  -- A datagram between two relays that a listener of 'transmit' refuses: the event at the target's
  -- socket ends with the listener's error.
  pub on_message_refused :
      (on_drop : DropListener L) (now : ℕ) (msg : Message) (rinfo : RemoteInfo)
      (receiver : NetAddress) (own target : ℕ) (h : Handler L) (x : Failure)
      → IsHandler h
      → (hs : HasRelay h (from_rinfo rinfo) own) → (hr : HasRelay h receiver target)
      → (ls.on_transmit now hs.0 hr.0 msg h.listeners).0 ≡ throws x
      → (on_message ls on_drop now target rinfo msg h).0 ≡ throws x
  unfolding on_message relay get_socket
  on_message_refused on_drop now msg rinfo receiver own target h x v (s, fs, _, ps) (t, ft, at, pt)
        refused =
      let found : find (is_target target) h.table ≡ some t =
        rw (← pt) (find_target (is_sender receiver) h.table t v.table_ok.ports_once ft) in
      let there : elem target (ports h.table) ≡ true =
        rw (← pt) (find-ports (is_sender receiver) h.table t ft) in
      ground (
        arith,
        found,
        refused,
        v.table_ok.wired target there,
        v.table_ok.wired s.port (find-ports (is_sender (from_rinfo rinfo)) h.table s fs),
      )
