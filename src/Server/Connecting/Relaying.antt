-- ===== src/Server/Connecting/Relaying.antt =====
-- noray/src/connection/connection.commands.mjs: what 'connect-relay' sets up.
use bevy_noray.Base.{
  ℕ, ap, sym, ◌∙◌, insert, true, ◌≡◌, ◌⊎◌, refl, inl, inr, some, List, ◌∷◌, Text, text_eq, codes,
  lookup, arith, to_string, lookup-insert, text_beq_iff, text_beq, Bool-cases, ok,
}
use bevy_noray.Relay.Address.{RemoteInfo, NetAddress, from_rinfo}
use bevy_noray.Relay.Entry.{RelayEntry, new_entry}
use bevy_noray.Relay.Handler.{Handler, Listeners, create_relay}
use bevy_noray.Relay.Handler.Invariant.{IsHandler}
use bevy_noray.Relay.Handler.Invariant.Creating.{create_relay-IsHandler}
use bevy_noray.Relay.Handler.Invariant.Routing.{HasRelay, create_relay_ensures}
use bevy_noray.Repository.{find_item}
use bevy_noray.Hosts.{Hosts, HostEntity, TcpSocket, find_by_socket, modify_host}
use bevy_noray.Hosts.Laws.{find_by_socket_sound}
use bevy_noray.Server.{Server, command}
use bevy_noray.Server.Invariant.{IsServer}
use bevy_noray.Server.Connecting.{handle_connect_relay, get_relay, relay_text}

abbrev set_relay : ℕ → HostEntity → HostEntity
set_relay port h = record h { relay = some port }

-- Two writes to `relay`, which may be to one host, are both there afterwards.
written :
    (hosts : Hosts) (a b : Text) (x y : HostEntity) (p q : ℕ)
    → lookup a hosts ≡ some x
    → lookup b hosts ≡ some y
    → (text_beq a b ≡ true → p ≡ q)
    → let after = modify_host b (set_relay q) (modify_host a (set_relay p) hosts) in
      ((x' : HostEntity) × (lookup a after ≡ some x') × (x'.relay ≡ some p))
      × ((y' : HostEntity) × (lookup b after ≡ some y') × (y'.relay ≡ some q))
unfolding modify_host
written hosts a b x y p q ea eb same = elim (Bool-cases (text_beq a b)) [
  | inl one ↦
      let e : a ≡ b = (text_beq_iff a b).0 one in
      (
        (
          set_relay q (set_relay p x),
          ground (
            arith,
            e,
            lookup-insert a a (set_relay p x) hosts,
            lookup-insert a a (set_relay q (set_relay p x)) (insert a (set_relay p x) hosts),
            text_beq_iff a a,
          ),
          ap some (sym (same one)),
        ),
        (
          set_relay q (set_relay p x),
          ground (
            arith,
            e,
            lookup-insert a a (set_relay p x) hosts,
            lookup-insert a a (set_relay q (set_relay p x)) (insert a (set_relay p x) hosts),
            text_beq_iff a a,
          ),
          refl,
        ),
      )
  | inr two ↦ (
    (
      set_relay p x,
      ground (
        arith,
        text_beq_iff a b,
        text_beq_iff b a,
        text_beq_iff a a,
        lookup-insert a a (set_relay p x) hosts,
        lookup-insert a b (set_relay p x) hosts,
        lookup-insert b a (set_relay q y) (insert a (set_relay p x) hosts),
      ),
      refl,
    ),
    (
      set_relay q y,
      ground (
        arith,
        text_beq_iff b b,
        lookup-insert a b (set_relay p x) hosts,
        lookup-insert b b (set_relay q y) (insert a (set_relay p x) hosts),
      ),
      refl,
    ),
  )
]

module _ {L : Type 0} (ls : Listeners L) (now : ℕ)
    (accepting : (r : RelayEntry) (l : L) → (ls.on_create now r l).0 ≡ ok tt) where
  -- `getRelay` for a known address, with a free port left: it returns the port of the address's relay.
  get_relay_ensures :
      (rinfo : RemoteInfo) (s : Server L) (port : ℕ) (rest : List ℕ)
      → IsHandler s.relays
      → s.relays.pool.free_ports ≡ port ∷ rest
      → (p : ℕ) × (h' : Handler L) × (get_relay ls now (some rinfo) s
          ≡ (ok p, record s { relays = h' }))
        × IsHandler h'
        × HasRelay h' (from_rinfo rinfo) p
        × ((b : NetAddress) (q : ℕ) → HasRelay s.relays b q → HasRelay h' b q)
        × ((h'.pool.free_ports ≡ rest) ⊎ (h'.pool.free_ports ≡ port ∷ rest))
  unfolding get_relay
  get_relay_ensures rinfo s port rest v free =
      let (e, h', eq, has_it, keeps, how) =
        create_relay_ensures ls now (from_rinfo rinfo) s.relays v accepting port rest free in
      let w : IsHandler (create_relay ls now (new_entry now (from_rinfo rinfo) 0) s.relays).1 =
        create_relay-IsHandler ls now (new_entry now (from_rinfo rinfo) 0) s.relays v in
      (
        e.port,
        h',
        ground (arith, eq),
        rw eq at w,
        has_it,
        keeps,
        elim how [ inl (shrunk, _) ↦ inl shrunk | inr same ↦ inr (rw same free) ],
      )

  known_text :
      (oid : Text) (s : Server L) (h : HostEntity) (p : ℕ)
      → lookup oid s.hosts ≡ some h
      → h.relay ≡ some p
      → relay_text ls oid s ≡ (ok (to_string p), s)
  unfolding relay_text
  known_text oid s h p e r = ground arith

  HasRelay-unique :
      (h : Handler L) (a : NetAddress) (p q : ℕ) → HasRelay h a p → HasRelay h a q → p ≡ q
  HasRelay-unique h a p q (e, f, _, ep) (e', f', _, eq) = ground arith

  -- In a well-formed server, for a known host and a known client, both with a remote address, while
  -- two ports are free and no 'create' listener throws: 'connect-relay' sends the client the port
  -- of a relay to the host's address, and the host the port of a relay to the client's, one message
  -- each, and leaves both relays in the table of a well-formed handler.
  pub handle_connect_relay_ensures :
      (socket : TcpSocket) (oid : Text) (s : Server L) (host client : HostEntity)
      (host_rinfo client_rinfo : RemoteInfo) (port next : ℕ) (rest : List ℕ)
      → IsServer s
      → lookup oid s.hosts ≡ some host
      → host.rinfo ≡ some host_rinfo
      → find_by_socket socket s.hosts ≡ some client
      → client.rinfo ≡ some client_rinfo
      → s.relays.pool.free_ports ≡ port ∷ next ∷ rest
      → (p q : ℕ) × (s' : Server L) × (handle_connect_relay ls now socket (some oid) s
          ≡ (ok tt, s'))
        × (s'.output
            ≡ command host.socket (codes "connect-relay") (to_string q)
              ∷ command socket (codes "connect-relay") (to_string p)
              ∷ s.output)
        × HasRelay s'.relays (from_rinfo host_rinfo) p
        × HasRelay s'.relays (from_rinfo client_rinfo) q
        × IsHandler s'.relays
  unfolding handle_connect_relay find_item
  handle_connect_relay_ensures socket oid s host client hr cr port next rest v eh er ec fr free =
      let (p, h1, e1, v1, has1, _, how) =
        get_relay_ensures hr s port (next ∷ rest) v.relays_ok free in
      let (x, xs, left) = still_free h1 how in
      let s2 : Server L = record s {
        relays = h1;
        hosts = modify_host host.oid (set_relay p) s.hosts;
      } in
      let (q, h2, e2, v2, has2, keeps, _) = get_relay_ensures cr s2 x xs v1 left in
      let at_host : lookup host.oid s.hosts ≡ some host =
        ap (λ k. lookup k s.hosts) (v.hosts_ok.own_id oid host eh) ∙ eh in
      let at_client = (find_by_socket_sound socket s.hosts client v.hosts_ok ec).1 in
      let (w1, w2) = written s.hosts host.oid client.oid host client p q at_host at_client (λ one.
        let e : host.oid ≡ client.oid = (text_beq_iff host.oid client.oid).0 one in
        let one_address : from_rinfo hr ≡ from_rinfo cr = ground (arith, e) in
        HasRelay-unique h2 (from_rinfo cr) p q (rw one_address at (keeps _ p has1)) has2) in
      let s4 : Server L = record s {
        relays = h2;
        hosts = modify_host client.oid (set_relay q) (modify_host host.oid (set_relay p) s.hosts);
      } in
      let s5 : Server L = record s4 {
        output = command socket (codes "connect-relay") (to_string p) ∷ s.output;
      } in
      let t1 = known_text host.oid s4 w1.0 p w1.1 w1.2 in
      let t2 = known_text client.oid s5 w2.0 q w2.1 w2.2 in
      (
        p,
        q,
        record s5 {
          output = command host.socket (codes "connect-relay") (to_string q) ∷ s5.output;
        },
        ground (arith, e1, e2, t1, t2),
        refl,
        keeps _ p has1,
        has2,
        v2,
      )
    where
      still_free :
          (h1 : Handler L)
          → (h1.pool.free_ports ≡ next ∷ rest) ⊎ (h1.pool.free_ports ≡ port ∷ next ∷ rest)
          → (x : ℕ) × (xs : List ℕ) × (h1.pool.free_ports ≡ x ∷ xs)
      still_free h1 (inl e) = (next, rest, e)
      still_free h1 (inr e) = (port, next ∷ rest, e)
