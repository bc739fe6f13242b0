-- ===== src/Server/Frame.antt =====
-- What the commands of noray/src/hosts, noray/src/connection and the registrar keep, by what they do:
-- they write output and fields of hosts, create relays, add, close and remove hosts.
use bevy_noray.Base.{
  ℕ, ◌≡◌, refl, inl, inr, Option, some, Option-cases, List, [], ◌∷◌, Text, text_eq, lookup,
  Outcome-cases, Action, Keeps, Keeps-bind, Keeps-gets, Keeps-or_throw, Keeps-pure,
}
use bevy_noray.Relay.Address.{RemoteInfo}
use bevy_noray.Relay.Entry.{RelayEntry}
use bevy_noray.Relay.Handler.{Handler, Listeners, create_relay}
use bevy_noray.Repository.{add, remove}
use bevy_noray.Hosts.{HostEntity, TcpSocket, host_id}
use bevy_noray.Server.{Server, Output, put, on_relays, on_hosts, write_host}
use bevy_noray.Server.Hosting.{register_host, on_close, disconnect, remove_hosts, owned}
use bevy_noray.Server.Connecting.{
  relay_text, get_relay, handle_connect, handle_connect_relay, dispatch,
}
use bevy_noray.Server.Registrar.{handle, register_rinfo, try_register}

-- A write to a field of a host other than its identifiers and its socket.
abbrev pub KeepsIdentity : (HostEntity → HostEntity) → Type 0
KeepsIdentity f =
    (h : HostEntity) → ((f h).oid ≡ h.oid) × ((f h).pid ≡ h.pid) × ((f h).socket ≡ h.socket)

-- A property that the commands of an existing host keep.
pub record IsStable {L : Type 0} (ls : Listeners L) (P : Server L → Type 0) : Type 0 where
  pub output_free : (o : Output) → Keeps P (put o)
  pub writing :
      (oid : Text) (f : HostEntity → HostEntity) → KeepsIdentity f → Keeps P (write_host oid f)
  pub creating : (now : ℕ) (r : RelayEntry) → Keeps P (on_relays (create_relay ls now r))

-- A property that the coming and going of hosts keeps, step by step.
pub record IsHosting {L : Type 0} (P : Server L → Type 0) : Type 0 where
  pub adding : (h : HostEntity) → Keeps P (on_hosts (add host_id h))
  pub closing : (socket : TcpSocket) (oid : Text) → Keeps P (on_close socket oid)
  pub closed : (l : List (TcpSocket × Text)) (s : Server L) → P s → P (record s { closing = l })
  pub removing : (oid : Text) (s : Server L) → P s → P (record s { hosts = (remove oid s.hosts).1 })

module _ {L : Type 0} (ls : Listeners L) (P : Server L → Type 0) (f : IsStable ls P) where
  output-Keeps : (o : Output) → Keeps P (put o)
  output-Keeps = f.output_free

  pub handle_connect-Keeps :
      (socket : TcpSocket) (text : Option Text) → Keeps P (handle_connect socket text)
  unfolding handle_connect
  handle_connect-Keeps socket text =
      search (Keeps-bind, output-Keeps, Keeps-gets, Keeps-or_throw) depth 20

  create_relay-Keeps : (now : ℕ) (r : RelayEntry) → Keeps P (on_relays (create_relay ls now r))
  create_relay-Keeps = f.creating

  get_relay-Keeps : (now : ℕ) (rinfo : Option RemoteInfo) → Keeps P (get_relay ls now rinfo)
  unfolding get_relay
  get_relay-Keeps now rinfo =
      search (Keeps-bind, Keeps-or_throw, Keeps-pure, create_relay-Keeps) depth 12

  relay_text-Keeps : (oid : Text) → Keeps P (relay_text ls oid)
  unfolding relay_text
  relay_text-Keeps oid s v = elim (Option-cases (lookup oid s.hosts)) [
    | inl n ↦ rw (n, relay_text) v
    | inr (h, e) ↦ elim (Option-cases h.relay) [
      | inl n ↦ rw (e, relay_text, n) v
      | inr (p, g) ↦ rw (e, relay_text, g) v
    ]
  ]

  set_relay-Keeps :
      (oid : Text) (port : ℕ) → Keeps P (write_host oid (λ h. record h { relay = some port }))
  set_relay-Keeps oid port = f.writing oid _ (λ h. (refl, refl, refl))

  pub handle_connect_relay-Keeps :
      (now : ℕ) (socket : TcpSocket) (text : Option Text)
      → Keeps P (handle_connect_relay ls now socket text)
  unfolding handle_connect_relay
  handle_connect_relay-Keeps now socket text =
      search
        (
          Keeps-bind, output-Keeps, Keeps-gets, Keeps-or_throw, get_relay-Keeps, set_relay-Keeps,
          relay_text-Keeps,
        )
        depth 30

  pub dispatch-keeps :
      (socket : TcpSocket) (name : Text) (m : Action (Server L) (Unit {0})) (s : Server L)
      → P (m s).1
      → P (dispatch socket name m s)
  unfolding dispatch
  dispatch-keeps socket name m s v = elim (Outcome-cases (m s).0) [
    | inl (u, e) ↦ rw (e, dispatch) v
    | inr (x, e) ↦ rw (e, dispatch) (f.output_free _ _ v)
  ]

  set_rinfo-Keeps :
      (oid : Text) (rinfo : RemoteInfo)
      → Keeps P (write_host oid (λ h. record h { rinfo = some rinfo }))
  set_rinfo-Keeps oid rinfo = f.writing oid _ (λ h. (refl, refl, refl))

  register_rinfo-Keeps :
      (host : HostEntity) (rinfo : RemoteInfo) → Keeps P (register_rinfo host rinfo)
  unfolding register_rinfo
  register_rinfo-Keeps host rinfo s v = elim (Option-cases host.rinfo) [
    | inl n ↦
        let known = f.output_free _ _ (f.output_free _ _ (set_rinfo-Keeps host.oid rinfo s v)) in
        rw (n, register_rinfo) known
    | inr (k, e) ↦ rw (e, register_rinfo) (f.output_free _ _ (f.output_free _ s v))
  ]

  try_register-Keeps : (pid : Text) (rinfo : RemoteInfo) → Keeps P (try_register pid rinfo)
  unfolding try_register
  try_register-Keeps pid rinfo =
      search (Keeps-bind, Keeps-gets, Keeps-or_throw, register_rinfo-Keeps) depth 10

  pub handle-keeps : (pid : Text) (rinfo : RemoteInfo) (s : Server L) → P s → P (handle pid rinfo s)
  unfolding handle
  handle-keeps pid rinfo s v =
      let w = try_register-Keeps pid rinfo s v in
      elim (Outcome-cases (try_register pid rinfo s).0) [
        | inl (u, e) ↦ rw (e, handle) w
        | inr (x, e) ↦ rw (e, handle) (f.output_free _ _ (f.output_free _ _ w))
      ]

  module _ (g : IsHosting P) where
    adding-Keeps : (h : HostEntity) → Keeps P (on_hosts (add host_id h))
    adding-Keeps = g.adding

    closing-Keeps : (socket : TcpSocket) (oid : Text) → Keeps P (on_close socket oid)
    closing-Keeps = g.closing

    pub register_host-Keeps :
        (oid pid : Text) (socket : TcpSocket) → Keeps P (register_host oid pid socket)
    unfolding register_host
    register_host-Keeps oid pid socket =
        search (Keeps-bind, output-Keeps, adding-Keeps, closing-Keeps) depth 12

    remove_hosts-keeps : (oids : List Text) (s : Server L) → P s → P (remove_hosts oids s)
    unfolding remove_hosts
    remove_hosts-keeps [] s v = v
    remove_hosts-keeps (oid ∷ oids) s v =
        remove_hosts-keeps oids _ (f.output_free _ _ (g.removing oid s v))

    pub disconnect-keeps : (socket : TcpSocket) (s : Server L) → P s → P (disconnect socket s)
    unfolding disconnect
    disconnect-keeps socket s v = remove_hosts-keeps (owned socket s.closing) _ (g.closed _ s v)

-- A property of the relays alone, that `createRelay` keeps.
module _ {L : Type 0} (Q : Handler L → Type 0) where
  abbrev pub OfRelays : Server L → Type 0
  OfRelays s = Q s.relays

  pub OfRelays-IsStable :
      (ls : Listeners L)
      → ((now : ℕ) (r : RelayEntry) → Keeps Q (create_relay ls now r))
      → IsStable ls OfRelays
  OfRelays-IsStable ls creates = record {
    output_free = λ o s v. v;
    writing = λ oid f k s v. v;
    creating = λ now r s v. creates now r s.relays v;
  }

  pub OfRelays-IsHosting : IsHosting OfRelays
  unfolding on_close
  OfRelays-IsHosting = record {
    adding = λ h s v. v;
    closing = λ socket oid s v. v;
    closed = λ l s v. v;
    removing = λ oid s v. v;
  }
