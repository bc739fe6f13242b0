-- ===== src/Server/Connecting.antt =====
-- noray/src/connection/connection.commands.mjs, and the reactor's error handler in noray/src/noray.mjs.
pub mod Introducing
pub mod Relaying
use bevy_noray.Base.{
  ℕ, ◌∷◌, Option, none, some, ◌++◌, Text, text_eq, codes, to_string, lookup, Outcome, ok, throws,
  Action, Failure, missing_param, unknown_oid, unknown_client, no_host_rinfo, no_client_rinfo,
  type_error, pure, throw, gets, or_throw, ◌>>=◌, ◌>>◌,
}
use bevy_noray.Relay.Address.{NetAddress, RemoteInfo, from_rinfo}
use bevy_noray.Relay.Entry.{RelayEntry, new_entry}
use bevy_noray.Relay.Handler.{Handler, Listeners, create_relay}
use bevy_noray.Repository.{find_item}
use bevy_noray.Hosts.{Hosts, HostEntity, TcpSocket, find_by_socket}
use bevy_noray.Server.{Server, Output, command, failed, put, on_relays, write_host}

unfoldable pub stringify_address : RemoteInfo → Text
stringify_address a = a.address ++ (codes ":" ++ to_string a.port)

module _ {L : Type 0} where
  -- The command 'connect' from a socket, with the text that it carries, if any.
  unfoldable pub handle_connect : TcpSocket → Option Text → Action (Server L) (Unit {0})
  handle_connect socket text = do
    oid ← or_throw text missing_param
    found ← gets (λ s. find_item oid s.hosts)
    sender ← gets (λ s. find_by_socket socket s.hosts)
    host ← or_throw found unknown_oid
    host_rinfo ← or_throw host.rinfo no_host_rinfo
    client ← or_throw sender unknown_client
    client_rinfo ← or_throw client.rinfo no_client_rinfo
    put (command socket (codes "connect") (stringify_address host_rinfo))
    put (command host.socket (codes "connect") (stringify_address client_rinfo))

module _ {L : Type 0} (ls : Listeners L) where
  -- `NetAddress.fromRinfo` of nothing is a TypeError.
  unfoldable pub get_relay : ℕ → Option RemoteInfo → Action (Server L) ℕ
  get_relay now rinfo = do
    known ← or_throw rinfo type_error
    entry ← on_relays (create_relay ls now (new_entry now (from_rinfo known) 0))
    pure entry.port

  -- `host.relay.toString()`, read from the object at that moment.
  unfoldable pub relay_text : Text → Action (Server L) Text
  relay_text oid s = elim (lookup oid s.hosts) [
    | none ↦ (throws type_error, s)
    | some h ↦ elim h.relay [ none ↦ (throws type_error, s) | some port ↦ (ok (to_string port), s) ]
  ]

  -- The command 'connect-relay'.
  unfoldable pub handle_connect_relay : ℕ → TcpSocket → Option Text → Action (Server L) (Unit {0})
  unfolding relay_text
  handle_connect_relay now socket text = do
    oid ← or_throw text missing_param
    found ← gets (λ s. find_item oid s.hosts)
    sender ← gets (λ s. find_by_socket socket s.hosts)
    host ← or_throw found unknown_oid
    client ← or_throw sender unknown_client
    host_port ← get_relay now host.rinfo
    write_host host.oid (λ h. record h { relay = some host_port })
    client_port ← get_relay now client.rinfo
    write_host client.oid (λ h. record h { relay = some client_port })
    host_relay ← relay_text host.oid
    put (command socket (codes "connect-relay") host_relay)
    client_relay ← relay_text client.oid
    put (command host.socket (codes "connect-relay") client_relay)

-- A command that throws is answered with the error, and the server goes on.
unfoldable pub dispatch :
    {L : Type 0} → TcpSocket → Text → Action (Server L) (Unit {0}) → Server L → Server L
dispatch socket name m s =
    let (r, s') = m s in
    elim r [ ok _ ↦ s' | throws e ↦ record s' { output = failed socket name e ∷ s'.output } ]
