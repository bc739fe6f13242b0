-- ===== src/Server.antt =====
-- The state that the commands share: the repository of noray/src/hosts/host.mjs and the relay handler
-- of noray/src/relay/relay.mjs, with what is sent over TCP and UDP.
pub mod Invariant
pub mod Frame
pub mod Hosting
pub mod Connecting
pub mod Registrar
use bevy_noray.Base.{ℕ, List, [], ◌∷◌, Text, Action, Failure, ok}
use bevy_noray.Relay.Address.{NetAddress}
use bevy_noray.Relay.Handler.{Handler}
use bevy_noray.Hosts.{Hosts, HostEntity, TcpSocket, modify_host}

-- `command` is a line to a TCP client: its name and its parameter. `failed` is the reactor's answer to
-- a command that threw. `reply` is a datagram of the registrar.
pub data Output : Type 0 where
  command : TcpSocket → Text → Text → Output
  failed : TcpSocket → Text → Failure → Output
  reply_ok : NetAddress → Output
  reply_error : NetAddress → Failure → Output
  hosts_inc hosts_dec : Output
  register_success register_fail register_repeat : Output

-- `closing` has the 'close' listeners of the TCP sockets: the host that each will remove. `output` has
-- what was sent, newest first.
pub record Server (L : Type 0) : Type 0 where
  pub hosts : Hosts
  pub closing : List (TcpSocket × Text)
  pub relays : Handler L
  pub output : List Output

module _ {L : Type 0} where
  abbrev pub put : Output → Action (Server L) (Unit {0})
  put o s = (ok tt, record s { output = o ∷ s.output })

  abbrev pub on_relays : {A : Type 0} → Action (Handler L) A → Action (Server L) A
  on_relays m s = let (r, h) = m s.relays in (r, record s { relays = h })

  abbrev pub on_hosts : {A : Type 0} → Action Hosts A → Action (Server L) A
  on_hosts m s = let (r, h) = m s.hosts in (r, record s { hosts = h })

  abbrev pub write_host : Text → (HostEntity → HostEntity) → Action (Server L) (Unit {0})
  write_host oid f s = (ok tt, record s { hosts = modify_host oid f s.hosts })
