-- ===== src/Hosts.antt =====
-- noray/src/hosts/host.entity.mjs and noray/src/hosts/host.repository.mjs: the registered hosts.
pub mod Laws
use bevy_noray.Base.{
  ℕ, ◌==◌, Bool, true, false, Option, none, some, List, find, Text, text_eq, text_beq, Store,
  Action, if◌then◌else◌, insert, lookup,
}
use bevy_noray.Relay.Address.{RemoteInfo}
use bevy_noray.Repository.{add, list, find_item, remove_item}

-- A TCP connection, by a number of its own.
abbrev pub TcpSocket : Type 0
TcpSocket = ℕ

pub record HostEntity : Type 0 where
  pub oid : Text
  pub pid : Text
  pub socket : TcpSocket
  pub relay : Option ℕ
  pub rinfo : Option RemoteInfo

-- The options of `new HostEntity(…)`: an identifier that is missing is generated.
pub record HostOptions : Type 0 where
  pub oid : Option Text
  pub pid : Option Text
  pub socket : TcpSocket

-- `oid` and `pid` are what the generators return.
unfoldable pub new_host : Text → Text → HostOptions → HostEntity
new_host oid pid options = record {
  oid = elim options.oid [ none ↦ oid | some o ↦ o ];
  pid = elim options.pid [ none ↦ pid | some p ↦ p ];
  socket = options.socket;
  relay = none;
  rinfo = none;
}

-- `config.words_oid.enabled ? generateWordId : nanoid`
unfoldable pub generate_oid : Bool → Text → Text → Text
generate_oid words_enabled words nanoid = if words_enabled then words else nanoid

abbrev pub Hosts : Type 0
Hosts = Store Text HostEntity

-- `fieldIdMapper('oid')`
abbrev pub host_id : HostEntity → Text
host_id h = h.oid

unfoldable pub find_by_pid : Text → Hosts → Option HostEntity
find_by_pid pid hosts = find (λ h. text_beq h.pid pid) (list hosts)

unfoldable pub find_by_socket : TcpSocket → Hosts → Option HostEntity
find_by_socket socket hosts = find (λ h. h.socket == socket) (list hosts)

-- A write to a field of a host that was found: the repository holds the same object, in a well-formed
-- repository under the host's own identifier.
unfoldable pub modify_host : Text → (HostEntity → HostEntity) → Hosts → Hosts
modify_host oid f hosts = elim (lookup oid hosts) [ none ↦ hosts | some h ↦ insert oid (f h) hosts ]
