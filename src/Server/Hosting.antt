-- ===== src/Server/Hosting.antt =====
-- noray/src/hosts/host.commands.mjs
pub mod Laws
pub mod Ownership
use bevy_noray.Base.{
  ℕ, ◌==◌, Bool, true, false, not, Option, none, some, List, [], ◌∷◌, select, map, Text, text_eq,
  codes, if◌then◌else◌, Store, Outcome, ok, throws, Action, pure, ◌>>=◌, ◌>>◌,
}
use bevy_noray.Repository.{add, remove}
use bevy_noray.Hosts.{Hosts, HostEntity, HostOptions, TcpSocket, host_id, new_host}
use bevy_noray.Server.{Server, Output, command, hosts_inc, hosts_dec, put, on_hosts}

-- The hosts that a socket's 'close' listeners will remove.
unfoldable pub owned : TcpSocket → List (TcpSocket × Text) → List Text
owned socket [] = []
owned socket ((k, oid) ∷ l) = if k == socket then oid ∷ owned socket l else owned socket l

module _ {L : Type 0} where
  -- `socket.on('close', …)` with the host's removal.
  unfoldable pub on_close : TcpSocket → Text → Action (Server L) (Unit {0})
  on_close socket oid s = (ok tt, record s { closing = (socket, oid) ∷ s.closing })

  -- The command 'register-host' from a socket; `oid` and `pid` are what the generators return.
  unfoldable pub register_host : Text → Text → TcpSocket → Action (Server L) (Unit {0})
  register_host oid pid socket = do
    put hosts_inc
    let host = new_host oid pid (record { oid = none; pid = none; socket = socket })
    on_hosts (add host_id host)
    put (command socket (codes "set-oid") host.oid)
    put (command socket (codes "set-pid") host.pid)
    on_close socket host.oid

  unfoldable pub remove_hosts : List Text → Server L → Server L
  remove_hosts [] s = s
  remove_hosts (oid ∷ oids) s =
      remove_hosts oids (record s { hosts = (remove oid s.hosts).1; output = hosts_dec ∷ s.output })

  -- The socket closes: its 'close' listeners run.
  unfoldable pub disconnect : TcpSocket → Server L → Server L
  unfolding remove_hosts owned
  disconnect socket s =
      remove_hosts (owned socket s.closing)
        (record s { closing = select (λ c. not (c.0 == socket)) s.closing })
