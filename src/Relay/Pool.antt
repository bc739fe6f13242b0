-- ===== src/Relay/Pool.antt =====
-- noray/src/relay/udp.socket.pool.mjs. The head of `free_ports` is the end of the array, where
-- `push` and `pop` work.
pub mod Invariant
pub mod Laws
use bevy_noray.Base.{
  ℕ, nat_eq, zero, suc, ◌<◌, Bool, true, false, not, Option, none, some, List, [], ◌∷◌, ◌==◌, ltb,
  if◌then◌else◌, length, select, Store, lookup, has, insert, erase, keys, Action, ok, throws,
  no_free_ports, bind_error, pure, throw, gets, modify, ensure, ◌>>=◌, ◌>>◌,
}

-- A bound UDP socket: for each of its 'message' listeners, the relay port that it hands on.
pub record Socket : Type 0 where
  pub listeners : List ℕ

abbrev pub new_socket : Socket
new_socket = record { listeners = [] }

-- `closed` has the sockets closed so far, newest first.
pub record UdpSocketPool : Type 0 where
  pub sockets : Store ℕ Socket
  pub free_ports : List ℕ
  pub closed : List ℕ

abbrev pub empty_pool : UdpSocketPool
empty_pool = record { sockets = []; free_ports = []; closed = [] }

abbrev pub PoolAction : Type 0 → Type 0
PoolAction A = Action UdpSocketPool A

-- `port` is the address that the socket reports.
unfoldable pub add_socket : ℕ → Socket → PoolAction ℕ
add_socket port socket p =
    (ok port, record p { sockets = insert port socket p.sockets; free_ports = port ∷ p.free_ports })

-- `bind` is the operating system: the port that a request gets, or an error.
unfoldable pub allocate_port : (ℕ → Option ℕ) → Option ℕ → PoolAction ℕ
unfolding add_socket
allocate_port bind port = elim (bind (elim port [ none ↦ 0 | some n ↦ n ])) [
  | none ↦ throw bind_error
  | some bound ↦ add_socket bound new_socket
]

unfoldable pub deallocate_port : ℕ → UdpSocketPool → UdpSocketPool
deallocate_port port p = record {
  sockets = erase port p.sockets;
  free_ports = select (λ q. not (q == port)) p.free_ports;
  closed = if has port p.sockets then port ∷ p.closed else p.closed;
}

unfoldable pub get_socket : ℕ → UdpSocketPool → Option Socket
get_socket port p = lookup port p.sockets

pop_port : List ℕ → PoolAction ℕ
pop_port [] p = (throws no_free_ports, p)
pop_port (port ∷ rest) p = (ok port, record p { free_ports = rest })

unfoldable pub get_port : PoolAction ℕ
unfolding pop_port
get_port p = pop_port p.free_ports p

unfoldable pub return_port : ℕ → UdpSocketPool → UdpSocketPool
return_port port p = if has port p.sockets then record p { free_ports = port ∷ p.free_ports } else p

unfoldable pub has_free_port : UdpSocketPool → Bool
has_free_port p = ltb 0 (length p.free_ports)

unfoldable pub deallocate_all : List ℕ → UdpSocketPool → UdpSocketPool
deallocate_all [] p = p
deallocate_all (port ∷ ports) p = deallocate_all ports (deallocate_port port p)

unfoldable pub clear : UdpSocketPool → UdpSocketPool
unfolding deallocate_all
clear p = deallocate_all (keys p.sockets) p

unfoldable pub ports : UdpSocketPool → List ℕ
ports p = keys p.sockets
