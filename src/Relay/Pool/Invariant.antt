-- ===== src/Relay/Pool/Invariant.antt =====
-- noray/src/relay/udp.socket.pool.mjs: what holds of a pool at all times.
use bevy_noray.Base.{
  ℕ, nat_eq, inl, inr, Option-cases, ◌≡◌, Bool, true, false, not, List, [], ◌∷◌, ◌==◌, arith,
  select, elem, Distinct, lookup, has, keys, lookup-insert, lookup-erase, insert-Distinct,
  erase-Distinct,
}
use bevy_noray.Relay.Pool.{
  UdpSocketPool, Socket, empty_pool, add_socket, deallocate_port, return_port,
}

-- Every free port has a socket, and no port is free twice or bound twice.
pub record IsPool (p : UdpSocketPool) : Type 0 where
  pub bound : (q : ℕ) → elem q p.free_ports ≡ true → has q p.sockets ≡ true
  pub free_once : Distinct p.free_ports
  pub bound_once : Distinct (keys p.sockets)

pub elem-select : (t : ℕ → Bool) (q : ℕ) (l : List ℕ) → elem q (select t l) ≡ true → elem q l ≡ true
elem-select t q [] h = h
elem-select t q (x ∷ l) h = ground (arith, elem-select t q l)

pub elem-select_test : (t : ℕ → Bool) (q : ℕ) (l : List ℕ) → elem q (select t l) ≡ true → t q ≡ true
elem-select_test t q [] h = cc
elem-select_test t q (x ∷ l) h = ground (arith, elem-select_test t q l)

pub select-Distinct : (t : ℕ → Bool) (l : List ℕ) → Distinct l → Distinct (select t l)
select-Distinct t [] d = tt
select-Distinct t (x ∷ l) d = ground (arith, select-Distinct t l, elem-select t x l)

pub empty-IsPool : IsPool empty_pool
empty-IsPool = record { bound = λ q h. cc; free_once = tt; bound_once = tt }

-- A new socket: its port was not bound before, as the operating system sees to.
pub add_socket-IsPool :
    (port : ℕ) (s : Socket) (p : UdpSocketPool)
    → has port p.sockets ≡ false
    → IsPool p
    → IsPool (add_socket port s p).1
unfolding add_socket
add_socket-IsPool port s p new v = record {
  bound = λ q h. ground (arith, lookup-insert port q s p.sockets, v.bound q);
  free_once = ground (arith, v.bound port);
  bound_once = insert-Distinct port s p.sockets v.bound_once;
}

pub deallocate_port-IsPool :
    (port : ℕ) (p : UdpSocketPool) → IsPool p → IsPool (deallocate_port port p)
unfolding deallocate_port
deallocate_port-IsPool port p v = record {
  bound = λ q h. ground (
    arith,
    lookup-erase port q p.sockets,
    v.bound q,
    elem-select (λ q. not (q == port)) q p.free_ports,
    elem-select_test (λ q. not (q == port)) q p.free_ports,
  );
  free_once = select-Distinct (λ q. not (q == port)) p.free_ports v.free_once;
  bound_once = erase-Distinct port p.sockets v.bound_once;
}

pub return_port-IsPool :
    (port : ℕ) (p : UdpSocketPool)
    → elem port p.free_ports ≡ false
    → IsPool p
    → IsPool (return_port port p)
unfolding return_port
return_port-IsPool port p busy v = elim (Option-cases (lookup port p.sockets)) [
  | inl e ↦ rw e v
  | inr (s, e) ↦ rw e (record {
    bound = λ q h. ground (arith, v.bound q);
    free_once = (busy, v.free_once);
    bound_once = v.bound_once;
  })
]
