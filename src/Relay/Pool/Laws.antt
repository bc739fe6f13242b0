-- ===== src/Relay/Pool/Laws.antt =====
-- noray/src/relay/udp.socket.pool.mjs: how the operations of the pool fit together.
use bevy_noray.Base.{
  ℕ, nat_eq, inl, inr, Bool-cases, ◌≡◌, refl, true, false, none, List, [], ◌∷◌, ◌==◌, arith,
  if◌then◌else◌, elem, Store, lookup, has, keys, lookup-erase, has-elem, ok, throws, no_free_ports,
  Outcome,
}
use bevy_noray.Relay.Pool.{
  UdpSocketPool, Socket, deallocate_port, get_port, pop_port, return_port, deallocate_all, clear,
}
use bevy_noray.Relay.Pool.Invariant.{IsPool, deallocate_port-IsPool}

-- What `getPort` does: it fails on a pool with no free port, which it leaves alone, or it grants one.
pub data Grants (p : UdpSocketPool) : Outcome ℕ × UdpSocketPool → Type 0 where
  refused : p.free_ports ≡ [] → Grants p (throws no_free_ports, p)
  granted :
      (port : ℕ) (rest : List ℕ)
      → p.free_ports ≡ port ∷ rest
      → has port p.sockets ≡ true
      → elem port rest ≡ false
      → IsPool (record p { free_ports = rest })
      → Grants p (ok port, record p { free_ports = rest })

pop_port-Grants :
    (l : List ℕ) (p : UdpSocketPool) → p.free_ports ≡ l → IsPool p → Grants p (pop_port l p)
unfolding pop_port
pop_port-Grants [] p e v = refused e
pop_port-Grants (q ∷ l) p e v =
    granted q l e (v.bound q (ground arith)) (ground (arith, v.free_once)) (record {
      bound = λ r h. v.bound r (ground arith);
      free_once = ground (arith, v.free_once);
      bound_once = v.bound_once;
    })

-- In a well-formed pool, `getPort` throws exactly when no port is free and then changes nothing, or
-- returns a port that has a socket and that is not free any more; it keeps the pool well-formed.
pub get_port-Grants : (p : UdpSocketPool) → IsPool p → Grants p (get_port p)
unfolding get_port
get_port-Grants p v = pop_port-Grants p.free_ports p refl v

return-pop :
    (l : List ℕ) (p q : UdpSocketPool) (port : ℕ)
    → IsPool p
    → p.free_ports ≡ l
    → pop_port l p ≡ (ok port, q)
    → return_port port q ≡ p
unfolding pop_port return_port
return-pop [] p q port v e h = cc
return-pop (x ∷ l) p q port v e h = ground (arith, v.bound x)

-- A port that `getPort` of a well-formed pool has returned and that is given back at once leaves
-- the pool as it was.
return_port-get_port :
    (p q : UdpSocketPool) (port : ℕ) → IsPool p → get_port p ≡ (ok port, q) → return_port port q ≡ p
unfolding get_port
return_port-get_port p q port v h = return-pop p.free_ports p q port v refl h

nil_of_lookup : (m : Store ℕ Socket) → ((q : ℕ) → lookup q m ≡ none) → m ≡ []
unfolding lookup
nil_of_lookup [] h = refl
nil_of_lookup ((k, s) ∷ m) h = ground (arith, h k)

nil_of_elem : (l : List ℕ) → ((q : ℕ) → elem q l ≡ false) → l ≡ []
nil_of_elem [] h = refl
nil_of_elem (x ∷ l) h = ground (arith, h x)

lookup-deallocate_all :
    (ks : List ℕ) (p : UdpSocketPool) (q : ℕ)
    → lookup q (deallocate_all ks p).sockets ≡ (if elem q ks then none else lookup q p.sockets)
unfolding deallocate_all deallocate_port
lookup-deallocate_all [] p q = refl
lookup-deallocate_all (k ∷ ks) p q =
    ground (arith, lookup-deallocate_all ks (deallocate_port k p) q, lookup-erase k q p.sockets)

deallocate_all-IsPool : (ks : List ℕ) (p : UdpSocketPool) → IsPool p → IsPool (deallocate_all ks p)
unfolding deallocate_all
deallocate_all-IsPool [] p v = v
deallocate_all-IsPool (k ∷ ks) p v =
    deallocate_all-IsPool ks (deallocate_port k p) (deallocate_port-IsPool k p v)

closed_kept :
    (ks : List ℕ) (p : UdpSocketPool) (q : ℕ)
    → elem q p.closed ≡ true
    → elem q (deallocate_all ks p).closed ≡ true
unfolding deallocate_all deallocate_port
closed_kept [] p q h = h
closed_kept (k ∷ ks) p q h = closed_kept ks (deallocate_port k p) q (ground arith)

closed-deallocate_all :
    (ks : List ℕ) (p : UdpSocketPool) (q : ℕ)
    → has q p.sockets ≡ true
    → elem q ks ≡ true
    → elem q (deallocate_all ks p).closed ≡ true
unfolding deallocate_all deallocate_port
closed-deallocate_all [] p q b h = cc
closed-deallocate_all (k ∷ ks) p q b h = elim (Bool-cases (k == q)) [
  | inl e ↦ closed_kept ks (deallocate_port k p) q (ground arith)
  | inr e ↦
      closed-deallocate_all ks (deallocate_port k p) q (ground (arith, lookup-erase k q p.sockets))
        (ground arith)
]

clear_sockets : (p : UdpSocketPool) → (clear p).sockets ≡ []
unfolding clear
clear_sockets p =
    nil_of_lookup _
      (λ q. ground (arith, lookup-deallocate_all (keys p.sockets) p q, has-elem q p.sockets))

clear-IsPool : (p : UdpSocketPool) → IsPool p → IsPool (clear p)
unfolding clear
clear-IsPool p v = deallocate_all-IsPool (keys p.sockets) p v

free_of_bare : (p : UdpSocketPool) (q : ℕ) → p.sockets ≡ [] → IsPool p → elem q p.free_ports ≡ false
unfolding lookup
free_of_bare p q e v = ground (arith, v.bound q)

-- `clear` on a well-formed pool closes the socket of every bound port, and leaves neither a socket
-- nor a free port behind.
pub clear_releases :
    (p : UdpSocketPool)
    → IsPool p
    → ((clear p).sockets ≡ [])
      × ((clear p).free_ports ≡ [])
      × ((q : ℕ) → has q p.sockets ≡ true → elem q (clear p).closed ≡ true)
unfolding clear
clear_releases p v = (
  clear_sockets p,
  nil_of_elem _ (λ q. free_of_bare (clear p) q (clear_sockets p) (clear-IsPool p v)),
  λ q b. closed-deallocate_all (keys p.sockets) p q b (ground (arith, has-elem q p.sockets)),
)
