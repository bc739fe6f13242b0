-- ===== src/Hosts/Laws.antt =====
-- noray/src/hosts/host.repository.mjs: what the two searches find.
use bevy_noray.Base.{
  ap, ◌∙◌, ℕ, nat_eq, ◌==◌, ◌≡◌, inl, inr, Bool-cases, Bool, some, Option-cases, [], ◌∷◌, find,
  find_test, Text, text_eq, text_beq, text_beq_iff, Store, values, keys, lookup, arith, Distinct,
  has-elem,
}
use bevy_noray.Repository.{list}
use bevy_noray.Repository.Laws.{IsRepository, insert-IsRepository}
use bevy_noray.Hosts.{HostEntity, Hosts, host_id, find_by_pid, find_by_socket, modify_host}

-- A value that `find` returns is stored at some key.
find-stored :
    {V : Type 0} (t : V → Bool) (m : Store Text V) (v : V)
    → Distinct (keys m)
    → find t (values m) ≡ some v
    → (k : Text) × (lookup k m ≡ some v)
unfolding lookup
find-stored t [] v d h = absurd (ground arith)
find-stored t ((j, w) ∷ m) v d h = elim (Bool-cases (t w)) [
  | inl hit ↦ (j, ground (arith, text_beq_iff j j))
  | inr miss ↦
      let (k, e) = find-stored t m v d.1 (ground arith) in
      (k, ground (arith, e, text_beq_iff j k, has-elem k m, has-elem j m))
]

-- A host that a search finds is the host that is stored under its identifier.
found-stored :
    (t : HostEntity → Bool) (hosts : Hosts) (host : HostEntity)
    → IsRepository host_id hosts
    → find t (values hosts) ≡ some host
    → lookup host.oid hosts ≡ some host
found-stored t hosts host v h =
    let (k, e) = find-stored t hosts host v.once h in
    let same : host.oid ≡ k = v.own_id k host e in ap (λ j. lookup j hosts) same ∙ e

-- In a well-formed repository, what `findByPid` finds has the private identifier, and is stored
-- under its own open identifier.
pub find_by_pid_sound :
    (pid : Text) (hosts : Hosts) (host : HostEntity)
    → IsRepository host_id hosts
    → find_by_pid pid hosts ≡ some host
    → (host.pid ≡ pid) × (lookup host.oid hosts ≡ some host)
unfolding find_by_pid list
find_by_pid_sound pid hosts host v h = (
  (text_beq_iff host.pid pid).0 (find_test (λ x. text_beq x.pid pid) (values hosts) host h),
  found-stored (λ x. text_beq x.pid pid) hosts host v h,
)

-- In a well-formed repository, what `findBySocket` finds came from the socket, and is stored under
-- its own open identifier.
pub find_by_socket_sound :
    (socket : ℕ) (hosts : Hosts) (host : HostEntity)
    → IsRepository host_id hosts
    → find_by_socket socket hosts ≡ some host
    → (host.socket ≡ socket) × (lookup host.oid hosts ≡ some host)
unfolding find_by_socket list
find_by_socket_sound socket hosts host v h = (
  ground (arith, find_test (λ x. x.socket == socket) (values hosts) host h),
  found-stored (λ x. x.socket == socket) hosts host v h,
)

-- A write to a field other than the identifier keeps the repository well-formed.
pub modify_host-IsRepository :
    (oid : Text) (f : HostEntity → HostEntity) (hosts : Hosts)
    → ((h : HostEntity) → (f h).oid ≡ h.oid)
    → IsRepository host_id hosts
    → IsRepository host_id (modify_host oid f hosts)
unfolding modify_host
modify_host-IsRepository oid f hosts same v = elim (Option-cases (lookup oid hosts)) [
  | inl n ↦ rw (n, modify_host) v
  | inr (h, e) ↦
      rw (e, modify_host)
        (insert-IsRepository host_id (f h) oid hosts (same h ∙ v.own_id oid h e) v)
]
