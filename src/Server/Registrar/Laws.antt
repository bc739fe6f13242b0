-- ===== src/Server/Registrar/Laws.antt =====
-- noray/src/relay/udp.remote.registrar.mjs: what a registration changes, and that repeating it is safe.
use bevy_noray.Base.{
  ◌≡◌, refl, inl, inr, Bool, true, Bool-cases, none, some, Option-cases, [], ◌∷◌, Text, text_eq,
  text_beq, text_beq_iff, lookup, insert, values, keys, Distinct, find, has-elem, arith, Failure,
}
use bevy_noray.Relay.Address.{RemoteInfo, from_rinfo}
use bevy_noray.Repository.{list}
use bevy_noray.Repository.Laws.{IsRepository}
use bevy_noray.Hosts.{Hosts, HostEntity, host_id, find_by_pid, modify_host}
use bevy_noray.Hosts.Laws.{find_by_pid_sound}
use bevy_noray.Server.{
  Server, reply_ok, reply_error, register_success, register_fail, register_repeat,
}
use bevy_noray.Server.Registrar.{handle}

abbrev with_rinfo : RemoteInfo → HostEntity → HostEntity
with_rinfo r h = record h { rinfo = some r }

-- How a datagram with a private identifier is answered, and which write follows.
pub data Answers {L : Type 0} (pid : Text) (rinfo : RemoteInfo) (s : Server L)
    : Server L → Type 0 where
  unknown :
      find_by_pid pid s.hosts ≡ none
      → Answers pid rinfo s (record s {
        output = reply_error (from_rinfo rinfo) Failure.unknown_pid ∷ register_fail ∷ s.output;
      })
  repeated :
      (host : HostEntity) (known : RemoteInfo)
      → find_by_pid pid s.hosts ≡ some host
      → host.rinfo ≡ some known
      → Answers pid rinfo s
          (record s { output = register_repeat ∷ reply_ok (from_rinfo rinfo) ∷ s.output })
  registered :
      (host : HostEntity)
      → find_by_pid pid s.hosts ≡ some host
      → host.rinfo ≡ none
      → Answers pid rinfo s (record s {
        hosts = modify_host host.oid (λ h. record h { rinfo = some rinfo }) s.hosts;
        output = register_success ∷ reply_ok (from_rinfo rinfo) ∷ s.output;
      })

pub handle-Answers :
    {L : Type 0} (pid : Text) (rinfo : RemoteInfo) (s : Server L)
    → Answers pid rinfo s (handle pid rinfo s)
unfolding handle
handle-Answers pid rinfo s = elim (Option-cases (find_by_pid pid s.hosts)) [
  | inl n ↦
      let eq : handle pid rinfo s ≡ record s {
        output = reply_error (from_rinfo rinfo) Failure.unknown_pid ∷ register_fail ∷ s.output;
      } =
        ground arith in
      rw eq (unknown n)
  | inr (host, f) ↦ elim (Option-cases host.rinfo) [
    | inl n ↦
        let eq : handle pid rinfo s ≡ record s {
          hosts = modify_host host.oid (λ h. record h { rinfo = some rinfo }) s.hosts;
          output = register_success ∷ reply_ok (from_rinfo rinfo) ∷ s.output;
        } =
          ground arith in
        rw eq (registered host f n)
    | inr (k, e) ↦
        let eq : handle pid rinfo s
            ≡ record s { output = register_repeat ∷ reply_ok (from_rinfo rinfo) ∷ s.output } =
          ground arith in
        rw eq (repeated host k f e)
  ]
]

-- Each host stands under its own identifier, entry by entry.
abbrev Owned : Hosts → Type 0
Owned [] = Unit {0}
Owned ((k, h) ∷ m) = (h.oid ≡ k) × Owned m

Owned-own_id :
    (m : Hosts)
    → Distinct (keys m)
    → ((k : Text) (h : HostEntity) → lookup k m ≡ some h → h.oid ≡ k)
    → Owned m
unfolding lookup
Owned-own_id [] d own = tt
Owned-own_id ((k, h) ∷ m) d own = (
  own k h (ground (arith, text_beq_iff k k)),
  Owned-own_id m d.1 (λ j x e. own j x (ground (arith, text_beq_iff k j, has-elem j m))),
)

-- A write to the host that a search has found is what the search finds next.
find-insert :
    (t : HostEntity → Bool) (m : Hosts) (h v : HostEntity)
    → Owned m
    → find t (values m) ≡ some h
    → t v ≡ true
    → find t (values (insert h.oid v m)) ≡ some v
unfolding insert
find-insert t [] h v o f p = cc
find-insert t ((j, w) ∷ m) h v o f p = elim (Bool-cases (t w)) [
  | inl hit ↦
      let same : w ≡ h = ground arith in
      let here : h.oid ≡ j = rw same at o.0 in ground (arith, here, text_beq_iff j h.oid)
  | inr miss ↦ ground (arith, find-insert t m h v o.1)
]

found_again :
    (pid : Text) (hosts : Hosts) (host : HostEntity) (rinfo : RemoteInfo)
    → IsRepository host_id hosts
    → find_by_pid pid hosts ≡ some host
    → find_by_pid pid (modify_host host.oid (with_rinfo rinfo) hosts) ≡ some (with_rinfo rinfo host)
unfolding find_by_pid modify_host list
found_again pid hosts host rinfo v f =
    let (p, at) = find_by_pid_sound pid hosts host v f in
    rw (at, modify_host)
      (find-insert (λ h. text_beq h.pid pid) hosts host (with_rinfo rinfo host)
        (Owned-own_id hosts v.once v.own_id) f ((text_beq_iff host.pid pid).1 p))

rinfo_stays :
    {L : Type 0} (pid : Text) (rinfo : RemoteInfo) (s s' : Server L) (host : HostEntity)
    (k : RemoteInfo)
    → Answers pid rinfo s s'
    → find_by_pid pid s.hosts ≡ some host
    → host.rinfo ≡ some k
    → s'.hosts ≡ s.hosts
rinfo_stays pid rinfo s s' host k (unknown n) f e = refl
rinfo_stays pid rinfo s s' host k (repeated h j g i) f e = refl
rinfo_stays pid rinfo s s' host k (registered h g i) f e = absurd (ground arith)

second_time :
    {L : Type 0} (pid : Text) (first second : RemoteInfo) (s s' : Server L)
    → Answers pid first s s'
    → IsRepository host_id s.hosts
    → (handle pid second s').hosts ≡ s'.hosts
unfolding handle
second_time pid first second s s' (unknown n) v = ground arith
second_time pid first second s s' (repeated h k g i) v =
    rinfo_stays pid second _ _ h k (handle-Answers pid second _) g i
second_time pid first second s s' (registered h g i) v =
    rinfo_stays pid second _ _ (with_rinfo first h) first (handle-Answers pid second _)
      (found_again pid s.hosts h first v g) refl

-- In a well-formed repository a repeated registration, also from another address, changes no host:
-- the first address stays.
pub handle_idem :
    {L : Type 0} (pid : Text) (first second : RemoteInfo) (s : Server L)
    → IsRepository host_id s.hosts
    → (handle pid second (handle pid first s)).hosts ≡ (handle pid first s).hosts
handle_idem pid first second s v =
    second_time pid first second s (handle pid first s) (handle-Answers pid first s) v
