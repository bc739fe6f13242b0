-- ===== src/Server/Hosting/Laws.antt =====
-- noray/src/hosts/host.commands.mjs: a host is there from its registration until its socket closes.
use bevy_noray.Base.{
  ◌∙◌, nat_eq, ◌==◌, ◌≡◌, ◌⊎◌, refl, inl, inr, true, false, not, Bool-cases, none, some, List, [],
  ◌∷◌, Text, text_eq, text_beq_iff, codes, lookup, insert, has, elem, select, lookup-insert,
  lookup-erase, arith, ok, throws, Failure, if◌then◌else◌,
}
use bevy_noray.Repository.{add, remove}
use bevy_noray.Hosts.{HostEntity, TcpSocket, new_host}
use bevy_noray.Server.{Server, command, hosts_inc, hosts_dec}
use bevy_noray.Server.Hosting.{register_host, on_close, remove_hosts, owned, disconnect}

-- The entity of a registration.
abbrev pub registered : Text → Text → TcpSocket → HostEntity
registered oid pid socket = record {
  oid = oid;
  pid = pid;
  socket = socket;
  relay = none;
  rinfo = none;
}

-- 'register-host' with an identifier that is in use throws, and has only counted the host; otherwise
-- it keeps the new host under its open identifier, tells the client both identifiers, and will remove
-- the host when the socket closes.
pub register_host_cases :
    {L : Type 0} (oid pid : Text) (socket : TcpSocket) (s : Server L)
    → ((has oid s.hosts ≡ true)
        × (register_host oid pid socket s
            ≡ (throws Failure.id_in_use, record s { output = hosts_inc ∷ s.output })))
      ⊎ ((has oid s.hosts ≡ false)
          × (register_host oid pid socket s ≡ (
            ok tt,
            record s {
              hosts = insert oid (registered oid pid socket) s.hosts;
              closing = (socket, oid) ∷ s.closing;
              output =
                  command socket (codes "set-pid") pid
                  ∷ command socket (codes "set-oid") oid
                  ∷ hosts_inc
                  ∷ s.output;
            },
          )))
unfolding register_host new_host add on_close
register_host_cases oid pid socket s = elim (Bool-cases (has oid s.hosts)) [
  | inl u ↦ inl (u, ground arith)
  | inr f ↦ inr (f, ground arith)
]

lookup-remove_hosts :
    {L : Type 0} (oids : List Text) (s : Server L) (k : Text)
    → lookup k (remove_hosts oids s).hosts ≡ (if elem k oids then none else lookup k s.hosts)
unfolding remove_hosts remove
lookup-remove_hosts [] s k = refl
lookup-remove_hosts (oid ∷ oids) s k = ground (
  arith,
  lookup-remove_hosts oids
      (record s { hosts = (remove oid s.hosts).1; output = hosts_dec ∷ s.output }) k,
  lookup-erase oid k s.hosts,
)

-- When a socket closes, every host that registered over it is gone, and every other host stays.
pub disconnect_removes :
    {L : Type 0} (socket : TcpSocket) (s : Server L) (k : Text)
    → lookup k (disconnect socket s).hosts
      ≡ (if elem k (owned socket s.closing) then none else lookup k s.hosts)
unfolding disconnect
disconnect_removes socket s k =
    lookup-remove_hosts (owned socket s.closing)
      (record s { closing = select (λ c. not (c.0 == socket)) s.closing }) k

owned_registered :
    {L : Type 0} (oid pid : Text) (socket : TcpSocket) (s : Server L)
    → has oid s.hosts ≡ false
    → owned socket s.closing ≡ []
    → owned socket (register_host oid pid socket s).1.closing ≡ oid ∷ []
unfolding owned
owned_registered oid pid socket s fresh idle = elim (register_host_cases oid pid socket s) [
  | inl (u, _) ↦ absurd (ground arith)
  | inr (_, e) ↦ rw e (ground (arith, idle))
]

-- A new host, with a fresh identifier and over a socket without another host, is found by its
-- identifier until the socket closes; closing it leaves the hosts that were there before.
pub disconnect-register_host :
    {L : Type 0} (oid pid : Text) (socket : TcpSocket) (s : Server L)
    → has oid s.hosts ≡ false
    → owned socket s.closing ≡ []
    → let s' = (register_host oid pid socket s).1 in
      (lookup oid s'.hosts ≡ some (registered oid pid socket))
      × ((k : Text) → lookup k (disconnect socket s').hosts ≡ lookup k s.hosts)
disconnect-register_host oid pid socket s fresh idle =
    let mine = owned_registered oid pid socket s fresh idle in
    elim (register_host_cases oid pid socket s) [
      | inl (u, _) ↦ absurd (ground arith)
      | inr (_, e) ↦ (
        rw e (
            ground (
              arith,
              lookup-insert oid oid (registered oid pid socket) s.hosts,
              text_beq_iff oid oid,
            )),
        λ k.
            disconnect_removes socket (register_host oid pid socket s).1 k
            ∙ rw (mine) (
                rw e (
                  ground (
                    arith,
                    lookup-insert oid k (registered oid pid socket) s.hosts,
                    text_beq_iff oid k,
                  ))),
      )
    ]
