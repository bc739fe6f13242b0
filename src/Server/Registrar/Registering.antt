-- ===== src/Server/Registrar/Registering.antt =====
-- noray/src/relay/udp.remote.registrar.mjs: which hosts a registration changes, and what it answers.
use bevy_noray.Base.{
  ◌≡◌, ◌∷◌, if◌then◌else◌, none, some, Text, text_eq, lookup, lookup-insert, Failure,
}
use bevy_noray.Relay.Address.{RemoteInfo, from_rinfo}
use bevy_noray.Repository.Laws.{IsRepository}
use bevy_noray.Hosts.{Hosts, HostEntity, host_id, find_by_pid, modify_host}
use bevy_noray.Hosts.Laws.{find_by_pid_sound}
use bevy_noray.Server.{
  Server, reply_ok, reply_error, register_success, register_fail, register_repeat,
}
use bevy_noray.Server.Registrar.{handle}
use bevy_noray.Server.Registrar.Laws

-- What a datagram with a private identifier does.
pub data Registers {L : Type 0} (pid : Text) (rinfo : RemoteInfo) (s : Server L)
    : Server L → Type 0 where
  refused :
      find_by_pid pid s.hosts ≡ none
      → Registers pid rinfo s (record s {
        output = reply_error (from_rinfo rinfo) Failure.unknown_pid ∷ register_fail ∷ s.output;
      })
  repeated :
      (host : HostEntity) (known : RemoteInfo)
      → host.pid ≡ pid
      → lookup host.oid s.hosts ≡ some host
      → host.rinfo ≡ some known
      → Registers pid rinfo s
          (record s { output = register_repeat ∷ reply_ok (from_rinfo rinfo) ∷ s.output })
  registered :
      (host : HostEntity) (hosts' : Hosts)
      → host.pid ≡ pid
      → lookup host.oid s.hosts ≡ some host
      → host.rinfo ≡ none
      → ((k : Text)
          → lookup k hosts' ≡ (
              if text_eq.beq host.oid k
              then some (record host { rinfo = some rinfo })
              else lookup k s.hosts))
      → Registers pid rinfo s (record s {
        hosts = hosts';
        output = register_success ∷ reply_ok (from_rinfo rinfo) ∷ s.output;
      })

lookup-modify_host :
    (host : HostEntity) (f : HostEntity → HostEntity) (hosts : Hosts)
    → lookup host.oid hosts ≡ some host
    → (k : Text)
    → lookup k (modify_host host.oid f hosts)
      ≡ (if text_eq.beq host.oid k then some (f host) else lookup k hosts)
unfolding modify_host
lookup-modify_host host f hosts e k = rw (e, modify_host) (lookup-insert host.oid k (f host) hosts)

Answers-Registers :
    {L : Type 0} (pid : Text) (rinfo : RemoteInfo) (s s' : Server L)
    → Laws.Answers pid rinfo s s'
    → IsRepository host_id s.hosts
    → Registers pid rinfo s s'
Answers-Registers pid rinfo s s' (Laws.unknown n) v = refused n
Answers-Registers pid rinfo s s' (Laws.repeated host known f e) v =
    let (p, at) = find_by_pid_sound pid s.hosts host v f in repeated host known p at e
Answers-Registers pid rinfo s s' (Laws.registered host f e) v =
    let (p, at) = find_by_pid_sound pid s.hosts host v f in
    registered host _ p at e
      (lookup-modify_host host (λ h. record h { rinfo = some rinfo }) s.hosts at)

-- In a well-formed repository, a datagram with an identifier that no host has is answered with an error
-- and changes no host; one for a host with a known address is answered OK and changes no host; the first
-- one for a host is answered OK and stores the sender's address in that host, and what is stored under
-- every other identifier stays. Every answer goes to the sender.
pub handle-Registers :
    {L : Type 0} (pid : Text) (rinfo : RemoteInfo) (s : Server L)
    → IsRepository host_id s.hosts
    → Registers pid rinfo s (handle pid rinfo s)
handle-Registers pid rinfo s v =
    Answers-Registers pid rinfo s (handle pid rinfo s) (Laws.handle-Answers pid rinfo s) v
