-- ===== src/Tests/Servers.antt =====
-- The theorems on the repositories, the commands and the whole program at concrete states.
use bevy_noray.Base.{
  ℕ, nat_eq, ◌≡◌, ◌⊎◌, refl, true, false, some, List, [], ◌∷◌, codes, Text, text_eq, lookup, has,
  insert, ok, throws, Failure, to_string,
}
use bevy_noray.Relay.Address.{from_rinfo}
use bevy_noray.Relay.Handler.Invariant.{IsHandler}
use bevy_noray.Relay.Handler.Invariant.Routing.{HasRelay}
use bevy_noray.Repository.{list}
use bevy_noray.Repository.Laws.{view}
use bevy_noray.Repository.Refinement.{
  Call, adds, updates, removes, call_all, specified_all, calls_refine,
}
use bevy_noray.Repository.Objects.{Object}
use bevy_noray.Hosts.{HostEntity, host_id, find_by_socket}
use bevy_noray.Server.{Server, command, hosts_inc}
use bevy_noray.Server.Hosting.{register_host, disconnect, owned}
use bevy_noray.Server.Hosting.Laws.{registered, register_host_cases, disconnect-register_host}
use bevy_noray.Server.Connecting.{handle_connect, handle_connect_relay}
use bevy_noray.Server.Connecting.Introducing.{Introduces, handle_connect-Introduces}
use bevy_noray.Server.Connecting.Relaying.{handle_connect_relay_ensures}
use bevy_noray.Server.Registrar.{handle}
use bevy_noray.Server.Registrar.Laws.{handle_idem}
use bevy_noray.Server.Registrar.Registering.{Registers, handle-Registers}
use bevy_noray.System.Framing.{attached-accepting}
use bevy_noray.System.{State, attached}
use bevy_noray.Tests.{
  alice, bob, alice_rinfo, bob_rinfo, settings, alice_host, bob_host, hosts, server,
  hosts-IsRepository, server-IsServer,
}

handle_connect_relay_ensures_example :
    (p q : ℕ) × (s' : Server State) × (handle_connect_relay
        (attached settings)
        950
        2
        (some (codes "alice"))
        server
      ≡ (ok tt, s'))
    × (s'.output
        ≡ command 1 (codes "connect-relay") (to_string q)
          ∷ command 2 (codes "connect-relay") (to_string p)
          ∷ [])
    × HasRelay s'.relays alice p
    × HasRelay s'.relays bob q
    × IsHandler s'.relays
unfolding from_rinfo
handle_connect_relay_ensures_example =
    handle_connect_relay_ensures (attached settings) 950 (attached-accepting settings 950) 2
      (codes "alice") server alice_host bob_host alice_rinfo bob_rinfo 22 23 [] server-IsServer
      (unfold lookup in refl) refl (unfold find_by_socket list in refl) refl refl

handle_connect-Introduces_example :
    Introduces 2 (some (codes "alice")) server (handle_connect 2 (some (codes "alice")) server)
handle_connect-Introduces_example = handle_connect-Introduces 2 server (some (codes "alice"))

handle-Registers_example :
    Registers (codes "secret-b") alice_rinfo server (handle (codes "secret-b") alice_rinfo server)
handle-Registers_example = handle-Registers (codes "secret-b") alice_rinfo server hosts-IsRepository

handle_idem_example :
    (handle (codes "secret-b") alice_rinfo (handle (codes "secret-b") bob_rinfo server)).hosts
    ≡ (handle (codes "secret-b") bob_rinfo server).hosts
handle_idem_example = handle_idem (codes "secret-b") bob_rinfo alice_rinfo server hosts-IsRepository

register_host_cases_example :
    ((has (codes "carol") hosts ≡ true)
      × (register_host (codes "carol") (codes "secret-c") 3 server
          ≡ (throws Failure.id_in_use, record server { output = hosts_inc ∷ [] })))
    ⊎ ((has (codes "carol") hosts ≡ false)
        × (register_host (codes "carol") (codes "secret-c") 3 server ≡ (
          ok tt,
          record server {
            hosts =
                insert
                  (codes "carol")
                  (registered (codes "carol") (codes "secret-c") 3)
                  server.hosts;
            closing = (3, codes "carol") ∷ server.closing;
            output =
                command 3 (codes "set-pid") (codes "secret-c")
                ∷ command 3 (codes "set-oid") (codes "carol")
                ∷ hosts_inc
                ∷ [];
          },
        )))
register_host_cases_example = register_host_cases (codes "carol") (codes "secret-c") 3 server

disconnect-register_host_example :
    let s' = (register_host (codes "carol") (codes "secret-c") 3 server).1 in
    (lookup (codes "carol") s'.hosts ≡ some (registered (codes "carol") (codes "secret-c") 3))
    × ((k : Text) → lookup k (disconnect 3 s').hosts ≡ lookup k server.hosts)
disconnect-register_host_example =
    disconnect-register_host (codes "carol") (codes "secret-c") 3 server (unfold lookup in refl)
      (unfold owned in refl)

abbrev old_object : Object ℕ
old_object = (codes "id", 1) ∷ (codes "value", 2) ∷ []

abbrev new_object : Object ℕ
new_object = (codes "id", 1) ∷ (codes "label", 3) ∷ []

abbrev calls : List (Call Text HostEntity)
calls = adds bob_host ∷ removes (codes "bob") ∷ updates bob_host ∷ adds bob_host ∷ []

calls_refine_example :
    ((call_all host_id (λ old new. new) calls hosts).0
      ≡ (specified_all host_id (λ old new. new) calls (view hosts)).0)
    × (view (call_all host_id (λ old new. new) calls hosts).1
        ≡ (specified_all host_id (λ old new. new) calls (view hosts)).1)
calls_refine_example = calls_refine host_id (λ old new. new) calls hosts
