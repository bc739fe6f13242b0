-- ===== src/Server/Invariant.antt =====
-- The commands of noray/src/hosts, noray/src/connection and the registrar keep the server well-formed.
use bevy_noray.Base.{text_eq, nat_eq}
use bevy_noray.Relay.Handler.{Listeners}
use bevy_noray.Relay.Handler.Invariant.{IsHandler}
use bevy_noray.Relay.Handler.Invariant.Creating.{create_relay-IsHandler}
use bevy_noray.Repository.Laws.{IsRepository, add-IsRepository, remove-IsRepository}
use bevy_noray.Hosts.{host_id}
use bevy_noray.Hosts.Laws.{modify_host-IsRepository}
use bevy_noray.Server.{Server}
use bevy_noray.Server.Hosting.{on_close}
use bevy_noray.Server.Frame.{IsStable, IsHosting}

-- Each host is kept under its own open identifier, and the relay handler is well-formed.
pub record IsServer {L : Type 0} (s : Server L) : Type 0 where
  pub hosts_ok : IsRepository host_id s.hosts
  pub relays_ok : IsHandler s.relays

-- The commands on hosts that are there keep the server well-formed, whatever the listeners do.
pub IsServer-IsStable : {L : Type 0} (ls : Listeners L) → IsStable ls IsServer
IsServer-IsStable ls = record {
  output_free = λ o s v. record { hosts_ok = v.hosts_ok; relays_ok = v.relays_ok };
  writing = λ oid f k s v. record {
    hosts_ok = modify_host-IsRepository oid f s.hosts (λ h. (k h).0) v.hosts_ok;
    relays_ok = v.relays_ok;
  };
  creating = λ now r s v. record {
    hosts_ok = v.hosts_ok;
    relays_ok = create_relay-IsHandler ls now r s.relays v.relays_ok;
  };
}

-- A host that comes or goes keeps the server well-formed.
pub IsServer-IsHosting : {L : Type 0} → IsHosting {L = L} IsServer
unfolding on_close
IsServer-IsHosting = record {
  adding = λ h s v. record {
    hosts_ok = add-IsRepository host_id h s.hosts v.hosts_ok;
    relays_ok = v.relays_ok;
  };
  closing = λ socket oid s v. record { hosts_ok = v.hosts_ok; relays_ok = v.relays_ok };
  closed = λ l s v. record { hosts_ok = v.hosts_ok; relays_ok = v.relays_ok };
  removing = λ oid s v. record {
    hosts_ok = remove-IsRepository host_id oid s.hosts v.hosts_ok;
    relays_ok = v.relays_ok;
  };
}
