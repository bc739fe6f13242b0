-- ===== src/Server/Connecting/Introducing.antt =====
-- noray/src/connection/connection.commands.mjs: what 'connect' tells the parties.
use bevy_noray.Base.{
  ◌≡◌, refl, inl, inr, Option, none, some, Option-cases, ◌∷◌, Text, text_eq, codes, lookup, arith,
  Outcome, ok, throws, Failure,
}
use bevy_noray.Relay.Address.{RemoteInfo}
use bevy_noray.Repository.{find_item}
use bevy_noray.Hosts.{HostEntity, TcpSocket, find_by_socket}
use bevy_noray.Server.{Server, command}
use bevy_noray.Server.Connecting.{handle_connect, stringify_address}

-- How 'connect' ends: the parties are told each other's address, or nothing is sent.
pub data Introduces {L : Type 0} (socket : TcpSocket) (text : Option Text) (s : Server L)
    : Outcome (Unit {0}) × Server L → Type 0 where
  introduced :
      (oid : Text) (host client : HostEntity) (host_rinfo client_rinfo : RemoteInfo)
      → text ≡ some oid
      → lookup oid s.hosts ≡ some host
      → host.rinfo ≡ some host_rinfo
      → find_by_socket socket s.hosts ≡ some client
      → client.rinfo ≡ some client_rinfo
      → Introduces socket text s (
        ok tt,
        record s {
          output =
              command host.socket (codes "connect") (stringify_address client_rinfo)
              ∷ command socket (codes "connect") (stringify_address host_rinfo)
              ∷ s.output;
        },
      )
  no_text : text ≡ none → Introduces socket text s (throws Failure.missing_param, s)
  no_host :
      (oid : Text)
      → text ≡ some oid
      → lookup oid s.hosts ≡ none
      → Introduces socket text s (throws Failure.unknown_oid, s)
  no_host_address :
      (oid : Text) (host : HostEntity)
      → text ≡ some oid
      → lookup oid s.hosts ≡ some host
      → host.rinfo ≡ none
      → Introduces socket text s (throws Failure.no_host_rinfo, s)
  no_client :
      find_by_socket socket s.hosts ≡ none
      → Introduces socket text s (throws Failure.unknown_client, s)
  no_client_address :
      (client : HostEntity)
      → find_by_socket socket s.hosts ≡ some client
      → client.rinfo ≡ none
      → Introduces socket text s (throws Failure.no_client_rinfo, s)

module _ {L : Type 0} (socket : TcpSocket) (s : Server L) where
  known_host :
      (oid : Text) (host : HostEntity) (host_rinfo : RemoteInfo)
      → lookup oid s.hosts ≡ some host
      → host.rinfo ≡ some host_rinfo
      → Introduces socket (some oid) s (handle_connect socket (some oid) s)
  unfolding handle_connect find_item
  known_host oid host hr eh er = elim (Option-cases (find_by_socket socket s.hosts)) [
    | inl n ↦
        let eq : handle_connect socket (some oid) s ≡ (throws Failure.unknown_client, s) =
          ground arith in
        rw eq (no_client n)
    | inr (client, ec) ↦ elim (Option-cases client.rinfo) [
      | inl n ↦
          let eq : handle_connect socket (some oid) s ≡ (throws Failure.no_client_rinfo, s) =
            ground arith in
          rw eq (no_client_address client ec n)
      | inr (cr, f) ↦
          let eq : handle_connect socket (some oid) s ≡ (
            ok tt,
            record s {
              output =
                  command host.socket (codes "connect") (stringify_address cr)
                  ∷ command socket (codes "connect") (stringify_address hr)
                  ∷ s.output;
            },
          ) =
            ground arith in
          rw eq (introduced oid host client hr cr refl eh er ec f)
    ]
  ]

  -- 'connect' either tells the client the host's address and the host the client's, one message
  -- each, or throws an error that names what is missing, the text, the host, the client or the
  -- address of either, and then sends nothing and changes nothing.
  pub handle_connect-Introduces :
      (text : Option Text) → Introduces socket text s (handle_connect socket text s)
  unfolding handle_connect find_item
  handle_connect-Introduces none = no_text refl
  handle_connect-Introduces (some oid) = elim (Option-cases (lookup oid s.hosts)) [
    | inl n ↦
        let eq : handle_connect socket (some oid) s ≡ (throws Failure.unknown_oid, s) =
          ground arith in
        rw eq (no_host oid refl n)
    | inr (host, eh) ↦ elim (Option-cases host.rinfo) [
      | inl n ↦
          let eq : handle_connect socket (some oid) s ≡ (throws Failure.no_host_rinfo, s) =
            ground arith in
          rw eq (no_host_address oid host refl eh n)
      | inr (hr, er) ↦ known_host oid host hr eh er
    ]
  ]
