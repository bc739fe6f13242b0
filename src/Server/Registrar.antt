-- ===== src/Server/Registrar.antt =====
-- noray/src/relay/udp.remote.registrar.mjs
pub mod Laws
pub mod Registering
use bevy_noray.Base.{
  ℕ, Option, none, some, Text, Outcome, ok, throws, Action, Failure, unknown_pid, pure, throw, gets,
  or_throw, ◌>>=◌, ◌>>◌, ◌∷◌,
}
use bevy_noray.Relay.Address.{NetAddress, RemoteInfo, from_rinfo}
use bevy_noray.Hosts.{Hosts, HostEntity, find_by_pid}
use bevy_noray.Server.{
  Server, Output, reply_ok, reply_error, register_success, register_fail, register_repeat, put,
  write_host,
}

module _ {L : Type 0} where
  -- The host has its remote address already, or gets it.
  unfoldable pub register_rinfo : HostEntity → RemoteInfo → Action (Server L) (Unit {0})
  register_rinfo host rinfo s = elim host.rinfo [
    | some known ↦ (put (reply_ok (from_rinfo rinfo)) >> put register_repeat) s
    | none ↦
        (write_host host.oid (λ h. record h { rinfo = some rinfo })
            >> (put (reply_ok (from_rinfo rinfo)) >> put register_success))
          s
  ]

  -- The body of the `try`, for a datagram with the text `pid`.
  unfoldable pub try_register : Text → RemoteInfo → Action (Server L) (Unit {0})
  unfolding register_rinfo
  try_register pid rinfo = do
    found ← gets (λ s. find_by_pid pid s.hosts)
    host ← or_throw found unknown_pid
    register_rinfo host rinfo

  -- `#handle`: the `catch` counts the failure and replies with its message.
  unfoldable pub handle : Text → RemoteInfo → Server L → Server L
  unfolding try_register
  handle pid rinfo s =
      let (r, s') = try_register pid rinfo s in
      elim r [
        | ok _ ↦ s'
        | throws e ↦ record s' {
          output = reply_error (from_rinfo rinfo) e ∷ register_fail ∷ s'.output;
        }
      ]
