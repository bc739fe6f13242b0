-- ===== src/Relay/Entry.antt =====
-- noray/src/relay/relay.entry.mjs
pub mod Identity
use bevy_noray.Base.{ℕ, Bool, ◌++◌, Text, codes, to_string}
use bevy_noray.Relay.Address.{NetAddress, equals, address_to_string}

-- Times are readings of the clock; a `port` that is not set yet is 0, which no socket is bound to.
pub record RelayEntry : Type 0 where
  pub port : ℕ
  pub address : NetAddress
  pub last_sent : ℕ
  pub last_received : ℕ
  pub created : ℕ

-- `new RelayEntry({ address, port })` at the time `now`.
unfoldable pub new_entry : ℕ → NetAddress → ℕ → RelayEntry
new_entry now address port = record {
  port = port;
  address = address;
  last_sent = 0;
  last_received = 0;
  created = now;
}

unfoldable pub entry_equals : RelayEntry → RelayEntry → Bool
entry_equals e f = equals e.address f.address

unfoldable pub id : RelayEntry → Text
id e = address_to_string e.address ++ (codes "@" ++ to_string e.port)
