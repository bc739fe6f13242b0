-- ===== src/Relay/Address.antt =====
-- noray/src/relay/net.address.mjs
use bevy_noray.Base.{
  ℕ, ◌≡◌, ◌↔◌, Bool, true, ◌&&◌, ◌++◌, arith, Eq, ◌==◌, nat_eq, Text, codes, text_beq, text_beq_iff,
  to_string,
}

pub record NetAddress : Type 0 where
  pub address : Text
  pub port : ℕ

-- What `dgram` reports of a datagram's sender, as far as the program reads it.
pub record RemoteInfo : Type 0 where
  pub address : Text
  pub port : ℕ

unfoldable pub equals : NetAddress → NetAddress → Bool
equals a b = text_beq a.address b.address && (a.port == b.port)

unfoldable pub address_to_string : NetAddress → Text
address_to_string a = a.address ++ (codes ":" ++ to_string a.port)

unfoldable pub from_rinfo : RemoteInfo → NetAddress
from_rinfo r = record { address = r.address; port = r.port }

pub equals_iff : (a b : NetAddress) → (equals a b ≡ true) ↔ (a ≡ b)
unfolding equals
equals_iff a b = ground (arith, text_beq_iff a.address b.address)

instance abbrev pub address_eq : Eq NetAddress
address_eq = record { beq = equals; beq_iff = equals_iff }
