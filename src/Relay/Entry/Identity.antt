-- ===== src/Relay/Entry/Identity.antt =====
-- noray/src/relay/relay.entry.mjs and net.address.mjs: the texts under which relays and addresses are
-- kept tell them apart.
use bevy_noray.Base.{◌≡◌, to_string, arith}
use bevy_noray.Base.Texts.Decimal.{to_string-injective, elem-to_string, split_last}
use bevy_noray.Relay.Address.{NetAddress, address_to_string}
use bevy_noray.Relay.Entry.{RelayEntry, id}

-- The text of an address determines it, also for an IPv6 address with colons of its own.
pub address_to_string-injective :
    (a b : NetAddress) → address_to_string a ≡ address_to_string b → a ≡ b
unfolding address_to_string
address_to_string-injective a b p =
    let (x, y) =
      split_last b':' a.address b.address (to_string a.port) (to_string b.port)
        (elem-to_string b':' a.port (omega arith)) (elem-to_string b':' b.port (omega arith)) p in
    let q : a.port ≡ b.port = to_string-injective a.port b.port y in ground arith

-- Two relays with the same identifier have the same address and the same port.
pub id-injective : (e f : RelayEntry) → id e ≡ id f → (e.address ≡ f.address) × (e.port ≡ f.port)
unfolding id
id-injective e f p =
    let (x, y) =
      split_last b'@' (address_to_string e.address) (address_to_string f.address) (to_string e.port)
        (to_string f.port) (elem-to_string b'@' e.port (omega arith))
        (elem-to_string b'@' f.port (omega arith)) p in
    (address_to_string-injective e.address f.address x, to_string-injective e.port f.port y)
