-- ===== src/Relay/Handler/Invariant/Touching.antt =====
-- noray/src/relay/udp.relay.handler.mjs, `relay`: the times that it writes to the table's entries.
use bevy_noray.Base.{◌∙◌, ℕ, nat_eq, ◌≡◌, refl, Bool, List, [], ◌∷◌, arith, length}
use bevy_noray.Relay.Address.{NetAddress, address_eq}
use bevy_noray.Relay.Entry.{RelayEntry}
use bevy_noray.Relay.Pool.{UdpSocketPool}
use bevy_noray.Relay.Handler.{update_first}
use bevy_noray.Relay.Handler.Transmit.{is_sender, is_target}
use bevy_noray.Relay.Handler.Invariant.{ports, addresses, IsTable}

-- A change of an entry's times.
abbrev pub KeepsPlace : (RelayEntry → RelayEntry) → Type 0
KeepsPlace f = (e : RelayEntry) → ((f e).port ≡ e.port) × ((f e).address ≡ e.address)

module _ (t : RelayEntry → Bool) (f : RelayEntry → RelayEntry) (k : KeepsPlace f) where
  ports-update_first : (es : List RelayEntry) → ports (update_first t f es) ≡ ports es
  unfolding update_first
  ports-update_first [] = refl
  ports-update_first (e ∷ es) = ground (arith, k e, ports-update_first es)

  addresses-update_first : (es : List RelayEntry) → addresses (update_first t f es) ≡ addresses es
  unfolding update_first
  addresses-update_first [] = refl
  addresses-update_first (e ∷ es) = ground (arith, k e, addresses-update_first es)

  length-update_first : (es : List RelayEntry) → length (update_first t f es) ≡ length es
  unfolding update_first
  length-update_first [] = refl
  length-update_first (e ∷ es) = ground (arith, length-update_first es)

  update_first-IsTable :
      (p : UdpSocketPool) (es : List RelayEntry) → IsTable p es → IsTable p (update_first t f es)
  update_first-IsTable p es v = record {
    ports_once = rw (ports-update_first es) v.ports_once;
    addresses_once = rw (addresses-update_first es) v.addresses_once;
    wired = rw (ports-update_first es) v.wired;
    busy = rw (ports-update_first es) v.busy;
  }

abbrev sent_at : ℕ → RelayEntry → RelayEntry
sent_at now e = record e { last_sent = now }

abbrev received_at : ℕ → RelayEntry → RelayEntry
received_at now e = record e { last_received = now }

-- The table after a datagram from `sender` to `target` has gone through.
abbrev pub touched : ℕ → NetAddress → ℕ → List RelayEntry → List RelayEntry
touched now sender target es =
    update_first (is_target target) (sent_at now)
      (update_first (is_sender sender) (received_at now) es)

pub touched-IsTable :
    (now : ℕ) (sender : NetAddress) (target : ℕ) (p : UdpSocketPool) (es : List RelayEntry)
    → IsTable p es
    → IsTable p (touched now sender target es)
touched-IsTable now sender target p es v =
    update_first-IsTable _ (sent_at now) (λ e. (refl, refl)) p _
      (update_first-IsTable _ (received_at now) (λ e. (refl, refl)) p es v)

pub length-touched :
    (now : ℕ) (sender : NetAddress) (target : ℕ) (es : List RelayEntry)
    → length (touched now sender target es) ≡ length es
length-touched now sender target es =
    length-update_first _ (sent_at now) (λ e. (refl, refl)) _
    ∙ length-update_first _ (received_at now) (λ e. (refl, refl)) es
