-- ===== src/Relay/Cleanup.antt =====
-- noray/src/relay/udp.relay.cleanup.mjs
pub mod Expiry
use bevy_noray.Base.{ℕ, ◌+◌, Bool, List, [], ◌∷◌, max, leb, select, Action, pure, ◌>>=◌, ◌>>◌}
use bevy_noray.Relay.Entry.{RelayEntry}
use bevy_noray.Relay.Handler.{Handler, Listeners, expired_inc, free_relay, note}

-- `max(lastSent, lastReceived) <= time() - timeout`
abbrev pub is_idle : ℕ → ℕ → RelayEntry → Bool
is_idle timeout now relay = leb (max relay.last_sent relay.last_received + timeout) now

module _ {L : Type 0} (ls : Listeners L) (now : ℕ) where
  unfoldable pub expire_all : List RelayEntry → Action (Handler L) (Unit {0})
  expire_all [] = pure tt
  expire_all (e ∷ es) = free_relay ls now e >> (note expired_inc >> expire_all es)

  -- The relays to free are taken from a copy of the table.
  unfoldable pub cleanup_udp_relay_table : ℕ → Action (Handler L) (Unit {0})
  unfolding expire_all
  cleanup_udp_relay_table timeout h = expire_all (select (is_idle timeout now) h.table) h
