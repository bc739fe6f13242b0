-- ===== src/Relay/Constraints.antt =====
-- noray/src/relay/constraints.mjs, and their registration in noray/src/relay/relay.mjs: four
-- listeners of 'transmit', two of them with a listener of 'destroy'.
pub mod Laws
pub mod Isolation
use bevy_noray.Base.{
  ℕ, ◌+◌, Bool, Option, none, some, if◌then◌else◌, ltb, length, has, Text, text_eq, Store, lookup,
  insert, erase, Outcome, ok, throws, Action, type_error, lifetime_limit, traffic_limit, ensure,
  ◌>>=◌, ◌>>◌,
}
use bevy_noray.Relay.Entry.{RelayEntry, id}
use bevy_noray.Relay.Limiter.{BandwidthLimiter, new_limiter, validate, second}
use bevy_noray.Relay.Handler.{Message, Listeners}

-- The limits of `config.udpRelay`: bytes per second, microseconds, bytes.
pub record Limits : Type 0 where
  pub max_individual_traffic : ℕ
  pub max_global_traffic : ℕ
  pub traffic_interval : Option ℕ
  pub max_lifetime_duration : ℕ
  pub max_lifetime_traffic : ℕ

-- What the listeners keep: a limiter for each relay, the global one, and the bytes of each relay.
pub record Counters : Type 0 where
  pub limiters : Store Text BandwidthLimiter
  pub limiter : BandwidthLimiter
  pub relay_traffic : Store Text ℕ

-- `interval ?? 1`
abbrev pub or_second : Option ℕ → Option ℕ
or_second none = some second
or_second (some i) = some i

-- `if (!limiters.has(source.id)) limiters.set(source.id, new BandwidthLimiter(…))`
unfoldable pub ensure_limiter :
    ℕ → Option ℕ → ℕ → RelayEntry → Action (Store Text BandwidthLimiter) (Unit {0})
ensure_limiter traffic interval now source m =
    if has (id source) m
    then (ok tt, m)
    else elim (new_limiter now (some traffic) (or_second interval)) [
      | ok l ↦ (ok tt, insert (id source) l m)
      | throws e ↦ (throws e, m)
    ]

-- `limiters.get(source.id).validate(message.length)`: the limiter is an object, changed in place.
unfoldable pub validate_limiter :
    ℕ → RelayEntry → Message → Action (Store Text BandwidthLimiter) (Unit {0})
validate_limiter now source msg m = elim (lookup (id source) m) [
  | none ↦ (throws type_error, m)
  | some l ↦ let (r, l') = validate now (length msg) l in (r, insert (id source) l' m)
]

unfoldable pub transmit_individual :
    ℕ → Option ℕ → ℕ → RelayEntry → Message → Action (Store Text BandwidthLimiter) (Unit {0})
unfolding ensure_limiter validate_limiter
transmit_individual traffic interval now source msg =
    ensure_limiter traffic interval now source >> validate_limiter now source msg

unfoldable pub transmit_global : ℕ → Message → Action BandwidthLimiter (Unit {0})
transmit_global now msg = validate now (length msg)

-- `time() - source.created < duration`
unfoldable pub transmit_lifetime : ℕ → ℕ → RelayEntry → Outcome (Unit {0})
transmit_lifetime duration now source =
    if ltb now (source.created + duration) then ok tt else throws lifetime_limit

-- The bytes are counted before the test, also of a datagram that is then blocked.
unfoldable pub transmit_traffic : ℕ → RelayEntry → Message → Action (Store Text ℕ) (Unit {0})
transmit_traffic traffic source msg m =
    let total : ℕ = elim (lookup (id source) m) [ none ↦ 0 | some n ↦ n ] + length msg in
    (if ltb total traffic then ok tt else throws traffic_limit, insert (id source) total m)

module _ (c : Limits) where
  on_limiters : ℕ → RelayEntry → Message → Action Counters (Unit {0})
  on_limiters now source msg s =
      let (r, m) =
        transmit_individual c.max_individual_traffic c.traffic_interval now source msg s.limiters in
      (r, record s { limiters = m })

  on_limiter : ℕ → Message → Action Counters (Unit {0})
  on_limiter now msg s =
      let (r, l) = transmit_global now msg s.limiter in (r, record s { limiter = l })

  on_lifetime : ℕ → RelayEntry → Action Counters (Unit {0})
  on_lifetime now source s = (transmit_lifetime c.max_lifetime_duration now source, s)

  on_traffic : RelayEntry → Message → Action Counters (Unit {0})
  on_traffic source msg s =
      let (r, m) = transmit_traffic c.max_lifetime_traffic source msg s.relay_traffic in
      (r, record s { relay_traffic = m })

  -- The listeners in the order in which they are attached: the first that throws ends the event.
  unfoldable pub transmit : ℕ → RelayEntry → RelayEntry → Message → Action Counters (Unit {0})
  unfolding on_limiters on_limiter on_lifetime on_traffic
  transmit now source target msg = do
    on_limiters now source msg
    on_limiter now msg
    on_lifetime now source
    on_traffic source msg

unfoldable pub destroy : ℕ → RelayEntry → Action Counters (Unit {0})
destroy now relay s = (
  ok tt,
  record s {
    limiters = erase (id relay) s.limiters;
    relay_traffic = erase (id relay) s.relay_traffic;
  },
)

-- No listener is attached to 'create'.
unfoldable pub constraints : Limits → Listeners Counters
constraints c = record {
  on_create = λ now relay s. (ok tt, s);
  on_transmit = transmit c;
  on_destroy = destroy;
}
