-- ===== src/Relay/Limiter.antt =====
-- noray/src/relay/bandwidth.limiter.mjs. Times are whole microseconds and sizes are bytes; the limit
-- of a slice, bytes per second times seconds, is compared after multiplying by `second`.
pub mod Bounds
use bevy_noray.Base.{
  ℕ, ◌+◌, ◌*◌, Option, none, some, Outcome, ok, throws, Action, bandwidth_limit, missing_param,
  if◌then◌else◌, ltb, leb,
}

abbrev pub second : ℕ
second = 1_000_000

pub record BandwidthLimiter : Type 0 where
  pub interval : ℕ
  pub max_traffic : ℕ
  pub traffic : ℕ
  pub last_interval : ℕ

-- `options.maxTraffic` may be missing, `options.interval` defaults to a second.
unfoldable pub new_limiter : ℕ → Option ℕ → Option ℕ → Outcome BandwidthLimiter
new_limiter now max_traffic interval = elim max_traffic [
  | none ↦ throws missing_param
  | some most ↦ ok (record {
    interval = elim interval [ none ↦ second | some i ↦ i ];
    max_traffic = most;
    traffic = 0;
    last_interval = now;
  })
]

unfoldable pub validate : ℕ → ℕ → Action BandwidthLimiter (Unit {0})
validate now size l =
    if ltb (l.last_interval + l.interval) now
    then (ok tt, record l { last_interval = now; traffic = size })
    else if leb ((l.traffic + size) * second) (l.max_traffic * l.interval)
    then (ok tt, record l { traffic = l.traffic + size })
    else (throws bandwidth_limit, l)
