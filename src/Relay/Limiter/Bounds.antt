-- ===== src/Relay/Limiter/Bounds.antt =====
-- noray/src/relay/bandwidth.limiter.mjs: how much traffic a limiter lets through.
use bevy_noray.Base.{
  ℕ, ◌+◌, ◌*◌, ◌≤◌, ◌<◌, ◌≡◌, ◌⊎◌, inl, inr, List, [], ◌∷◌, arith, true, false, if◌then◌else◌, ltb,
  Outcome, ok, throws, bandwidth_limit,
}
use bevy_noray.Relay.Limiter.{BandwidthLimiter, second, validate}

-- The bytes of the call that a limiter has let through.
abbrev passed : ℕ → Outcome (Unit {0}) → ℕ
passed size (ok _) = size
passed size (throws _) = 0

-- The bytes that get through in a sequence of calls, each a time and a size, and the limiter after it.
pub accepted : List (ℕ × ℕ) → BandwidthLimiter → ℕ × BandwidthLimiter
accepted [] l = (0, l)
accepted ((now, size) ∷ calls) l =
    let (r, l') = validate now size l in
    let (n, l'') = accepted calls l' in (passed size r + n, l'')

abbrev pub Within : ℕ → List (ℕ × ℕ) → Type 0
Within end [] = Unit {0}
Within end ((now, size) ∷ calls) = (now ≤ end) × Within end calls

abbrev pub SizesUpTo : ℕ → List (ℕ × ℕ) → Type 0
SizesUpTo most [] = Unit {0}
SizesUpTo most ((now, size) ∷ calls) = (size ≤ most) × SizesUpTo most calls

-- In a slice that has not run out, `validate` passes exactly the sizes that still fit: it then adds
-- the size to the traffic, and otherwise throws and changes nothing.
pub validate_in_slice :
    (now size : ℕ) (l : BandwidthLimiter)
    → now ≤ l.last_interval + l.interval
    → (((l.traffic + size) * second ≤ l.max_traffic * l.interval)
        × (validate now size l ≡ (ok tt, record l { traffic = l.traffic + size })))
      ⊎ ((l.max_traffic * l.interval < (l.traffic + size) * second)
          × (validate now size l ≡ (throws bandwidth_limit, l)))
unfolding validate
validate_in_slice now size l h = ground arith

-- Within one slice, the bytes that get through together with what was counted before stay within the
-- limit of the slice, for every sequence of calls.
pub accepted_in_slice :
    (calls : List (ℕ × ℕ)) (l : BandwidthLimiter)
    → Within (l.last_interval + l.interval) calls
    → l.traffic * second ≤ l.max_traffic * l.interval
    → ((accepted calls l).0 + l.traffic) * second ≤ l.max_traffic * l.interval
unfolding accepted
accepted_in_slice [] l w h = omega arith
accepted_in_slice ((now, size) ∷ calls) l w h = elim (validate_in_slice now size l w.0) [
  | inl (fits, e) ↦
      rw e
        (omega (arith, accepted_in_slice calls (record l { traffic = l.traffic + size }) w.1 fits))
  | inr (over, e) ↦ rw e (omega (arith, accepted_in_slice calls l w.1 h))
]

-- How many calls of the sequence start a new slice.
pub slices : List (ℕ × ℕ) → BandwidthLimiter → ℕ
slices [] l = 0
slices ((now, size) ∷ calls) l =
    (if ltb (l.last_interval + l.interval) now then 1 else 0) + slices calls (validate now size l).1

validate_step :
    (now size slice_cap : ℕ) (l : BandwidthLimiter)
    → l.max_traffic * l.interval ≤ slice_cap
    → size * second ≤ slice_cap
    → l.traffic * second ≤ slice_cap
    → let (r, l') = validate now size l in
      (l'.interval ≡ l.interval)
      × (l'.max_traffic ≡ l.max_traffic)
      × (l'.traffic * second ≤ slice_cap)
      × (((ltb (l.last_interval + l.interval) now ≡ true)
            × (l'.traffic ≡ size)
            × (passed size r ≡ size)
            × (l.last_interval + l.interval < l'.last_interval))
          ⊎ ((ltb (l.last_interval + l.interval) now ≡ false)
              × (l'.traffic ≡ l.traffic + passed size r)
              × (l'.last_interval ≡ l.last_interval)))
unfolding validate
validate_step now size slice_cap l h s t = ground arith

-- Over any sequence of calls, each of a size that alone fits under the slice_cap: every slice lets through
-- at most the slice_cap, so the bytes that get through are at most the slice_cap times the number of slices; and
-- the slices that were started need their intervals of time.
pub accepted_over_time :
    (calls : List (ℕ × ℕ)) (most slice_cap : ℕ) (l : BandwidthLimiter)
    → SizesUpTo most calls
    → most * second ≤ slice_cap
    → l.max_traffic * l.interval ≤ slice_cap
    → l.traffic * second ≤ slice_cap
    → (((accepted calls l).0 + l.traffic) * second ≤ (slices calls l + 1) * slice_cap)
      × (slices calls l * l.interval + l.last_interval ≤ (accepted calls l).1.last_interval)
unfolding accepted slices
accepted_over_time [] most slice_cap l s m h t = omega arith
accepted_over_time ((now, size) ∷ calls) most slice_cap l s m h t =
    let step = validate_step now size slice_cap l h (omega (arith, s.0)) t in
    let l' : BandwidthLimiter = (validate now size l).1 in
    let rest = accepted_over_time calls most slice_cap l' s.1 m (rw (step.0, step.1) h) step.2 in
    let rest' : slices calls l' * l.interval + l'.last_interval
        ≤ (accepted calls l').1.last_interval =
      rw step.0 at rest.1 in
    elim step.3 [
      | inl (e, p, q, r) ↦ rw (e, q) (omega (arith, p, rest.0), omega (arith, r, rest'))
      | inr (e, p, q) ↦ rw e (omega (arith, p, rest.0), omega (arith, q, rest'))
    ]
