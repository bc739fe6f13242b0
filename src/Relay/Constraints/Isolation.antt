-- ===== src/Relay/Constraints/Isolation.antt =====
-- noray/src/relay/constraints.mjs: the traffic of one relay leaves the counters of the others alone,
-- and a freed relay leaves none behind.
use bevy_noray.Base.{
  >>=_keeps, ◌∙◌, ℕ, ◌+◌, ◌≡◌, ◌≢◌, inl, inr, Bool-cases, false, Option, none, some, Option-cases,
  arith, length, Text, text_eq, text_beq, text_beq_iff, Store, lookup, lookup-insert, lookup-erase,
  ok,
}
use bevy_noray.Relay.Entry.{RelayEntry, id}
use bevy_noray.Relay.Entry.Identity.{id-injective}
use bevy_noray.Relay.Limiter.{BandwidthLimiter, new_limiter}
use bevy_noray.Relay.Handler.{Message}
use bevy_noray.Relay.Constraints.{
  Limits, Counters, ensure_limiter, validate_limiter, transmit_individual, transmit_traffic,
  transmit, destroy,
}

miss : (a k : Text) → a ≢ k → text_beq a k ≡ false
miss a k n = elim (Bool-cases (text_beq a k)) [
  | inl e ↦ absurd (n ((text_beq_iff a k).0 e))
  | inr e ↦ e
]

ensure_limiter_other :
    (traffic : ℕ) (interval : Option ℕ) (now : ℕ) (source : RelayEntry)
    (m : Store Text BandwidthLimiter) (k : Text)
    → id source ≢ k
    → lookup k (ensure_limiter traffic interval now source m).1 ≡ lookup k m
unfolding ensure_limiter new_limiter
ensure_limiter_other traffic interval now source m k n =
    elim (Option-cases (lookup (id source) m)) [
      | inl e ↦ rw (e, ensure_limiter) (lookup-insert (id source) k _ m ∙ rw (miss (id source) k n))
      | inr (l, e) ↦ rw (e, ensure_limiter)
    ]

validate_limiter_other :
    (now : ℕ) (source : RelayEntry) (msg : Message) (m : Store Text BandwidthLimiter) (k : Text)
    → id source ≢ k
    → lookup k (validate_limiter now source msg m).1 ≡ lookup k m
unfolding validate_limiter
validate_limiter_other now source msg m k n = elim (Option-cases (lookup (id source) m)) [
  | inl e ↦ rw (e, validate_limiter)
  | inr (l, e) ↦
      rw (e, validate_limiter) (lookup-insert (id source) k _ m ∙ rw (miss (id source) k n))
]

individual_other :
    (traffic : ℕ) (interval : Option ℕ) (now : ℕ) (source : RelayEntry) (msg : Message)
    (m : Store Text BandwidthLimiter) (k : Text)
    → id source ≢ k
    → lookup k (transmit_individual traffic interval now source msg m).1 ≡ lookup k m
unfolding transmit_individual
individual_other traffic interval now source msg m k n =
    >>=_keeps (ensure_limiter traffic interval now source) (λ _. validate_limiter now source msg) m
      (λ m'. lookup k m' ≡ lookup k m) (ensure_limiter_other traffic interval now source m k n)
      (λ _ _.
        validate_limiter_other now source msg _ k n
        ∙ ensure_limiter_other traffic interval now source m k n)

-- A datagram from one relay changes neither the limiter nor the byte count of another: a relay with
-- another address or another port.
pub transmit_isolated :
    (c : Limits) (now : ℕ) (source target other : RelayEntry) (msg : Message) (s : Counters)
    → ¬ ((source.address ≡ other.address) × (source.port ≡ other.port))
    → let s' = (transmit c now source target msg s).1 in
      (lookup (id other) s'.limiters ≡ lookup (id other) s.limiters)
      × (lookup (id other) s'.relay_traffic ≡ lookup (id other) s.relay_traffic)
unfolding transmit transmit_traffic
transmit_isolated c now source target other msg s n =
    let apart : id source ≢ id other = λ p. n (id-injective source other p) in
    let first =
      individual_other c.max_individual_traffic c.traffic_interval now source msg s.limiters
        (id other) apart in
    let missed = miss (id source) (id other) apart in
    ground (
      arith,
      first,
      missed,
      lookup-insert (id source) (id other)
          (elim (lookup (id source) s.relay_traffic) [ none ↦ 0 | some t ↦ t ] + length msg)
          s.relay_traffic,
    )

-- A freed relay leaves no limiter and no byte count, and does not throw; what a relay with another
-- address or another port has stays.
destroy_forgets :
    (now : ℕ) (relay other : RelayEntry) (s : Counters)
    → ¬ ((relay.address ≡ other.address) × (relay.port ≡ other.port))
    → let (r, s') = destroy now relay s in
      (r ≡ ok tt)
      × (lookup (id relay) s'.limiters ≡ none)
      × (lookup (id relay) s'.relay_traffic ≡ none)
      × (lookup (id other) s'.limiters ≡ lookup (id other) s.limiters)
      × (lookup (id other) s'.relay_traffic ≡ lookup (id other) s.relay_traffic)
unfolding destroy
destroy_forgets now relay other s n =
    let missed = miss (id relay) (id other) (λ p. n (id-injective relay other p)) in
    ground (
      arith,
      missed,
      text_beq_iff (id relay) (id relay),
      lookup-erase (id relay) (id relay) s.limiters,
      lookup-erase (id relay) (id relay) s.relay_traffic,
      lookup-erase (id relay) (id other) s.limiters,
      lookup-erase (id relay) (id other) s.relay_traffic,
    )
