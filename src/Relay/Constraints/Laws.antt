-- ===== src/Relay/Constraints/Laws.antt =====
-- noray/src/relay/constraints.mjs: when a datagram is let through, and what is counted.
use bevy_noray.Base.{
  sym, ℕ, nat_eq, ◌+◌, ◌≤◌, ◌<◌, max, ◌≡◌, ◌⊎◌, inl, inr, false, Bool-cases, none, some, List, [],
  ◌∷◌, arith, length, Text, text_eq, text_beq, text_beq_iff, lookup, insert, lookup-insert,
  Outcome-cases, ok, throws, Failure, if◌then◌else◌, ltb,
}
use bevy_noray.Relay.Entry.{RelayEntry, id}
use bevy_noray.Relay.Handler.{Message}
use bevy_noray.Relay.Constraints.{
  Limits, Counters, transmit_individual, transmit_global, transmit_lifetime, transmit_traffic,
  transmit,
}

-- The bytes counted for a relay.
abbrev pub counted : Text → Counters → ℕ
counted k s = elim (lookup k s.relay_traffic) [ none ↦ 0 | some n ↦ n ]

-- The two ways in which a datagram passes the traffic counters.
module _ (c : Limits) (now : ℕ) (source target : RelayEntry) (msg : Message) (s : Counters) where
  transmit_parts :
      (((x : Failure) × ((transmit c now source target msg s).0 ≡ throws x))
        × ((transmit c now source target msg s).1.relay_traffic ≡ s.relay_traffic))
      ⊎ (((transmit c now source target msg s).1.relay_traffic
            ≡ insert (id source) (counted (id source) s + length msg) s.relay_traffic)
          × ((transmit c now source target msg s).0 ≡ (
              if ltb (counted (id source) s + length msg) c.max_lifetime_traffic
              then ok tt
              else throws Failure.traffic_limit))
          × (now < source.created + c.max_lifetime_duration))
  unfolding transmit transmit_lifetime transmit_traffic
  transmit_parts =
      elim (Outcome-cases
        (transmit_individual c.max_individual_traffic c.traffic_interval now source msg
          s.limiters).0) [
            | inr (x, e) ↦ inl ((x, ground arith), ground arith)
            | inl (_, e) ↦ elim (Outcome-cases (transmit_global now msg s.limiter).0) [
              | inr (x, f) ↦ inl ((x, ground arith), ground arith)
              | inl (_, f) ↦
                  elim (Bool-cases (ltb now (source.created + c.max_lifetime_duration))) [
                    | inr g ↦ inl ((Failure.lifetime_limit, ground arith), ground arith)
                    | inl g ↦ inr (ground arith, ground arith, ground arith)
                  ]
            ]
          ]

  -- A relay older than the lifetime limit transmits nothing: every datagram is refused.
  pub transmit_expired :
      source.created + c.max_lifetime_duration ≤ now
      → (x : Failure) × ((transmit c now source target msg s).0 ≡ throws x)
  transmit_expired old = elim transmit_parts [
    | inl ((x, e), _) ↦ (x, e)
    | inr (_, _, young) ↦ absurd (omega arith)
  ]

  -- What a call does to the count of any relay: it grows by the datagram's length, or stays.
  transmit_counts :
      (k : Text)
      → ((counted k (transmit c now source target msg s).1 ≡ counted k s + length msg)
          × (((transmit c now source target msg s).0 ≡ ok tt)
              → counted k s + length msg < c.max_lifetime_traffic)
          × (k ≡ id source))
        ⊎ ((counted k (transmit c now source target msg s).1 ≡ counted k s)
            × (((transmit c now source target msg s).0 ≡ ok tt) → text_beq (id source) k ≡ false))
  transmit_counts k = elim transmit_parts [
    | inl ((x, e), same) ↦ inr (ground (arith, same), λ p. ground (arith, e))
    | inr (new, r, _) ↦
        let at_key =
          lookup-insert (id source) k (counted (id source) s + length msg) s.relay_traffic in
        elim (Bool-cases (text_beq (id source) k)) [
          | inl here ↦
              let same = sym ((text_beq_iff (id source) k).0 here) in
              inl (ground (arith, new, at_key), λ p. ground (arith, r), same)
          | inr other ↦ inr (ground (arith, new, at_key), λ p. other)
        ]
  ]

-- A datagram that a relay wants to transmit, at a time.
pub record Attempt : Type 0 where
  pub now : ℕ
  pub source : RelayEntry
  pub target : RelayEntry
  pub msg : Message

-- The bytes of the relay `k` that get through in a sequence of attempts.
pub transmitted : Limits → Text → List Attempt → Counters → ℕ
transmitted c k [] s = 0
transmitted c k (a ∷ later) s =
    let (r, s') = transmit c a.now a.source a.target a.msg s in
    elim r [ ok _ ↦ (if text_beq (id a.source) k then length a.msg else 0) | throws _ ↦ 0 ]
    + transmitted c k later s'

-- Over any sequence of attempts by any relays, with no relay freed in between, the bytes that get
-- through for one relay, with those counted before, stay within the greater of the lifetime limit
-- and what was counted before.
pub transmitted_bound :
    (c : Limits) (k : Text) (later : List Attempt) (s : Counters)
    → transmitted c k later s + counted k s ≤ max (counted k s) c.max_lifetime_traffic
unfolding transmitted
transmitted_bound c k [] s = omega arith
transmitted_bound c k (a ∷ later) s =
    let ih = transmitted_bound c k later (transmit c a.now a.source a.target a.msg s).1 in
    elim (Outcome-cases (transmit c a.now a.source a.target a.msg s).0) [
      | inl (_, e) ↦ elim (transmit_counts c a.now a.source a.target a.msg s k) [
        | inl (grown, within, _) ↦
            let most = within e in
            rw e (elim (Bool-cases (text_beq (id a.source) k)) [
              | inl b ↦ rw b (omega (arith, ih, grown, most))
              | inr b ↦ rw b (omega (arith, ih, grown, most))
            ])
        | inr (same, other) ↦ rw (e, other e) (omega (arith, ih, same))
      ]
      | inr (x, e) ↦ elim (transmit_counts c a.now a.source a.target a.msg s k) [
        | inl (grown, _, _) ↦ rw e (omega (arith, ih, grown))
        | inr (same, _) ↦ rw e (omega (arith, ih, same))
      ]
    ]
