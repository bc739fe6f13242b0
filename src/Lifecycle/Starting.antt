-- ===== src/Lifecycle/Starting.antt =====
-- noray/src/noray.mjs, `start` of the default modules: the one way to its end.
use bevy_noray.Base.{◌≡◌, sym, subst, refl, inl, inr, ◌⊎◌, none, List, [], ◌∷◌, arith}
use bevy_noray.Lifecycle.{
  Noray, Event, imported, ports_bound, listens, fails, start, step, run, react, pull, run_hooks,
  load, load_one, load_all, launch, launch_all, bound, open_server, failed, started,
}

-- The start by the default modules, one report of the runtime after the other.
abbrev pulling_relay : Noray
pulling_relay = step imported (start none)

abbrev pulling_hosts : Noray
pulling_hosts = step imported pulling_relay

abbrev pulling_connection : Noray
pulling_connection = step imported pulling_hosts

abbrev launched : Noray
launched = step imported pulling_connection

abbrev served : Noray
served = step ports_bound launched

abbrev pub ready : Noray
ready = step listens served

abbrev pub IsReady : Noray → Type 0
IsReady n = n.stage ≡ started → n ≡ ready

-- What a report does: nothing, the next step, or a failure.
abbrev Goes : Noray → Noray → Noray → Type 0
Goes n n' m = (m ≡ n) ⊎ ((m ≡ n') ⊎ (m.stage ≡ failed))

react-failed : (e : Event) (n : Noray) → n.stage ≡ failed → (react failed e n).stage ≡ failed
unfolding react
react-failed imported n f = f
react-failed ports_bound n f = f
react-failed listens n f = f
react-failed fails n f = refl

run-failed : (es : List Event) (n : Noray) → n.stage ≡ failed → (run es n).stage ≡ failed
unfolding run step
run-failed [] n f = f
run-failed (e ∷ es) n f =
    run-failed es (step e n)
      (subst (λ s. (react s e n).stage ≡ failed) (sym f) (react-failed e n f))

run-Goes :
    (n n' : Noray)
    → IsReady n
    → ((e : Event) → Goes n n' (step e n))
    → ((es : List Event) → IsReady (run es n'))
    → (es : List Event) → IsReady (run es n)
unfolding run
run-Goes n n' v k w [] = v
run-Goes n n' v k w (e ∷ es) = elim (k e) [
  | inl same ↦ subst (λ m. IsReady (run es m)) (sym same) (run-Goes n n' v k w es)
  | inr (inl next) ↦ subst (λ m. IsReady (run es m)) (sym next) (w es)
  | inr (inr f) ↦ λ s. absurd (ground (arith, s, run-failed es (step e n) f))
]

-- What each report does at each point of the start.
at_first : (e : Event) → Goes (start none) pulling_relay (step e (start none))
unfolding start step react pull
at_first imported = inr (inl refl)
at_first ports_bound = inl refl
at_first listens = inl refl
at_first fails = inr (inr refl)

at_relay : (e : Event) → Goes pulling_relay pulling_hosts (step e pulling_relay)
unfolding start step react pull
at_relay imported = inr (inl refl)
at_relay ports_bound = inl refl
at_relay listens = inl refl
at_relay fails = inr (inr refl)

at_hosts : (e : Event) → Goes pulling_hosts pulling_connection (step e pulling_hosts)
unfolding start step react pull
at_hosts imported = inr (inl refl)
at_hosts ports_bound = inl refl
at_hosts listens = inl refl
at_hosts fails = inr (inr refl)

at_connection : (e : Event) → Goes pulling_connection launched (step e pulling_connection)
unfolding start step react pull
at_connection imported = inr (inl refl)
at_connection ports_bound = inl refl
at_connection listens = inl refl
at_connection fails = inr (inr refl)

at_launched : (e : Event) → Goes launched served (step e launched)
unfolding start step react pull run_hooks load load_one load_all launch_all launch
at_launched imported = inl refl
at_launched ports_bound = inr (inl refl)
at_launched listens = inl refl
at_launched fails = inr (inr refl)

at_served : (e : Event) → Goes served ready (step e served)
unfolding start step react pull run_hooks load load_one load_all launch_all launch bound open_server
at_served imported = inl refl
at_served ports_bound = inl refl
at_served listens = inr (inl refl)
at_served fails = inr (inr refl)

at_ready : (e : Event) → Goes ready ready (step e ready)
unfolding start step react pull run_hooks load load_one load_all launch_all launch bound open_server
at_ready imported = inl refl
at_ready ports_bound = inl refl
at_ready listens = inl refl
at_ready fails = inr (inr refl)

ready-IsReady : (es : List Event) → IsReady (run es ready)
unfolding run
ready-IsReady [] = λ s. refl
ready-IsReady (e ∷ es) = elim (at_ready e) [
  | inl same ↦ subst (λ m. IsReady (run es m)) (sym same) (ready-IsReady es)
  | inr (inl next) ↦ subst (λ m. IsReady (run es m)) (sym next) (ready-IsReady es)
  | inr (inr f) ↦ λ s. absurd (ground (arith, s, run-failed es (step e ready) f))
]

-- None of the points before is the end.
early :
    IsReady (start none)
    × IsReady pulling_relay
    × IsReady pulling_hosts
    × IsReady pulling_connection
    × IsReady launched
    × IsReady served
unfolding start step react pull run_hooks load load_one load_all launch_all launch bound open_server
early = (
  λ s. absurd (ground (arith, s)),
  λ s. absurd (ground (arith, s)),
  λ s. absurd (ground (arith, s)),
  λ s. absurd (ground (arith, s)),
  λ s. absurd (ground (arith, s)),
  λ s. absurd (ground (arith, s)),
)

pub start-IsReady : (es : List Event) → IsReady (run es (start none))
start-IsReady =
    let (v0, v1, v2, v3, v4, v5) = early in
    run-Goes (start none) pulling_relay v0 at_first (
      run-Goes pulling_relay pulling_hosts v1 at_relay (
        run-Goes pulling_hosts pulling_connection v2 at_hosts (
          run-Goes pulling_connection launched v3 at_connection (
            run-Goes launched served v4 at_launched
              (run-Goes served ready v5 at_served ready-IsReady)))))
