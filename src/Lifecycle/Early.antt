-- ===== src/Lifecycle/Early.antt =====
-- noray/src/noray.mjs, `shutdown`, while `start` waits for the modules or for their hooks.
use bevy_noray.Base.{
  >>=_of_ok, ◌≡◌, ◌∙◌, sym, subst, refl, inl, inr, Bool, Bool-cases, true, false, Option, none,
  some, List, [], ◌∷◌, ◌++◌, ◌&&◌, elem, ok, throws, type_error, arith,
}
use bevy_noray.Lifecycle.{
  Module, metrics, relay, hosts, connection, module_beq, module_eq, absent, ended, Stage, importing,
  hooking, opening, started, failed, Noray, default_modules, load, launch, launch_all, run_hooks,
  open_server, pull, start, Event, imported, ports_bound, listens, fails, bound, react, step, run,
  close_one, close_all, close_server, shutdown,
}

-- `start` waits for the modules or for their hooks.
abbrev pub is_early : Stage → Bool
is_early (importing ms) = true
is_early hooking = true
is_early _ = false

abbrev all_metrics : List Module → Bool
all_metrics [] = true
all_metrics (m ∷ ms) = module_beq m metrics && all_metrics ms

-- No server is there, and only the metrics module listens to 'close'.
abbrev IsBare : Noray → Type 0
IsBare n = (n.server ≡ absent) × (all_metrics n.closers ≡ true)

abbrev AtStage : Stage → Noray → Type 0
AtStage (importing ms) n = IsBare n
AtStage hooking n = IsBare n
AtStage _ n = Unit

all_metrics-last :
    (ms : List Module) → all_metrics ms ≡ true → all_metrics (ms ++ metrics ∷ []) ≡ true
all_metrics-last [] h = refl
all_metrics-last (m ∷ ms) h = ground (arith, h, all_metrics-last ms)

launch-IsBare : (m : Module) (n : Noray) → IsBare n → IsBare (launch m n)
unfolding launch
launch-IsBare metrics n (s, k) = (s, all_metrics-last n.closers k)
launch-IsBare relay n v = v
launch-IsBare hosts n v = v
launch-IsBare connection n v = v

launch_all-IsBare : (ms : List Module) (n : Noray) → IsBare n → IsBare (launch_all ms n)
unfolding launch_all
launch_all-IsBare [] n v = v
launch_all-IsBare (m ∷ ms) n v = launch_all-IsBare ms (launch m n) (launch-IsBare m n v)

Reaches : Noray → Type 0
Reaches n = AtStage n.stage n

pull-Reaches : (ms : List Module) (n : Noray) → IsBare n → Reaches (pull ms n)
unfolding Reaches pull run_hooks open_server
pull-Reaches [] n v = elim (Bool-cases (elem relay n.hooks)) [
  | inl r ↦ rw r (launch_all-IsBare n.hooks n v)
  | inr o ↦ rw o tt
]
pull-Reaches (m ∷ ms) n v = v

react-Reaches :
    (s : Stage) (e : Event) (n : Noray) → n.stage ≡ s → AtStage s n → Reaches (react s e n)
unfolding Reaches react bound open_server
react-Reaches s fails n q v = tt
react-Reaches (importing (m ∷ ms)) imported n q v =
    pull-Reaches ms (record n { hooks = load m n.hooks }) v
react-Reaches hooking ports_bound n q v = tt
react-Reaches opening listens n q v = tt
react-Reaches _ _ n q v = subst (λ x. AtStage x n) (sym q) v

run-Reaches : (es : List Event) (n : Noray) → Reaches n → Reaches (run es n)
unfolding run step Reaches
run-Reaches [] n v = v
run-Reaches (e ∷ es) n v = run-Reaches es (step e n) (react-Reaches n.stage e n refl v)

early-IsBare : (s : Stage) (n : Noray) → is_early s ≡ true → AtStage s n → IsBare n
early-IsBare (importing ms) n e v = v
early-IsBare hooking n e v = v
early-IsBare opening n e v = absurd (ground (arith, e))
early-IsBare started n e v = absurd (ground (arith, e))
early-IsBare failed n e v = absurd (ground (arith, e))

-- The listener of the metrics module ends the HTTP server alone.
abbrev Untouched : Noray → Noray → Type 0
Untouched n n' =
    (n'.stage ≡ n.stage)
    × (n'.server ≡ n.server)
    × (n'.cleanup ≡ n.cleanup)
    × (n'.registrar ≡ n.registrar)

close_all-metrics :
    (ms : List Module) (n : Noray)
    → all_metrics ms ≡ true
    → let (r, n') = close_all ms n in (r ≡ ok tt) × Untouched n n'
unfolding close_all close_one
close_all-metrics [] n h = (refl, (refl, refl, refl, refl))
close_all-metrics (metrics ∷ ms) n h = close_all-metrics ms (record n { http = ended }) h
close_all-metrics (relay ∷ ms) n h = absurd (ground (arith, h))
close_all-metrics (hosts ∷ ms) n h = absurd (ground (arith, h))
close_all-metrics (connection ∷ ms) n h = absurd (ground (arith, h))

close_server-absent : (n : Noray) → n.server ≡ absent → close_server n ≡ (throws type_error, n)
unfolding close_server
close_server-absent n s =
    subst
      (λ d. close_server (record n { server = d }) ≡ (throws type_error, record n { server = d }))
      (sym s) refl

-- Whatever the runtime has reported since the start of any modules, as long as `start` waits for them or
-- for their hooks, a shutdown throws a TypeError, and `start`, the cleanup job and the registrar's socket
-- go on as before.
pub shutdown_early :
    (modules : Option (List Module)) (es : List Event)
    → is_early (run es (start modules)).stage ≡ true
    → let n = run es (start modules) in
      let (r, n') = shutdown n in
      (r ≡ throws type_error)
      × (n'.stage ≡ n.stage)
      × (n'.server ≡ n.server)
      × (n'.cleanup ≡ n.cleanup)
      × (n'.registrar ≡ n.registrar)
unfolding shutdown start Reaches
shutdown_early modules es e =
    let ms : List Module = elim modules [ none ↦ default_modules | some ms ↦ ms ] in
    let n = run es (start modules) in
    let v = run-Reaches es (start modules) (pull-Reaches ms _ (refl, refl)) in
    let (s, k) = early-IsBare n.stage n e v in
    let (r, (st, se, c, g)) = close_all-metrics n.closers n k in
    rw
      (
        >>=_of_ok (close_all n.closers) (λ _. close_server) n tt r,
        close_server-absent (close_all n.closers n).1 (se ∙ s),
      )
      (refl, st, se, c, g)
