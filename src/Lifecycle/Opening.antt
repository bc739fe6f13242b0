-- ===== src/Lifecycle/Opening.antt =====
-- noray/src/noray.mjs, `start`: what is there when the TCP server opens.
use bevy_noray.Base.{
  subst, ◌||◌, ◌∙◌, sym, ◌≡◌, refl, inl, inr, ◌⊎◌, Bool-cases, true, Option, none, some, List, [],
  ◌∷◌, ◌++◌, elem, elem-append, ◌&&◌, text_eq, arith,
}
use bevy_noray.Lifecycle.{
  stop, Module, relay, module_eq, absent, running, Stage, importing, hooking, opening, started,
  failed, Noray, default_modules, load, launch_all, open_server, run_hooks, pull, start, Event,
  imported, ports_bound, listens, fails, bound, react, step, run,
}
use bevy_noray.Lifecycle.Hooks.{
  is_running, provides, closers-Grows, launch_all-provides, stage-Grows, launch_all-server,
  launch_all-relay_runs, load-elem,
}

-- The modules that `start` was called with, and where each stands.
module _ (modules : List Module) where
  abbrev IsServed : Noray → Type 0
  IsServed n = (m : Module) → elem m modules ≡ true → provides m n ≡ true

  abbrev AtStage : Stage → Noray → Type 0
  AtStage (importing ms) n =
      (n.server ≡ absent)
      × ((m : Module) → elem m modules ≡ true → (elem m n.hooks || elem m ms) ≡ true)
  AtStage hooking n =
      (n.server ≡ absent)
      × (is_running n.cleanup && is_running n.registrar ≡ true)
      × ((m : Module) → elem m modules ≡ true → (m ≡ relay) ⊎ (provides m n ≡ true))
  AtStage opening n = IsServed n
  AtStage started n = IsServed n
  AtStage failed n = (n.server ≡ absent) ⊎ IsServed n

  Sound : Noray → Type 0
  Sound n = AtStage n.stage n

  run_hooks-Sound :
      (n : Noray)
      → n.server ≡ absent
      → ((m : Module) → elem m modules ≡ true → elem m n.hooks ≡ true)
      → Sound (run_hooks n)
  unfolding Sound run_hooks open_server
  run_hooks-Sound n s k = elim (Bool-cases (elem relay n.hooks)) [
    | inl r ↦ rw r (
      launch_all-server n.hooks n ∙ s,
      launch_all-relay_runs n.hooks n (ground (arith, r)),
      λ m e. elim (launch_all-provides n.hooks n m (k m e)) [
        | inl o ↦ inl o
        | inr p ↦ inr (stage-Grows (launch_all n.hooks n) hooking (launch_all n.hooks n).server m p)
      ],
    )
    | inr o ↦ rw o (λ m e. elim (launch_all-provides n.hooks n m (k m e)) [
      | inl isr ↦ absurd (ground (arith, isr, k m e))
      | inr p ↦ stage-Grows (launch_all n.hooks n) opening running m p
    ])
  ]

  pull-Sound :
      (ms : List Module) (n : Noray)
      → n.server ≡ absent
      → ((m : Module) → elem m modules ≡ true → (elem m n.hooks || elem m ms) ≡ true)
      → Sound (pull ms n)
  unfolding Sound pull
  pull-Sound [] n s k = run_hooks-Sound n s (λ m e. ground (arith, k m e))
  pull-Sound (m ∷ ms) n s k = (s, k)

  -- The registered modules, once an import more has been evaluated.
  imported-all :
      (x : Module) (ms : List Module) (n : Noray)
      → ((m : Module) → elem m modules ≡ true → (elem m n.hooks || elem m (x ∷ ms)) ≡ true)
      → (m : Module) → elem m modules ≡ true
      → (elem m (load x n.hooks) || elem m ms) ≡ true
  imported-all x ms n k m e = ground (arith, k m e, load-elem x m n.hooks)

  -- What is known at any stage.
  known : (s : Stage) (n : Noray) → AtStage s n → (n.server ≡ absent) ⊎ IsServed n
  known (importing ms) n v = inl v.0
  known hooking n v = inl v.0
  known opening n v = inr v
  known started n v = inr v
  known failed n v = v

  stop-Sound : (s : Stage) (n : Noray) → AtStage s n → AtStage failed (stop n)
  stop-Sound s n v = elim (known s n v) [
    | inl a ↦ inl a
    | inr k ↦ inr (λ m e. stage-Grows n failed n.server m (k m e))
  ]

  bound-IsServed : (n : Noray) → AtStage hooking n → IsServed (bound n)
  unfolding bound open_server
  bound-IsServed n (s, r, k) m e = elim (k m e) [
    | inl isr ↦ rw isr (ground (arith, r, elem-append relay n.closers (relay ∷ [])))
    | inr p ↦
        stage-Grows (record n { closers = n.closers ++ relay ∷ [] }) opening running m
          (closers-Grows n (relay ∷ []) m p)
  ]

  react-Sound :
      (s : Stage) (e : Event) (n : Noray) → n.stage ≡ s → AtStage s n → Sound (react s e n)
  unfolding Sound react
  react-Sound s fails n q v = stop-Sound s n v
  react-Sound (importing (m ∷ ms)) imported n q v =
      pull-Sound ms (record n { hooks = load m n.hooks }) v.0 (imported-all m ms n v.1)
  react-Sound hooking ports_bound n q v = bound-IsServed n v
  react-Sound opening listens n q v = λ m e. stage-Grows n started n.server m (v m e)
  react-Sound _ _ n q v = subst (λ x. AtStage x n) (sym q) v

  run-Sound : (es : List Event) (n : Noray) → Sound n → Sound (run es n)
  unfolding run step Sound
  run-Sound [] n v = v
  run-Sound (e ∷ es) n v = run-Sound es (step e n) (react-Sound n.stage e n refl v)

-- Whatever the runtime reports in whatever order, the TCP server is not open, or each module that
-- `start` was called with has done its part: its commands are known, and its server, its job and its
-- socket run and will be ended by 'close'.
pub opens_last :
    (modules : Option (List Module)) (es : List Event)
    → let n = run es (start modules) in
      (n.server ≡ absent)
      ⊎ ((m : Module)
          → elem m (elim modules [ none ↦ default_modules | some ms ↦ ms ]) ≡ true
          → provides m n ≡ true)
unfolding start Sound
opens_last modules es =
    let ms : List Module = elim modules [ none ↦ default_modules | some ms ↦ ms ] in
    let n = run es (start modules) in
    known ms n.stage n
      (run-Sound ms es (start modules) (pull-Sound ms ms _ refl (λ m e. ground (arith, e))))
