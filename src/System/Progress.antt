-- ===== src/System/Progress.antt =====
-- The whole of noray: what waits is served, and what is idle goes.
use bevy_noray.Base.{
  lookup, suc, map, ◌≤◌, ◌⊎◌, length, text_beq_iff, true, elem, Bool-cases, false, arith,
  if◌then◌else◌, has, ℕ, ◌≡◌, refl, inl, inr, Option, none, some, Option-cases, List, [], ◌∷◌,
  Outcome, ok, throws, Failure, text_eq, Text,
}
use bevy_noray.Relay.Handler.{Handler}
use bevy_noray.Relay.Constraints.{Counters, constraints}
use bevy_noray.Relay.Dynamic.{Job, resume}
use bevy_noray.Relay.Dynamic.Waiting.{
  job_keys, Waits, Waiting, Waiting-IsFrame, IsAwaited, handle-IsAwaited, waits,
}
use bevy_noray.Relay.Dynamic.Finishing.{Finishes, resume-Finishes}
use bevy_noray.Server.{Server, on_relays}
use bevy_noray.Server.Frame.{OfRelays}
use bevy_noray.System.{
  runs_job, react, run_job, settled, Settings, State, System, Event, attached, start, run, step,
}
use bevy_noray.System.Induction.{
  step-Holds, Anything, Settles, Holds, IsInvariant, taking, run-Holds, start-Holds,
  AllReceived-any,
}
use bevy_noray.System.Framing.{of_relays}

-- Every buffer has a call of `#handle` that waits.
abbrev Served : Server State → Type 0
Served = OfRelays (Waiting {L = Counters} IsAwaited)

abbrev Stopped : Server State → Type 0
Stopped s = Unit

-- What waits, once the oldest call has gone on to its end.
rest_waits :
    (j : Job) (js : List Job) (w x : Waits)
    → w.1 ≡ j ∷ js
    → IsAwaited w
    → x.1 ≡ js
    → x.2 ≡ w.2
    → ((k : Text) → has k x.0 ≡ (if text_eq.beq j.key k then false else has k w.0))
    → IsAwaited x
rest_waits j js w x e v ej eu b = record {
  keyed = rw ej (rw e at v.keyed).1;
  awaited = λ u k h. elim (Bool-cases (text_eq.beq j.key k)) [
    | inl mine ↦ absurd (ground (arith, b k))
    | inr other ↦
        let old : elem k (job_keys w.1) ≡ true =
          v.awaited (ground (arith)) k (ground (arith, b k)) in
        rw ej (ground (arith, rw e at old, text_beq_iff j.key k, text_beq_iff k j.key))
  ];
}

abbrev behind : List Job → List Job
behind [] = []
behind (j ∷ js) = js

length-behind : (js : List Job) (n : ℕ) → length js ≤ suc n → length (behind js) ≤ n
length-behind [] n h = omega arith
length-behind (j ∷ js) n h = omega (arith, h)

none_left : (js : List Job) → length js ≤ 0 → js ≡ []
none_left [] h = refl
none_left (j ∷ js) h = absurd (omega (arith, h))

module _ (c : Settings) where
  resume-Served :
      (now : ℕ) (j : Job) (js : List Job) (s : Server State)
      → s.relays.listeners.jobs ≡ j ∷ js
      → Served s
      → Settles Anything Served Stopped (on_relays (resume (attached c) now j) (taking js s))
  resume-Served now j js s e v =
      finished (resume (attached c) now j (taking js s).relays) s e v
        (resume-Finishes (constraints c.limits) now j (taking js s).relays (rw e at v.keyed).0)
    where
      finished :
          (r : Outcome (Unit {0}) × Handler State) (s : Server State)
          → s.relays.listeners.jobs ≡ j ∷ js
          → Served s
          → Finishes (constraints c.limits) j (taking js s).relays r
          → Settles Anything Served Stopped (r.0, record s { relays = r.1 })
      finished (throws x, h) s e v f = tt
      finished (ok u, h) s e v (inl (x, f)) = absurd (ground arith)
      finished (ok u, h) s e v (inr (_, ej, eu, b)) =
          rest_waits j js (waits s.relays.listeners) (waits h.listeners) e v ej eu b

  Served-IsInvariant : IsInvariant Anything Served Stopped c
  Served-IsInvariant =
      of_relays Anything (Waiting IsAwaited) Stopped c (λ s v. tt)
        (Waiting-IsFrame (constraints c.limits) IsAwaited) (λ msg m port to h v. v)
        (λ now s t sender target msg m.
          handle-IsAwaited (constraints c.limits) now s t sender target msg)
        resume-Served

  -- Noray has been stopped by an error.
  abbrev pub HasCrashed : System → Type 0
  HasCrashed y = (x : Failure) × (y.crashed ≡ some x)

  abbrev jobs_of : System → List Job
  jobs_of y = y.server.relays.listeners.jobs

  run_crashed : (es : List Event) (y : System) → HasCrashed y → HasCrashed (run c es y)
  unfolding run step
  run_crashed [] y h = h
  run_crashed (e ∷ es) y (x, n) = run_crashed es (step c e y) (x, rw (n, step) n)

  settled_jobs :
      (r : Outcome (Unit {0}) × Handler State) (j : Job) (js : List Job) (s : Server State)
      → Finishes (constraints c.limits) j (taking js s).relays r
      → let y = settled (r.0, record s { relays = r.1 }) in HasCrashed y ⊎ (jobs_of y ≡ js)
  settled_jobs (throws x, h) j js s f = inl (x, refl)
  settled_jobs (ok u, h) j js s (inl (x, f)) = absurd (ground arith)
  settled_jobs (ok u, h) j js s (inr (_, e, _, _)) = inr e

  run_job_jobs :
      (now : ℕ) (js : List Job) (s : Server State)
      → s.relays.listeners.jobs ≡ js
      → Served s
      → HasCrashed (run_job c now js s) ⊎ (jobs_of (run_job c now js s) ≡ behind js)
  unfolding run_job
  run_job_jobs now [] s e v = inr e
  run_job_jobs now (j ∷ js) s e v =
      settled_jobs (resume (attached c) now j (taking js s).relays) j js s
        (resume-Finishes (constraints c.limits) now j (taking js s).relays (rw e at v.keyed).0)

  step_jobs :
      (now : ℕ) (y : System)
      → Holds Anything Served Stopped y
      → HasCrashed (step c (runs_job now) y)
        ⊎ (jobs_of (step c (runs_job now) y) ≡ behind (jobs_of y))
  unfolding step react
  step_jobs now y h = elim (Option-cases y.crashed) [
    | inl n ↦
        rw (n, step) (run_job_jobs now y.server.relays.listeners.jobs y.server refl (rw n at h).0)
    | inr (x, n) ↦ inl (x, rw (n, step) n)
  ]

  run_jobs :
      (nows : List ℕ) (y : System)
      → Holds Anything Served Stopped y
      → length (jobs_of y) ≤ length nows
      → let y' = run c (map runs_job nows) y in HasCrashed y' ⊎ (jobs_of y' ≡ [])
  unfolding run
  run_jobs [] y h n = inr (none_left (jobs_of y) n)
  run_jobs (now ∷ nows) y h n = elim (step_jobs now y h) [
    | inl x ↦ inl (run_crashed (map runs_job nows) _ x)
    | inr e ↦
        run_jobs nows _
          (step-Holds Anything Served Stopped c Served-IsInvariant (runs_job now) y tt h)
          (rw e (length-behind (jobs_of y) (length nows) n))
  ]

  no_buffer : (w : Waits) → IsAwaited w → w.1 ≡ [] → w.2 ≡ [] → (k : Text) → lookup k w.0 ≡ none
  no_buffer w v e u k = elim (Option-cases (lookup k w.0)) [
    | inl n ↦ n
    | inr (msgs, s) ↦ absurd (ground (arith, v.awaited u k (rw s refl), e))
  ]

  jobs_drained :
      (nows : List ℕ) (y : System)
      → Holds Anything Served Stopped y
      → length (jobs_of y) ≤ length nows
      → let y' = run c (map runs_job nows) y in
        HasCrashed y'
        ⊎ ((jobs_of y' ≡ []) × ((k : Text) → lookup k y'.server.relays.listeners.buffers ≡ none))
  jobs_drained nows y h enough =
      let y' : System = run c (map runs_job nows) y in
      let h' =
        run-Holds Anything Served Stopped c Served-IsInvariant (map runs_job nows) y
          (AllReceived-any Anything (λ msg. tt) (map runs_job nows)) h in
      elim (Option-cases y'.crashed) [
        | inl n ↦ elim (run_jobs nows y h enough) [
          | inl x ↦ inl x
          | inr e ↦
              let (v, u) = rw n at h' in inr (e, no_buffer (waits y'.server.relays.listeners) v e u)
        ]
        | inr x ↦ inl x
      ]

  start-Served : (bind : ℕ → Option ℕ) (now : ℕ) → Served (start bind now c).server
  unfolding start lookup
  start-Served bind now = record { keyed = tt; awaited = λ u k h. absurd (ground arith) }

  -- From its start and after any events, whatever waits for the event loop is served: once as many
  -- jobs have run as there were calls of `#handle` at their `await`, none waits and no datagram is
  -- buffered any more, or an error has stopped noray.
  pub waiting_served :
      (bind : ℕ → Option ℕ) (now : ℕ) (es : List Event) (nows : List ℕ)
      → let y = run c es (start bind now c) in
        length y.server.relays.listeners.jobs ≤ length nows
        → let y' = run c (map runs_job nows) y in
          HasCrashed y'
          ⊎ ((y'.server.relays.listeners.jobs ≡ [])
              × ((k : Text) → lookup k y'.server.relays.listeners.buffers ≡ none))
  waiting_served bind now es nows enough =
      jobs_drained nows (run c es (start bind now c))
        (run-Holds Anything Served Stopped c Served-IsInvariant es (start bind now c)
          (AllReceived-any Anything (λ msg. tt) es)
          (start-Holds Anything Served Stopped bind now c (start-Served bind now)))
        enough
