-- ===== src/Tests/Programs.antt =====
-- The theorems on the start and the end of noray, on its metrics' server, on timeouts and on the log
-- filter at concrete inputs.
use bevy_noray.Base.{
  ℕ, ◌≡◌, ◌⊎◌, ◌↔◌, refl, true, none, some, List, [], ◌∷◌, elem, map, select, codes, Text, ok,
  throws, not_running, if◌then◌else◌,
}
use bevy_noray.Lifecycle.{
  Module, metrics, relay, hosts, connection, module_eq, absent, running, ended, started, Noray,
  default_modules, start, Event, imported, ports_bound, listens, run, step, shutdown, interrupted,
  load, launch_all,
}
use bevy_noray.Lifecycle.Hooks.{provides}
use bevy_noray.Lifecycle.Opening.{opens_last}
use bevy_noray.Lifecycle.Closing.{shutdown_twice}
use bevy_noray.Lifecycle.Early.{shutdown_early}
use bevy_noray.Lifecycle.{hooking}
use bevy_noray.Base.{type_error}
use bevy_noray.Taplog.{taplog, match_log, match_fail, with_newline, skip, starts_with}
use bevy_noray.Taplog.Pattern.{IsLog, match_log_exact}
use bevy_noray.Taplog.Parting.{logs, is_tap, any_fail, taplog_exact}
use bevy_noray.Utils.Timing.{Promise, settles, with_timeout}
use bevy_noray.Metrics.{respond}

-- An undisturbed start.
abbrev morning : List Event
morning = imported ∷ imported ∷ imported ∷ imported ∷ ports_bound ∷ listens ∷ []

abbrev noray : Noray
noray = record {
  stage = started;
  hooks = metrics ∷ hosts ∷ relay ∷ connection ∷ [];
  commands = codes "register-host" ∷ codes "connect" ∷ codes "connect-relay" ∷ [];
  closers = metrics ∷ relay ∷ [];
  http = running;
  cleanup = running;
  registrar = running;
  server = running;
}

starts : run morning (start none) ≡ noray
unfolding run start step load launch_all
starts = refl

opens_last_example :
    ((run morning (start none)).server ≡ absent)
    ⊎ ((m : Module) → elem m default_modules ≡ true → provides m (run morning (start none)) ≡ true)
opens_last_example = opens_last none morning

shutdown_twice_example :
    let n = run morning (start none) in
    let (r, n') = shutdown n in
    (r ≡ ok tt)
    × (n'.http ≡ ended)
    × (n'.cleanup ≡ ended)
    × (n'.registrar ≡ ended)
    × (n'.server ≡ ended)
    × (interrupted n ≡ (throws not_running, n'))
shutdown_twice_example = shutdown_twice morning (rw starts refl)

-- An interrupt while the relay module binds its ports.
abbrev hurried : List Event
hurried = imported ∷ imported ∷ imported ∷ imported ∷ []

hurried_hooking : (run hurried (start none)).stage ≡ hooking
unfolding run start step load launch_all
hurried_hooking = refl

shutdown_early_example :
    let n = run hurried (start none) in
    let (r, n') = shutdown n in
    (r ≡ throws type_error)
    × (n'.stage ≡ n.stage)
    × (n'.server ≡ n.server)
    × (n'.cleanup ≡ n.cleanup)
    × (n'.registrar ≡ n.registrar)
shutdown_early_example = shutdown_early none hurried (rw hurried_hooking refl)

-- The connection module alone brings the relay module's hook with it, and that of the hosts module.
connection_alone :
    let n = run (imported ∷ []) (start (some (connection ∷ []))) in
    (n.stage ≡ hooking) × (n.hooks ≡ hosts ∷ relay ∷ connection ∷ [])
unfolding run start step load launch_all
connection_alone = (refl, refl)

abbrev output : List Text
output = codes "ok 1 - parses" ∷ codes "  # {\"level\":30}" ∷ codes "    not ok 2 - prints" ∷ []

output_failed : (taplog output).exit_code ≡ some 1
unfolding taplog match_log match_fail skip starts_with
output_failed = refl

taplog_exact_example :
    let s = taplog output in
    (s.log_input ≡ logs output)
    × (s.tap_input ≡ map with_newline (select is_tap output))
    × (s.exit_code ≡ some (if any_fail (select is_tap output) then 1 else 0))
taplog_exact_example = taplog_exact output

match_log_exact_example :
    (match_log (codes " ## {}") ≡ some (codes "}")) ↔ IsLog (codes " ## {}") (codes "}")
match_log_exact_example = match_log_exact (codes " ## {}") (codes "}")

abbrev quick : Promise ℕ
quick = settles 20 (ok 7)

-- A limit of thirty days, in which a promise that settles in two milliseconds is timed out.
thirty_days :
    with_timeout {A = ℕ} (settles 2_000 (ok 7)) 2_592_000_000_000 ≡ settles 1_000 (ok none)
unfolding with_timeout
thirty_days = refl

unknown_url : (respond (codes "# HELP") (codes "/")).status_code ≡ 404
unfolding respond
unknown_url = refl
