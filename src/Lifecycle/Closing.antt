-- ===== src/Lifecycle/Closing.antt =====
-- noray/src/noray.mjs, `shutdown`, as noray/bin/noray.mjs calls it: at SIGINT and at the exit.
use bevy_noray.Base.{not_running, ok, sym, subst, none, ◌≡◌, refl, List, throws}
use bevy_noray.Lifecycle.Starting.{ready, start-IsReady}
use bevy_noray.Lifecycle.{
  open_server, bound, ended, interrupted, launch, launch_all, load_all, load_one, load, run_hooks,
  pull, start, Event, react, run, started, step, Noray, close_registrar, close_one, close_all,
  close_server, shutdown,
}

-- What a shutdown does, and an interrupt.
abbrev Ends : Noray → Type 0
Ends n =
    let (r, n') = shutdown n in
    (r ≡ ok tt)
    × (n'.http ≡ ended)
    × (n'.cleanup ≡ ended)
    × (n'.registrar ≡ ended)
    × (n'.server ≡ ended)
    × (interrupted n ≡ (throws not_running, n'))

ready-Ends : Ends ready
unfolding interrupted shutdown close_all close_one close_registrar close_server start step react
    pull run_hooks load load_one load_all launch_all launch bound open_server
ready-Ends = (refl, refl, refl, refl, refl, refl)

-- Whatever the runtime reports, if the start of the default modules comes to its end, a shutdown throws
-- nothing and ends the HTTP server, the cleanup job, the registrar's socket and the TCP server; but an
-- interrupt shuts noray down again at the exit, which throws at the registrar's socket.
pub shutdown_twice :
    (es : List Event)
    → (run es (start none)).stage ≡ started
    → let n = run es (start none) in
      let (r, n') = shutdown n in
      (r ≡ ok tt)
      × (n'.http ≡ ended)
      × (n'.cleanup ≡ ended)
      × (n'.registrar ≡ ended)
      × (n'.server ≡ ended)
      × (interrupted n ≡ (throws not_running, n'))
shutdown_twice es s = subst Ends (sym (start-IsReady es s)) ready-Ends
