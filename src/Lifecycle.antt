-- ===== src/Lifecycle.antt =====
-- noray/src/noray.mjs with the hooks of its default modules and noray/bin/noray.mjs: the program from
-- its start to its shutdown, under what the runtime reports in any order. A process has one Noray. What
-- the hooks set up, and what System works on, is here only there, running or ended.
pub mod Hooks
pub mod Opening
pub mod Starting
pub mod Closing
pub mod Early
use bevy_noray.Base.{
  ◌↔◌, ◌≡◌, arith, Bool, true, false, Option, none, some, List, [], ◌∷◌, ◌++◌, Eq, elem, ◌&&◌,
  if◌then◌else◌, Text, text_eq, codes, Outcome, ok, throws, Failure, Action, type_error,
  not_running, ◌>>=◌, ◌>>◌, pure,
}

pub data Module : Type 0 where
  metrics relay hosts connection : Module

abbrev pub module_beq : Module → Module → Bool
module_beq metrics metrics = true
module_beq relay relay = true
module_beq hosts hosts = true
module_beq connection connection = true
module_beq _ _ = false

-- What opens and closes: the metrics' HTTP server, the cleanup job, the registrar's socket and the TCP
-- server.
pub data Device : Type 0 where
  absent running ended : Device

-- Where `start` stands: at the import of a module, at the hooks' promises, at the 'listening' of the
-- server, behind it, or rejected.
pub data Stage : Type 0 where
  importing : List Module → Stage
  hooking opening started failed : Stage

-- `hooks` are those that the modules evaluated so far have registered, each one of its own. `commands`
-- are those that the reactor knows, `closers` the modules that listen to 'close'.
pub record Noray : Type 0 where
  pub stage : Stage
  pub hooks : List Module
  pub commands : List Text
  pub closers : List Module
  pub http : Device
  pub cleanup : Device
  pub registrar : Device
  pub server : Device

abbrev pub default_modules : List Module
default_modules = metrics ∷ relay ∷ hosts ∷ connection ∷ []

-- The modules with a hook that a module's own imports evaluate before it, in that order: the commands of
-- the connection module import the relay module, which imports the hosts module.
abbrev pub imports : Module → List Module
imports relay = hosts ∷ []
imports connection = hosts ∷ relay ∷ []
imports _ = []

pub module_beq_iff : (a b : Module) → (module_beq a b ≡ true) ↔ (a ≡ b)
module_beq_iff a b = ground arith

instance abbrev pub module_eq : Eq Module
module_eq = record { beq = module_beq; beq_iff = module_beq_iff }

load_one : Module → List Module → List Module
load_one m hooks = if elem m hooks then hooks else hooks ++ m ∷ []

load_all : List Module → List Module → List Module
unfolding load_one
load_all [] hooks = hooks
load_all (m ∷ ms) hooks = load_all ms (load_one m hooks)

-- `import()`: a module that is evaluated already is not evaluated again.
unfoldable pub load : Module → List Module → List Module
unfolding load_one load_all
load m hooks = if elem m hooks then hooks else load_one m (load_all (imports m) hooks)

-- The modules' hooks, each up to its end or to its first `await`, which only the relay module's has.
abbrev pub launch_metrics : Noray → Noray
launch_metrics n = record n { http = running; closers = n.closers ++ metrics ∷ [] }

abbrev pub launch_relay : Noray → Noray
launch_relay n = record n { cleanup = running; registrar = running }

abbrev pub launch_hosts : Noray → Noray
launch_hosts n = record n { commands = n.commands ++ codes "register-host" ∷ [] }

abbrev pub launch_connection : Noray → Noray
launch_connection n = record n {
  commands = n.commands ++ codes "connect" ∷ codes "connect-relay" ∷ [];
}

unfoldable pub launch : Module → Noray → Noray
launch metrics n = launch_metrics n
launch relay n = launch_relay n
launch hosts n = launch_hosts n
launch connection n = launch_connection n

unfoldable pub launch_all : List Module → Noray → Noray
unfolding launch
launch_all [] n = n
launch_all (m ∷ ms) n = launch_all ms (launch m n)

-- `serve` and `listen`, behind the hooks' promises.
open_server : Noray → Noray
open_server n = record n { stage = opening; server = running }

-- Behind the imports.
run_hooks : Noray → Noray
unfolding launch_all open_server
run_hooks n =
    let n' = launch_all n.hooks n in
    if elem relay n.hooks then record n' { stage = hooking } else open_server n'

-- The loop over the modules: it goes on when an import has been evaluated.
pull : List Module → Noray → Noray
unfolding run_hooks
pull [] n = run_hooks n
pull (m ∷ ms) n = record n { stage = importing (m ∷ ms) }

-- `start` up to its first `await`.
unfoldable pub start : Option (List Module) → Noray
unfolding pull
start modules =
    pull (elim modules [ none ↦ default_modules | some ms ↦ ms ])
      (record {
        stage = failed;
        hooks = [];
        commands = [];
        closers = [];
        http = absent;
        cleanup = absent;
        registrar = absent;
        server = absent;
      })

-- What the runtime reports: an import is evaluated, the relay module has tried its ports, the TCP
-- server listens, or one of these, or something else that nothing catches, has failed.
pub data Event : Type 0 where
  imported ports_bound listens fails : Event

-- The relay module's hook behind its last `await`, and then `start` behind the hooks.
bound : Noray → Noray
unfolding open_server
bound n = open_server (record n { closers = n.closers ++ relay ∷ [] })

abbrev stop : Noray → Noray
stop n = record n { stage = failed }

react : Stage → Event → Noray → Noray
unfolding pull bound
react _ fails n = stop n
react (importing (m ∷ ms)) imported n = pull ms (record n { hooks = load m n.hooks })
react hooking ports_bound n = bound n
react opening listens n = record n { stage = started }
react _ _ n = n

unfoldable pub step : Event → Noray → Noray
unfolding react
step e n = react n.stage e n

unfoldable pub run : List Event → Noray → Noray
run [] n = n
run (e ∷ es) n = run es (step e n)

-- `socket.close()` of the registrar: a socket that is closed already refuses.
close_registrar : Action Noray (Unit {0})
close_registrar n = elim n.registrar [
  | running ↦ (ok tt, record n { registrar = ended })
  | _ ↦ (throws not_running, n)
]

-- The listeners of 'close'. Behind the registrar's socket come the socket pool and the relay handler.
close_one : Module → Action Noray (Unit {0})
unfolding close_registrar
close_one metrics n = (ok tt, record n { http = ended })
close_one relay n = close_registrar (record n { cleanup = ended })
close_one hosts n = (ok tt, n)
close_one connection n = (ok tt, n)

close_all : List Module → Action Noray (Unit {0})
unfolding close_one
close_all [] = pure tt
close_all (m ∷ ms) = close_one m >> close_all ms

-- `this.#server.close()`: closing the server again does nothing.
close_server : Action Noray (Unit {0})
close_server n = elim n.server [
  | absent ↦ (throws type_error, n)
  | _ ↦ (ok tt, record n { server = ended })
]

unfoldable pub shutdown : Action Noray (Unit {0})
unfolding close_all close_server
shutdown n = (close_all n.closers >> close_server) n

-- An interrupt: noray is shut down, and again at the exit, when nothing is left to run.
unfoldable pub interrupted : Action Noray (Unit {0})
unfolding shutdown
interrupted = shutdown >> shutdown
