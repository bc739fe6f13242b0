-- ===== src/Lifecycle/Hooks.antt =====
-- noray/src/noray.mjs, the modules' hooks: what they set up, in any order.
use bevy_noray.Base.{
  ◌||◌, ◌∙◌, sym, ◌≡◌, refl, inl, inr, ◌⊎◌, Bool, Bool-cases, true, false, List, [], ◌∷◌, ◌++◌,
  elem, elem-append, ◌&&◌, Text, text_eq, text_beq_iff, codes, arith,
}
use bevy_noray.Lifecycle.{
  module_beq, Module, metrics, relay, hosts, connection, module_eq, Device, running, Stage, Noray,
  imports, load, load_one, load_all, launch, launch_all,
}

abbrev pub is_running : Device → Bool
is_running running = true
is_running _ = false

abbrev pub commands_of : Module → List Text
commands_of hosts = codes "register-host" ∷ []
commands_of connection = codes "connect" ∷ codes "connect-relay" ∷ []
commands_of _ = []

abbrev pub all_in : List Text → List Text → Bool
all_in [] l = true
all_in (x ∷ xs) l = elem x l && all_in xs l

-- What a module's hook is for: its commands are known, its devices run, and it will end them.
abbrev pub provides : Module → Noray → Bool
provides metrics n = is_running n.http && elem metrics n.closers
provides relay n = is_running n.cleanup && (is_running n.registrar && elem relay n.closers)
provides hosts n = all_in (commands_of hosts) n.commands
provides connection n = all_in (commands_of connection) n.commands

abbrev pub Grows : Noray → Noray → Type 0
Grows n n' = (m : Module) → provides m n ≡ true → provides m n' ≡ true

all_in-append : (xs l ys : List Text) → all_in xs l ≡ true → all_in xs (l ++ ys) ≡ true
all_in-append [] l ys h = refl
all_in-append (x ∷ xs) l ys h = ground (arith, elem-append x l ys, all_in-append xs l ys)

-- More listeners of 'close', or more commands.
pub closers-Grows :
    (n : Noray) (ms : List Module) → Grows n (record n { closers = n.closers ++ ms })
closers-Grows n ms metrics h = ground (arith, elem-append metrics n.closers ms)
closers-Grows n ms relay h = ground (arith, elem-append relay n.closers ms)
closers-Grows n ms hosts h = h
closers-Grows n ms connection h = h

commands-Grows : (n : Noray) (cs : List Text) → Grows n (record n { commands = n.commands ++ cs })
commands-Grows n cs metrics h = h
commands-Grows n cs relay h = h
commands-Grows n cs hosts h = all_in-append (commands_of hosts) n.commands cs h
commands-Grows n cs connection h = all_in-append (commands_of connection) n.commands cs h

running-Grows :
    (n : Noray)
    → Grows n (record n { http = running })
      × Grows n (record n { cleanup = running; registrar = running })
running-Grows n = (λ m h. one m h, λ m h. two m h)
  where
    one : Grows n (record n { http = running })
    one metrics h = ground arith
    one relay h = h
    one hosts h = h
    one connection h = h

    two : Grows n (record n { cleanup = running; registrar = running })
    two metrics h = h
    two relay h = ground arith
    two hosts h = h
    two connection h = h

launch-Grows : (m : Module) (n : Noray) → Grows n (launch m n)
unfolding launch
launch-Grows metrics n k h =
    closers-Grows (record n { http = running }) (metrics ∷ []) k ((running-Grows n).0 k h)
launch-Grows relay n k h = (running-Grows n).1 k h
launch-Grows hosts n k h = commands-Grows n (commands_of hosts) k h
launch-Grows connection n k h = commands-Grows n (commands_of connection) k h

all_in_last : (xs l : List Text) → all_in xs (l ++ xs) ≡ true
all_in_last xs l = within xs xs l (λ x h. h)
  where
    within :
        (ys xs l : List Text)
        → ((x : Text) → elem x ys ≡ true → elem x xs ≡ true)
        → all_in ys (l ++ xs) ≡ true
    within [] xs l k = refl
    within (y ∷ ys) xs l k = ground (
      arith,
      elem-append y l xs,
      k y (ground (arith, text_beq_iff y y)),
      within ys xs l (λ x h. k x (ground (arith, h))),
    )

-- A hook without an `await` has done its part when it returns.
launch-provides : (m : Module) (n : Noray) → (m ≡ relay) ⊎ (provides m (launch m n) ≡ true)
unfolding launch
launch-provides metrics n = inr (ground (arith, elem-append metrics n.closers (metrics ∷ [])))
launch-provides relay n = inl refl
launch-provides hosts n = inr (all_in_last (commands_of hosts) n.commands)
launch-provides connection n = inr (all_in_last (commands_of connection) n.commands)

launch_all-Grows : (ms : List Module) (n : Noray) → Grows n (launch_all ms n)
unfolding launch_all
launch_all-Grows [] n k h = h
launch_all-Grows (m ∷ ms) n k h = launch_all-Grows ms (launch m n) k (launch-Grows m n k h)

pub launch_all-provides :
    (ms : List Module) (n : Noray) (m : Module)
    → elem m ms ≡ true
    → (m ≡ relay) ⊎ (provides m (launch_all ms n) ≡ true)
unfolding launch_all
launch_all-provides [] n m e = absurd (ground (arith, e))
launch_all-provides (x ∷ ms) n m e = elim (Bool-cases (module_beq m x)) [
  | inl same ↦
      let eq : x ≡ m = sym ((module_eq.beq_iff m x).0 same) in
      elim (launch-provides x n) [
        | inl r ↦ inl (sym eq ∙ r)
        | inr p ↦ inr (launch_all-Grows ms (launch x n) m (rw (sym eq) p))
      ]
  | inr other ↦ launch_all-provides ms (launch x n) m (ground (arith, e))
]

-- Where `start` stands and whether the server is open are no part of what modules provide.
pub stage-Grows :
    (n : Noray) (s : Stage) (d : Device) → Grows n (record n { stage = s; server = d })
stage-Grows n s d metrics h = h
stage-Grows n s d relay h = h
stage-Grows n s d hosts h = h
stage-Grows n s d connection h = h

launch-server : (m : Module) (n : Noray) → (launch m n).server ≡ n.server
unfolding launch
launch-server metrics n = refl
launch-server relay n = refl
launch-server hosts n = refl
launch-server connection n = refl

pub launch_all-server : (ms : List Module) (n : Noray) → (launch_all ms n).server ≡ n.server
unfolding launch_all
launch_all-server [] n = refl
launch_all-server (m ∷ ms) n = launch_all-server ms (launch m n) ∙ launch-server m n

-- The relay module's cleanup job and registrar.
abbrev pub relay_runs : Noray → Bool
relay_runs n = is_running n.cleanup && is_running n.registrar

launch-relay_runs :
    (m : Module) (n : Noray)
    → (relay_runs n || module_beq m relay) ≡ true
    → relay_runs (launch m n) ≡ true
unfolding launch
launch-relay_runs metrics n h = ground (arith, h)
launch-relay_runs relay n h = refl
launch-relay_runs hosts n h = ground (arith, h)
launch-relay_runs connection n h = ground (arith, h)

pub launch_all-relay_runs :
    (ms : List Module) (n : Noray)
    → (relay_runs n || elem relay ms) ≡ true
    → relay_runs (launch_all ms n) ≡ true
unfolding launch_all
launch_all-relay_runs [] n h = ground (arith, h)
launch_all-relay_runs (m ∷ ms) n h =
    launch_all-relay_runs ms (launch m n) (
      ground
        (arith, h, launch-relay_runs m n, module_eq.beq_iff m relay, module_eq.beq_iff relay m))

-- An import keeps the hooks that are there and adds its module's.
load_one-elem :
    (x m : Module) (hooks : List Module)
    → (elem m hooks || module_beq m x) ≡ true
    → elem m (load_one x hooks) ≡ true
unfolding load_one
load_one-elem x m hooks h = elim (Bool-cases (elem x hooks)) [
  | inl u ↦ ground (arith, h, module_eq.beq_iff m x)
  | inr f ↦ ground (arith, h, elem-append m hooks (x ∷ []))
]

load_all-elem :
    (xs : List Module) (m : Module) (hooks : List Module)
    → elem m hooks ≡ true
    → elem m (load_all xs hooks) ≡ true
unfolding load_all
load_all-elem [] m hooks h = h
load_all-elem (x ∷ xs) m hooks h =
    load_all-elem xs m (load_one x hooks) (load_one-elem x m hooks (ground (arith, h)))

pub load-elem :
    (x m : Module) (hooks : List Module)
    → (elem m hooks || module_beq m x) ≡ true
    → elem m (load x hooks) ≡ true
unfolding load
load-elem x m hooks h = elim (Bool-cases (elem x hooks)) [
  | inl u ↦ ground (arith, h, module_eq.beq_iff m x)
  | inr f ↦ rw f (
      load_one-elem x m (load_all (imports x) hooks)
        (ground (arith, h, load_all-elem (imports x) m hooks)))
]
