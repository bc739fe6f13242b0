-- ===== src/Utils/Timing.antt =====
-- noray/src/utils.mjs: sleep, asSingletonFactory and withTimeout. A promise is what it settles to, and
-- after how long.
use bevy_noray.Base.{
  ◌&&◌, ℕ, Option, none, some, leb, if◌then◌else◌, Outcome, ok, throws, Action, pure, ◌>>=◌,
}

pub data Promise {ℓ} (A : Type ℓ) : Type ℓ where
  pending : Promise A
  settles : ℕ → Outcome A → Promise A

-- `setTimeout` in microseconds: a delay below a millisecond, or above the largest of 32 bits in
-- milliseconds, is a millisecond.
abbrev pub timer_delay : ℕ → ℕ
timer_delay time = if leb 1_000 time && leb time 2_147_483_647_000 then time else 1_000

unfoldable pub sleep {ℓ} : {A : Type ℓ} → ℕ → A → Promise A
sleep time value = settles (timer_delay time) (ok value)

-- `Promise.race`: the first to settle. Of two that settle at once either may be first; it is the first
-- of the list here.
unfoldable pub race {ℓ} : {A : Type ℓ} → Promise A → Promise A → Promise A
race pending q = q
race (settles m a) pending = settles m a
race (settles m a) (settles n b) = if leb m n then settles m a else settles n b

-- `none` is the symbol `Timeout`.
with_some {ℓ} : {A : Type ℓ} → Promise A → Promise (Option A)
with_some pending = pending
with_some (settles n (ok a)) = settles n (ok (some a))
with_some (settles n (throws e)) = settles n (throws e)

unfoldable pub with_timeout {ℓ} : {A : Type ℓ} → Promise A → ℕ → Promise (Option A)
unfolding sleep race with_some
with_timeout promise timeout = race (sleep timeout none) (with_some promise)

-- The function is called when it is wrapped.
unfoldable pub as_singleton_factory {ℓ κ} :
    {S : Type ℓ} {A : Type κ} → Action S A → Action S (Action S A)
as_singleton_factory f = do value ← f; pure (pure value)

-- The result of a settled promise, where `Timeout` stands beside the results.
abbrev pub passed {ℓ} : {A : Type ℓ} → Outcome A → Outcome (Option A)
passed (ok a) = ok (some a)
passed (throws e) = throws e
