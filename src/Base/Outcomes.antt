-- ===== src/Base/Outcomes.antt =====
-- A call of a method: it changes a state, and returns or throws. What was written before a throw
-- stays written.
use mathlib.Core.Bool.{Bool}
use mathlib.Core.Path.{◌≡◌, refl}
use native.Mathlib.Omega.{arith}
use mathlib.Core.Logic.{◌⊎◌, inl, inr}
use mathlib.Core.Option.{Option, none, some}
use bevy_noray.Base.Tests.{if◌then◌else◌}

-- The errors that the program throws, by the message or the class that tells them apart.
pub data Failure : Type 0 where
  missing_param invalid_enum id_in_use unknown_item no_free_ports : Failure
  bandwidth_limit lifetime_limit traffic_limit : Failure
  unknown_pid unknown_oid unknown_client no_host_rinfo no_client_rinfo : Failure
  type_error range_error parse_error unknown_unit bind_error not_running : Failure

pub data Outcome {ℓ} (A : Type ℓ) : Type ℓ where
  ok : A → Outcome A
  throws : Failure → Outcome A

abbrev pub Action {ℓ κ} : Type ℓ → Type κ → Type (ℓ ⊔ κ)
Action S A = S → Outcome A × S

module _ {ℓ κ} {S : Type ℓ} {A : Type κ} where
  abbrev pub pure : A → Action S A
  pure a s = (ok a, s)

  abbrev pub throw : Failure → Action S A
  throw e s = (throws e, s)

  abbrev pub gets : (S → A) → Action S A
  gets f s = (ok (f s), s)

  abbrev pub or_throw : Option A → Failure → Action S A
  or_throw none e = throw e
  or_throw (some a) e = pure a

infixl 5 ◌>>=◌ ◌>>◌
abbrev pub ◌>>=◌ {ℓ κ μ} :
    {S : Type ℓ} {A : Type κ} {B : Type μ} → Action S A → (A → Action S B) → Action S B
◌>>=◌ m f s = let (r, s') = m s in elim r [ ok a ↦ f a s' | throws e ↦ throw e s' ]

abbrev pub ◌>>◌ {ℓ κ μ} :
    {S : Type ℓ} {A : Type κ} {B : Type μ} → Action S A → Action S B → Action S B
m >> k = m >>= λ _. k

-- `assert(test, …)`
abbrev pub ensure {ℓ} : {S : Type ℓ} → Bool → Failure → Action S (Unit {0})
ensure c e s = (if c then ok tt else throws e, s)

abbrev pub modify {ℓ} : {S : Type ℓ} → (S → S) → Action S (Unit {0})
modify f s = (ok tt, f s)

-- A call that returns leaves a state in which `P` holds of its result.
abbrev pub Returns {ℓ κ μ} : {S : Type ℓ} {A : Type κ} → (A → S → Type μ) → Outcome A × S → Type μ
Returns P (ok a, s) = P a s
Returns P (throws _, s) = Unit

pub Outcome-cases {ℓ} :
    {A : Type ℓ} (r : Outcome A) → ((a : A) × (r ≡ ok a)) ⊎ ((e : Failure) × (r ≡ throws e))
Outcome-cases (ok a) = inl (a, refl)
Outcome-cases (throws e) = inr (e, refl)

module _ {ℓ κ μ} {S : Type ℓ} {A : Type κ} {B : Type μ} (m : Action S A) (f : A → Action S B)
    (s : S) where
  -- What a sequence does once its first call has returned, or has thrown.
  pub >>=_of_ok : (a : A) → (m s).0 ≡ ok a → (m >>= f) s ≡ f a (m s).1
  >>=_of_ok a e = ground arith

  pub >>=_of_throws : (x : Failure) → (m s).0 ≡ throws x → (m >>= f) s ≡ (throws x, (m s).1)
  >>=_of_throws x e = ground arith

  -- A property of the state that the first call establishes and the rest keeps holds at the end.
  pub >>=_keeps {ν} :
      (P : S → Type ν)
      → P (m s).1
      → ((a : A) → (m s).0 ≡ ok a → P (f a (m s).1).1)
      → P ((m >>= f) s).1
  >>=_keeps P h k = elim (Outcome-cases (m s).0) [
    | inl (a, e) ↦ rw (>>=_of_ok a e) (k a e)
    | inr (x, e) ↦ rw (>>=_of_throws x e) h
  ]

-- Every call keeps a property of the state, whether it returns or throws.
module _ {ℓ ν} {S : Type ℓ} (P : S → Type ν) where
  abbrev pub Keeps {κ} : {A : Type κ} → Action S A → Type (ℓ ⊔ ν)
  Keeps m = (s : S) → P s → P (m s).1

  pub Keeps-bind {κ μ} :
      {A : Type κ} {B : Type μ} (m : Action S A) (f : A → Action S B)
      → Keeps m
      → ((a : A) → Keeps (f a))
      → Keeps (m >>= f)
  Keeps-bind m f k l s p = >>=_keeps m f s P (k s p) (λ a _. l a _ (k s p))

  pub Keeps-pure {κ} : {A : Type κ} (a : A) → Keeps (pure a)
  Keeps-pure a s p = p

  pub Keeps-gets {κ} : {A : Type κ} (f : S → A) → Keeps (gets f)
  Keeps-gets f s p = p

  pub Keeps-or_throw {κ} : {A : Type κ} (o : Option A) (e : Failure) → Keeps (or_throw o e)
  Keeps-or_throw none e s p = p
  Keeps-or_throw (some a) e s p = p
