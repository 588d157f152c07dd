-- ===== src/Exec.antt =====
-- Requests that mutate the engine and may throw. What was written before a throw stays written, so
-- the state comes back beside the error too. `Failure` is the Error object: a `status` is there
-- where the code attaches one (`fail` of src/host-api.js and src/host-storage.js).
pub mod Keeps
use hyperwake_core.Prelude.{ℕ, String, Bool, true, false, Option, none, some}

pub record Failure : Type 0 where
  pub status : Option ℕ
  pub message : String
  pub code : Option String

pub data Outcome {ℓ} (A : Type ℓ) : Type ℓ where
  ok : A → Outcome A
  thrown : Failure → Outcome A

-- fail(status, message)
abbrev pub fail {ℓ} : {A : Type ℓ} → ℕ → String → Outcome A
fail status message = thrown (record { status = some status; message = message; code = none })

-- throw new Error(message)
abbrev pub error {ℓ} : {A : Type ℓ} → String → Outcome A
error message = thrown (record { status = none; message = message; code = none })

-- if (broken) fail(status, message)
abbrev pub fail_if : Bool → ℕ → String → Outcome (Unit {0})
fail_if true status message = fail status message
fail_if false status message = ok tt

abbrev pub and_then {ℓ κ} : {A : Type ℓ} {B : Type κ} → Outcome A → (A → Outcome B) → Outcome B
and_then (ok a) f = f a
and_then (thrown e) f = thrown e

abbrev pub Exec {ℓ} : Type ℓ → Type ℓ → Type ℓ
Exec S A = S → Outcome A × S

module _ {ℓ} {S A : Type ℓ} where
  unfoldable pub pure : A → Exec S A
  pure a s = (ok a, s)

  unfoldable pub throw : Failure → Exec S A
  throw e s = (thrown e, s)

  -- a check that reads nothing of the state
  unfoldable pub lift : Outcome A → Exec S A
  lift r s = (r, s)

  unfoldable pub gets : (S → A) → Exec S A
  gets f s = (ok (f s), s)

  -- try { … } with the outcome kept
  unfoldable pub attempt : Exec S A → Exec S (Outcome A)
  attempt m s = let (r, s') = m s in (ok r, s')

unfoldable pub modify : {S : Type 0} → (S → S) → Exec S (Unit {0})
modify f s = (ok tt, f s)

module _ {ℓ} {S A B : Type ℓ} where
  abbrev pub continue : Outcome A → (A → Exec S B) → Exec S B
  continue (ok a) f s = f a s
  continue (thrown e) f s = (thrown e, s)

  infixl 10 ◌>>=◌ ◌>>◌
  unfoldable pub ◌>>=◌ : Exec S A → (A → Exec S B) → Exec S B
  unfolding pure throw lift gets modify attempt
  ◌>>=◌ m f s = let (r, s') = m s in continue r f s'

  abbrev pub ◌>>◌ : Exec S A → Exec S B → Exec S B
  m >> n = m >>= λ _. n
