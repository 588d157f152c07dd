-- ===== src/Runtime.antt =====
-- `settle` of src/runtime.js: stop a machine and wait for the runtime to agree.
pub mod Upholds
use hyperwake_core.Prelude.{
  ℕ, zero, suc, String, Bool, true, false, not, ◌&&◌, Option, none, some, nat_beq, if◌then◌else◌,
}
use hyperwake_core.Json.{Json}
use hyperwake_core.Exec.{Failure, Outcome, ok, thrown, error, Exec, lift, attempt, ◌>>=◌, ◌>>◌}
use hyperwake_core.Records.{Described, RuntimeStatus}
use hyperwake_core.Engine.{Host, Engine, send, describe, delay, force_stop}

-- error.status === status
abbrev pub has_status : ℕ → Failure → Bool
has_status status e = elim e.status [ none ↦ false | some n ↦ nat_beq n status ]

abbrev pub is_stopped : RuntimeStatus → Bool
is_stopped RuntimeStatus.stopped = true
is_stopped _ = false

-- A failure that ends a strict settle: anything but 404.
abbrev pub is_fatal : Bool → Failure → Bool
is_fatal strict e = strict && not (has_status 404 e)

-- What the first `try` does with the outcome of force-stop.
unfoldable pub after_force_stop : Bool → Outcome Json → Outcome (Unit {0})
after_force_stop strict (ok _) = ok tt
after_force_stop strict (thrown e) = if is_fatal strict e then thrown e else ok tt

-- What one answer of `describe` decides: done, failed, or (none) ask again.
unfoldable pub observed : Bool → Outcome Described → Option (Outcome (Unit {0}))
observed strict (ok d) = if is_stopped d.status then some (ok tt) else none
observed strict (thrown e) = some (if is_fatal strict e then thrown e else ok tt)

module _ {W : Type 0} (host : Host W) where
  -- The loop, with `attempts` rounds left; `again` is the rest of it.
  unfoldable pub poll_step :
      ℕ → Option (Outcome (Unit {0})) → Exec (Engine W) (Unit {0}) → Exec (Engine W) (Unit {0})
  poll_step every (some verdict) again = lift verdict
  poll_step every none again = do delay host every; again

  unfoldable pub poll : String → Bool → ℕ → ℕ → Exec (Engine W) (Unit {0})
  poll id strict every zero = lift (error "The machine did not stop.")
  poll id strict every (suc attempts) = do
    seen ← attempt (describe host id)
    poll_step every (observed strict seen) (poll id strict every attempts)

  unfoldable pub settle : String → Bool → Exec (Engine W) (Unit {0})
  settle id strict = do
    stopped ← attempt (send host (force_stop id))
    lift (after_force_stop strict stopped)
    poll id strict 500 40
