-- ===== src/Runtime/Upholds.antt =====
-- `settle` keeps every invariant of the registry that guests' requests keep.
use hyperwake_core.Prelude.{ℕ, zero, suc, String, Bool, Option, none, some}
use hyperwake_core.Exec.{Outcome, Exec}
use hyperwake_core.Exec.Keeps.{Keeps, Keeps-attempt}
use hyperwake_core.Registry.{Registry}
use hyperwake_core.Engine.{Engine, Host, Call}
use hyperwake_core.Engine.Upholds.{
  Upholds, IsGuestProof, bind-Upholds, lift-Upholds, describe-Upholds, send-Upholds, delay-Upholds,
}
use hyperwake_core.Runtime.{poll_step, poll, settle, observed, after_force_stop}

module _ (Q : Registry → Type 0) (guests : IsGuestProof Q) {W : Type 0} (host : Host W) where
  poll_step-Upholds :
      (every : ℕ) (verdict : Option (Outcome (Unit {0}))) (again : Exec (Engine W) (Unit {0}))
      → Keeps (Upholds Q) again
      → Keeps (Upholds Q) (poll_step host every verdict again)
  unfolding poll_step
  poll_step-Upholds every (some verdict) again k = lift-Upholds Q verdict
  poll_step-Upholds every none again k =
      bind-Upholds Q _ _ (delay-Upholds Q guests host every) (λ _. k)

  poll-Upholds :
      (id : String) (strict : Bool) (every n : ℕ) → Keeps (Upholds Q) (poll host id strict every n)
  unfolding poll
  poll-Upholds id strict every zero = lift-Upholds Q _
  poll-Upholds id strict every (suc n) =
      bind-Upholds Q _ _ (Keeps-attempt _ (describe-Upholds Q guests host id))
        (λ seen. poll_step-Upholds every (observed strict seen) _ (poll-Upholds id strict every n))

  pub settle-Upholds : (id : String) (strict : Bool) → Keeps (Upholds Q) (settle host id strict)
  unfolding settle
  settle-Upholds id strict =
      bind-Upholds Q _ _ (Keeps-attempt _ (send-Upholds Q guests host (Call.force_stop id)))
        (λ stopped.
          bind-Upholds Q _ _ (lift-Upholds Q (after_force_stop strict stopped))
            (λ _. poll-Upholds id strict 500 40))
