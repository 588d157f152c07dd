-- ===== src/Orderly/Machines.antt =====
-- The public machine routes, and the adoption at the start of the server, keep the journals in order.
use hyperwake_core.Prelude.{
  ℕ, String, Bool, true, false, List, [], ◌∷◌, refl, Bool-cases, inl, inr, if◌then◌else◌,
}
use hyperwake_core.Json.{Json}
use hyperwake_core.Exec.{Outcome, ok, thrown}
use hyperwake_core.Exec.Keeps.{Keeps-attempt}
use hyperwake_core.Records.{Record, Spec, DesiredState}
use hyperwake_core.Registry
use hyperwake_core.Registry.{Registry}
use hyperwake_core.Engine.{Host}
use hyperwake_core.Engine.Upholds.{write-Upholds, throw-Upholds, gets-Upholds}
use hyperwake_core.Runtime.Upholds.{settle-Upholds}
use hyperwake_core.Server.{
  patch, needs_cleanup, adopt, adopted_record, is_known, reconcile, show, tear_down,
  after_tear_down, delete_machine, after_rollback, after_launch, launch, authorize, create_machine,
  start_machine, stop_machine,
}
use hyperwake_core.Lifecycle.Entry.{is_entered}
use hyperwake_core.Orderly.{IsOrderly, EntersNothing}
use hyperwake_core.Orderly.Patches.{desire-EntersNothing}
use hyperwake_core.Orderly.Writes.{
  flush-IsOrderly, put-IsOrderly, update-IsOrderly, remove-IsOrderly,
}
use hyperwake_core.Orderly.Commands.{
  Orders, bind-Orders, lift-Orders, guests_order, describe-Orders, send-Orders, clock-Orders,
  random-Orders, pure-Orders,
}

create-IsOrderly :
    (id : String) (now : ℕ) (token : String) (spec : Spec) (r : Registry)
    → IsOrderly r
    → IsOrderly (Registry.create id now token spec r)
unfolding Registry.create Registry.new_record is_entered
create-IsOrderly id now token spec r h =
    flush-IsOrderly _ (put-IsOrderly id (Registry.new_record id now token spec) (λ key. refl) r h)

adopt-IsOrderly :
    (now : ℕ) (known : List Record) (ids : List String) (r : Registry)
    → IsOrderly r
    → IsOrderly (adopt now known ids r)
unfolding adopt adopted_record Registry.new_record is_entered
adopt-IsOrderly now known [] r h = h
adopt-IsOrderly now known (id ∷ ids) r h = elim (Bool-cases (is_known id known)) [
  | inl seen ↦ rw seen (adopt-IsOrderly now known ids r h)
  | inr lost ↦
      rw lost (
        adopt-IsOrderly now known ids _
          (put-IsOrderly id (adopted_record now id) (λ key. refl) r h))
]

flushed_if_not-IsOrderly :
    (b : Bool) (r : Registry) → IsOrderly r → IsOrderly (if b then r else Registry.flush r)
flushed_if_not-IsOrderly true r h = h
flushed_if_not-IsOrderly false r h = flush-IsOrderly r h

pub reconcile-IsOrderly :
    (now : ℕ) (ids : List String) (r : Registry) → IsOrderly r → IsOrderly (reconcile now ids r)
unfolding reconcile
reconcile-IsOrderly now ids r h =
    flushed_if_not-IsOrderly _ _ (adopt-IsOrderly now (Registry.all r) ids r h)

module _ {W : Type 0} (host : Host W) where
  patch-Orders : (id : String) (f : Record → Record) → EntersNothing f → Orders {W = W} (patch id f)
  patch-Orders id f n = write-Upholds IsOrderly _ (update-IsOrderly id f n)

  cleanup-EntersNothing : (reason : String) → EntersNothing (needs_cleanup reason)
  cleanup-EntersNothing reason = record { before = λ key r h. h }

  show-Orders : (id : String) → Orders (show host id)
  unfolding show
  show-Orders id = bind-Orders _ _ (Keeps-attempt _ (describe-Orders host id)) (λ _.
      bind-Orders _ _ (gets-Upholds IsOrderly _)
        (λ _. bind-Orders _ _ (clock-Orders host id) (λ _. pure-Orders host id _)))

  tear_down-Orders : (id : String) → Orders (tear_down host id)
  unfolding tear_down
  tear_down-Orders id =
      bind-Orders _ _ (settle-Upholds IsOrderly guests_order host id false)
        (λ _. send-Orders host id _)

  after_tear_down-Orders : (id : String) (r : Outcome Json) → Orders (after_tear_down host id r)
  unfolding after_tear_down
  after_tear_down-Orders id (ok v) =
      bind-Orders _ _ (write-Upholds IsOrderly _ (remove-IsOrderly id)) (λ _. pure-Orders host id _)
  after_tear_down-Orders id (thrown e) =
      bind-Orders _ _ (patch-Orders id _ (cleanup-EntersNothing e.message))
        (λ _. pure-Orders host id _)

  pub delete_machine-Orders : (id : String) → Orders (delete_machine host id)
  unfolding delete_machine
  delete_machine-Orders id =
      bind-Orders _ _ (Keeps-attempt _ (tear_down-Orders id)) (after_tear_down-Orders id)

  after_rollback-Orders : (id : String) (r : Outcome Json) → Orders (after_rollback host id r)
  unfolding after_rollback
  after_rollback-Orders id (ok v) = write-Upholds IsOrderly _ (remove-IsOrderly id)
  after_rollback-Orders id (thrown e) =
      patch-Orders id _ (cleanup-EntersNothing "create failed and rollback failed")

  after_launch-Orders : (id : String) (r : Outcome Json) → Orders (after_launch host id r)
  unfolding after_launch
  after_launch-Orders id (ok v) = show-Orders id
  after_launch-Orders id (thrown e) =
      bind-Orders _ _ (Keeps-attempt _ (tear_down-Orders id))
        (λ torn. bind-Orders _ _ (after_rollback-Orders id torn) (λ _. throw-Upholds IsOrderly e))

  launch-Orders :
      (public_key id : String) (spec : Spec) (token : String)
      → Orders (launch host public_key id spec token)
  unfolding launch
  launch-Orders public_key id spec token =
      bind-Orders _ _ (send-Orders host id _) (λ _. send-Orders host id _)

  pub create_machine-Orders :
      (public_key : String) (body : Json) → Orders (create_machine host public_key body)
  unfolding create_machine
  create_machine-Orders public_key body = bind-Orders _ _ (clock-Orders host "") (λ now.
      bind-Orders _ _ (lift-Orders _) (λ spec. bind-Orders _ _ (random-Orders host "") (λ id.
        bind-Orders _ _ (random-Orders host "") (λ token.
          bind-Orders _ _ (write-Upholds IsOrderly _ (create-IsOrderly id now token spec)) (λ _.
            bind-Orders _ _
              (patch-Orders id (authorize host public_key) (record { before = λ key r h. h }))
              (λ _.
                bind-Orders _ _ (Keeps-attempt _ (launch-Orders public_key id spec token))
                  (after_launch-Orders id)))))))

  pub start_machine-Orders : (id : String) → Orders (start_machine host id)
  unfolding start_machine
  start_machine-Orders id = bind-Orders _ _ (send-Orders host id _) (λ _.
      bind-Orders _ _ (patch-Orders id _ (desire-EntersNothing DesiredState.running))
        (λ _. show-Orders id))

  pub stop_machine-Orders : (id : String) (body : Json) → Orders (stop_machine host id body)
  unfolding stop_machine
  stop_machine-Orders id body =
      bind-Orders _ _ (patch-Orders id _ (desire-EntersNothing DesiredState.stopped))
        (λ _. bind-Orders _ _ (send-Orders host id _) (λ _. show-Orders id))
