-- ===== src/Orderly/Commands.antt =====
-- `HostApi.mutate` keeps the journals in order.
use hyperwake_core.Prelude.{ℕ, String, ◌≡◌, refl, Bool, true, false, Option, none, some, string_eq}
use hyperwake_core.Json.{Json}
use hyperwake_core.Exec.{Outcome, ok, thrown, fail_if, Exec, pure, lift, ◌>>=◌}
use hyperwake_core.Exec.Keeps.{Keeps, Keeps-attempt, Keeps-if}
use hyperwake_core.Records.{
  Verb, create, start, shutdown, force_stop, destroy, OperationKey, Record, Reply, DesiredState,
}
use hyperwake_core.Guest.{desire}
use hyperwake_core.Engine
use hyperwake_core.Engine.{Engine, Host, registry_of, clock, random, list, send}
use hyperwake_core.Engine.Upholds.{
  Upholds, IsGuestProof, bind-Upholds, lift-Upholds, pure-Upholds, throw-Upholds, write-Upholds,
  describe-Upholds, list-Upholds, send-Upholds, random-Upholds, clock-Upholds,
}
use hyperwake_core.Runtime.Upholds.{settle-Upholds}
use hyperwake_core.Request.{Request}
use hyperwake_core.Journal.{Settings, is_refusal}
use hyperwake_core.Lifecycle.{
  assign, update, flush, revoke, reread, describe, conclude, work_create, after_launch, work_start,
  work, report, finish, proceed,
}
use hyperwake_core.Lifecycle.Order.{Yields}
use hyperwake_core.Orderly.{IsOrderly, EntersNothing}
use hyperwake_core.Orderly.Patches.{
  desire-EntersNothing, tombstone-EntersNothing, settle-EntersNothing, prepare_boot-EntersNothing,
}
use hyperwake_core.Orderly.Writes.{
  guest_request-IsOrderly, flush-IsOrderly, modify-IsOrderly, update-IsOrderly,
}

-- Each step leaves the journals in order.
abbrev pub Orders : {W A : Type 0} → Exec (Engine W) A → Type 0
Orders m = Keeps (Upholds IsOrderly) m

pub bind-Orders :
    {W A B : Type 0} (m : Exec (Engine W) A) (f : A → Exec (Engine W) B)
    → Orders m
    → ((a : A) → Orders (f a))
    → Orders (m >>= f)
bind-Orders = bind-Upholds IsOrderly

pub lift-Orders : {W A : Type 0} (r : Outcome A) → Orders {W = W} (lift r)
lift-Orders = lift-Upholds IsOrderly

-- What follows a test may use that it passed.
pub guard-Orders :
    {W A : Type 0} (b : Bool) (status : ℕ) (m : String) (n : Exec (Engine W) A)
    → (b ≡ false → Orders n)
    → Orders (lift (fail_if b status m) >>= λ _. n)
unfolding ◌>>=◌ lift
guard-Orders true status m n k = record { at = λ s. record { kept = λ h. h } }
guard-Orders false status m n k = record { at = (k refl).at }

pub guard-Yields :
    {S A : Type 0} (P : S → Type 0) (b : Bool) (status : ℕ) (m : String) (n : Exec S A)
    → (b ≡ false → Yields P n)
    → Yields P (lift (fail_if b status m) >>= λ _. n)
unfolding ◌>>=◌ lift
guard-Yields P true status m n k = λ s a h. absurd (cc)
guard-Yields P false status m n k = k refl

pub guests_order : IsGuestProof IsOrderly
guests_order = guest_request-IsOrderly

module _ {W : Type 0} (host : Host W) (id : String) where
  pub assign-Orders : (f : Record → Record) → EntersNothing f → Orders {W = W} (assign id f)
  assign-Orders f n = write-Upholds IsOrderly _ (modify-IsOrderly id f n)

  pub update-Orders : (f : Record → Record) → EntersNothing f → Orders {W = W} (update id f)
  update-Orders f n = write-Upholds IsOrderly _ (update-IsOrderly id f n)

  pub flush-Orders : Orders {W = W} flush
  flush-Orders = write-Upholds IsOrderly _ flush-IsOrderly

  pub revoke-Orders : Orders {W = W} (revoke id)
  unfolding revoke
  revoke-Orders = record { at = λ s. record { kept = λ h. h } }

  pub reread-Orders : Orders {W = W} (reread id)
  unfolding reread
  reread-Orders = record { at = λ s. record { kept = λ h. h } }

  pub describe-Orders : Orders (Engine.describe host id)
  describe-Orders = describe-Upholds IsOrderly guests_order host id

  pub send-Orders : (c : Engine.Call) → Orders (send host c)
  send-Orders = send-Upholds IsOrderly guests_order host

  pub list-Orders : Orders (list host)
  list-Orders = list-Upholds IsOrderly guests_order host

  pub clock-Orders : Orders (clock host)
  clock-Orders = clock-Upholds IsOrderly guests_order host

  pub random-Orders : Orders (random host)
  random-Orders = random-Upholds IsOrderly guests_order host

  pub pure-Orders : {A : Type 0} (a : A) → Orders {W = W} (pure a)
  pure-Orders = pure-Upholds IsOrderly

  report_machine-Orders : (key : Option OperationKey) → Orders (describe host id key)
  unfolding describe
  report_machine-Orders key = bind-Orders _ _ reread-Orders (λ (_, _).
      bind-Orders _ _ (Keeps-attempt _ describe-Orders) (λ _.
        bind-Orders _ _ reread-Orders
          (λ (_, _). bind-Orders _ _ clock-Orders (λ _. pure-Orders _))))

  pub conclude-Orders : (key : OperationKey) (reply : Reply) → Orders (conclude host id key reply)
  unfolding conclude
  conclude-Orders key reply =
      bind-Orders _ _ (assign-Orders _ (settle-EntersNothing key reply))
        (λ _. bind-Orders _ _ flush-Orders (λ _. pure-Orders reply))

  stop-Orders : Orders {W = W} (update id (desire DesiredState.stopped))
  stop-Orders = update-Orders _ (desire-EntersNothing DesiredState.stopped)

  work_create-Orders : (settings : Settings) → Orders (work_create host id settings)
  unfolding work_create
  work_create-Orders settings = bind-Orders _ _ reread-Orders (λ (_, _).
      bind-Orders _ _ (lift-Orders _)
        (λ _. bind-Orders _ _ (send-Orders _) (λ _. pure-Orders none)))

  after_launch-Orders :
      (key : OperationKey) (r : Outcome Json) → Orders (after_launch host id key r)
  unfolding after_launch
  after_launch-Orders key (ok _) = pure-Orders none
  after_launch-Orders key (thrown e) =
      Keeps-if (is_refusal e) _ _
        (bind-Orders _ _ (assign-Orders _ (desire-EntersNothing DesiredState.stopped))
          (λ _. bind-Orders _ _ (conclude-Orders key _) (λ reply. pure-Orders (some reply))))
        (throw-Upholds IsOrderly e)

  work_start-Orders : (key : OperationKey) → Orders (work_start host id key)
  unfolding work_start
  work_start-Orders key = bind-Orders _ _ describe-Orders (λ d.
      bind-Orders _ _ (lift-Orders _) (λ _. bind-Orders _ _ reread-Orders (λ (_, c).
        bind-Orders _ _ clock-Orders (λ now.
          bind-Orders _ _
            (Keeps-if _ _ _ (assign-Orders _ (prepare_boot-EntersNothing now key)) (pure-Orders tt))
            (λ _.
              bind-Orders _ _ (assign-Orders _ (desire-EntersNothing DesiredState.running)) (λ _.
                bind-Orders _ _ flush-Orders (λ _.
                  bind-Orders _ _ (Keeps-attempt _ (send-Orders _)) (after_launch-Orders key))))))))

  work-Orders : (settings : Settings) (q : Request) (v : Verb) → Orders (work host id settings q v)
  unfolding work
  work-Orders settings q create = work_create-Orders settings
  work-Orders settings q start = work_start-Orders q.key
  work-Orders settings q shutdown =
      bind-Orders _ _ stop-Orders (λ _. bind-Orders _ _ (send-Orders _) (λ _. pure-Orders none))
  work-Orders settings q force_stop =
      bind-Orders _ _ stop-Orders (λ _. bind-Orders _ _ (send-Orders _) (λ _. pure-Orders none))
  work-Orders settings q _ = bind-Orders _ _ stop-Orders (λ _.
      bind-Orders _ _ (settle-Upholds IsOrderly guests_order host id true) (λ _.
        bind-Orders _ _ (send-Orders _)
          (λ _. bind-Orders _ _ (assign-Orders _ tombstone-EntersNothing) (λ _. pure-Orders none))))

  report-Orders : (q : Request) (v : Verb) → Orders (report host id q v)
  unfolding report
  report-Orders q destroy = pure-Orders _
  report-Orders q create = bind-Orders _ _ (report_machine-Orders (some q.key)) (λ _. pure-Orders _)
  report-Orders q _ = bind-Orders _ _ (report_machine-Orders (some q.key)) (λ _. pure-Orders _)

  finish-Orders : (q : Request) (early : Option Reply) → Orders (finish host id q early)
  unfolding finish
  finish-Orders q (some reply) = pure-Orders reply
  finish-Orders q none =
      bind-Orders _ _ (report-Orders q q.key.verb) (λ payload. conclude-Orders q.key _)

  pub proceed-Orders :
      (settings : Settings) (q : Request) (early : Option Reply)
      → Orders (proceed host id settings q early)
  unfolding proceed
  proceed-Orders settings q (some reply) = pure-Orders reply
  proceed-Orders settings q none =
      bind-Orders _ _ (Keeps-if _ _ _ (pure-Orders tt) revoke-Orders)
        (λ _. bind-Orders _ _ (work-Orders settings q q.key.verb) (finish-Orders q))
