-- ===== src/Lifecycle/Entering.antt =====
-- Before its entry stands, a command makes no call that changes the runtime; and when it goes on to
-- the runtime work, the entry stands in memory and on disk.
use hyperwake_core.Prelude.{
  String, ◌≡◌, refl, ◌∙◌, Bool, true, false, Option, none, some, string_eq,
}
use hyperwake_core.Exec.{Outcome, Exec, pure, lift, ◌>>=◌}
use hyperwake_core.Exec.Keeps.{
  IsPreorder, Keeps, Keeps-pure, Keeps-lift, Keeps-attempt, Keeps-if, Keeps-bind,
}
use hyperwake_core.Records.{create, verb_beq, key_eq, Operation, Cloud, Record}
use hyperwake_core.Registry.{Registry}
use hyperwake_core.Engine
use hyperwake_core.Engine.{Engine, Host, registry_of, await, meanwhile, clock, random, list}
use hyperwake_core.Request.{Request}
use hyperwake_core.Journal.{Settings, Claim, fresh, again}
use hyperwake_core.Lifecycle.{journal, check_retired, accept_create, accept_as, accept, enter}

-- No call that changes the runtime.
pub record IsSilent {W : Type 0} (s t : Engine W) : Type 0 where
  pub same : t.sent ≡ s.sent

module _ {W : Type 0} where
  pub silence : IsPreorder (IsSilent {W = W})
  silence = record {
    here = λ s. record { same = refl };
    chain = λ s t u a b. record { same = b.same ∙ a.same };
  }

module _ {W : Type 0} (host : Host W) (id : String) where
  await-IsSilent : {A : Type 0} (call : W → Outcome A × W) → Keeps IsSilent (await host call)
  unfolding await meanwhile
  await-IsSilent call = record { at = λ e. record { same = refl } }

  describe-IsSilent : (j : String) → Keeps IsSilent (Engine.describe host j)
  unfolding Engine.describe
  describe-IsSilent j = await-IsSilent (host.describe j)

  list-IsSilent : Keeps IsSilent (list host)
  unfolding list
  list-IsSilent = await-IsSilent host.list

  random-IsSilent : Keeps IsSilent (random host)
  unfolding random
  random-IsSilent = record { at = λ e. record { same = refl } }

  clock-IsSilent : Keeps IsSilent (clock host)
  unfolding clock
  clock-IsSilent = record { at = λ e. record { same = refl } }

  write-IsSilent : (f : Registry → Registry) → Keeps (IsSilent {W = W}) (Engine.write f)
  unfolding Engine.write
  write-IsSilent f = record { at = λ e. record { same = refl } }

  bind-IsSilent :
      {A B : Type 0} (m : Exec (Engine W) A) (f : A → Exec (Engine W) B)
      → Keeps IsSilent m
      → ((a : A) → Keeps IsSilent (f a))
      → Keeps IsSilent (m >>= f)
  bind-IsSilent = Keeps-bind silence

  lift-IsSilent : {A : Type 0} (r : Outcome A) → Keeps (IsSilent {W = W}) (lift r)
  lift-IsSilent = Keeps-lift silence

  pure-IsSilent : {A : Type 0} (a : A) → Keeps (IsSilent {W = W}) (pure a)
  pure-IsSilent = Keeps-pure silence

  ruleset silent = (
    bind-IsSilent, lift-IsSilent, pure-IsSilent, write-IsSilent, clock-IsSilent, random-IsSilent,
    list-IsSilent, describe-IsSilent, Keeps-attempt, Keeps-if,
  )

  check_retired-IsSilent : (c : Claim) → Keeps IsSilent (check_retired host id c)
  unfolding check_retired
  check_retired-IsSilent fresh = search silent
  check_retired-IsSilent (again operations) = bind-IsSilent _ _ list-IsSilent (λ _.
      bind-IsSilent _ _ (lift-IsSilent _)
        (λ _. bind-IsSilent _ _ (Keeps-attempt _ (describe-IsSilent id)) (λ _. lift-IsSilent _)))

  accept_create-IsSilent :
      (settings : Settings) (q : Request) (c : Claim)
      → Keeps IsSilent (accept_create host id settings q c)
  unfolding accept_create
  accept_create-IsSilent settings q c = bind-IsSilent _ _ (check_retired-IsSilent c) (λ _.
      bind-IsSilent _ _ (lift-IsSilent _) (λ _. bind-IsSilent _ _ list-IsSilent (λ _.
        bind-IsSilent _ _ (lift-IsSilent _) (λ _.
          bind-IsSilent _ _ random-IsSilent
            (λ _. bind-IsSilent _ _ clock-IsSilent (λ _. write-IsSilent _))))))

  accept_as-IsSilent :
      (settings : Settings) (q : Request) (r : Option Record) (creates : Bool)
      → Keeps IsSilent (accept_as host id settings q r creates)
  unfolding accept_as
  accept_as-IsSilent settings q r true =
      bind-IsSilent _ _ (lift-IsSilent _) (accept_create-IsSilent settings q)
  accept_as-IsSilent settings q r false =
      bind-IsSilent _ _ (lift-IsSilent _) (λ _. pure-IsSilent tt)

  accept-IsSilent :
      (settings : Settings) (q : Request) (r : Option Record)
      → Keeps IsSilent (accept host id settings q r)
  unfolding accept
  accept-IsSilent settings q r = accept_as-IsSilent settings q r (verb_beq q.key.verb create)

  journal-IsSilent : (q : Request) → Keeps IsSilent (journal host id q)
  unfolding journal
  journal-IsSilent q =
      bind-IsSilent _ _ clock-IsSilent
        (λ _. bind-IsSilent _ _ (write-IsSilent _) (λ _. write-IsSilent _))

  pub enter-IsSilent :
      (settings : Settings) (q : Request) (r : Option Record) (o : Option (Cloud × Operation))
      → Keeps IsSilent (enter host id settings q r o)
  unfolding enter
  enter-IsSilent settings q r (some (c, o)) = lift-IsSilent _
  enter-IsSilent settings q r none =
      bind-IsSilent _ _ (accept-IsSilent settings q r)
        (λ _. bind-IsSilent _ _ (journal-IsSilent q) (λ _. pure-IsSilent none))
