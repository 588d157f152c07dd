-- ===== src/Lifecycle/Steps.antt =====
-- The steps that commands are built from, under an unanswered entry of the journal.
use hyperwake_core.Prelude.{
  ℕ, zero, suc, String, ◌≡◌, refl, Bool, Option, none, some, string_eq, Bool-cases, inl, inr,
}
use hyperwake_core.Json.{Json}
use hyperwake_core.Exec.{
  Failure, Outcome, ok, thrown, Exec, pure, throw, lift, attempt, continue, ◌>>=◌,
}
use hyperwake_core.Exec.Keeps.{
  IsPreorder, Keeps, Keeps-pure, Keeps-throw, Keeps-lift, Keeps-gets, Keeps-attempt, Keeps-if,
  Keeps-bind,
}
use hyperwake_core.Records.{OperationKey, key_eq, Record, DesiredState, Reply, refused}
use hyperwake_core.Registry
use hyperwake_core.Registry.{Registry}
use hyperwake_core.Guest.{desire}
use hyperwake_core.Engine
use hyperwake_core.Engine.{Engine, Host, Sent, Call, registry_of}
use hyperwake_core.Runtime.{after_force_stop, observed, poll_step, poll, settle}
use hyperwake_core.Journal.{is_refusal}
use hyperwake_core.Lifecycle.{
  assign, update, flush, revoke, reread, describe, conclude, after_launch,
}
use hyperwake_core.Lifecycle.Entry.{
  IsEntered, is_entered, entered_at, KeepsEntry, machine_of, flush-IsEntered, modify-IsEntered,
  update-IsEntered, desire-keeps, tombstone-keeps, prepare_boot-keeps,
}
use hyperwake_core.Lifecycle.Calls.{
  Works, Works-preorder, Grown, Grown-same, Grown-trans, IsIntended, describe-Works, list-Works,
  delay-Works, random-Works, clock-Works, send-Works, write-Works,
}

module _ {W : Type 0} (host : Host W) (id : String) (key : OperationKey) where
  abbrev pub ord : IsPreorder (Works host id key)
  ord = Works-preorder host id key

  pub bind-Works :
      {A B : Type 0} (m : Exec (Engine W) A) (f : A → Exec (Engine W) B)
      → Keeps (Works host id key) m
      → ((a : A) → Keeps (Works host id key) (f a))
      → Keeps (Works host id key) (m >>= f)
  bind-Works = Keeps-bind ord

  pub lift-Works : {A : Type 0} (r : Outcome A) → Keeps (Works host id key) (lift r)
  lift-Works = Keeps-lift ord

  pub pure-Works : {A : Type 0} (a : A) → Keeps (Works host id key) (pure a)
  pure-Works = Keeps-pure ord

  pub throw-Works : {A : Type 0} (e : Failure) → Keeps (Works host id key) (throw {A = A} e)
  throw-Works = Keeps-throw ord

  pub assign-Works :
      (f : Record → Record) → KeepsEntry id key f → Keeps (Works host id key) (assign id f)
  assign-Works f k =
      write-Works host id key (Registry.modify id f) (λ r. modify-IsEntered id key f r k)

  pub update-Works :
      (f : Record → Record) → KeepsEntry id key f → Keeps (Works host id key) (update id f)
  update-Works f k =
      write-Works host id key (Registry.update id f) (λ r. update-IsEntered id key f r k)

  pub flush-Works : Keeps (Works host id key) flush
  flush-Works = write-Works host id key Registry.flush (flush-IsEntered id key)

  pub reread-Works : Keeps (Works host id key) (reread id)
  unfolding reread
  reread-Works = record { at = λ e. ord.here e }

  pub revoke-Works : Keeps (Works host id key) (revoke id)
  unfolding revoke
  revoke-Works = record { at = λ e. record { entry = λ h. h; calls = λ h. Grown-same e.sent } }

  pub ruleset works = (
    bind-Works, lift-Works, pure-Works, throw-Works, assign-Works, update-Works, flush-Works,
    reread-Works, revoke-Works, desire-keeps, tombstone-keeps, prepare_boot-keeps, describe-Works,
    list-Works, delay-Works, random-Works, clock-Works, send-Works, Keeps-attempt, Keeps-if,
  )

  pub poll_step-Works :
      (every : ℕ) (verdict : Option (Outcome (Unit {0}))) (again : Exec (Engine W) (Unit {0}))
      → Keeps (Works host id key) again
      → Keeps (Works host id key) (poll_step host every verdict again)
  unfolding poll_step
  poll_step-Works every (some verdict) again k = lift-Works verdict
  poll_step-Works every none again k =
      bind-Works (Engine.delay host every) (λ _. again) (delay-Works host id key every) (λ _. k)

  pub poll-Works :
      (strict : Bool) (every n : ℕ) → Keeps (Works host id key) (poll host id strict every n)
  unfolding poll
  poll-Works strict every zero = search works
  poll-Works strict every (suc n) =
      bind-Works (attempt (Engine.describe host id))
        (λ seen. poll_step host every (observed strict seen) (poll host id strict every n))
        (Keeps-attempt (Engine.describe host id) (describe-Works host id key id))
        (λ seen.
          poll_step-Works every (observed strict seen) (poll host id strict every n)
            (poll-Works strict every n))

  pub settle-Works : (strict : Bool) → Keeps (Works host id key) (settle host id strict)
  unfolding settle
  settle-Works strict =
      bind-Works (attempt (Engine.send host (Call.force_stop id))) _
        (Keeps-attempt _ (send-Works host id key (Call.force_stop id) refl))
        (λ stopped.
          bind-Works (lift (after_force_stop strict stopped)) _ (lift-Works _)
            (λ _. poll-Works strict 500 40))

  pub description-Works :
      (settling : Option OperationKey) → Keeps (Works host id key) (describe host id settling)
  unfolding describe
  description-Works settling = search works

  -- The command's entry stands as long as it is unanswered; then no call follows.
  abbrev pub Ends : Exec (Engine W) (Option Reply) → Type 0
  Ends m =
      (s : Engine W)
      → IsEntered id key (registry_of s)
      → Grown (IsIntended id key) s.sent (m s).1.sent
        × ((m s).0 ≡ ok none → IsEntered id key (registry_of (m s).1))

  pub Works-Ends : (m : Exec (Engine W) (Option Reply)) → Keeps (Works host id key) m → Ends m
  Works-Ends m k s h = ((k.at s).calls h, λ _. (k.at s).entry h)

  pub bind-Ends :
      {A : Type 0} (m : Exec (Engine W) A) (f : A → Exec (Engine W) (Option Reply))
      → Keeps (Works host id key) m
      → ((a : A) → Ends (f a))
      → Ends (m >>= f)
  unfolding ◌>>=◌
  bind-Ends {A} m f km kf s h = ended (m s).0 (m s).1 ((km.at s).calls h) ((km.at s).entry h)
    where
      ended :
          (r : Outcome A) (t : Engine W)
          → Grown (IsIntended id key) s.sent t.sent
          → IsEntered id key (registry_of t)
          → Grown (IsIntended id key) s.sent (continue r f t).1.sent
            × ((continue r f t).0 ≡ ok none → IsEntered id key (registry_of (continue r f t).1))
      ended (ok a) t g e = let (g', e') = kf a t e in (Grown-trans s.sent t.sent _ g g', e')
      ended (thrown x) t g e = (g, λ _. e)

  pub conclude-Ends : (reply : Reply) → Ends (conclude host id key reply >>= λ r. pure (some r))
  unfolding conclude ◌>>=◌ Engine.write
  conclude-Ends reply s h = (Grown-same s.sent, λ impossible. absurd (cc))

  pub after_launch-Ends : (launched : Outcome Json) → Ends (after_launch host id key launched)
  unfolding after_launch
  after_launch-Ends (ok _) = Works-Ends (pure none) (pure-Works none)
  after_launch-Ends (thrown e) = elim (Bool-cases (is_refusal e)) [
    | inl refusal ↦ rw refusal (
        bind-Ends (assign id (desire DesiredState.stopped)) _
          (assign-Works (desire DesiredState.stopped) (desire-keeps id key DesiredState.stopped))
          (λ _. conclude-Ends (record { status = 422; payload = refused e.message })))
    | inr failure ↦ rw failure (Works-Ends (throw e) (throw-Works e))
  ]
