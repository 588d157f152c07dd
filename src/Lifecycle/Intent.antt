-- ===== src/Lifecycle/Intent.antt =====
-- The runtime work of a command, under its unanswered entry of the journal.
use hyperwake_core.Prelude.{String, ◌≡◌, refl, ap, true, Option, none, some, string_eq}
use hyperwake_core.Exec.{Outcome, ok, thrown, Exec, pure, continue, ◌>>=◌}
use hyperwake_core.Exec.Keeps.{Keeps, Keeps-attempt, Keeps-if}
use hyperwake_core.Records.{
  Verb, create, start, shutdown, force_stop, destroy, verb_beq, key_eq, DesiredState, Reply,
}
use hyperwake_core.Guest.{desire}
use hyperwake_core.Engine
use hyperwake_core.Engine.{Engine, Host, Sent, Call, registry_of}
use hyperwake_core.Request.{Request}
use hyperwake_core.Journal.{Settings, prepare_boot, tombstone}
use hyperwake_core.Lifecycle.{
  update, revoke, conclude, work_create, work_start, work, report, finish, proceed,
}
use hyperwake_core.Lifecycle.Entry.{IsEntered, desire-keeps, tombstone-keeps, prepare_boot-keeps}
use hyperwake_core.Lifecycle.Calls.{
  Works, Grown, Grown-same, Grown-trans, IsIntended, describe-Works, clock-Works, send-Works,
}
use hyperwake_core.Lifecycle.Steps.{
  bind-Works, lift-Works, pure-Works, assign-Works, update-Works, flush-Works, reread-Works,
  revoke-Works, settle-Works, description-Works, Ends, Works-Ends, bind-Ends, after_launch-Ends,
}

module _ {W : Type 0} (host : Host W) (id : String) (settings : Settings) (q : Request) where
  work_create-Ends : Ends host id q.key (work_create host id settings)
  unfolding work_create
  work_create-Ends = Works-Ends host id q.key _ (
      bind-Works host id q.key _ _ (reread-Works host id q.key) (λ (r, c).
        bind-Works host id q.key _ _ (lift-Works host id q.key _) (λ _.
          bind-Works host id q.key _ _ (send-Works host id q.key _ refl)
            (λ _. pure-Works host id q.key none))))

  work_start-Ends : Ends host id q.key (work_start host id q.key)
  unfolding work_start
  work_start-Ends = bind-Ends host id q.key _ _ (describe-Works host id q.key id) (λ d.
      bind-Ends host id q.key _ _ (lift-Works host id q.key _) (λ _.
        bind-Ends host id q.key _ _ (reread-Works host id q.key) (λ (r, c).
          bind-Ends host id q.key _ _ (clock-Works host id q.key) (λ now.
            bind-Ends host id q.key _ _
              (Keeps-if _ _ _
                (assign-Works host id q.key (prepare_boot now q.key)
                  (prepare_boot-keeps id q.key now))
                (pure-Works host id q.key tt))
              (λ _.
                bind-Ends host id q.key _ _
                  (assign-Works host id q.key (desire DesiredState.running)
                    (desire-keeps id q.key DesiredState.running))
                  (λ _. bind-Ends host id q.key _ _ (flush-Works host id q.key) (λ _.
                    bind-Ends host id q.key _ _ (Keeps-attempt _ (send-Works host id q.key _ refl))
                      (λ launched. after_launch-Ends host id q.key launched))))))))

  stop-Works : Keeps (Works host id q.key) (update id (desire DesiredState.stopped))
  stop-Works =
      update-Works host id q.key (desire DesiredState.stopped)
        (desire-keeps id q.key DesiredState.stopped)

  -- The runtime work of any command.
  pub work-Ends : (verb : Verb) → Ends host id q.key (work host id settings q verb)
  unfolding work
  work-Ends create = work_create-Ends
  work-Ends start = work_start-Ends
  work-Ends shutdown = bind-Ends host id q.key _ _ stop-Works (λ _.
      bind-Ends host id q.key _ _ (send-Works host id q.key _ refl)
        (λ _. Works-Ends host id q.key _ (pure-Works host id q.key none)))
  work-Ends force_stop = bind-Ends host id q.key _ _ stop-Works (λ _.
      bind-Ends host id q.key _ _ (send-Works host id q.key _ refl)
        (λ _. Works-Ends host id q.key _ (pure-Works host id q.key none)))
  work-Ends _ = bind-Ends host id q.key _ _ stop-Works (λ _.
      bind-Ends host id q.key _ _ (settle-Works host id q.key true) (λ _.
        bind-Ends host id q.key _ _ (send-Works host id q.key _ refl) (λ _.
          bind-Ends host id q.key _ _
            (assign-Works host id q.key tombstone (tombstone-keeps id q.key))
            (λ _. Works-Ends host id q.key _ (pure-Works host id q.key none)))))

  report-Works : (verb : Verb) → Keeps (Works host id q.key) (report host id q verb)
  unfolding report
  report-Works destroy = pure-Works host id q.key _
  report-Works create =
      bind-Works host id q.key _ _ (description-Works host id q.key (some q.key))
        (λ _. pure-Works host id q.key _)
  report-Works _ =
      bind-Works host id q.key _ _ (description-Works host id q.key (some q.key))
        (λ _. pure-Works host id q.key _)

  -- From `s` on, `f` makes only calls that are intended.
  abbrev pub Calls : {A : Type 0} → Exec (Engine W) A → Engine W → Type 0
  Calls m s = Grown (IsIntended id q.key) s.sent (m s).1.sent

  bind-Calls :
      {A B : Type 0} (m : Exec (Engine W) A) (f : A → Exec (Engine W) B)
      → Keeps (Works host id q.key) m
      → ((a : A) (t : Engine W) → IsEntered id q.key (registry_of t) → Calls (f a) t)
      → (s : Engine W) → IsEntered id q.key (registry_of s)
      → Calls (m >>= f) s
  unfolding ◌>>=◌
  bind-Calls {A} m f km kf s h = after (m s).0 (m s).1 ((km.at s).calls h) ((km.at s).entry h)
    where
      after :
          (r : Outcome A) (t : Engine W)
          → Grown (IsIntended id q.key) s.sent t.sent
          → IsEntered id q.key (registry_of t)
          → Grown (IsIntended id q.key) s.sent (continue r f t).1.sent
      after (ok a) t g e = Grown-trans s.sent t.sent _ g (kf a t e)
      after (thrown x) t g e = g

  Ends-Calls :
      {B : Type 0} (m : Exec (Engine W) (Option Reply)) (f : Option Reply → Exec (Engine W) B)
      → Ends host id q.key m
      → ((a : Option Reply) (t : Engine W)
          → (a ≡ none → IsEntered id q.key (registry_of t))
          → Calls (f a) t)
      → (s : Engine W) → IsEntered id q.key (registry_of s)
      → Calls (m >>= f) s
  unfolding ◌>>=◌
  Ends-Calls m f em kf s h = after (m s).0 (m s).1 (em s h).0 (em s h).1
    where
      after :
          (r : Outcome (Option Reply)) (t : Engine W)
          → Grown (IsIntended id q.key) s.sent t.sent
          → (r ≡ ok none → IsEntered id q.key (registry_of t))
          → Grown (IsIntended id q.key) s.sent (continue r f t).1.sent
      after (ok a) t g e = Grown-trans s.sent t.sent _ g (kf a t (λ p. e (ap ok p)))
      after (thrown x) t g e = g

  conclude-Calls : (reply : Reply) (t : Engine W) → Calls (conclude host id q.key reply) t
  unfolding conclude ◌>>=◌ Engine.write
  conclude-Calls reply t = Grown-same t.sent

  finish-Calls :
      (early : Option Reply) (t : Engine W)
      → (early ≡ none → IsEntered id q.key (registry_of t))
      → Calls (finish host id q early) t
  unfolding finish pure
  finish-Calls (some reply) t e = Grown-same t.sent
  finish-Calls none t e =
      bind-Calls _ _ (report-Works q.key.verb) (λ payload u _. conclude-Calls _ u) t (e refl)

  -- The rest of a command whose entry stands unanswered.
  pub proceed-Calls :
      (s : Engine W)
      → IsEntered id q.key (registry_of s)
      → Calls (proceed host id settings q none) s
  unfolding proceed
  proceed-Calls =
      bind-Calls _ _
        (Keeps-if (verb_beq q.key.verb create) (pure tt) (revoke id) (pure-Works host id q.key tt)
          (revoke-Works host id q.key))
        (λ _. Ends-Calls _ _ (work-Ends q.key.verb) finish-Calls)
