-- ===== src/Orderly/Entries.antt =====
-- A command enters the journal of its machine when nothing is pending there, and so `HostApi.mutate`
-- keeps the journals in order.
use hyperwake_core.Prelude.{
  ℕ, String, ◌≡◌, refl, Bool, true, false, Option, none, some, any, arith, eq_iff, string_eq,
}
use hyperwake_core.Json.{Body}
use hyperwake_core.Exec.{Outcome, ok, thrown, pure, lift, gets, continue, ◌>>=◌}
use hyperwake_core.Exec.Keeps.{Keeps-attempt}
use hyperwake_core.Records.{Verb, create, verb_beq, Operation, Cloud, Record, Reply}
use hyperwake_core.Registry
use hyperwake_core.Registry.{Registry}
use hyperwake_core.Registry.Laws.{get-put}
use hyperwake_core.Engine
use hyperwake_core.Engine.{Engine, Host, registry_of, clock, random, list}
use hyperwake_core.Engine.Upholds.{write-Upholds}
use hyperwake_core.Request.{Request, check_request}
use hyperwake_core.Journal.{
  Settings, cloud_of, operation_in, is_unsettled, admit, claim, Claim, fresh, again, operations_of,
  managed_record,
}
use hyperwake_core.Lifecycle.{
  current, journal, check_retired, accept_create, accept_as, accept, enter, proceed,
  check_incarnation, mutate,
}
use hyperwake_core.Lifecycle.Order.{Yields, bind-Yields}
use hyperwake_core.Orderly.{IsOrderly, IsIdle, settled-IsIdle}
use hyperwake_core.Orderly.Writes.{put-IsOrderly, intend-IsOrderly}
use hyperwake_core.Orderly.Commands.{
  Orders, bind-Orders, lift-Orders, guard-Orders, guard-Yields, describe-Orders, list-Orders,
  clock-Orders, random-Orders, pure-Orders, proceed-Orders,
}

module _ {W : Type 0} (host : Host W) (id : String) where
  -- Nothing is pending on the machine.
  abbrev pub Rests : Engine W → Type 0
  Rests s = IsIdle (cloud_of (current id s))

  admitted :
      (q : Request) (r : Option Record) {c : Cloud}
      → admit q r ≡ ok c
      → (cloud_of r ≡ some c) × (any is_unsettled c.operations ≡ false)
  unfolding admit
  admitted q r h = ground arith

  pub admit-IsIdle :
      (q : Request) (r : Option Record) {c : Cloud} → admit q r ≡ ok c → IsIdle (cloud_of r)
  admit-IsIdle q r {c} h =
      let (there, settled) = admitted q r h in rw there (settled-IsIdle c settled)

  managed-IsIdle :
      (settings : Settings) (now : ℕ) (token : String) (q : Request) (c : Claim)
      → any is_unsettled (operations_of c) ≡ false
      → IsIdle (managed_record settings id now token q c).cloud
  unfolding managed_record
  managed-IsIdle settings now token q c settled = settled-IsIdle _ settled

  check_retired-Orders : (c : Claim) → Orders (check_retired host id c)
  unfolding check_retired
  check_retired-Orders fresh = pure-Orders host id tt
  check_retired-Orders (again operations) = bind-Orders _ _ (list-Orders host id) (λ _.
      bind-Orders _ _ (lift-Orders _)
        (λ _. bind-Orders _ _ (Keeps-attempt _ (describe-Orders host id)) (λ _. lift-Orders _)))

  accept_create-Orders :
      (settings : Settings) (q : Request) (c : Claim) → Orders (accept_create host id settings q c)
  unfolding accept_create
  accept_create-Orders settings q c = bind-Orders _ _ (check_retired-Orders c) (λ _.
      guard-Orders _ _ _ _ (λ settled. bind-Orders _ _ (list-Orders host id) (λ _.
        bind-Orders _ _ (lift-Orders _) (λ _. bind-Orders _ _ (random-Orders host id) (λ token.
          bind-Orders _ _ (clock-Orders host id) (λ now.
            write-Upholds IsOrderly _
              (put-IsOrderly id _ (managed-IsIdle settings now token q c settled))))))))

  stored-Rests :
      (settings : Settings) (q : Request) (c : Claim) (token : String) (now : ℕ)
      → any is_unsettled (operations_of c) ≡ false
      → Yields Rests
          (Engine.write {W = W} (λ r. Registry.put r id (managed_record settings id now token q c)))
  unfolding Engine.write
  stored-Rests settings q c token now settled s a h =
      rw (get-put, (eq_iff id id).1 refl) (managed-IsIdle settings now token q c settled)

  accept_create-Rests :
      (settings : Settings) (q : Request) (c : Claim)
      → Yields Rests (accept_create host id settings q c)
  unfolding accept_create
  accept_create-Rests settings q c = bind-Yields Rests _ _ (λ _.
      guard-Yields Rests _ _ _ _ (λ settled. bind-Yields Rests _ _ (λ _. bind-Yields Rests _ _ (λ _.
        bind-Yields Rests _ _
          (λ token. bind-Yields Rests _ _ (λ now. stored-Rests settings q c token now settled))))))

  accept_as-Orders :
      (settings : Settings) (q : Request) (r : Option Record) (creates : Bool)
      → Orders (accept_as host id settings q r creates)
  unfolding accept_as
  accept_as-Orders settings q r true =
      bind-Orders _ _ (lift-Orders _) (accept_create-Orders settings q)
  accept_as-Orders settings q r false =
      bind-Orders _ _ (lift-Orders _) (λ _. pure-Orders host id tt)

  admitted-Rests :
      (q : Request) (s : Engine W) (r : Outcome Cloud)
      → admit q (current id s) ≡ r
      → (continue r (λ _. pure tt) s).0 ≡ ok tt
      → Rests (continue r (λ _. pure tt) s).1
  unfolding pure
  admitted-Rests q s (ok c) e h = admit-IsIdle q (current id s) e
  admitted-Rests q s (thrown x) e h = absurd (cc)

  accept_as-Rests :
      (settings : Settings) (q : Request) (s : Engine W) (creates : Bool)
      → (accept_as host id settings q (current id s) creates s).0 ≡ ok tt
      → Rests (accept_as host id settings q (current id s) creates s).1
  unfolding accept_as
  accept_as-Rests settings q s true h =
      bind-Yields Rests (lift (claim settings q (current id s))) _ (accept_create-Rests settings q)
        s tt h
  accept_as-Rests settings q s false h =
      unfold ◌>>=◌ lift in admitted-Rests q s (admit q (current id s)) refl h

  -- The entry of a command whose machine rests.
  journal-IsOrderly :
      (q : Request) (s : Engine W)
      → Rests s
      → IsOrderly (registry_of s)
      → IsOrderly (registry_of (journal host id q s).1)
  unfolding journal ◌>>=◌ Engine.write clock
  journal-IsOrderly q s = intend-IsOrderly id (host.now s.world) q (registry_of s)

  journaled_pure :
      (q : Request) (t : Engine W)
      → (journal host id q >>= λ _. pure {A = Option Reply} none) t
        ≡ (ok none, (journal host id q t).1)
  unfolding ◌>>=◌ journal clock Engine.write
  journaled_pure q t = refl

  journaled :
      (q : Request) (r : Outcome (Unit {0})) (t : Engine W)
      → (r ≡ ok tt → Rests t)
      → IsOrderly (registry_of t)
      → IsOrderly (
          registry_of
            (continue r (λ _. journal host id q >>= λ _. pure {A = Option Reply} none) t).1)
  journaled q (ok _) t rests h = rw (journaled_pure q t) (journal-IsOrderly q t (rests refl) h)
  journaled q (thrown e) t rests h = h

  enter-IsOrderly :
      (settings : Settings) (q : Request) (o : Option (Cloud × Operation)) (s : Engine W)
      → IsOrderly (registry_of s)
      → IsOrderly (registry_of (enter host id settings q (current id s) o s).1)
  unfolding enter accept lift
  enter-IsOrderly settings q (some (c, o)) s h = h
  enter-IsOrderly settings q none s h =
      let creates = verb_beq q.key.verb create in
      unfold ◌>>=◌ in
      journaled q _ _ (accept_as-Rests settings q s creates)
        (((accept_as-Orders settings q (current id s) creates).at s).kept h)

  proceed_from :
      (settings : Settings) (q : Request) (r : Outcome (Option Reply)) (t : Engine W)
      → IsOrderly (registry_of t)
      → IsOrderly (registry_of (continue r (proceed host id settings q) t).1)
  proceed_from settings q (ok early) t h = ((proceed-Orders host id settings q early).at t).kept h
  proceed_from settings q (thrown e) t h = h

  checked-IsOrderly :
      (settings : Settings) (q : Request) (r : Outcome (Unit {0})) (s : Engine W)
      → IsOrderly (registry_of s)
      → IsOrderly (
          registry_of
            (continue r
              (λ _.
                enter host id settings q
                  (current id s)
                  (operation_in q.key (cloud_of (current id s)))
                >>= proceed host id settings q)
              s).1)
  checked-IsOrderly settings q (thrown e) s h = h
  checked-IsOrderly settings q (ok _) s h =
      let o = operation_in q.key (cloud_of (current id s)) in
      let entered = enter host id settings q (current id s) o s in
      unfold ◌>>=◌ in proceed_from settings q entered.0 entered.1 (enter-IsOrderly settings q o s h)

  valid_from :
      (settings : Settings) (r : Outcome Request) (s : Engine W)
      → IsOrderly (registry_of s)
      → IsOrderly (
          registry_of
            (continue r
              (λ q. gets (current id) >>= λ x. lift (check_incarnation host id q x) >>= λ _.
                enter host id settings q x (operation_in q.key (cloud_of x))
                >>= proceed host id settings q)
              s).1)
  unfolding ◌>>=◌
  valid_from settings (ok q) s h =
      checked-IsOrderly settings q (check_incarnation host id q (current id s)) s h
  valid_from settings (thrown e) s h = h

  -- The journals are in order after every lifecycle command if they were before it, whatever the
  -- command, whatever the runtime answers, and whatever guests send while it works.
  pub mutate-IsOrderly :
      (settings : Settings) (verb : Verb) (body : Body) (s : Engine W)
      → IsOrderly (registry_of s)
      → IsOrderly (registry_of (mutate host id settings verb body s).1)
  unfolding mutate ◌>>=◌ clock
  mutate-IsOrderly settings verb body s h =
      valid_from settings (check_request (host.now s.world) verb body) s h
