-- ===== src/Lifecycle/Order.antt =====
-- The order of a command: its intent first, then the calls of the runtime.
use mathlib.Core.Option
use mathlib.Core.Path.{subst}
use hyperwake_core.Prelude.{
  ℕ, String, ◌≡◌, refl, Bool, true, false, Option, none, some, lookup, string_eq,
  lookup-insert_self, is_some, arith, eq_iff,
}
use hyperwake_core.Json.{Body}
use hyperwake_core.Exec.{Outcome, ok, thrown, Exec, pure, lift, continue, ◌>>=◌}
use hyperwake_core.Exec.Keeps.{}
use hyperwake_core.Records.{
  Verb, create, verb_beq, OperationKey, key_eq, Operation, Cloud, Record, Reply,
}
use hyperwake_core.Registry
use hyperwake_core.Registry.{Registry}
use hyperwake_core.Registry.Laws.{get-modify, get-put}
use hyperwake_core.Engine
use hyperwake_core.Engine.{Engine, Host, registry_of, await, meanwhile, clock, random, list}
use hyperwake_core.Request.{Request, check_request}
use hyperwake_core.Journal.{
  Settings, cloud_of, operation_in, resume, admit, claim, Claim, intend, managed_record,
}
use hyperwake_core.Lifecycle.{
  current, journal, accept_create, accept_as, accept, enter, proceed, mutate, check_incarnation,
}
use hyperwake_core.Lifecycle.Entry.{IsEntered, is_entered, entered_at}
use hyperwake_core.Lifecycle.Calls.{IsIntended, Grown, Grown-same}
use hyperwake_core.Lifecycle.Intent.{proceed-Calls}
use hyperwake_core.Lifecycle.Entering.{enter-IsSilent}

-- If `m` returns, `P` holds of the state.
abbrev pub Yields : {S A : Type 0} → (S → Type 0) → Exec S A → Type 0
Yields {S} {A} P m = (s : S) (a : A) → (m s).0 ≡ ok a → P (m s).1

pub bind-Yields :
    {S A B : Type 0} (P : S → Type 0) (m : Exec S A) (f : A → Exec S B)
    → ((a : A) → Yields P (f a))
    → Yields P (m >>= f)
unfolding ◌>>=◌
bind-Yields {S} {A} {B} P m f y s b h = after (m s).0 (m s).1 h
  where
    after : (r : Outcome A) (t : S) → (continue r f t).0 ≡ ok b → P (continue r f t).1
    after (ok a) t e = y a t b e
    after (thrown x) t e = absurd (cc)

module _ {W : Type 0} (host : Host W) (id : String) where
  -- The machine has a record of the control plane's.
  abbrev HasCloud : Engine W → Type 0
  HasCloud e = is_some (cloud_of (current id e)) ≡ true

  stored-HasCloud :
      (settings : Settings) (q : Request) (c : Claim) (token : String) (now : ℕ) (s : Engine W)
      → HasCloud
          (Engine.write (λ r. Registry.put r id (managed_record settings id now token q c)) s).1
  unfolding Engine.write managed_record
  stored-HasCloud settings q c token now s = rw (get-put, (eq_iff id id).1 refl)

  accept_create-HasCloud :
      (settings : Settings) (q : Request) (c : Claim)
      → Yields HasCloud (accept_create host id settings q c)
  unfolding accept_create
  accept_create-HasCloud settings q c = bind-Yields HasCloud _ _ (λ _.
      bind-Yields HasCloud _ _ (λ _. bind-Yields HasCloud _ _ (λ _. bind-Yields HasCloud _ _ (λ _.
        bind-Yields HasCloud _ _
          (λ token. bind-Yields HasCloud _ _ (λ now. put-HasCloud token now))))))
    where
      put-HasCloud :
          (token : String) (now : ℕ)
          → Yields HasCloud
              (Engine.write (λ r. Registry.put r id (managed_record settings id now token q c)))
      put-HasCloud token now s a h = stored-HasCloud settings q c token now s

  admit-cloud :
      (q : Request) (r : Option Record) {c : Cloud} → admit q r ≡ ok c → cloud_of r ≡ some c
  unfolding admit
  admit-cloud q r h = ground arith

  intended-entered :
      (now : ℕ) (q : Request) (c : Option Cloud) (r : Record)
      → r.cloud ≡ c
      → is_some c ≡ true
      → is_entered q.key (intend now q r).cloud ≡ true
  unfolding intend is_entered
  intended-entered now q none r e h = cc
  intended-entered now q (some c) r e h = rw e (rw (lookup-insert_self, is_entered) refl)

  intend-entered :
      (now : ℕ) (q : Request) (o : Option Record)
      → is_some (cloud_of o) ≡ true
      → entered_at q.key (Option.map (intend now q) o) ≡ true
  intend-entered now q none h = cc
  intend-entered now q (some r) h = intended-entered now q r.cloud r refl h

  modify-entered :
      (now : ℕ) (q : Request) (r : Registry)
      → is_some (cloud_of (Registry.get r id)) ≡ true
      → entered_at q.key (Registry.get (Registry.modify id (intend now q) r) id) ≡ true
  modify-entered now q r h =
      rw (get-modify r id (intend now q) id, (eq_iff id id).1 refl)
        (intend-entered now q (Registry.get r id) h)

  journal-IsEntered :
      (q : Request) (s : Engine W)
      → HasCloud s
      → IsEntered id q.key (registry_of (journal host id q s).1)
  unfolding journal ◌>>=◌ Engine.write clock Registry.flush Registry.get
  journal-IsEntered q s h =
      let e = modify-entered (host.now s.world) q (registry_of s) h in
      record { in_memory = e; on_disk = e }

  resume-pending :
      (q : Request) (c : Cloud) (o : Operation) → resume q c o ≡ ok none → o.result ≡ none
  unfolding resume
  resume-pending q c o h = ground arith

  resume-entered :
      (q : Request) (k : Option Cloud) (c : Cloud) (o : Operation)
      → operation_in q.key k ≡ some (c, o)
      → resume q c o ≡ ok none
      → is_entered q.key k ≡ true
  unfolding operation_in is_entered
  resume-entered q none c o found h = cc
  resume-entered q (some k) c o found h = ground (arith, resume-pending q c o h)

  admitted-HasCloud :
      (q : Request) (s : Engine W) (r : Outcome Cloud)
      → admit q (current id s) ≡ r
      → (continue r (λ _. pure tt) s).0 ≡ ok tt
      → HasCloud (continue r (λ _. pure tt) s).1
  unfolding pure
  admitted-HasCloud q s (ok c) e h = rw (admit-cloud q (current id s) e)
  admitted-HasCloud q s (thrown x) e h = cc

  accept_as-HasCloud :
      (settings : Settings) (q : Request) (s : Engine W) (creates : Bool)
      → (accept_as host id settings q (current id s) creates s).0 ≡ ok tt
      → HasCloud (accept_as host id settings q (current id s) creates s).1
  unfolding accept_as
  accept_as-HasCloud settings q s true h =
      bind-Yields HasCloud (lift (claim settings q (current id s))) _
        (λ c. accept_create-HasCloud settings q c) s tt h
  accept_as-HasCloud settings q s false h =
      unfold ◌>>=◌ in admitted-HasCloud q s (admit q (current id s)) refl h

  journaled :
      (q : Request) (t : Engine W)
      → (journal host id q >>= λ _. pure {A = Option Reply} none) t
        ≡ (ok none, (journal host id q t).1)
  unfolding ◌>>=◌ journal clock Engine.write
  journaled q t = refl

  IsEntered-after :
      (q : Request) (r : Outcome (Unit {0})) (t : Engine W)
      → (r ≡ ok tt → HasCloud t)
      → (continue r (λ _. journal host id q >>= λ _. pure {A = Option Reply} none) t).0 ≡ ok none
      → IsEntered id q.key (
          registry_of
            (continue r (λ _. journal host id q >>= λ _. pure {A = Option Reply} none) t).1)
  IsEntered-after q (ok a) t k h = rw (journaled q t) (journal-IsEntered q t (k refl))
  IsEntered-after q (thrown x) t k h = absurd (cc)

  -- What is entered and unanswered in memory is so in the file.
  abbrev pub IsSaved : Engine W → Type 0
  IsSaved s =
      (key : OperationKey)
      → entered_at key (current id s) ≡ true
      → entered_at key (lookup id (registry_of s).durable) ≡ true

  -- A command that goes on to the runtime work has its entry in memory and on disk.
  enter-IsEntered :
      (settings : Settings) (q : Request) (s : Engine W) (o : Option (Cloud × Operation))
      → IsSaved s
      → operation_in q.key (cloud_of (current id s)) ≡ o
      → (enter host id settings q (current id s) o s).0 ≡ ok none
      → IsEntered id q.key (registry_of (enter host id settings q (current id s) o s).1)
  unfolding enter accept lift Registry.get
  enter-IsEntered settings q s none saved e h =
      unfold ◌>>=◌ in
      IsEntered-after q _ _ (accept_as-HasCloud settings q s (verb_beq q.key.verb create)) h
  enter-IsEntered settings q s (some (c, o)) saved e h =
      let entered = resume-entered q (cloud_of (current id s)) c o e h in
      record { in_memory = entered; on_disk = saved q.key entered }

  -- The rest of a command, from the answer of `enter` on.
  proceed_from :
      (settings : Settings) (q : Request) (r : Outcome (Option Reply)) (t : Engine W)
      → (r ≡ ok none → IsEntered id q.key (registry_of t))
      → Grown (IsIntended id q.key) t.sent (continue r (proceed host id settings q) t).1.sent
  proceed_from settings q (ok none) t k = proceed-Calls host id settings q t (k refl)
  proceed_from settings q (ok (some reply)) t k = unfold proceed pure in Grown-same t.sent
  proceed_from settings q (thrown x) t k = Grown-same t.sent

  checked_from :
      (settings : Settings) (q : Request) (s : Engine W) (r : Outcome (Unit {0}))
      → IsSaved s
      → Grown
          (IsIntended id q.key)
          s.sent
          (continue r
            (λ _.
              enter host id settings q (current id s) (operation_in q.key (cloud_of (current id s)))
              >>= proceed host id settings q)
            s).1.sent
  unfolding ◌>>=◌
  checked_from settings q s (thrown x) saved = Grown-same s.sent
  checked_from settings q s (ok _) saved =
      let o = operation_in q.key (cloud_of (current id s)) in
      let entered = enter host id settings q (current id s) o s in
      let silent = ((enter-IsSilent host id settings q (current id s) o).at s).same in
      subst
        (λ l.
          Grown (IsIntended id q.key) l
            (continue entered.0 (proceed host id settings q) entered.1).1.sent)
        silent
        (proceed_from settings q entered.0 entered.1 (enter-IsEntered settings q s o saved refl))

  -- Every call of the runtime that a lifecycle command makes, on whatever path and whatever the
  -- runtime answers, is about the command's own machine, and is made while the registry file holds
  -- the command's entry in the journal of that machine, unanswered: a crash at the call, or after
  -- it, finds the intent on disk. (The state before it is one where what is pending in memory is
  -- pending in the file.)
  pub mutate-IsIntended :
      (settings : Settings) (verb : Verb) (body : Body) (s : Engine W) (q : Request)
      → IsSaved s
      → check_request (host.now s.world) verb body ≡ ok q
      → Grown (IsIntended id q.key) s.sent (mutate host id settings verb body s).1.sent
  unfolding mutate ◌>>=◌ clock
  mutate-IsIntended settings verb body s q saved valid =
      rw valid (checked_from settings q s (check_incarnation host id q (current id s)) saved)
