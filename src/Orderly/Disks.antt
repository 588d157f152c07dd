-- ===== src/Orderly/Disks.antt =====
-- `storageOperation` keeps the journals in order.
use hyperwake_core.Prelude.{
  ℕ, String, ◌≡◌, refl, false, Option, none, some, any, arith, inl, inr, Bool-cases, if◌then◌else◌,
  string_eq,
}
use hyperwake_core.Json.{Body}
use hyperwake_core.Exec.{Outcome, ok, thrown, fail_if, Exec, pure, lift, continue, ◌>>=◌}
use hyperwake_core.Exec.Keeps.{Keeps, Keeps-if}
use hyperwake_core.Records.{Verb, restore, Operation, Cloud, Reply}
use hyperwake_core.Registry
use hyperwake_core.Registry.{Registry}
use hyperwake_core.Engine
use hyperwake_core.Engine.{
  Engine, Host, registry_of, meanwhile, await, serve_guests, send, random, clock,
}
use hyperwake_core.Engine.Upholds.{
  Upholds, IsGuestProof, bind-Upholds, lift-Upholds, pure-Upholds, describe-Upholds, random-Upholds,
  clock-Upholds,
}
use hyperwake_core.Request.{Request}
use hyperwake_core.Journal.{cloud_of, operation_in, is_unsettled, is_retired, intend}
use hyperwake_core.Lifecycle.{assign, flush, current}
use hyperwake_core.Lifecycle.Entry.{cloud-guest_request}
use hyperwake_core.Storage.{
  check_fields, check_storage, admit_storage, needs_stop, marked, alive, check_stopped, token_for,
  enter_storage, reseed, proceed_storage, chunk_operation, journalled_operation, storage_operation,
  is_chunk,
}
use hyperwake_core.Orderly.{IsOrderly, IsIdle, settled-IsIdle}
use hyperwake_core.Orderly.Patches.{marked-EntersNothing}
use hyperwake_core.Orderly.Writes.{intend_marked-IsOrderly, guest_request-IsOrderly}
use hyperwake_core.Orderly.Commands.{
  Orders, bind-Orders, lift-Orders, send-Orders, pure-Orders, reread-Orders, revoke-Orders,
  conclude-Orders,
}

module _ {W : Type 0} (host : Host W) (id : String) where
  reseed-Orders : (verb : Verb) → Orders (reseed host id verb)
  unfolding reseed
  reseed-Orders restore =
      bind-Orders _ _ (reread-Orders host id)
        (λ (r, c). bind-Orders _ _ (send-Orders host id _) (λ _. pure-Orders host id tt))
  reseed-Orders _ = pure-Orders host id tt

  proceed_storage-Orders :
      (q : Request) (body : Body) (early : Option Reply)
      → Orders (proceed_storage host id q body early)
  unfolding proceed_storage
  proceed_storage-Orders q body (some reply) = pure-Orders host id reply
  proceed_storage-Orders q body none =
      bind-Orders _ _ (Keeps-if _ _ _ (revoke-Orders host id) (pure-Orders host id tt)) (λ _.
        bind-Orders _ _ (send-Orders host id _) (λ answer.
          bind-Orders _ _ (reseed-Orders q.key.verb) (λ _. conclude-Orders host id q.key _)))

  chunk_operation-Orders : (verb : Verb) (body : Body) → Orders (chunk_operation host id verb body)
  unfolding chunk_operation
  chunk_operation-Orders verb body =
      bind-Orders _ _ (lift-Orders _)
        (λ _. bind-Orders _ _ (send-Orders host id _) (λ answer. pure-Orders host id _))

  -- In order, and nothing pending on the machine.
  abbrev IsReady : Registry → Type 0
  IsReady r = IsOrderly r × IsIdle (cloud_of (Registry.get r id))

  guests-IsReady : IsGuestProof IsReady
  guests-IsReady sha256 m g (orderly, idle) = (
    guest_request-IsOrderly sha256 m g orderly,
    λ key. rw (cloud-guest_request sha256 m g id) (idle key),
  )

  check_stopped-IsReady : (verb : Verb) → Keeps (Upholds IsReady) (check_stopped host id verb)
  unfolding check_stopped
  check_stopped-IsReady verb =
      Keeps-if (needs_stop verb) _ _
        (bind-Upholds IsReady _ _ (describe-Upholds IsReady guests-IsReady host id)
          (λ d. lift-Upholds IsReady _))
        (pure-Upholds IsReady tt)

  token_for-IsReady : (verb : Verb) → Keeps (Upholds IsReady) (token_for host id verb)
  unfolding token_for
  token_for-IsReady restore = random-Upholds IsReady guests-IsReady host
  token_for-IsReady _ = pure-Upholds IsReady ""

  -- What starts at rest ends in order.
  abbrev Settles : {A : Type 0} → Exec (Engine W) A → Type 0
  Settles m = (s : Engine W) → IsReady (registry_of s) → IsOrderly (registry_of (m s).1)

  bind-Settles :
      {A B : Type 0} (m : Exec (Engine W) A) (f : A → Exec (Engine W) B)
      → Keeps (Upholds IsReady) m
      → ((a : A) → Settles (f a))
      → Settles (m >>= f)
  unfolding ◌>>=◌
  bind-Settles {A} {B} m f k y s h = after (m s).0 (m s).1 ((k.at s).kept h)
    where
      after :
          (r : Outcome A) (t : Engine W)
          → IsReady (registry_of t)
          → IsOrderly (registry_of (continue r f t).1)
      after (ok a) t ready = y a t ready
      after (thrown e) t ready = ready.0

  written-Settles :
      (q : Request) (now : ℕ) (token : String)
      → Settles (
          assign id (intend now q) >>= λ _.
          assign id (marked q.key.verb token) >>= λ _. flush >>= λ _. pure {A = Option Reply} none)
  unfolding ◌>>=◌ Engine.write pure
  written-Settles q now token s (orderly, idle) =
      intend_marked-IsOrderly id now q (marked q.key.verb token)
        (marked-EntersNothing q.key.verb token) (registry_of s) idle orderly

  admitted_storage :
      (q : Request) (c : Cloud) → admit_storage q c ≡ ok tt → any is_unsettled c.operations ≡ false
  unfolding admit_storage
  admitted_storage q c h = ground arith

  entered_from :
      (q : Request) (r : Outcome (Unit {0})) (s : Engine W)
      → (r ≡ ok tt → IsIdle (cloud_of (current id s)))
      → IsOrderly (registry_of s)
      → IsOrderly (
          registry_of
            (continue r
              (λ _. check_stopped host id q.key.verb >>= λ _. clock host >>= λ now.
                token_for host id q.key.verb >>= λ token. assign id (intend now q) >>= λ _.
                assign id (marked q.key.verb token) >>= λ _.
                flush >>= λ _. pure {A = Option Reply} none)
              s).1)
  entered_from q (thrown e) s idle h = h
  entered_from q (ok _) s idle h =
      bind-Settles _ _ (check_stopped-IsReady q.key.verb)
        (λ _.
          bind-Settles _ _ (clock-Upholds IsReady guests-IsReady host)
            (λ now. bind-Settles _ _ (token_for-IsReady q.key.verb) (written-Settles q now)))
        s (h, idle refl)

  enter_storage-IsOrderly :
      (q : Request) (c : Cloud) (o : Option (Cloud × Operation)) (s : Engine W)
      → cloud_of (current id s) ≡ some c
      → IsOrderly (registry_of s)
      → IsOrderly (registry_of (enter_storage host id q c o s).1)
  unfolding enter_storage lift
  enter_storage-IsOrderly q c (some (c', o)) s there h = h
  enter_storage-IsOrderly q c none s there h =
      unfold ◌>>=◌ in
      entered_from q (admit_storage q c) s
        (λ admitted. rw there (settled-IsIdle c (admitted_storage q c admitted))) h

  proceeded_from :
      (q : Request) (body : Body) (r : Outcome (Option Reply)) (t : Engine W)
      → IsOrderly (registry_of t)
      → IsOrderly (registry_of (continue r (proceed_storage host id q body) t).1)
  proceeded_from q body (ok early) t h = ((proceed_storage-Orders q body early).at t).kept h
  proceeded_from q body (thrown e) t h = h

  journalled_from :
      (q : Request) (body : Body) (c : Cloud) (r : Outcome (Unit {0})) (s : Engine W)
      → cloud_of (current id s) ≡ some c
      → IsOrderly (registry_of s)
      → IsOrderly (
          registry_of
            (continue r
              (λ _.
                enter_storage host id q c (operation_in q.key (some c))
                >>= proceed_storage host id q body)
              s).1)
  journalled_from q body c (thrown e) s there h = h
  journalled_from q body c (ok _) s there h =
      let entered = enter_storage host id q c (operation_in q.key (some c)) s in
      unfold ◌>>=◌ in
      proceeded_from q body entered.0 entered.1
        (enter_storage-IsOrderly q c (operation_in q.key (some c)) s there h)

  journalled-IsOrderly :
      (c : Cloud) (verb : Verb) (body : Body) (s : Engine W)
      → cloud_of (current id s) ≡ some c
      → IsOrderly (registry_of s)
      → IsOrderly (registry_of (journalled_operation host id c verb body s).1)
  unfolding journalled_operation ◌>>=◌
  journalled-IsOrderly c verb body s there h = from (check_storage verb body)
    where
      from :
          (r : Outcome Request)
          → IsOrderly (
              registry_of
                (continue r
                  (λ q.
                    lift (
                      fail_if
                        (is_retired q.generation (some c))
                        409
                        "Operation belongs to a retired machine incarnation.")
                    >>= λ _.
                        enter_storage host id q c (operation_in q.key (some c))
                        >>= proceed_storage host id q body)
                  s).1)
      from (ok q) =
          journalled_from q body c (fail_if (is_retired q.generation (some c)) 409 _) s there h
      from (thrown e) = h

  alive-cloud : (o : Option Cloud) {c : Cloud} → alive o ≡ ok c → o ≡ some c
  unfolding alive
  alive-cloud o h = ground arith

  checked_from :
      (c : Cloud) (verb : Verb) (body : Body) (r : Outcome (Unit {0})) (s : Engine W)
      → cloud_of (current id s) ≡ some c
      → IsOrderly (registry_of s)
      → IsOrderly (
          registry_of
            (continue r
              (λ _.
                if is_chunk verb
                then chunk_operation host id verb body
                else journalled_operation host id c verb body)
              s).1)
  checked_from c verb body (thrown e) s there h = h
  checked_from c verb body (ok _) s there h = elim (Bool-cases (is_chunk verb)) [
    | inl chunk ↦ rw chunk (((chunk_operation-Orders verb body).at s).kept h)
    | inr journalled ↦ rw journalled (journalled-IsOrderly c verb body s there h)
  ]

  -- The journals are in order after every storage operation if they were before it, whatever the
  -- operation, whatever the runtime answers, and whatever guests send while it works.
  pub storage_operation-IsOrderly :
      (verb : Verb) (body : Body) (s : Engine W)
      → IsOrderly (registry_of s)
      → IsOrderly (registry_of (storage_operation host id verb body s).1)
  unfolding storage_operation ◌>>=◌
  storage_operation-IsOrderly verb body s h = from (alive (cloud_of (current id s))) refl
    where
      from :
          (r : Outcome Cloud)
          → alive (cloud_of (current id s)) ≡ r
          → IsOrderly (
              registry_of
                (continue r
                  (λ c. lift (check_fields verb body) >>= λ _.
                    if is_chunk verb
                    then chunk_operation host id verb body
                    else journalled_operation host id c verb body)
                  s).1)
      from (ok c) e = checked_from c verb body (check_fields verb body) s (alive-cloud _ e) h
      from (thrown x) e = h
