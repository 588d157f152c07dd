-- ===== src/Storage/Fences.antt =====
-- What an accepted storage operation has on disk before the runtime is called.
use mathlib.Core.Path.{subst}
use mathlib.Core.Option
use hyperwake_core.Prelude.{
  ℕ, String, ◌≡◌, refl, sym, ap, ◌∙◌, Bool, true, false, Option, none, some, List, [], ◌∷◌, lookup,
  string_eq, eq_iff, is_some, Bool-cases, Option-cases, inl, inr,
}
use hyperwake_core.Json.{Json, Body}
use hyperwake_core.Exec.{Outcome, ok, thrown, fail_if, continue, Exec, pure, lift, gets, ◌>>=◌}
use hyperwake_core.Records.{fence, key_eq, OperationKey, Operation, Cloud, Record, Reply, stored}
use hyperwake_core.Registry
use hyperwake_core.Registry.{Registry}
use hyperwake_core.Registry.Laws.{get-modify}
use hyperwake_core.Guest.{Guests, GuestMessage, guest_request}
use hyperwake_core.Engine
use hyperwake_core.Engine.{
  Engine, Host, Sent, registry_of, serve_guests, meanwhile, await, send, clock,
}
use hyperwake_core.Request.{Request, generation_of, operation_id_of}
use hyperwake_core.Journal.{
  intend, cloud_of, operation_in, is_retired, in_cloud, in_operation, settled_with,
}
use hyperwake_core.Lifecycle.{current, revoke, conclude}
use hyperwake_core.Lifecycle.Entry.{cloud-guest_request}
use hyperwake_core.Lifecycle.Calls.{Grown, Grown-same}
use hyperwake_core.Storage.{
  alive, check_fields, check_storage, admit_storage, enter_storage, check_stopped, token_for,
  marked, reseed, proceed_storage, journalled_operation, storage_operation,
}

abbrev pub is_marked : Option Cloud → Bool
is_marked none = false
is_marked (some c) = c.fenced

marked-fenced :
    (now : ℕ) (q : Request) (token : String) (r : Record) (o : Option Cloud)
    → r.cloud ≡ o
    → is_some o ≡ true
    → is_marked (marked fence token (intend now q r)).cloud ≡ true
unfolding marked intend
marked-fenced now q token r none e h = absurd (cc)
marked-fenced now q token r (some c) e h = rw e refl

-- The registry file holds the machine as fenced.
abbrev pub IsFencedIn : String → List (String × Record) → Type 0
IsFencedIn id file = is_marked (cloud_of (lookup id file)) ≡ true

-- The call is made while the registry file holds the machine as fenced.
abbrev pub IsBehindFence : String → Sent → Type 0
IsBehindFence id s = IsFencedIn id s.durable

-- The file holds the machine as fenced when the operation has succeeded.
abbrev pub EndsFenced : {W : Type 0} → String → Outcome Reply → Engine W → Type 0
EndsFenced id (ok reply) e = IsFencedIn id (registry_of e).durable
EndsFenced id (thrown x) e = Unit

settled-fenced :
    (key : OperationKey) (f : Operation → Operation) (c : Cloud)
    → (in_operation key f c).fenced ≡ c.fenced
unfolding in_operation
settled-fenced key f c = elim (Option-cases (lookup key c.operations)) [
  | inl absent ↦ rw (in_operation, absent) refl
  | inr (o, present) ↦ rw (in_operation, present) refl
]

kept-fenced :
    (key : OperationKey) (f : Operation → Operation) (o : Option Record)
    → is_marked (cloud_of o) ≡ true
    → is_marked (cloud_of (Option.map (in_cloud (in_operation key f)) o)) ≡ true
kept-fenced key f none h = absurd (cc)
kept-fenced key f (some r) h = elim (Option-cases r.cloud) [
  | inl local ↦ absurd (cc (rw local at h))
  | inr (c, managed) ↦ rw (managed, settled-fenced) (rw managed at h)
]

cloud-serve_guests :
    (sha256 : String → String) (ms : List GuestMessage) (g : Guests) (id : String)
    → cloud_of (Registry.get (serve_guests sha256 ms g).registry id)
      ≡ cloud_of (Registry.get g.registry id)
unfolding serve_guests
cloud-serve_guests sha256 [] g id = refl
cloud-serve_guests sha256 (m ∷ ms) g id =
    cloud-serve_guests sha256 ms (guest_request sha256 m g).1 id ∙ cloud-guest_request sha256 m g id

alive-some : (o : Option Cloud) (c : Cloud) → alive o ≡ ok c → o ≡ some c
unfolding alive
alive-some none c h = absurd (cc)
alive-some (some x) c h = elim (Bool-cases x.deleted) [
  | inl gone ↦ absurd (cc (rw gone at h))
  | inr here ↦ cc (rw here at h)
]

same_request : (o : Outcome Request) (a b : Request) → o ≡ ok a → o ≡ ok b → a ≡ b
same_request o a b p q = cc

fence_named :
    (body : Body) (q : Request)
    → check_storage fence body ≡ ok q
    → q.key ≡ record { verb = fence; operation_id = q.key.operation_id }
unfolding check_storage
fence_named body q h = elim (Option-cases (generation_of body)) [
  | inl none_given ↦ absurd (cc (rw none_given at h))
  | inr (g, given) ↦ elim (Option-cases (operation_id_of body)) [
    | inl unnamed ↦ absurd (cc (rw (given, unnamed) at h))
    | inr (op, named) ↦
        let same = same_request _ _ q refl (rw (given, named) at h) in
        ap (λ v. record { verb = v; operation_id = q.key.operation_id })
          (sym (ap (λ x. x.key.verb) same))
  ]
]

module _ {W : Type 0} (host : Host W) (id : String) (s : Engine W) where
  -- What is made of the operation that begins in the state `s`.
  abbrev Holds : Outcome Reply × Engine W → Type 0
  Holds p = Grown (IsBehindFence id) s.sent p.1.sent × EndsFenced id p.0 p.1

  lift-Holds :
      {A : Type 0} (o : Outcome A) (f : A → Exec (Engine W) Reply)
      → ((a : A) → o ≡ ok a → Holds (f a s))
      → Holds (continue o f s)
  lift-Holds (ok a) f h = h a refl
  lift-Holds (thrown e) f h = (Grown-same s.sent, tt)

  module _ (q : Request) (operation_id : String) (body : Body) (r : Record)
      (there : current id s ≡ some r) (managed : is_some r.cloud ≡ true) where
    -- The request, as one of a fence.
    abbrev named : Request
    named = record q { key = record { verb = fence; operation_id = operation_id } }

    abbrev fenced_state : Engine W
    fenced_state = record s {
      guests = record s.guests {
        registry = Registry.flush (
            Registry.modify id (marked fence "")
              (Registry.modify id (intend (host.now s.world) named) (registry_of s)));
      };
    }

    fenced_state_marked : is_marked (cloud_of (current id fenced_state)) ≡ true
    unfolding Registry.get Registry.flush
    fenced_state_marked =
        rw (get-modify, get-modify, (eq_iff id id).1 refl, there)
          (marked-fenced (host.now s.world) named "" r r.cloud refl managed)

    called :
        (t : Engine W) (call : Engine.Call)
        → t.sent ≡ record { call = call; durable = (registry_of fenced_state).durable } ∷ s.sent
        → Grown (IsBehindFence id) s.sent t.sent
    unfolding Registry.get Registry.flush
    called t call sent = record {
      extra = record { call = call; durable = (registry_of fenced_state).durable } ∷ [];
      splits = sent;
      each = (fenced_state_marked, tt);
    }

    settled-fenced_in :
        (f : Operation → Operation) (t : Engine W)
        → is_marked (cloud_of (current id t)) ≡ true
        → is_marked (
            cloud_of (
              Registry.get
                (Registry.modify id (in_cloud (in_operation named.key f)) (registry_of t))
                id))
          ≡ true
    settled-fenced_in f t fenced =
        rw (get-modify, (eq_iff id id).1 refl) (kept-fenced named.key f (current id t) fenced)

    settled-Holds :
        (answer : Outcome Json) (t : Engine W) (reply : Json → Reply) (call : Engine.Call)
        → t.sent ≡ record { call = call; durable = (registry_of fenced_state).durable } ∷ s.sent
        → is_marked (cloud_of (current id t)) ≡ true
        → Holds (
            continue answer
              (λ a. reseed host id fence >>= λ _. conclude host id named.key (reply a))
              t)
    unfolding ◌>>=◌ reseed conclude pure Engine.write Registry.flush Registry.get
    settled-Holds (ok a) t reply call sent fenced =
        (called t call sent, settled-fenced_in (settled_with (reply a)) t fenced)
    settled-Holds (thrown e) t reply call sent fenced = (called t call sent, tt)

    proceed-Holds : Holds (proceed_storage host id named body none fenced_state)
    unfolding proceed_storage ◌>>=◌ revoke send await meanwhile
    proceed-Holds =
        let (answer, w) = host.perform (Engine.storage id fence body) fenced_state.world in
        settled-Holds answer _ (λ a. record { status = 200; payload = stored a })
          (Engine.storage id fence body) refl
          (rw (cloud-serve_guests host.sha256 (host.arrived w).0 fenced_state.guests id)
            fenced_state_marked)

    -- What follows the tests of the request.
    abbrev journalled : Request → Cloud → Exec (Engine W) Reply
    journalled x c =
        enter_storage host id x c none >>= λ early. proceed_storage host id x body early

    admitted-Holds :
        (c : Cloud) (o : Outcome (Unit {0}))
        → admit_storage named c ≡ o
        → Holds (journalled named c s)
    unfolding enter_storage ◌>>=◌ check_stopped token_for clock Engine.write
    admitted-Holds c (ok _) e = rw e proceed-Holds
    admitted-Holds c (thrown x) e = rw e (Grown-same s.sent, tt)

    named-Holds :
        (c : Cloud)
        → q.key ≡ record { verb = fence; operation_id = operation_id }
        → Holds (journalled q c s)
    named-Holds c e =
        subst (λ k. Holds (journalled (record q { key = k }) c s)) (sym e)
          (admitted-Holds c (admit_storage named c) refl)

  with_record :
      (q : Request) (body : Body) (c : Cloud) (o : Option Record)
      → current id s ≡ o
      → cloud_of o ≡ some c
      → q.key ≡ record { verb = fence; operation_id = q.key.operation_id }
      → Holds ((enter_storage host id q c none >>= λ early. proceed_storage host id q body early) s)
  with_record q body c none there managed e = absurd (cc)
  with_record q body c (some r) there managed e =
      named-Holds q q.key.operation_id body r there (rw managed refl) c e

  -- A fence whose operation id the machine's journal does not hold yet makes no call that changes the
  -- runtime but while the registry file holds the machine as fenced, so that a crash at such a call
  -- leaves the machine fenced; and when the fence has succeeded the file holds it so still, whatever
  -- guests sent in between.
  pub fence-durable :
      (body : Body)
      → ((q : Request)
          → check_storage fence body ≡ ok q
          → operation_in q.key (cloud_of (current id s)) ≡ none)
      → Grown (IsBehindFence id) s.sent (storage_operation host id fence body s).1.sent
        × EndsFenced id
            (storage_operation host id fence body s).0
            (storage_operation host id fence body s).1
  unfolding storage_operation journalled_operation ◌>>=◌ gets lift
  fence-durable body new = lift-Holds (alive (cloud_of (current id s))) _ (λ c here.
      let managed = alive-some (cloud_of (current id s)) c here in
      lift-Holds (check_fields fence body) _ (λ fields correct.
        lift-Holds (check_storage fence body) _ (λ q valid.
          lift-Holds (fail_if (is_retired q.generation (some c)) 409 _) _ (λ living passed.
            rw (sym managed, new q valid)
              (with_record q body c (current id s) refl managed (fence_named body q valid))))))
