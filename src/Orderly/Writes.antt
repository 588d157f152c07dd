-- ===== src/Orderly/Writes.antt =====
-- The changes of the registry that keep the journals in order.
use mathlib.Core.Option
use hyperwake_core.Prelude.{
  [], ℕ, String, ◌≡◌, inl, inr, refl, sym, ◌∙◌, Bool, true, false, Option, none, some, List,
  string_eq, lookup, insert, lookup-insert, eq_iff, str_eq, Bool-cases, if◌then◌else◌,
}
use hyperwake_core.Records.{OperationKey, key_beq, key_beq_iff, key_eq, Operation, Cloud, Record}
use hyperwake_core.Registry
use hyperwake_core.Registry.{Registry}
use hyperwake_core.Registry.Laws.{get-modify, get-update, get-put, get-remove, durable-modify}
use hyperwake_core.Guest.{Guests, GuestMessage, guest_request}
use hyperwake_core.Guest.Saving.{guest_request-IsSavedOrKept, update-IsSavedOrKept, IsSavedOrKept}
use hyperwake_core.Journal.{cloud_of, intend}
use hyperwake_core.Request.{Request}
use hyperwake_core.Lifecycle.Entry.{is_entered, entered_at, cloud-guest_request}
use hyperwake_core.Orderly.{
  IsOrderly, IsSingle, IsIdle, EntersNothing, is_entered_in, is_entered-lookup,
}

-- In memory nothing is pending after that was not pending before, and the file is as it was or as
-- the memory is now.
kept-IsOrderly :
    (r t : Registry)
    → ((id : String) (key : OperationKey)
        → entered_at key (Registry.get t id) ≡ true
        → entered_at key (Registry.get r id) ≡ true)
    → IsSavedOrKept r t
    → IsOrderly r
    → IsOrderly t
unfolding Registry.get
kept-IsOrderly r t before (inl kept) h = record {
  saved = λ id key now. rw kept (h.saved id key (before id key now));
  single = λ id a b x y. h.single id a b (before id a x) (before id b y);
  single_on_disk = λ id. rw kept (h.single_on_disk id);
}
kept-IsOrderly r t before (inr saved) h = record {
  saved = λ id key now. rw saved now;
  single = λ id a b x y. h.single id a b (before id a x) (before id b y);
  single_on_disk = λ id. rw saved (λ a b x y. h.single id a b (before id a x) (before id b y));
}

-- A guest's request.
pub guest_request-IsOrderly :
    (sha256 : String → String) (m : GuestMessage) (g : Guests)
    → IsOrderly g.registry
    → IsOrderly (guest_request sha256 m g).1.registry
guest_request-IsOrderly sha256 m g =
    kept-IsOrderly g.registry (guest_request sha256 m g).1.registry
      (λ id key now. rw (cloud-guest_request sha256 m g id) at now)
      (guest_request-IsSavedOrKept sha256 m g)

pub flush-IsOrderly : (r : Registry) → IsOrderly r → IsOrderly (Registry.flush r)
unfolding Registry.flush Registry.get
flush-IsOrderly r = kept-IsOrderly r (Registry.flush r) (λ id key now. now) (inr refl)

entered_at-before :
    (f : Record → Record) (o : Option Record) (b : Bool) (key : OperationKey)
    → EntersNothing f
    → entered_at key (if b then Option.map f o else o) ≡ true
    → entered_at key o ≡ true
entered_at-before f o false key n h = h
entered_at-before f none true key n h = h
entered_at-before f (some r) true key n h = n.before key r h

pub modify-IsOrderly :
    (id : String) (f : Record → Record)
    → EntersNothing f
    → (r : Registry) → IsOrderly r
    → IsOrderly (Registry.modify id f r)
modify-IsOrderly id f n r =
    kept-IsOrderly r (Registry.modify id f r)
      (λ j key now.
        entered_at-before f (Registry.get r j) (str_eq id j) key n
          (rw (get-modify r id f j) at now))
      (inl (durable-modify r id f))

pub update-IsOrderly :
    (id : String) (f : Record → Record)
    → EntersNothing f
    → (r : Registry) → IsOrderly r
    → IsOrderly (Registry.update id f r)
update-IsOrderly id f n r =
    kept-IsOrderly r (Registry.update id f r)
      (λ j key now.
        entered_at-before f (Registry.get r j) (str_eq id j) key n
          (rw (get-update r id f j) at now))
      (update-IsSavedOrKept r id f)

-- A record with nothing pending takes its place in the memory.
pub put-IsOrderly :
    (id : String) (x : Record)
    → IsIdle x.cloud
    → (r : Registry) → IsOrderly r
    → IsOrderly (Registry.put r id x)
unfolding Registry.put
put-IsOrderly id x idle r =
    kept-IsOrderly r (Registry.put r id x)
      (λ j key now. elim (Bool-cases (str_eq id j)) [
        | inl same ↦ absurd (cc (rw (get-put r id j x, same) at now, idle key))
        | inr other ↦ rw (get-put r id j x, other) at now
      ])
      (inl refl)

inserted_key :
    (k key : OperationKey) (o : Operation) (ops : List (OperationKey × Operation))
    → is_entered_in (lookup key ops) ≡ false
    → is_entered_in (lookup key (insert k o ops)) ≡ true
    → k ≡ key
inserted_key k key o ops idle h = elim (Bool-cases (key_beq k key)) [
  | inl same ↦ (key_beq_iff k key).0 same
  | inr other ↦ absurd (cc (idle, rw (lookup-insert, other) at h))
]

intended_key :
    (now : ℕ) (q : Request) (key : OperationKey) (c : Option Cloud) (r : Record)
    → r.cloud ≡ c
    → IsIdle c
    → is_entered key (intend now q r).cloud ≡ true
    → q.key ≡ key
unfolding intend is_entered
intended_key now q key none r e idle h = absurd (cc (rw e at h))
intended_key now q key (some c) r e idle h =
    inserted_key q.key key _ c.operations (sym (is_entered-lookup key c) ∙ idle key)
      (rw (is_entered-lookup) at (rw e at h))

intended_at :
    (now : ℕ) (q : Request) (key : OperationKey) (o : Option Record)
    → IsIdle (cloud_of o)
    → entered_at key (Option.map (intend now q) o) ≡ true
    → q.key ≡ key
unfolding is_entered
intended_at now q key none idle h = absurd (cc)
intended_at now q key (some r) idle h = intended_key now q key r.cloud r refl idle h

intend-IsSingle :
    (id : String) (now : ℕ) (q : Request) (r : Registry)
    → IsIdle (cloud_of (Registry.get r id))
    → IsOrderly r
    → (j : String) → IsSingle (Registry.get (Registry.modify id (intend now q) r) j)
intend-IsSingle id now q r idle h j a b x y = elim (Bool-cases (str_eq id j)) [
  | inl same ↦
      let here = (eq_iff id j).0 same in
      let idle_there : IsIdle (cloud_of (Registry.get r j)) = rw here at idle in
      sym (intended_at now q a (Registry.get r j) idle_there (rw (get-modify, same) at x))
      ∙ intended_at now q b (Registry.get r j) idle_there (rw (get-modify, same) at y)
  | inr other ↦
      unfold Registry.get in
      h.single j a b (rw (get-modify, other) at x) (rw (get-modify, other) at y)
]

-- A new entry, at once flushed, on a machine with nothing pending.
pub intend-IsOrderly :
    (id : String) (now : ℕ) (q : Request) (r : Registry)
    → IsIdle (cloud_of (Registry.get r id))
    → IsOrderly r
    → IsOrderly (Registry.flush (Registry.modify id (intend now q) r))
unfolding Registry.flush Registry.get
intend-IsOrderly id now q r idle h = record {
  saved = λ j key entered. entered;
  single = intend-IsSingle id now q r idle h;
  single_on_disk = intend-IsSingle id now q r idle h;
}

modify-IsSingle :
    (id : String) (f : Record → Record)
    → EntersNothing f
    → (r : Registry) → ((j : String) → IsSingle (Registry.get r j))
    → (j : String) → IsSingle (Registry.get (Registry.modify id f r) j)
modify-IsSingle id f n r single j a b x y =
    single j a b
      (entered_at-before f (Registry.get r j) (str_eq id j) a n (rw (get-modify r id f j) at x))
      (entered_at-before f (Registry.get r j) (str_eq id j) b n (rw (get-modify r id f j) at y))

-- A new entry and another change of its record, flushed together.
pub intend_marked-IsOrderly :
    (id : String) (now : ℕ) (q : Request) (f : Record → Record)
    → EntersNothing f
    → (r : Registry) → IsIdle (cloud_of (Registry.get r id))
    → IsOrderly r
    → IsOrderly (Registry.flush (Registry.modify id f (Registry.modify id (intend now q) r)))
unfolding Registry.flush Registry.get
intend_marked-IsOrderly id now q f n r idle h =
    let entered = Registry.modify id (intend now q) r in
    let single = modify-IsSingle id f n entered (intend-IsSingle id now q r idle h) in
    record { saved = λ j key now. now; single = single; single_on_disk = single }

-- A machine that is forgotten.
pub remove-IsOrderly : (id : String) (r : Registry) → IsOrderly r → IsOrderly (Registry.remove id r)
unfolding Registry.remove is_entered
remove-IsOrderly id r =
    kept-IsOrderly r (Registry.remove id r)
      (λ j key now. elim (Bool-cases (str_eq id j)) [
        | inl same ↦ absurd (cc (rw (get-remove, same) at now))
        | inr other ↦ rw (get-remove, other) at now
      ])
      (inr (unfold Registry.flush in refl))

-- What a restart reads back.
pub load-IsOrderly : (r : Registry) → IsOrderly r → IsOrderly (Registry.load r.durable)
unfolding Registry.load
load-IsOrderly r h = record {
  saved = λ id key now. now;
  single = h.single_on_disk;
  single_on_disk = h.single_on_disk;
}

-- A new installation.
pub empty-IsOrderly : IsOrderly (Registry.load [])
unfolding Registry.load is_entered lookup
empty-IsOrderly = record {
  saved = λ id key now. now;
  single = λ id a b x y. absurd (cc (x));
  single_on_disk = λ id a b x y. absurd (cc (x));
}
