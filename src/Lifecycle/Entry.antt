-- ===== src/Lifecycle/Entry.antt =====
-- An unanswered entry of the journal, in memory and in the registry file, and what leaves it there.
use mathlib.Core.Option
use hyperwake_core.Prelude.{
  ℕ, String, ◌≡◌, ◌⊎◌, inl, inr, refl, ap, sym, ◌∙◌, Bool, true, false, not, Option, none, some,
  List, [], ◌∷◌, string_eq, lookup, lookup-insert_self, is_some, Option-cases, arith, eq_iff,
}
use hyperwake_core.Records.{OperationKey, key_eq, Operation, Cloud, Record, DesiredState}
use hyperwake_core.Registry
use hyperwake_core.Registry.{Registry}
use hyperwake_core.Registry.Laws.{get-modify, get-update, durable-modify}
use hyperwake_core.Guest.{Guests, GuestMessage, guest_request, desire}
use hyperwake_core.Guest.Isolation.{platform, guest_request-SamePlatform}
use hyperwake_core.Guest.Saving.{guest_request-IsSavedOrKept, update-IsSavedOrKept}
use hyperwake_core.Engine.{Call, serve_guests}
use hyperwake_core.Journal.{
  cloud_of, in_operation, tombstone, deleted_cloud, remembered, prepare_boot,
}

-- The machine that a call is about.
abbrev pub machine_of : Call → String
machine_of (Call.create id spec token keys) = id
machine_of (Call.start_machine id) = id
machine_of (Call.shutdown id) = id
machine_of (Call.force_stop id) = id
machine_of (Call.destroy id disk) = id
machine_of (Call.storage id verb body) = id
machine_of (Call.reseed id token keys name) = id
machine_of (Call.act id action) = id

-- The journal of the record has an entry under the key, and no answer to it yet.
unfoldable pub is_entered : OperationKey → Option Cloud → Bool
unfolding lookup
is_entered key none = false
is_entered key (some c) = elim (lookup key c.operations) [
  | none ↦ false
  | some o ↦ not (is_some o.result)
]

abbrev pub entered_at : OperationKey → Option Record → Bool
entered_at key r = is_entered key (cloud_of r)

-- In memory and in the file, the command is entered and unanswered.
pub record IsEntered (id : String) (key : OperationKey) (r : Registry) : Type 0 where
  pub in_memory : entered_at key (lookup id r.records) ≡ true
  pub on_disk : entered_at key (lookup id r.durable) ≡ true

cloud_of-platform : (a : Option Record) → cloud_of (Option.map platform a) ≡ cloud_of a
unfolding platform
cloud_of-platform none = refl
cloud_of-platform (some r) = refl

-- Guests change nothing of a cloud part.
pub cloud-guest_request :
    (sha256 : String → String) (m : GuestMessage) (g : Guests) (id : String)
    → cloud_of (Registry.get (guest_request sha256 m g).1.registry id)
      ≡ cloud_of (Registry.get g.registry id)
cloud-guest_request sha256 m g id =
    sym (cloud_of-platform (Registry.get (guest_request sha256 m g).1.registry id))
    ∙ ap cloud_of (guest_request-SamePlatform sha256 m g id)
    ∙ cloud_of-platform (Registry.get g.registry id)

module _ (id : String) (key : OperationKey) where
  IsEntered-saved :
      (before after : Registry)
      → cloud_of (Registry.get after id) ≡ cloud_of (Registry.get before id)
      → (after.durable ≡ before.durable) ⊎ (after.durable ≡ after.records)
      → IsEntered id key before
      → IsEntered id key after
  unfolding Registry.get
  IsEntered-saved before after same (inl kept) h = record {
    in_memory = rw same h.in_memory;
    on_disk = rw kept h.on_disk;
  }
  IsEntered-saved before after same (inr saved) h = record {
    in_memory = rw same h.in_memory;
    on_disk = rw (saved, same) h.in_memory;
  }

  pub serve_guests-IsEntered :
      (sha256 : String → String) (ms : List GuestMessage) (g : Guests)
      → IsEntered id key g.registry
      → IsEntered id key (serve_guests sha256 ms g).registry
  unfolding serve_guests
  serve_guests-IsEntered sha256 [] g h = h
  serve_guests-IsEntered sha256 (m ∷ ms) g h =
      serve_guests-IsEntered sha256 ms (guest_request sha256 m g).1 (
        IsEntered-saved g.registry (guest_request sha256 m g).1.registry
          (cloud-guest_request sha256 m g id) (guest_request-IsSavedOrKept sha256 m g) h)

  pub flush-IsEntered : (r : Registry) → IsEntered id key r → IsEntered id key (Registry.flush r)
  unfolding Registry.flush
  flush-IsEntered r h = record { in_memory = h.in_memory; on_disk = h.in_memory }

  -- The patch leaves an entry that is unanswered so.
  abbrev pub KeepsEntry : (Record → Record) → Type 0
  KeepsEntry f = (r : Record) → is_entered key r.cloud ≡ true → is_entered key (f r).cloud ≡ true

  entered_at-map :
      (f : Record → Record) (o : Option Record)
      → KeepsEntry f
      → entered_at key o ≡ true
      → entered_at key (Option.map f o) ≡ true
  entered_at-map f none k h = h
  entered_at-map f (some r) k h = k r h

  modify-entered :
      (f : Record → Record) (r : Registry)
      → KeepsEntry f
      → entered_at key (Registry.get r id) ≡ true
      → entered_at key (Registry.get (Registry.modify id f r) id) ≡ true
  modify-entered f r k h =
      rw (get-modify r id f id, (eq_iff id id).1 refl) (entered_at-map f (Registry.get r id) k h)

  pub modify-IsEntered :
      (f : Record → Record) (r : Registry)
      → KeepsEntry f
      → IsEntered id key r
      → IsEntered id key (Registry.modify id f r)
  unfolding Registry.get
  modify-IsEntered f r k h = record {
    in_memory = modify-entered f r k h.in_memory;
    on_disk = rw (durable-modify r id f) h.on_disk;
  }

  update-entered :
      (f : Record → Record) (r : Registry)
      → KeepsEntry f
      → entered_at key (Registry.get r id) ≡ true
      → entered_at key (Registry.get (Registry.update id f r) id) ≡ true
  update-entered f r k h =
      rw (get-update r id f id, (eq_iff id id).1 refl) (entered_at-map f (Registry.get r id) k h)

  pub update-IsEntered :
      (f : Record → Record) (r : Registry)
      → KeepsEntry f
      → IsEntered id key r
      → IsEntered id key (Registry.update id f r)
  unfolding Registry.get
  update-IsEntered f r k h = record {
    in_memory = update-entered f r k h.in_memory;
    on_disk = elim (update-IsSavedOrKept r id f) [
      | inl kept ↦ rw kept h.on_disk
      | inr saved ↦ rw saved (update-entered f r k h.in_memory)
    ];
  }

  in_operation-entered :
      (f : Operation → Operation) (c : Cloud)
      → ((o : Operation) → (f o).result ≡ o.result)
      → is_entered key (some (in_operation key f c)) ≡ is_entered key (some c)
  unfolding is_entered in_operation
  in_operation-entered f c k = elim (Option-cases (lookup key c.operations)) [
    | inl absent ↦ rw (absent, in_operation) refl
    | inr (o, present) ↦
        rw (present, in_operation) (ground (arith, lookup-insert_self key (f o) c.operations, k o))
  ]

  is_entered-map :
      (f : Cloud → Cloud) (o : Option Cloud)
      → ((c : Cloud) → is_entered key (some (f c)) ≡ is_entered key (some c))
      → is_entered key o ≡ true
      → is_entered key (Option.map f o) ≡ true
  is_entered-map f none k h = h
  is_entered-map f (some c) k h = rw k h

  pub desire-keeps : (d : DesiredState) → KeepsEntry (desire d)
  desire-keeps d r h = h

  pub tombstone-keeps : KeepsEntry tombstone
  unfolding is_entered
  tombstone-keeps r h = is_entered-map deleted_cloud r.cloud (λ c. refl) h

  pub prepare_boot-keeps : (now : ℕ) → KeepsEntry (prepare_boot now key)
  unfolding prepare_boot is_entered
  prepare_boot-keeps now r h =
      is_entered-map
        (λ c.
          in_operation key (λ o. record o { boot_prepared = true })
            (record c {
              previous_boot_ids = remembered r.boot_id c.previous_boot_ids;
              boot_requested_at = some now;
            }))
        r.cloud
        (λ c.
          in_operation-entered (λ o. record o { boot_prepared = true })
            (record c {
              previous_boot_ids = remembered r.boot_id c.previous_boot_ids;
              boot_requested_at = some now;
            })
            (λ o. refl))
        h
