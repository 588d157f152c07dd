-- ===== src/Orderly.antt =====
-- The order of the journals (src/host-api.js, src/host-storage.js): no machine has two commands
-- pending at once, and what is pending in memory is pending in the registry file. This is what the
-- 409 'A pending operation must be reconciled first.' and the flush behind every new entry are for.
pub mod Patches
pub mod Writes
pub mod Commands
pub mod Entries
pub mod Disks
pub mod Machines
pub mod Reach
use hyperwake_core.Prelude.{
  String, ◌≡◌, ◌⊎◌, inl, inr, refl, ◌∙◌, Bool, true, false, not, ◌||◌, Option, none, some, List, [],
  ◌∷◌, string_eq, lookup, any, is_some, arith, eq_iff, Option-cases, Bool-cases, if◌then◌else◌,
}
use hyperwake_core.Records.{OperationKey, key_beq, key_beq_iff, key_eq, Operation, Cloud, Record}
use hyperwake_core.Registry
use hyperwake_core.Registry.{Registry}
use hyperwake_core.Journal.{cloud_of, is_unsettled}
use hyperwake_core.Lifecycle.Entry.{is_entered, entered_at}

-- No two commands of the machine are pending.
abbrev pub IsSingle : Option Record → Type 0
IsSingle r = (a b : OperationKey) → entered_at a r ≡ true → entered_at b r ≡ true → a ≡ b

-- Nothing is pending.
abbrev pub IsIdle : Option Cloud → Type 0
IsIdle c = (key : OperationKey) → is_entered key c ≡ false

-- The answer of a journal about one key.
abbrev pub is_entered_in : Option Operation → Bool
is_entered_in none = false
is_entered_in (some o) = not (is_some o.result)

or_false : (a b : Bool) → (a || b) ≡ false → (a ≡ false) × (b ≡ false)
or_false a b h = ground arith

pub record IsOrderly (r : Registry) : Type 0 where
  pub saved :
      (id : String) (key : OperationKey)
      → entered_at key (lookup id r.records) ≡ true
      → entered_at key (lookup id r.durable) ≡ true
  pub single : (id : String) → IsSingle (lookup id r.records)
  pub single_on_disk : (id : String) → IsSingle (lookup id r.durable)

-- The patch enters nothing.
pub record EntersNothing (f : Record → Record) : Type 0 where
  pub before :
      (key : OperationKey) (r : Record)
      → is_entered key (f r).cloud ≡ true
      → is_entered key r.cloud ≡ true

settled_lookup :
    (key : OperationKey) (ops : List (OperationKey × Operation))
    → any is_unsettled ops ≡ false
    → is_entered_in (lookup key ops) ≡ false
unfolding lookup
settled_lookup key [] h = refl
settled_lookup key ((k, p) ∷ ops) h =
    let (here, later) = or_false (is_unsettled (k, p)) (any is_unsettled ops) h in
    elim (Bool-cases (key_beq k key)) [
      | inl same ↦ rw same here
      | inr other ↦ rw other (settled_lookup key ops later)
    ]

pub is_entered-lookup :
    (key : OperationKey) (c : Cloud)
    → is_entered key (some c) ≡ is_entered_in (lookup key c.operations)
unfolding is_entered
is_entered-lookup key c = elim (Option-cases (lookup key c.operations)) [
  | inl absent ↦ rw (absent, is_entered) refl
  | inr (o, present) ↦ rw (present, is_entered) refl
]

-- A journal with no unsettled entry is idle.
pub settled-IsIdle : (c : Cloud) → any is_unsettled c.operations ≡ false → IsIdle (some c)
settled-IsIdle c settled key = is_entered-lookup key c ∙ settled_lookup key c.operations settled
