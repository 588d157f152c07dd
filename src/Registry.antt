-- ===== src/Registry.antt =====
-- src/state.js: the engine's own record of what exists, in memory and as last flushed.
--
-- `durable` is the file machines.json: `flush` writes a temporary file, syncs it and renames it over
-- the old one, so the file is always one whole earlier state of the records.
pub mod Laws
use hyperwake_core.Prelude.{
  ℕ, String, Option, none, some, List, [], ◌∷◌, map, Bool, leb, false, string_eq, lookup, insert,
  remove as delete, if◌then◌else◌,
}
use hyperwake_core.Records.{Record, Spec}

pub record Registry : Type 0 where
  pub records : List (String × Record)
  pub durable : List (String × Record)

-- constructor(): what the file holds
unfoldable pub load : List (String × Record) → Registry
load file = record { records = file; durable = file }

unfoldable pub flush : Registry → Registry
flush r = record r { durable = r.records }

-- localeCompare on two ISO-8601 texts of one form orders them by time.
unfoldable pub insert_by_creation : Record → List Record → List Record
insert_by_creation x [] = x ∷ []
insert_by_creation x (y ∷ ys) =
    if leb x.created_at y.created_at then x ∷ y ∷ ys else y ∷ insert_by_creation x ys

unfoldable pub sort_by_creation : List Record → List Record
unfolding insert_by_creation
sort_by_creation [] = []
sort_by_creation (x ∷ xs) = insert_by_creation x (sort_by_creation xs)

unfoldable pub all : Registry → List Record
unfolding sort_by_creation
all r = sort_by_creation (map (λ e. e.1) r.records)

unfoldable pub get : Registry → String → Option Record
unfolding lookup
get r id = lookup id r.records

-- records[id] = record, not flushed
unfoldable pub put : Registry → String → Record → Registry
unfolding insert
put r id x = record r { records = insert id x r.records }

-- The record that `create` makes. `id`, `now` and `token` are what randomUUID() and the clock gave.
unfoldable pub new_record : String → ℕ → String → Spec → Record
new_record id now token spec = record {
  id = id;
  name = spec.name;
  vcpus = spec.vcpus;
  memory_mb = spec.memory_mb;
  disk_gb = spec.disk_gb;
  created_at = now;
  registration_token = some token;
  machine_token_hash = none;
  boot_id = none;
  capabilities = none;
  last_heartbeat_at = none;
  desired_state = none;
  authorized_keys = none;
  runtime_generation = none;
  enrollment_public_key = none;
  guest_version = none;
  registered_at = none;
  needs_cleanup = false;
  cleanup_reason = none;
  adopted = false;
  cloud = none;
}

unfoldable pub create : String → ℕ → String → Spec → Registry → Registry
unfolding flush put new_record
create id now token spec r = flush (put r id (new_record id now token spec))

-- A write through a reference to `records[id]`, not flushed: nothing if there is no such record.
unfoldable pub modify : String → (Record → Record) → Registry → Registry
unfolding get put
modify id f r = elim (get r id) [ none ↦ r | some x ↦ put r id (f x) ]

-- A patch is what Object.assign does to the record.
unfoldable pub update : String → (Record → Record) → Registry → Registry
unfolding get put flush
update id patch r = elim (get r id) [ none ↦ r | some x ↦ flush (put r id (patch x)) ]

unfoldable pub remove : String → Registry → Registry
unfolding delete flush
remove id r = flush (record r { records = delete id r.records })
