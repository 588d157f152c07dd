-- ===== src/Records.antt =====
-- What the engine remembers of a machine (src/state.js, and the fields that src/guest.js,
-- src/host-api.js, src/host-storage.js, src/ssh.js and src/server.js add to a record), and the
-- answers that its journal keeps.
--
-- A time is a number of milliseconds: `new Date().toISOString()` is read back only by Date.parse.
-- A field that is absent and one that is null are both `none`: the code tests them by truth or `??`.
use hyperwake_core.Prelude.{
  ℕ, String, ◌≡◌, ◌↔◌, Bool, true, ◌&&◌, Option, List, arith, Eq, nat_beq, str_eq, eq_iff,
}
use hyperwake_core.Json.{Json, Body}

-- The lifecycle verbs of `mutate` and STORAGE_VERBS.
pub data Verb : Type 0 where
  create start shutdown force_stop destroy : Verb
  snapshot restore snapshot_delete snapshot_import snapshot_write snapshot_read : Verb
  snapshot_seal fence : Verb

abbrev pub verb_index : Verb → ℕ
verb_index create = 0
verb_index start = 1
verb_index shutdown = 2
verb_index force_stop = 3
verb_index destroy = 4
verb_index snapshot = 5
verb_index restore = 6
verb_index snapshot_delete = 7
verb_index snapshot_import = 8
verb_index snapshot_write = 9
verb_index snapshot_read = 10
verb_index snapshot_seal = 11
verb_index fence = 12

abbrev pub verb_beq : Verb → Verb → Bool
verb_beq a b = nat_beq (verb_index a) (verb_index b)

pub verb_beq_iff : (a b : Verb) → (verb_beq a b ≡ true) ↔ (a ≡ b)
verb_beq_iff a b = ground arith

-- `${verb}:${operation_id}`: no verb has a colon, so the text determines the two parts.
pub record OperationKey : Type 0 where
  pub verb : Verb
  pub operation_id : String

abbrev pub key_beq : OperationKey → OperationKey → Bool
key_beq a b = verb_beq a.verb b.verb && str_eq a.operation_id b.operation_id

pub key_beq_iff : (a b : OperationKey) → (key_beq a b ≡ true) ↔ (a ≡ b)
key_beq_iff a b = ground (arith, verb_beq_iff a.verb b.verb, eq_iff a.operation_id b.operation_id)

instance abbrev pub key_eq : Eq OperationKey
key_eq = record { beq = key_beq; beq_iff = key_beq_iff }

-- `status` of the runtime's answer, any text.
pub data RuntimeStatus : Type 0 where
  running starting stopped unknown : RuntimeStatus
  other : String → RuntimeStatus

-- The runtime's answer to `describe`. A port that is not an integer is `none`.
pub record Described : Type 0 where
  pub status : RuntimeStatus
  pub disk_id : Option String
  pub ssh_host : String
  pub ssh_port : Option ℕ
  pub display_host : String
  pub display_port : Option ℕ

pub record Capabilities : Type 0 where
  pub shell : Bool
  pub display : Bool
  pub sshd : Bool

pub record Spec : Type 0 where
  pub name : String
  pub vcpus : ℕ
  pub memory_mb : ℕ
  pub disk_gb : ℕ

pub data DesiredState : Type 0 where
  running stopped : DesiredState

-- The object that `hostDescription` returns.
pub record HostDescription : Type 0 where
  pub id : String
  pub name : String
  pub status : RuntimeStatus
  pub disk_id : String
  pub generation : ℕ
  pub fenced : Bool
  pub image_ref : String
  pub vcpus : ℕ
  pub memory_mb : ℕ
  pub disk_gb : ℕ
  pub ready : Bool
  pub boot_id : Option String
  pub capabilities : Option Capabilities
  pub last_heartbeat_at : Option ℕ

-- The data of a completed `destroy`; its other fields are constant.
pub record Removal : Type 0 where
  pub id : String
  pub disk_id : Option String
  pub generation : ℕ

-- `body` of an answer: { data: … } four ways, or { error }.
pub data Payload : Type 0 where
  described : HostDescription → Payload
  removed : Removal → Payload
  refused : String → Payload
  stored : Json → Payload

pub record Reply : Type 0 where
  pub status : ℕ
  pub payload : Payload

-- One entry of the journal `record.cloud.operations`.
pub record Operation : Type 0 where
  pub fingerprint : Body
  pub verb : Option Verb
  pub pending_at : ℕ
  pub boot_prepared : Bool
  pub result : Option Reply

pub record Cloud : Type 0 where
  pub image_ref : String
  pub operations : List (OperationKey × Operation)
  pub create_spec : Spec
  pub incarnation_generation : Option ℕ
  pub generation : ℕ
  pub deleted : Bool
  pub fenced : Bool
  pub previous_boot_ids : List String
  pub boot_requested_at : Option ℕ
  pub ssh_gateway_key : Option String

pub record Record : Type 0 where
  pub id : String
  pub name : String
  pub vcpus : ℕ
  pub memory_mb : ℕ
  pub disk_gb : ℕ
  pub created_at : ℕ
  pub registration_token : Option String
  pub machine_token_hash : Option String
  pub boot_id : Option String
  pub capabilities : Option Capabilities
  pub last_heartbeat_at : Option ℕ
  pub desired_state : Option DesiredState
  pub authorized_keys : Option (List String)
  pub runtime_generation : Option ℕ
  pub enrollment_public_key : Option Json
  pub guest_version : Option String
  pub registered_at : Option ℕ
  pub needs_cleanup : Bool
  pub cleanup_reason : Option String
  pub adopted : Bool
  pub cloud : Option Cloud
