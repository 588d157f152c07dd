-- ===== src/Description.antt =====
-- `hostDescription` and `HostApi.describe` of src/host-api.js: what the control plane is told of a
-- machine. A missing date is NaN there, and every comparison with it is false.
pub mod Readiness
use hyperwake_core.Prelude.{
  ℕ, ◌-◌, String, Bool, true, false, not, ◌&&◌, ◌||◌, Option, none, some, List, [], ◌∷◌, map, leb,
  ltb, nat_beq, str_eq, any, all, keep, is_some, or_else, if◌then◌else◌,
}
use hyperwake_core.Records.{
  Verb, verb_beq, OperationKey, key_beq, Operation, Cloud, Record, Capabilities, Described,
  DesiredState, RuntimeStatus, running, starting, stopped, unknown, other, HostDescription,
}
use hyperwake_core.Guest.{is_set}

-- ['running', 'starting', 'stopped'].includes(status) ? status : 'unknown'
unfoldable pub known_status : Option Described → RuntimeStatus
known_status none = RuntimeStatus.unknown
known_status (some d) = elim d.status [
  | RuntimeStatus.running ↦ RuntimeStatus.running
  | starting ↦ starting
  | RuntimeStatus.stopped ↦ RuntimeStatus.stopped
  | unknown ↦ unknown
  | other s ↦ unknown
]

abbrev pub is_running : RuntimeStatus → Bool
is_running RuntimeStatus.running = true
is_running _ = false

abbrev pub is_unknown : RuntimeStatus → Bool
is_unknown RuntimeStatus.unknown = true
is_unknown _ = false

abbrev pub is_settled_key : Option OperationKey → OperationKey → Bool
is_settled_key none key = false
is_settled_key (some settled) key = key_beq key settled

-- The unsettled operations, but for the one that is being settled.
unfoldable pub pending_operations :
    Option OperationKey → List (OperationKey × Operation) → List (OperationKey × Operation)
pending_operations settling operations =
    keep (λ e. not (is_settled_key settling e.0) && not (is_some e.1.result)) operations

-- ['create', 'start'].includes(operation.verb || key.split(':')[0])
abbrev pub is_launch : OperationKey × Operation → Bool
is_launch e =
    let verb = or_else e.1.verb e.0.verb in verb_beq verb Verb.create || verb_beq verb Verb.start

abbrev pub answered : Option Described → Bool
answered none = false
answered (some d) = not (is_unknown d.status)

-- The status while the operations `pending` are unsettled.
unfoldable pub held_status : List (OperationKey × Operation) → Option Described → RuntimeStatus
unfolding known_status
held_status [] d = known_status d
held_status (e ∷ rest) d =
    if all is_launch (e ∷ rest) && answered d then RuntimeStatus.starting else RuntimeStatus.unknown

abbrev pub wants_running : Option DesiredState → Bool
wants_running (some DesiredState.running) = true
wants_running _ = false

abbrev pub is_listed : Option String → List String → Bool
is_listed none ids = false
is_listed (some id) ids = any (str_eq id) ids

-- heartbeat >= boot_requested_at && heartbeat <= now && now - heartbeat < 60000
abbrev pub is_fresh : ℕ → Option ℕ → Option ℕ → Bool
is_fresh now (some heartbeat) (some requested) =
    leb requested heartbeat && leb heartbeat now && ltb (now - heartbeat) 60000
is_fresh now _ _ = false

abbrev pub is_capable : Option Capabilities → Bool
is_capable none = false
is_capable (some c) = c.shell && c.display && c.sshd

unfoldable pub is_ready : ℕ → Record → Cloud → RuntimeStatus → Bool
is_ready now r c status =
    not c.fenced
    && is_running status
    && wants_running r.desired_state
    && is_set r.boot_id
    && not (is_listed r.boot_id c.previous_boot_ids)
    && is_fresh now r.last_heartbeat_at c.boot_requested_at
    && is_capable r.capabilities

abbrev disk_of : Option Described → Option String
disk_of none = none
disk_of (some d) = d.disk_id

unfoldable pub host_description :
    ℕ → Record → Cloud → Option Described → Option OperationKey → HostDescription
unfolding pending_operations held_status is_ready
host_description now r c d settling =
    let status = held_status (pending_operations settling c.operations) d in
    record {
      id = r.id;
      name = r.name;
      status = status;
      disk_id = or_else (disk_of d) r.id;
      generation = c.generation;
      fenced = c.fenced;
      image_ref = c.image_ref;
      vcpus = r.vcpus;
      memory_mb = r.memory_mb;
      disk_gb = r.disk_gb;
      ready = is_ready now r c status;
      boot_id = r.boot_id;
      capabilities = r.capabilities;
      last_heartbeat_at = r.last_heartbeat_at;
    }

-- What `revision` writes of the journal: each key, and whether it is settled.
abbrev pub bool_beq : Bool → Bool → Bool
bool_beq true b = b
bool_beq false b = not b

unfoldable pub same_journal :
    List (OperationKey × Operation) → List (OperationKey × Operation) → Bool
same_journal [] [] = true
same_journal ((k, a) ∷ as') ((j, b) ∷ bs) =
    key_beq k j && bool_beq (is_some a.result) (is_some b.result) && same_journal as' bs
same_journal _ _ = false

-- before === revision()
unfoldable pub same_revision : Cloud → Cloud → Bool
unfolding same_journal
same_revision a b =
    nat_beq a.generation b.generation
    && bool_beq a.deleted b.deleted
    && same_journal a.operations b.operations

abbrev pub unknown_answer : Option Described
unknown_answer = some (record {
  status = RuntimeStatus.unknown;
  disk_id = none;
  ssh_host = "";
  ssh_port = none;
  display_host = "";
  display_port = none;
})

-- `describe` with the record's cloud part as it was before the runtime was asked, and the record
-- when it answered (none: it threw).
unfoldable pub describe_after :
    ℕ → Cloud → Record → Cloud → Option Described → Option OperationKey → HostDescription
unfolding same_revision host_description
describe_after now before r c answer settling =
    host_description now r c (if same_revision before c then answer else unknown_answer) settling
