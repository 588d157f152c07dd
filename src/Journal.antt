-- ===== src/Journal.antt =====
-- The journal of `HostApi.mutate` (src/host-api.js): the tests that admit a command, and what is
-- written to a record for it. Each test is made in the order of the source.
pub mod Resumption
use mathlib.Core.Option
use hyperwake_core.Prelude.{
  ℕ, String, Bool, true, false, not, ◌&&◌, ◌||◌, Option, none, some, List, [], ◌∷◌, ltb, nat_beq,
  str_eq, string_eq, any, is_some, or_else, lookup, insert, if◌then◌else◌,
}
use hyperwake_core.Json.{Json, str, as_index, json_beq}
use hyperwake_core.Json.Fingerprint.{body_beq}
use hyperwake_core.Exec.{Failure, Outcome, ok, thrown, fail, fail_if, and_then}
use hyperwake_core.Records.{
  Verb, create, start, destroy, verb_beq, OperationKey, key_eq, Operation, Cloud, Record, Spec,
  Described, DesiredState, Reply, Payload, described, removed, refused,
}
use hyperwake_core.Registry
use hyperwake_core.Runtime.{has_status}
use hyperwake_core.Request.{Request}

-- The fields of a HostApi object that its methods read.
pub record Settings : Type 0 where
  pub public_key : String
  pub image_ref : String

abbrev pub machine_not_found : Failure
machine_not_found = record {
  status = some 404;
  message = "No such managed machine.";
  code = some "machine_not_found";
}

-- record?.cloud
abbrev pub cloud_of : Option Record → Option Cloud
cloud_of none = none
cloud_of (some r) = r.cloud

-- record?.cloud?.operations?.[key], beside the cloud part that holds it
unfoldable pub operation_in : OperationKey → Option Cloud → Option (Cloud × Operation)
unfolding lookup
operation_in key none = none
operation_in key (some c) = elim (lookup key c.operations) [ none ↦ none | some o ↦ some (c, o) ]

-- incarnation_generation && generation < incarnation_generation
unfoldable pub is_retired : ℕ → Option Cloud → Bool
is_retired generation none = false
is_retired generation (some c) = elim c.incarnation_generation [
  | none ↦ false
  | some n ↦ ltb generation n
]

abbrev pub is_fenced : Option Cloud → Bool
is_fenced none = false
is_fenced (some c) = c.fenced

abbrev pub is_unsettled : OperationKey × Operation → Bool
is_unsettled e = not (is_some e.1.result)

-- payload.generation of a journal entry
abbrev pub payload_generation : Operation → Option ℕ
payload_generation o = as_index (lookup "generation" o.fingerprint)

abbrev pub is_generation : ℕ → Option ℕ → Bool
is_generation n none = false
is_generation n (some m) = nat_beq m n

abbrev pub is_verb : Verb → Option Verb → Bool
is_verb v none = false
is_verb v (some w) = verb_beq w v

-- The answer of a destroy that removed the disk.
abbrev pub removed_disk : Option Reply → Bool
removed_disk none = false
removed_disk (some reply) = elim reply.payload [
  | removed r ↦ not (is_some r.disk_id)
  | described d ↦ false
  | refused m ↦ false
  | Payload.stored j ↦ false
]

abbrev pub asks_deletion : Operation → Bool
asks_deletion o = elim (lookup "delete_disk" o.fingerprint) [
  | none ↦ false
  | some v ↦ json_beq v (Json.bool true)
]

-- A completed destroy of this generation that asked for the disk's deletion and reported it.
unfoldable pub confirms_removal : ℕ → OperationKey × Operation → Bool
unfolding lookup as_index json_beq
confirms_removal generation e =
    is_verb destroy e.1.verb
    && is_generation generation (payload_generation e.1)
    && asks_deletion e.1
    && removed_disk e.1.result

-- An entry of this generation that is neither a create nor names an image.
unfoldable pub is_prior_intent : ℕ → OperationKey × Operation → Bool
unfolding lookup as_index
is_prior_intent generation e =
    is_generation generation (payload_generation e.1)
    && not (is_verb create e.1.verb)
    && not (is_some (lookup "image_ref" e.1.fingerprint))

-- The branch `if (existing)`.
unfoldable pub resume : Request → Cloud → Operation → Outcome (Option Reply)
unfolding body_beq
resume q c existing =
    if not (body_beq existing.fingerprint q.fingerprint)
    then fail 409 "Operation ID was already used with a different payload."
    else elim existing.result [
      | some reply ↦ ok (some reply)
      | none ↦
          and_then
            (fail_if (not (nat_beq q.generation c.generation)) 409
              "Pending operation was superseded.")
            (λ _. ok none)
    ]

-- The branch `else` for a verb that needs a machine.
unfoldable pub admit : Request → Option Record → Outcome Cloud
unfolding is_prior_intent
admit q none = thrown machine_not_found
admit q (some r) = elim r.cloud [
  | none ↦ fail 409 "ID belongs to a local machine."
  | some c ↦
      if c.deleted
      then thrown machine_not_found
      else if ltb q.generation c.generation
      then fail 409 "Stale boot generation."
      else if verb_beq q.key.verb start
          && nat_beq q.generation c.generation
          && any (is_prior_intent q.generation) c.operations
      then fail 409 "A new start requires a new boot generation."
      else if any is_unsettled c.operations
      then fail 409 "A pending operation must be reconciled first."
      else ok c
]

abbrev names_image : String → Option Json → Bool
names_image image none = false
names_image image (some v) = json_beq v (str image)

-- What a create finds under its id: nothing, or the journal of a machine whose disk is confirmed
-- gone and whose id is to be used again.
pub data Claim : Type 0 where
  fresh : Claim
  again : List (OperationKey × Operation) → Claim

-- The tests of the branch `else` for create that come before any call of the runtime.
unfoldable pub claim : Settings → Request → Option Record → Outcome Claim
unfolding json_beq confirms_removal
claim settings q r =
    if not (names_image settings.image_ref q.image_ref)
    then fail 409 "Requested image is not installed on this host."
    else elim r [
      | none ↦ ok fresh
      | some x ↦ elim x.cloud [
        | none ↦ fail 409 "ID belongs to a local machine."
        | some c ↦
            if q.recreate
              && c.deleted
              && any (confirms_removal c.generation) c.operations
              && ltb c.generation q.generation
            then ok (again c.operations)
            else fail 409
                "Machine ID is already reserved; re-creation requires confirmed disk deletion and a higher generation."
      ]
    ]

abbrev pub held : String → List String → Bool
held id ids = any (str_eq id) ids

-- What the runtime's answer about a retired machine means.
unfoldable pub check_gone : Outcome Described → Outcome (Unit {0})
check_gone (ok _) = fail 409 "Retired machine still exists in the runtime."
check_gone (thrown e) = if has_status 404 e then ok tt else thrown e

abbrev pub operations_of : Claim → List (OperationKey × Operation)
operations_of fresh = []
operations_of (again operations) = operations

abbrev pub incarnation_of : Claim → ℕ → Option ℕ
incarnation_of fresh generation = none
incarnation_of (again operations) generation = some generation

abbrev no_spec : Spec
no_spec = record { name = ""; vcpus = 0; memory_mb = 0; disk_gb = 0 }

-- The record that a create makes.
unfoldable pub managed_record : Settings → String → ℕ → String → Request → Claim → Record
unfolding Registry.new_record
managed_record settings id now token q c =
    let spec = or_else q.spec no_spec in
    record (Registry.new_record id now token spec) {
      authorized_keys = some (settings.public_key ∷ []);
      desired_state = some DesiredState.stopped;
      cloud = some (record {
        image_ref = settings.image_ref;
        operations = operations_of c;
        create_spec = spec;
        incarnation_generation = incarnation_of c q.generation;
        generation = q.generation;
        deleted = false;
        fenced = false;
        previous_boot_ids = [];
        boot_requested_at = none;
        ssh_gateway_key = none;
      });
    }

-- A write through `record.cloud`.
abbrev pub in_cloud : (Cloud → Cloud) → Record → Record
in_cloud f r = record r { cloud = Option.map f r.cloud }

-- A write through `record.cloud.operations[key]`.
unfoldable pub in_operation : OperationKey → (Operation → Operation) → Cloud → Cloud
unfolding lookup insert
in_operation key f c = elim (lookup key c.operations) [
  | none ↦ c
  | some o ↦ record c { operations = insert key (f o) c.operations }
]

-- The entry of a new intent, with the generation that it brings.
unfoldable pub intend : ℕ → Request → Record → Record
unfolding insert
intend now q r =
    record (in_cloud
      (λ c. record c {
        generation = q.generation;
        operations =
            insert q.key
              (record {
                fingerprint = q.fingerprint;
                verb = some q.key.verb;
                pending_at = now;
                boot_prepared = false;
                result = none;
              })
              c.operations;
      })
      r) { runtime_generation = some q.generation }

-- xs.concat([x])
abbrev pub snoc : List String → String → List String
snoc [] x = x ∷ []
snoc (y ∷ ys) x = y ∷ snoc ys x

abbrev pub settled_with : Reply → Operation → Operation
settled_with reply o = record o { result = some reply }

-- [...new Set([...previous, boot_id].filter(Boolean))]; `previous` is such a list itself.
abbrev pub remembered : Option String → List String → List String
remembered none ids = ids
remembered (some b) ids = if str_eq b "" || any (str_eq b) ids then ids else snoc ids b

-- The preparation of a boot: what the last boot reported is dropped, and its id remembered.
unfoldable pub prepare_boot : ℕ → OperationKey → Record → Record
unfolding in_operation
prepare_boot now key r =
    record (in_cloud
      (λ c.
        in_operation key (λ o. record o { boot_prepared = true })
          (record c {
            previous_boot_ids = remembered r.boot_id c.previous_boot_ids;
            boot_requested_at = some now;
          }))
      r) { last_heartbeat_at = none; capabilities = none; boot_id = none }

abbrev pub is_prepared : Option Operation → Bool
is_prepared none = false
is_prepared (some o) = o.boot_prepared

-- A refusal that the native runner makes before it writes launch intent.
abbrev pub is_refusal : Failure → Bool
is_refusal e =
    has_status 422 e
    && (str_eq e.message "Native host memory limit reached"
        || str_eq e.message "Native host running-computer limit reached")

abbrev pub deleted_cloud : Cloud → Cloud
deleted_cloud c = record c { deleted = true }

-- What a completed destroy leaves of the record: a tombstone with its journal.
abbrev pub tombstone : Record → Record
tombstone r = record (in_cloud deleted_cloud r) {
  registration_token = none;
  machine_token_hash = none;
}
