-- ===== src/Storage.antt =====
-- `storageOperation` of src/host-storage.js: snapshots, restores and the fence of a machine, under
-- the journal that `mutate` keeps.
--
-- An `Option Reply` is an early return: none goes on. The fields of a body are tested by `member` of
-- the object, which is given as the list of its fields. A snapshot_id or a sha256 that is no text is
-- read as the empty text.
pub mod Fences
use mathlib.Core.Option
use hyperwake_core.Prelude.{
  ℕ, String, Bool, true, false, not, ◌&&◌, ◌||◌, Option, none, some, List, [], ◌∷◌, ltb, leb,
  nat_beq, str_eq, string_eq, any, is_some, or_else, lookup, insert, if◌then◌else◌,
}
use hyperwake_core.Json.{Json, Body, str, as_string, as_index}
use hyperwake_core.Json.Fingerprint.{stable, body_beq}
use hyperwake_core.Exec.{
  Failure, Outcome, ok, thrown, fail, fail_if, and_then, Exec, pure, throw, lift, gets, attempt,
  ◌>>=◌, ◌>>◌,
}
use hyperwake_core.Records.{
  Verb, snapshot, restore, snapshot_delete, snapshot_import, snapshot_write, snapshot_read,
  snapshot_seal, fence, verb_beq, OperationKey, Operation, Cloud, Record, DesiredState, Reply,
  stored,
}
use hyperwake_core.Text.{is_uuid, is_sha256, units_of}
use hyperwake_core.Engine
use hyperwake_core.Engine.{Host, Engine, send, random, clock}
use hyperwake_core.Runtime.{is_stopped}
use hyperwake_core.Request.{Request, generation_of, operation_id_of, only_fields, needed}
use hyperwake_core.Journal.{
  cloud_of, operation_in, is_retired, is_unsettled, resume, intend, in_cloud, in_operation,
  settled_with, machine_not_found,
}
use hyperwake_core.Lifecycle.{assign, flush, revoke, current, reread, conclude}

-- Math.ceil(8 MiB / 3) * 4
abbrev pub max_chunk : ℕ
max_chunk = 11184812

abbrev pub is_chunk : Verb → Bool
is_chunk snapshot_write = true
is_chunk snapshot_read = true
is_chunk _ = false

-- fields[verb], and the two of every operation that is not a chunk
abbrev pub storage_fields : Verb → List String
storage_fields snapshot_write = "snapshot_id" ∷ "offset" ∷ "data" ∷ "sha256" ∷ []
storage_fields snapshot_read = "snapshot_id" ∷ "offset" ∷ []
storage_fields snapshot_import = "snapshot_id" ∷ "manifest" ∷ "operation_id" ∷ "generation" ∷ []
storage_fields fence = "operation_id" ∷ "generation" ∷ []
storage_fields _ = "snapshot_id" ∷ "operation_id" ∷ "generation" ∷ []

abbrev pub text_field : Body → String → String
text_field body k = or_else (as_string (lookup k body)) ""

-- typeof data === 'string' && data.length <= SNAPSHOT_CHUNK_ENCODED_BYTES
abbrev pub fits : Option String → Bool
fits none = false
fits (some text) = leb (units_of text) max_chunk

-- What a write must carry.
unfoldable pub lacks_chunk : Verb → Body → Bool
unfolding lookup as_string is_sha256 units_of
lacks_chunk verb body =
    verb_beq verb snapshot_write
    && (not (fits (as_string (lookup "data" body))) || not (is_sha256 (text_field body "sha256")))

-- The checks of every operation, in the order of the source.
unfoldable pub check_fields : Verb → Body → Outcome (Unit {0})
unfolding lookup as_string is_uuid
check_fields verb body =
    and_then
      (fail_if (not (only_fields (storage_fields verb) body)) 400
        "Unknown storage operation field.")
      λ _.
        fail_if (not (verb_beq verb fence) && not (is_uuid (text_field body "snapshot_id"))) 400
          "snapshot_id must be a UUID."

unfoldable pub check_chunk : Verb → Body → Outcome (Unit {0})
unfolding lookup as_index lacks_chunk
check_chunk verb body =
    and_then
      (fail_if (not (is_some (as_index (lookup "offset" body)))) 400
        "offset must be a nonnegative integer.")
      λ _. fail_if (lacks_chunk verb body) 400 "Invalid snapshot chunk."

-- The request of an operation that is not a chunk.
unfoldable pub check_storage : Verb → Body → Outcome Request
unfolding generation_of operation_id_of stable
check_storage verb body =
    and_then (needed "generation must be a positive integer." (generation_of body)) λ generation.
      and_then (needed "operation_id is required." (operation_id_of body)) λ operation_id.
        ok (record {
          key = record { verb = verb; operation_id = operation_id };
          generation = generation;
          fingerprint = stable body;
          spec = none;
          image_ref = none;
          recreate = false;
          delete_disk = false;
        })

-- The tests of the branch `else` before the runtime is asked.
unfoldable pub admit_storage : Request → Cloud → Outcome (Unit {0})
admit_storage q c =
    and_then (fail_if (ltb q.generation c.generation) 409 "Stale boot generation.") λ _.
      fail_if (any is_unsettled c.operations) 409 "A pending operation must be reconciled first."

abbrev pub needs_stop : Verb → Bool
needs_stop verb = verb_beq verb snapshot || verb_beq verb restore

abbrev pub fenced_cloud : Cloud → Cloud
fenced_cloud c = record c { fenced = true }

-- What the intent changes of the record, beside its entry: a fence fences, and a restore resets the
-- registration of the guest under a new token.
unfoldable pub marked : Verb → String → Record → Record
marked fence token r = record (in_cloud fenced_cloud r) {
  desired_state = some DesiredState.stopped;
}
marked restore token r = record r {
  registration_token = some token;
  machine_token_hash = none;
  boot_id = none;
  capabilities = none;
  last_heartbeat_at = none;
  desired_state = some DesiredState.stopped;
}
marked _ token r = r

-- api.record(id): a machine of the control plane's that is no tombstone
unfoldable pub alive : Option Cloud → Outcome Cloud
alive none = thrown machine_not_found
alive (some c) = if c.deleted then thrown machine_not_found else ok c

module _ {W : Type 0} (host : Host W) (id : String) where
  -- (await runtime.describe(id)).status !== 'stopped'
  unfoldable pub check_stopped : Verb → Exec (Engine W) (Unit {0})
  check_stopped verb =
      if needs_stop verb
      then (do
        d ← Engine.describe host id
        lift (fail_if (not (is_stopped d.status)) 409 "Stop the computer first."))
      else pure tt

  -- randomUUID() is read by a restore only.
  unfoldable pub token_for : Verb → Exec (Engine W) String
  token_for restore = random host
  token_for _ = pure ""

  unfoldable pub enter_storage :
      Request → Cloud → Option (Cloud × Operation) → Exec (Engine W) (Option Reply)
  enter_storage q c (some (c', o)) = lift (resume q c' o)
  enter_storage q c none = do
    lift (admit_storage q c)
    check_stopped q.key.verb
    now ← clock host
    token ← token_for q.key.verb
    assign id (intend now q)
    assign id (marked q.key.verb token)
    flush
    pure none

  -- Revocation, the runtime's work, and the settling of the entry.
  unfoldable pub reseed : Verb → Exec (Engine W) (Unit {0})
  reseed restore = do
    (r, c) ← reread id
    send host (Engine.reseed id r.registration_token r.authorized_keys r.name)
    pure tt
  reseed _ = pure tt

  unfoldable pub proceed_storage : Request → Body → Option Reply → Exec (Engine W) Reply
  proceed_storage q body (some reply) = pure reply
  proceed_storage q body none = do
    if verb_beq q.key.verb restore || verb_beq q.key.verb fence then revoke id else pure tt
    answer ← send host (Engine.storage id q.key.verb body)
    reseed q.key.verb
    conclude host id q.key (record {
      status = if verb_beq q.key.verb snapshot then 201 else 200;
      payload = stored answer;
    })

  -- A chunk: nothing is journalled.
  unfoldable pub chunk_operation : Verb → Body → Exec (Engine W) Reply
  chunk_operation verb body = do
    lift (check_chunk verb body)
    answer ← send host (Engine.storage id verb body)
    pure (record { status = 200; payload = stored answer })

  unfoldable pub journalled_operation : Cloud → Verb → Body → Exec (Engine W) Reply
  journalled_operation c verb body = do
    q ← lift (check_storage verb body)
    lift (
        fail_if (is_retired q.generation (some c)) 409
          "Operation belongs to a retired machine incarnation.")
    early ← enter_storage q c (operation_in q.key (some c))
    proceed_storage q body early

  unfoldable pub storage_operation : Verb → Body → Exec (Engine W) Reply
  storage_operation verb body = do
    r ← gets (current id)
    c ← lift (alive (cloud_of r))
    lift (check_fields verb body)
    if is_chunk verb then chunk_operation verb body else journalled_operation c verb body
