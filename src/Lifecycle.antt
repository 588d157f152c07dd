-- ===== src/Lifecycle.antt =====
-- `HostApi.mutate` of src/host-api.js: the lifecycle commands of the control plane, and
-- `HostApi.describe`.
--
-- The function is cut at its phases: the checks that read the journal (`accept`), the journal entry
-- (`journal`), the runtime work (`work`) and the settling of the entry (`conclude`). An
-- `Option Reply` is an early return: none goes on.
pub mod Entry
pub mod Calls
pub mod Steps
pub mod Intent
pub mod Entering
pub mod Order
use mathlib.Core.Option
use hyperwake_core.Prelude.{
  ℕ, String, Bool, true, false, not, ◌&&◌, Option, none, some, List, [], ◌∷◌, str_eq, any,
  if◌then◌else◌,
}
use hyperwake_core.Json.{Json, Body}
use hyperwake_core.Exec.{
  Failure, Outcome, ok, thrown, fail, fail_if, and_then, Exec, pure, throw, lift, gets, attempt,
  ◌>>=◌, ◌>>◌,
}
use hyperwake_core.Records.{
  Verb, create, start, shutdown, force_stop, destroy, verb_beq, OperationKey, Operation, Cloud,
  Record, Spec, Described, DesiredState, Reply, Payload, HostDescription, described, removed,
  refused,
}
use hyperwake_core.Registry
use hyperwake_core.Registry.{Registry}
use hyperwake_core.Tickets.{revoke_desktop, revoke_ssh}
use hyperwake_core.Engine
use hyperwake_core.Engine.{Host, Engine, registry_of, send, list, random, clock, write}
use hyperwake_core.Runtime.{is_stopped, settle}
use hyperwake_core.Description.{describe_after, is_unknown}
use hyperwake_core.Request.{Request, check_request}
use hyperwake_core.Guest.{desire}
use hyperwake_core.Journal.{
  Settings, cloud_of, operation_in, is_retired, is_fenced, is_unsettled, resume, admit, Claim,
  fresh, again, claim, held, check_gone, operations_of, managed_record, in_cloud, in_operation,
  intend, settled_with, prepare_boot, is_prepared, is_refusal, tombstone,
}

-- record.field = … through the reference, not flushed
abbrev pub assign : {W : Type 0} → String → (Record → Record) → Exec (Engine W) (Unit {0})
assign id f = write (Registry.modify id f)

-- this.registry.update(id, patch)
abbrev pub update : {W : Type 0} → String → (Record → Record) → Exec (Engine W) (Unit {0})
update id f = write (Registry.update id f)

abbrev pub flush : {W : Type 0} → Exec (Engine W) (Unit {0})
flush = write Registry.flush

-- revokeDesktop(id); revokeSsh(id)
unfoldable pub revoke : {W : Type 0} → String → Exec (Engine W) (Unit {0})
unfolding revoke_desktop revoke_ssh
revoke id e = (ok tt, record e { desktop = revoke_desktop id e.desktop; ssh = revoke_ssh id e.ssh })

abbrev pub current : {W : Type 0} → String → Engine W → Option Record
current id e = Registry.get (registry_of e) id

-- `record` and `record.cloud`; reading a field of what is not there is a TypeError.
unfoldable pub managed : Option Record → Outcome (Record × Cloud)
managed none = thrown (record { status = none; message = "TypeError"; code = none })
managed (some r) = elim r.cloud [
  | none ↦ thrown (record { status = none; message = "TypeError"; code = none })
  | some c ↦ ok (r, c)
]

abbrev pub answer_of : Outcome Described → Option Described
answer_of (ok d) = some d
answer_of (thrown e) = none

-- The record through the reference, as it is now.
unfoldable pub reread : {W : Type 0} → String → Exec (Engine W) (Record × Cloud)
unfolding managed
reread id e = (managed (current id e), e)

module _ {W : Type 0} (host : Host W) (id : String) where
  -- HostApi.describe(record, settledOperationKey)
  unfoldable pub describe : Option OperationKey → Exec (Engine W) HostDescription
  describe settling = do
    (_, before) ← reread id
    answer ← attempt (Engine.describe host id)
    (r, c) ← reread id
    now ← clock host
    pure (describe_after now before r c (answer_of answer) settling)

  -- operation.result = result; this.registry.flush(); return result
  unfoldable pub conclude : OperationKey → Reply → Exec (Engine W) Reply
  conclude key reply = do
    assign id (in_cloud (in_operation key (settled_with reply)))
    flush
    pure reply

  -- record.cloud.generation = …; record.cloud.operations[key] = …; this.registry.flush()
  unfoldable pub journal : Request → Exec (Engine W) (Unit {0})
  journal q = do now ← clock host; assign id (intend now q); flush

  -- The calls of the runtime that show a retired machine to be gone.
  unfoldable pub check_retired : Claim → Exec (Engine W) (Unit {0})
  check_retired fresh = pure tt
  check_retired (again operations) = do
    ids ← list host
    lift (fail_if (held id ids) 409 "Retired machine is still held by the runtime.")
    answer ← attempt (Engine.describe host id)
    lift (check_gone answer)

  -- The rest of the branch `else` for create: the new record, in memory.
  unfoldable pub accept_create : Settings → Request → Claim → Exec (Engine W) (Unit {0})
  accept_create settings q c = do
    check_retired c
    lift (
        fail_if (any is_unsettled (operations_of c)) 409
          "A pending operation must be reconciled first.")
    ids ← list host
    lift (fail_if (held id ids) 409 "ID is already held by the runtime.")
    token ← random host
    now ← clock host
    write (λ r. Registry.put r id (managed_record settings id now token q c))

  -- The branch `else`, for create (true) and for the verbs that need a machine.
  unfoldable pub accept_as : Settings → Request → Option Record → Bool → Exec (Engine W) (Unit {0})
  accept_as settings q r true = do c ← lift (claim settings q r); accept_create settings q c
  accept_as settings q r false = do lift (admit q r); pure tt

  unfoldable pub accept : Settings → Request → Option Record → Exec (Engine W) (Unit {0})
  accept settings q r = accept_as settings q r (verb_beq q.key.verb create)

  -- An entry of the journal is resumed; any other command is accepted and entered.
  unfoldable pub enter :
      Settings
      → Request
      → Option Record
      → Option (Cloud × Operation)
      → Exec (Engine W) (Option Reply)
  enter settings q r (some (c, o)) = lift (resume q c o)
  enter settings q r none = do accept settings q r; journal q; pure none

  unfoldable pub work_create : Settings → Exec (Engine W) (Option Reply)
  work_create settings = do
    (r, c) ← reread id
    lift (
        fail_if (not (str_eq c.image_ref settings.image_ref)) 409
          "Pending create requires its original installed image.")
    send host (Engine.create id c.create_spec r.registration_token r.authorized_keys)
    pure none

  -- What `start` does with the outcome of the launch.
  unfoldable pub after_launch : OperationKey → Outcome Json → Exec (Engine W) (Option Reply)
  after_launch key (ok _) = pure none
  after_launch key (thrown e) =
      if is_refusal e
      then (do
        assign id (desire DesiredState.stopped)
        reply ← conclude key (record { status = 422; payload = refused e.message })
        pure (some reply))
      else throw e

  unfoldable pub work_start : OperationKey → Exec (Engine W) (Option Reply)
  work_start key = do
    d ← Engine.describe host id
    lift (fail_if (is_unknown d.status) 409 "Machine state is uncertain.")
    (_, c) ← reread id
    now ← clock host
    if not (is_prepared (Option.map (λ e. e.1) (operation_in key (some c)))) && is_stopped d.status
        then assign id (prepare_boot now key)
        else pure tt
    assign id (desire DesiredState.running)
    flush
    launched ← attempt (send host (Engine.start_machine id))
    after_launch key launched

  -- The runtime work of one command. A reply is one that is settled already.
  unfoldable pub work : Settings → Request → Verb → Exec (Engine W) (Option Reply)
  work settings q create = work_create settings
  work settings q start = work_start q.key
  work settings q shutdown = do
    update id (desire DesiredState.stopped)
    send host (Engine.shutdown id)
    pure none
  work settings q force_stop = do
    update id (desire DesiredState.stopped)
    send host (Engine.force_stop id)
    pure none
  work settings q _ = do
    update id (desire DesiredState.stopped)
    settle host id true
    send host (Engine.destroy id q.delete_disk)
    assign id tombstone
    pure none

  -- The data of the reply.
  unfoldable pub report : Request → Verb → Exec (Engine W) Payload
  report q destroy = pure (
      removed (record {
        id = id;
        disk_id = if q.delete_disk then none else some id;
        generation = q.generation;
      }))
  report q _ = do d ← describe (some q.key); pure (described d)

  unfoldable pub finish : Request → Option Reply → Exec (Engine W) Reply
  finish q (some reply) = pure reply
  finish q none = do
    payload ← report q q.key.verb
    conclude q.key
        (record { status = if verb_beq q.key.verb create then 201 else 200; payload = payload })

  unfoldable pub proceed : Settings → Request → Option Reply → Exec (Engine W) Reply
  proceed settings q (some reply) = pure reply
  proceed settings q none = do
    if verb_beq q.key.verb create then pure tt else revoke id
    early ← work settings q q.key.verb
    finish q early

  -- The tests that stand before the journal is read.
  unfoldable pub check_incarnation : Request → Option Record → Outcome (Unit {0})
  check_incarnation q r =
      and_then
        (fail_if (is_retired q.generation (cloud_of r)) 409
          "Operation belongs to a retired machine incarnation.")
        λ _.
          fail_if (verb_beq q.key.verb start && is_fenced (cloud_of r)) 409
            "Machine is fenced and cannot start on this host."

  unfoldable pub mutate : Settings → Verb → Body → Exec (Engine W) Reply
  mutate settings verb body = do
    now ← clock host
    q ← lift (check_request now verb body)
    r ← gets (current id)
    lift (check_incarnation q r)
    early ← enter settings q r (operation_in q.key (cloud_of r))
    proceed settings q early
