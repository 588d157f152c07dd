-- ===== src/Server.antt =====
-- The public machine routes of src/server.js that make and remove machines, and the adoption of what
-- the runtime holds.
--
-- The answers are data; the HTTP status and the texts around them are constant. The runtime's ids
-- and the random ids are texts.
pub mod Machines
pub mod Adoption
use mathlib.Core.Option
use hyperwake_core.Prelude.{
  ℕ, String, Bool, true, false, not, Option, none, some, List, [], ◌∷◌, any, length, nat_beq,
  str_eq, if◌then◌else◌,
}
use Prim.Native.String.{◌++◌ as append}
use hyperwake_core.Json.{Json, truthy, member}
use hyperwake_core.Exec.{
  Failure, Outcome, ok, thrown, Exec, pure, throw, lift, gets, attempt, ◌>>=◌, ◌>>◌,
}
use hyperwake_core.Records.{Record, Spec, DesiredState, Described}
use hyperwake_core.Registry
use hyperwake_core.Registry.{Registry}
use hyperwake_core.Api.{Presented, present, validate_spec}
use hyperwake_core.Text.{take_units}
use hyperwake_core.Guest.{desire}
use hyperwake_core.Runtime.{settle}
use hyperwake_core.Engine
use hyperwake_core.Engine.{Host, Engine, registry_of, send, random, clock, write, list}

pub data Response : Type 0 where
  -- 201 of a create, 200 of a start or a stop
  shown : Option Presented → Response
  -- 200, { id, status: 'deleted' }
  deleted : String → Response
  -- 502, with the runtime's message
  not_destroyed : String → Response

-- { needs_cleanup: true, cleanup_reason }
abbrev pub needs_cleanup : String → Record → Record
needs_cleanup reason r = record r { needs_cleanup = true; cleanup_reason = some reason }

-- registry.update(id, patch)
abbrev pub patch : {W : Type 0} → String → (Record → Record) → Exec (Engine W) (Unit {0})
patch id f = write (Registry.update id f)

-- The `describe` of the server: null where the runtime threw.
abbrev pub or_null : Outcome Described → Option Described
or_null (ok d) = some d
or_null (thrown e) = none

abbrev pub held_record : {W : Type 0} → String → Engine W → Option Record
held_record id e = Registry.get (registry_of e) id

no_spec : Spec
no_spec = record { name = ""; vcpus = 0; memory_mb = 0; disk_gb = 0 }

-- The record of a machine that the runtime holds and the registry has forgotten.
unfoldable pub adopted_record : ℕ → String → Record
unfolding take_units Registry.new_record no_spec
adopted_record now id = record (Registry.new_record id now "" no_spec) {
  name = append "adopted-" (take_units 8 id);
  registration_token = none;
  adopted = true;
}

-- known.has(id), by the ids of the records
abbrev pub is_known : String → List Record → Bool
is_known id records = any (λ r. str_eq r.id id) records

-- The loop over the ids that the runtime holds; `known` was taken before it.
unfoldable pub adopt : ℕ → List Record → List String → Registry → Registry
unfolding adopted_record
adopt now known [] r = r
adopt now known (id ∷ ids) r =
    adopt now known ids (if is_known id known then r else Registry.put r id (adopted_record now id))

-- if (Object.keys(registry.records).length !== known.size) registry.flush()
unfoldable pub reconcile : ℕ → List String → Registry → Registry
unfolding adopt Registry.all Registry.flush
reconcile now ids r =
    let known = Registry.all r in
    let after = adopt now known ids r in
    if nat_beq (length after.records) (length known) then after else Registry.flush after

module _ {W : Type 0} (host : Host W) where
  -- present(registry.get(id), await describe(id)): the record is a reference, and its fields are read
  -- after the await.
  unfoldable pub show : String → Exec (Engine W) Response
  show id = do
    answer ← attempt (Engine.describe host id)
    r ← gets (held_record id)
    now ← clock host
    pure (shown (Option.map (λ x. present now x (or_null answer)) r))

  -- await runtime.settle(id); await runtime.destroy(id, true)
  unfoldable pub tear_down : String → Exec (Engine W) Json
  tear_down id = do settle host id false; send host (Engine.destroy id true)

  -- What a delete does with the outcome of the teardown.
  unfoldable pub after_tear_down : String → Outcome Json → Exec (Engine W) Response
  after_tear_down id (thrown e) = do
    patch id (needs_cleanup e.message)
    pure (not_destroyed e.message)
  after_tear_down id (ok v) = do write (Registry.remove id); pure (deleted id)

  -- DELETE /v1/machines/{id}
  unfoldable pub delete_machine : String → Exec (Engine W) Response
  delete_machine id = do torn ← attempt (tear_down id); after_tear_down id torn

  -- What the rollback of a create does with the outcome of its own teardown.
  unfoldable pub after_rollback : String → Outcome Json → Exec (Engine W) (Unit {0})
  after_rollback id (thrown e) = patch id (needs_cleanup "create failed and rollback failed")
  after_rollback id (ok v) = write (Registry.remove id)

  -- What a create does with the outcome of the runtime's create and start.
  unfoldable pub after_launch : String → Outcome Json → Exec (Engine W) Response
  after_launch id (ok v) = show id
  after_launch id (thrown e) = do torn ← attempt (tear_down id); after_rollback id torn; throw e

  unfoldable pub launch : String → String → Spec → String → Exec (Engine W) Json
  launch public_key id spec token = do
    send host (Engine.create id spec (some token) (some (public_key ∷ [])))
    send host (Engine.start_machine id)

  abbrev pub authorize : String → Record → Record
  authorize public_key r = record r { authorized_keys = some (public_key ∷ []) }

  -- POST /v1/machines
  unfoldable pub create_machine : String → Json → Exec (Engine W) Response
  create_machine public_key body = do
    now ← clock host
    spec ← lift (validate_spec now body)
    id ← random host
    token ← random host
    write (Registry.create id now token spec)
    patch id (authorize public_key)
    launched ← attempt (launch public_key id spec token)
    after_launch id launched

  -- POST /v1/machines/{id}/start
  unfoldable pub start_machine : String → Exec (Engine W) Response
  start_machine id = do
    send host (Engine.start_machine id)
    patch id (desire DesiredState.running)
    show id

  -- POST /v1/machines/{id}/stop
  unfoldable pub stop_machine : String → Json → Exec (Engine W) Response
  stop_machine id body = do
    patch id (desire DesiredState.stopped)
    send host (if truthy (member body "force") then Engine.force_stop id else Engine.shutdown id)
    show id
