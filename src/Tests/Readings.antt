-- ===== src/Tests/Readings.antt =====
-- Readings of one machine, the guest protocol and the request checks, run on small inputs.
use hyperwake_core.Prelude.{String, arith, ◌≡◌, ◌≢◌, ◌↔◌, refl, true, none, some, [], pos}
use hyperwake_core.Json.{Json, field, end, obj, str}
use hyperwake_core.Records.{Cloud, Described, RuntimeStatus}
use hyperwake_core.Registry.{get, all}
use hyperwake_core.Api.{ready, booting, present, validate_spec}
use hyperwake_core.Api.Bounds.{IsAllowed, IsAsked, validate_spec-IsAllowed}
use hyperwake_core.Api.Status.{HasCheckedIn, present_undescribed}
use hyperwake_core.Guest.{
  GuestMessage, heartbeat_path, register_path, authenticate, bearer_of, guest_request,
}
use hyperwake_core.Guest.Isolation.{
  SamePlatform, guest_request-SamePlatform, guest_request_own_machine,
}
use hyperwake_core.Description.{host_description, describe_after, same_revision, pending_operations}
use hyperwake_core.Description.Readiness.{HasShown, ready-HasShown, describe_after-stopped}
use hyperwake_core.Tests.Sample.{
  running_machine, stopped_machine, local_record, cloud_with, machine, guests_with, registry_with,
  small,
}

abbrev idle : Cloud
idle = cloud_with []

ready-HasShown_example : HasShown 1000000 (machine idle) idle (some running_machine) none
unfolding host_description
ready-HasShown_example = ready-HasShown 1000000 (machine idle) idle (some running_machine) none refl

describe_after-stopped_example :
    (same_revision idle idle ≡ true)
    × (pending_operations none idle.operations ≡ [])
    × ((d : Described) × (some stopped_machine ≡ some d) × (d.status ≡ RuntimeStatus.stopped))
unfolding describe_after
describe_after-stopped_example =
    describe_after-stopped 1000000 idle (machine idle) idle (some stopped_machine) none refl

abbrev newer : Cloud
newer = record idle { generation = 4 }

abbrev self : String → String
self s = s

abbrev stranger : GuestMessage
stranger = record {
  at = 1000000;
  random = "token";
  path = heartbeat_path;
  authorization = some "Bearer nobody";
  body = Json.null;
}

abbrev own : GuestMessage
own = record stranger { authorization = some "Bearer bearer" }

is_heartbeat : stranger.path ≢ register_path
is_heartbeat = λ e. absurd (cc)

guest_request-SamePlatform_example :
    SamePlatform
      (guest_request self own (guests_with local_record)).1.registry
      (registry_with local_record)
guest_request-SamePlatform_example = guest_request-SamePlatform self own (guests_with local_record)

guest_request_own_machine_example :
    get (guest_request self own (guests_with local_record)).1.registry "other"
    ≡ get (registry_with local_record) "other"
unfolding authenticate bearer_of all
guest_request_own_machine_example =
    guest_request_own_machine self own (guests_with local_record) local_record "other" is_heartbeat
      refl (λ e. absurd (cc))

abbrev sizes : Json
sizes = obj (
    field "name" (str "box") (
      field "vcpus" (Json.int (pos 2))
        (field "memory_mb" (Json.int (pos 2048)) (field "disk_gb" (Json.int (pos 20)) end))))

validate_spec-IsAllowed_example : IsAllowed small × IsAsked sizes small
unfolding validate_spec
validate_spec-IsAllowed_example = validate_spec-IsAllowed 1000000 sizes refl

small-IsAllowed : IsAllowed small
small-IsAllowed = record {
  vcpus = (ground arith, ground arith);
  memory = (ground arith, ground arith);
  disk = (ground arith, ground arith);
}

abbrev command : Json
command = obj (field "action" (str "exec") (field "command" (str "ls") end))

present_undescribed_example :
    ((present 1000000 local_record none).runtime_status ≡ RuntimeStatus.unknown)
    × (((present 1000000 local_record none).status ≡ ready) ↔ HasCheckedIn 1000000 local_record)
    × (((present 1000000 local_record none).status ≡ booting)
        ↔ (HasCheckedIn 1000000 local_record → ⊥))
present_undescribed_example = present_undescribed 1000000 local_record
