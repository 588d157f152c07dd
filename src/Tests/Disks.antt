-- ===== src/Tests/Disks.antt =====
-- Storage operations, run on one machine.
use hyperwake_core.Prelude.{◌≡◌, refl, none, [], ◌∷◌, pos}
use hyperwake_core.Json.{Json, Body, str}
use hyperwake_core.Exec.{ok}
use hyperwake_core.Records.{fence}
use hyperwake_core.Registry
use hyperwake_core.Engine.{Engine}
use hyperwake_core.Request.{Request}
use hyperwake_core.Journal.{cloud_of, operation_in}
use hyperwake_core.Lifecycle.{current}
use hyperwake_core.Lifecycle.Calls.{Grown}
use hyperwake_core.Storage.{check_storage, storage_operation}
use hyperwake_core.Storage.Fences.{IsBehindFence, EndsFenced, fence-durable}
use hyperwake_core.Tests.Sample.{machine_id, quiet_host, cloud_with, machine, engine_with}

abbrev fence_body : Body
fence_body = ("generation", Json.int (pos 3)) ∷ ("operation_id", str "op") ∷ []

abbrev before : Engine (Unit {0})
before = engine_with (machine (cloud_with []))

-- The journal is empty, so it holds no operation of the body.
no_fence :
    (q : Request)
    → check_storage fence fence_body ≡ ok q
    → operation_in q.key (cloud_of (current machine_id before)) ≡ none
unfolding Registry.get operation_in
no_fence q valid = refl

fence-durable_example :
    Grown
      (IsBehindFence machine_id)
      []
      (storage_operation quiet_host machine_id fence fence_body before).1.sent
    × EndsFenced machine_id
        (storage_operation quiet_host machine_id fence fence_body before).0
        (storage_operation quiet_host machine_id fence fence_body before).1
fence-durable_example = fence-durable quiet_host machine_id before fence_body no_fence
