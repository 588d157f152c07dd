-- ===== src/Tests/Commands.antt =====
-- Commands of the control plane, run on one machine.
use hyperwake_core.Prelude.{◌≡◌, refl, true, false, none, some, [], ◌∷◌, pos, any, ◌<◌}
use hyperwake_core.Json.{Json, str}
use hyperwake_core.Exec.{ok}
use hyperwake_core.Records.{Verb, Operation, Cloud, Record, Payload}
use hyperwake_core.Registry
use hyperwake_core.Request.{Request, check_request}
use hyperwake_core.Journal.{Settings, admit, claim, cloud_of, confirms_removal}
use hyperwake_core.Journal.Resumption.{admit-IsOpen, claim-again, IsOpen}
use hyperwake_core.Lifecycle.Order.{IsSaved}
use hyperwake_core.Tests.Sample.{
  machine_id, quiet_host, shutdown_body, cloud_with, machine, engine_with,
}

abbrev settings : Settings
settings = record { public_key = "key"; image_ref = "image" }

abbrev request_of : Verb → Request
request_of verb = record {
  key = record { verb = verb; operation_id = "op" };
  generation = 3;
  fingerprint = shutdown_body;
  spec = none;
  image_ref = none;
  recreate = false;
  delete_disk = false;
}

shutdown_valid : check_request 1000000 Verb.shutdown shutdown_body ≡ ok (request_of Verb.shutdown)
unfolding check_request
shutdown_valid = refl

start_valid : check_request 1000000 Verb.start shutdown_body ≡ ok (request_of Verb.start)
unfolding check_request
start_valid = refl

-- A machine with no command pending.
abbrev idle : Cloud
idle = cloud_with []

idle-IsSaved : IsSaved quiet_host machine_id (engine_with (machine idle))
unfolding Registry.get
idle-IsSaved key h = h

abbrev fenced_machine : Record
fenced_machine = machine (record idle { fenced = true })

abbrev later_machine : Record
later_machine = machine (record idle { incarnation_generation = some 4; generation = 4 })

admit-IsOpen_example :
    (cloud_of (some (machine idle)) ≡ some idle) × IsOpen (request_of Verb.start) idle
unfolding admit
admit-IsOpen_example = admit-IsOpen (request_of Verb.start) (some (machine idle)) refl

abbrev removal : Operation
removal = record {
  fingerprint = ("generation", Json.int (pos 3)) ∷ ("delete_disk", Json.bool true) ∷ [];
  verb = some Verb.destroy;
  pending_at = 4;
  boot_prepared = false;
  result = some (record {
    status = 200;
    payload = Payload.removed (record { id = machine_id; disk_id = none; generation = 3 });
  });
}

abbrev gone : Cloud
gone = record (cloud_with ((record { verb = Verb.destroy; operation_id = "rm" }, removal) ∷ [])) {
  deleted = true;
}

abbrev recreation : Request
recreation = record {
  key = record { verb = Verb.create; operation_id = "new" };
  generation = 4;
  fingerprint = [];
  spec = none;
  image_ref = some (str "image");
  recreate = true;
  delete_disk = false;
}

claim-again_example :
    (c : Cloud) × (cloud_of (some (machine gone)) ≡ some c)
    × (gone.operations ≡ c.operations)
    × (recreation.recreate ≡ true)
    × (c.deleted ≡ true)
    × (any (confirms_removal c.generation) c.operations ≡ true)
    × (c.generation < recreation.generation)
unfolding claim
claim-again_example = claim-again settings recreation (some (machine gone)) refl
