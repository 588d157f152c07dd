-- ===== src/Tests/Sample.antt =====
-- A host, a machine and an engine for the examples.
use hyperwake_core.Prelude.{String, true, false, none, some, List, [], ◌∷◌, pos}
use hyperwake_core.Json.{Json, Body}
use hyperwake_core.Exec.{ok}
use hyperwake_core.Records.{
  Verb, OperationKey, Operation, Cloud, Record, Spec, Described, DesiredState, RuntimeStatus,
}
use hyperwake_core.Registry.{Registry}
use hyperwake_core.Guest.{Guests}
use hyperwake_core.Tickets.{no_tickets}
use hyperwake_core.Engine.{Host, Engine}

abbrev pub machine_id : String
machine_id = "849baf6a-a7e7-4648-afd7-932aa2d3c785"

abbrev pub running_machine : Described
running_machine = record {
  status = RuntimeStatus.running;
  disk_id = none;
  ssh_host = "127.0.0.1";
  ssh_port = some 2222;
  display_host = "127.0.0.1";
  display_port = some 5900;
}

abbrev pub stopped_machine : Described
stopped_machine = record running_machine { status = RuntimeStatus.stopped }

-- A world in which time stands still and every call succeeds.
abbrev pub quiet_host : Host (Unit {0})
quiet_host = record {
  now = λ w. 1000000;
  random = λ w. ("token", w);
  sha256 = λ s. s;
  arrived = λ w. ([], w);
  describe = λ id w. (ok running_machine, w);
  list = λ w. (ok [], w);
  manifest = λ id snapshot w. (ok Json.null, w);
  perform = λ c w. (ok Json.null, w);
  pause = λ ms w. w;
}

abbrev pub small : Spec
small = record { name = "box"; vcpus = 2; memory_mb = 2048; disk_gb = 20 }

abbrev pub local_record : Record
local_record = record {
  id = machine_id;
  name = "box";
  vcpus = 2;
  memory_mb = 2048;
  disk_gb = 20;
  created_at = 5;
  registration_token = some "registration";
  machine_token_hash = some "bearer";
  boot_id = some "boot";
  capabilities = some (record { shell = true; display = true; sshd = true });
  last_heartbeat_at = some 999000;
  desired_state = some DesiredState.running;
  authorized_keys = none;
  runtime_generation = none;
  enrollment_public_key = none;
  guest_version = none;
  registered_at = none;
  needs_cleanup = false;
  cleanup_reason = none;
  adopted = false;
  cloud = none;
}

abbrev pub shutdown_key : OperationKey
shutdown_key = record { verb = Verb.shutdown; operation_id = "op" }

abbrev pub shutdown_body : Body
shutdown_body = ("generation", Json.int (pos 3)) ∷ ("operation_id", Json.str "op") ∷ []

abbrev pub start_body : Body
start_body = shutdown_body

abbrev pub cloud_with : List (OperationKey × Operation) → Cloud
cloud_with operations = record {
  image_ref = "image";
  operations = operations;
  create_spec = small;
  incarnation_generation = none;
  generation = 3;
  deleted = false;
  fenced = false;
  previous_boot_ids = [];
  boot_requested_at = some 998000;
  ssh_gateway_key = none;
}

abbrev pub machine : Cloud → Record
machine c = record local_record { cloud = some c }

abbrev pub registry_with : Record → Registry
registry_with r = record { records = (machine_id, r) ∷ []; durable = (machine_id, r) ∷ [] }

abbrev pub guests_with : Record → Guests
guests_with r = record { registry = registry_with r; challenges = [] }

abbrev pub engine_with : Record → Engine (Unit {0})
engine_with r = record {
  guests = guests_with r;
  world = tt;
  sent = [];
  desktop = no_tickets;
  ssh = no_tickets;
}
