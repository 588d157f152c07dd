-- ===== src/Tests/Histories.antt =====
-- What a new engine comes to: a machine is made for the control plane, the engine is restarted, and
-- the machine is shut down.
use hyperwake_core.Prelude.{refl, false, none, [], ◌∷◌, pos, ◌≡◌}
use hyperwake_core.Json.{Json, Body}
use hyperwake_core.Exec.{ok}
use hyperwake_core.Records.{Verb}
use hyperwake_core.Registry
use hyperwake_core.Engine.{Engine, registry_of}
use hyperwake_core.Tickets.{no_tickets}
use hyperwake_core.Request.{Request, check_request}
use hyperwake_core.Journal.{Settings}
use hyperwake_core.Lifecycle.{mutate}
use hyperwake_core.Lifecycle.Calls.{Grown, IsIntended}
use hyperwake_core.Orderly.{IsOrderly}
use hyperwake_core.Orderly.Writes.{empty-IsOrderly}
use hyperwake_core.Orderly.Reach.{
  command, restart, happen, Reaches, here, after, Reaches-IsOrderly, Reaches-IsIntended,
}
use hyperwake_core.Tests.Sample.{machine_id, quiet_host, shutdown_key, shutdown_body}

abbrev settings : Settings
settings = record { public_key = "key"; image_ref = "image" }

abbrev create_body : Body
create_body =
    ("id", Json.str machine_id)
    ∷ ("name", Json.str "box")
    ∷ ("vcpus", Json.int (pos 2))
    ∷ ("memory_mb", Json.int (pos 2048))
    ∷ ("disk_gb", Json.int (pos 20))
    ∷ ("image_ref", Json.str "image")
    ∷ ("operation_id", Json.str "first")
    ∷ ("generation", Json.int (pos 3))
    ∷ []

abbrev new_engine : Engine (Unit {0})
new_engine = record {
  guests = record { registry = Registry.load []; challenges = [] };
  world = tt;
  sent = [];
  desktop = no_tickets;
  ssh = no_tickets;
}

-- The engine after the create and the restart.
abbrev restarted_engine : Engine (Unit {0})
restarted_engine =
    happen quiet_host settings restart
      (happen quiet_host settings (command machine_id Verb.create create_body) new_engine)

restarted_reached : Reaches quiet_host settings new_engine restarted_engine
restarted_reached = after restart _ (after (command machine_id Verb.create create_body) _ here)

Reaches-IsOrderly_example : IsOrderly (registry_of restarted_engine)
Reaches-IsOrderly_example =
    Reaches-IsOrderly quiet_host settings new_engine restarted_engine restarted_reached
      empty-IsOrderly

abbrev shutdown_request : Request
shutdown_request = record {
  key = shutdown_key;
  generation = 3;
  fingerprint = shutdown_body;
  spec = none;
  image_ref = none;
  recreate = false;
  delete_disk = false;
}

shutdown_valid :
    check_request (quiet_host.now restarted_engine.world) Verb.shutdown shutdown_body
    ≡ ok shutdown_request
unfolding check_request
shutdown_valid = refl

Reaches-IsIntended_example :
    Grown
      (IsIntended machine_id shutdown_key)
      restarted_engine.sent
      (mutate quiet_host machine_id settings Verb.shutdown shutdown_body restarted_engine).1.sent
Reaches-IsIntended_example =
    Reaches-IsIntended quiet_host settings new_engine restarted_engine machine_id Verb.shutdown
      shutdown_body shutdown_request restarted_reached empty-IsOrderly shutdown_valid
