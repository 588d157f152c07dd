-- ===== src/Tests/Doors.antt =====
-- Requests at the doors of the engine, and an uninstallation.
use hyperwake_core.Prelude.{
  String, ◌≡◌, refl, true, false, Option, none, some, List, [], ◌∷◌, string_eq, lookup,
}
use hyperwake_core.Json.{Json, cons, nil, str, truthy}
use hyperwake_core.Exec.{ok}
use hyperwake_core.Records.{Verb, Record}
use hyperwake_core.Api.{authorised}
use hyperwake_core.Routes.{Request, post, parts_of, server_route, read_body}
use hyperwake_core.Routes.Guarded.{IsGuarded, server_route-IsGuarded}
use hyperwake_core.Routes.Host.{HostRoute, host_route}
use hyperwake_core.Routes.Private.{HasUuid, host_route-IsGuarded}
use hyperwake_core.Uninstall.{running_machines, Found}
use hyperwake_core.Uninstall.Steps.{
  World, Computer, delete_through_engine, stopped, uninstall, nothing_removed,
}
use hyperwake_core.Uninstall.Consent.{
  Adds, IsPlanned, asked, uninstall-IsPlanned, uninstall_refused, stopped_by_engine,
}
use hyperwake_core.Tests.Sample.{machine_id, local_record}

abbrev records : String → Option Record
records id = lookup id ((machine_id, local_record) ∷ [])

abbrev start_request : Request
start_request = record {
  method = post;
  path = "/internal/v1/machines/849baf6a-a7e7-4648-afd7-932aa2d3c785/start";
  authorization = some "Bearer secret";
  origin = none;
}

server_route-IsGuarded_example :
    IsGuarded
      (λ s. s)
      "operator"
      (some "secret")
      start_request
      records
      (server_route (λ s. s) "operator" (some "secret") start_request records)
server_route-IsGuarded_example =
    server_route-IsGuarded (λ s. s) "operator" (some "secret") start_request records

abbrev start_parts : List String
start_parts = "machines" ∷ machine_id ∷ "start" ∷ []

parts_run : parts_of start_request.path ≡ "internal" ∷ "v1" ∷ start_parts
unfolding parts_of
parts_run = refl

start_routed :
    host_route (λ s. s) (λ v. "") (some "secret") start_request start_parts none
    ≡ ok (HostRoute.command Verb.start machine_id)
unfolding host_route
start_routed = refl

host_route-IsGuarded_example :
    (token : String) × (some "secret" ≡ some token)
    × (authorised (λ s. s) (some "Bearer secret") token ≡ true)
    × (start_request.origin ≡ none)
    × HasUuid (λ v. "") (HostRoute.command Verb.start machine_id)
host_route-IsGuarded_example =
    host_route-IsGuarded (λ s. s) (λ v. "") (some "secret") start_request start_parts none
      (HostRoute.command Verb.start machine_id) start_routed

-- An array that holds one UUID text passes for an id: a create is given the array.
abbrev wrapped : Json
wrapped = Json.arr (cons (str machine_id) nil)

array_routed :
    host_route
      (λ s. s)
      (λ v. machine_id)
      (some "secret")
      start_request
      ("machines" ∷ [])
      (some wrapped)
    ≡ ok (HostRoute.create_machine wrapped)
unfolding host_route truthy
array_routed = refl

body_stops : read_body 3 0 ((1 ∷ 2 ∷ []) ∷ (3 ∷ []) ∷ []) ≡ ok 3
unfolding read_body
body_stops = refl

-- A line of ps for a machine of the engine, and one for another QEMU.
ours_runs :
    running_machines
      (some " 42 qemu-system-x86_64 -name mola-m1 -m 4096\n 43 qemu-system-x86_64 -name other\n")
    ≡ record { pid = 42; id = "m1" } ∷ []
unfolding running_machines
ours_runs = refl

-- An engine that lists one machine and refuses to delete it, and nobody to answer.
abbrev world : World (Unit {0})
world = record {
  ps = λ w. (some " 42 qemu-system-x86_64 -name mola-m1\n", w);
  wait = λ ms w. w;
  token = λ w. some "secret";
  machines = λ w. (some ("m1" ∷ []), w);
  delete = λ id w. (some 502, w);
  answer = λ w. (none, w);
  lower = λ s. s;
}

abbrev computer : Computer (Unit {0})
computer = record { acts = []; world = tt }

abbrev found : Found
found = record {
  root = "/root/.mola";
  exists = true;
  parts = record { label = "guest image"; path = "/root/.mola/image"; bytes = 512 } ∷ [];
  total = 512;
  recorded = 1;
  running = record { pid = 42; id = "m1" } ∷ [];
  sockets = [];
  legacy = none;
}

uninstall-IsPlanned_example :
    Adds (IsPlanned true found) [] (uninstall world true true found computer).1.acts
uninstall-IsPlanned_example = uninstall-IsPlanned world true found true computer

uninstall_refused_example :
    ((uninstall world false true found computer).0 ≡ nothing_removed)
    × ((uninstall world false true found computer).1.acts ≡ [])
uninstall_refused_example = uninstall_refused world true found computer refl

stopped_by_engine_example :
    (stopped world found (delete_through_engine world computer)).acts ≡ asked ("m1" ∷ []) []
stopped_by_engine_example =
    stopped_by_engine world true found computer "secret" ("m1" ∷ []) refl refl
