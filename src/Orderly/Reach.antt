-- ===== src/Orderly/Reach.antt =====
-- What an engine can come to: any sequence of requests, guests' messages and restarts, from a
-- registry file of an engine that ran before or from none.
--
-- A request runs to its end before the next, except for the guests' messages, which are served at
-- every await of it; the lock of src/host-api.js gives that order to the requests of one machine.
use hyperwake_core.Prelude.{String, ◌≡◌, List, [], string_eq}
use hyperwake_core.Json.{Json, Body}
use hyperwake_core.Exec.{ok}
use hyperwake_core.Records.{Verb}
use hyperwake_core.Registry
use hyperwake_core.Registry.{Registry}
use hyperwake_core.Guest.{GuestMessage, guest_request}
use hyperwake_core.Tickets.{no_tickets}
use hyperwake_core.Engine.{Engine, Host, registry_of, write}
use hyperwake_core.Request.{Request, check_request}
use hyperwake_core.Journal.{Settings}
use hyperwake_core.Lifecycle.{mutate}
use hyperwake_core.Lifecycle.Calls.{Grown, IsIntended}
use hyperwake_core.Lifecycle.Order.{mutate-IsIntended}
use hyperwake_core.Storage.{storage_operation}
use hyperwake_core.Server.{create_machine, start_machine, stop_machine, delete_machine, reconcile}
use hyperwake_core.Orderly.{IsOrderly}
use hyperwake_core.Orderly.Writes.{guest_request-IsOrderly, load-IsOrderly}
use hyperwake_core.Orderly.Entries.{mutate-IsOrderly}
use hyperwake_core.Orderly.Disks.{storage_operation-IsOrderly}
use hyperwake_core.Orderly.Machines.{
  reconcile-IsOrderly, create_machine-Orders, start_machine-Orders, stop_machine-Orders,
  delete_machine-Orders,
}

pub data Event : Type 0 where
  -- a lifecycle command of the control plane
  command : String → Verb → Body → Event
  -- a storage operation of the control plane
  disk : String → Verb → Body → Event
  guest : GuestMessage → Event
  -- the public routes
  create : Json → Event
  start : String → Event
  stop : String → Json → Event
  delete : String → Event
  -- a new process on the file of the last, and the adoption of what the runtime holds
  restart : Event
  adopted : List String → Event

-- The state that a new process begins with.
unfoldable pub restarted : {W : Type 0} → Engine W → Engine W
unfolding Registry.load
restarted e = record e {
  guests = record { registry = Registry.load e.guests.registry.durable; challenges = [] };
  desktop = no_tickets;
  ssh = no_tickets;
}

module _ {W : Type 0} (host : Host W) (settings : Settings) where
  -- The state after an event.
  unfoldable pub happen : Event → Engine W → Engine W
  unfolding restarted
  happen (Event.command id verb body) e = (mutate host id settings verb body e).1
  happen (Event.disk id verb body) e = (storage_operation host id verb body e).1
  happen (Event.guest m) e = record e { guests = (guest_request host.sha256 m e.guests).1 }
  happen (Event.create body) e = (create_machine host settings.public_key body e).1
  happen (Event.start id) e = (start_machine host id e).1
  happen (Event.stop id body) e = (stop_machine host id body e).1
  happen (Event.delete id) e = (delete_machine host id e).1
  happen Event.restart e = restarted e
  happen (Event.adopted ids) e = (write (reconcile (host.now e.world) ids) e).1

  -- The engines that events lead to.
  pub data Reaches (e : Engine W) : Engine W → Type 0 where
    here : Reaches e e
    after : (ev : Event) (f : Engine W) → Reaches e f → Reaches e (happen ev f)

  happen-IsOrderly :
      (ev : Event) (e : Engine W)
      → IsOrderly (registry_of e)
      → IsOrderly (registry_of (happen ev e))
  unfolding happen restarted write
  happen-IsOrderly (Event.command id verb body) e h =
      mutate-IsOrderly host id settings verb body e h
  happen-IsOrderly (Event.disk id verb body) e h = storage_operation-IsOrderly host id verb body e h
  happen-IsOrderly (Event.guest m) e h = guest_request-IsOrderly host.sha256 m e.guests h
  happen-IsOrderly (Event.create body) e h =
      ((create_machine-Orders host settings.public_key body).at e).kept h
  happen-IsOrderly (Event.start id) e h = ((start_machine-Orders host id).at e).kept h
  happen-IsOrderly (Event.stop id body) e h = ((stop_machine-Orders host id body).at e).kept h
  happen-IsOrderly (Event.delete id) e h = ((delete_machine-Orders host id).at e).kept h
  happen-IsOrderly Event.restart e h = load-IsOrderly e.guests.registry h
  happen-IsOrderly (Event.adopted ids) e h =
      reconcile-IsOrderly (host.now e.world) ids e.guests.registry h

  -- Whatever requests, guests' messages and restarts an engine has been through, if it began with its
  -- journals in order then they are in order still: no machine has two unanswered commands in its
  -- journal, in memory or in the registry file, and every unanswered command in memory is in the file
  -- too.
  pub Reaches-IsOrderly :
      (e f : Engine W) → Reaches e f → IsOrderly (registry_of e) → IsOrderly (registry_of f)
  Reaches-IsOrderly e _ Reaches.here h = h
  Reaches-IsOrderly e _ (Reaches.after ev f r) h = happen-IsOrderly ev f (Reaches-IsOrderly e f r h)

  -- Whatever requests, guests' messages and restarts an engine has been through, if it began with its
  -- journals in order then every call by which a lifecycle command with a valid request changes
  -- something in the runtime (all but the readings, which may come first) is about the command's own
  -- machine, and is made while the registry file holds the command's entry, unanswered.
  pub Reaches-IsIntended :
      (e f : Engine W) (id : String) (verb : Verb) (body : Body) (q : Request)
      → Reaches e f
      → IsOrderly (registry_of e)
      → check_request (host.now f.world) verb body ≡ ok q
      → Grown (IsIntended id q.key) f.sent (mutate host id settings verb body f).1.sent
  unfolding Registry.get
  Reaches-IsIntended e f id verb body q r h valid =
      mutate-IsIntended host id settings verb body f q ((Reaches-IsOrderly e f r h).saved id) valid
