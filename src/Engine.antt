-- ===== src/Engine.antt =====
-- The engine's state, and the world that it awaits: the Python runtime behind src/runtime.js, the
-- clock, node:crypto, and the guests, whose requests are served while a call of the runtime is
-- pending. The world is a parameter, and nothing is assumed of its answers.
--
-- A request of the host API holds the lock of its machine (`locked` of src/host-api.js), and the
-- public API refuses to change a cloud machine, so what else can run between two steps of a request
-- and touch its record are the guests' requests; those are run, as src/guest.js serves them, at
-- every await. `sent` is the history of the calls that change the runtime, each with the registry
-- file as it was when the call was made.
pub mod Upholds
use hyperwake_core.Prelude.{ℕ, String, Bool, Option, List, [], ◌∷◌}
use hyperwake_core.Json.{Json, Body}
use hyperwake_core.Exec.{Outcome, ok, Exec}
use hyperwake_core.Records.{Record, Spec, Described, Verb}
use hyperwake_core.Registry.{Registry}
use hyperwake_core.Guest.{Guests, GuestMessage, guest_request}
use hyperwake_core.Tickets.{Tickets}

-- The calls of src/runtime.js that change something.
pub data Call : Type 0 where
  create : String → Spec → Option String → Option (List String) → Call
  start_machine shutdown force_stop : String → Call
  destroy : String → Bool → Call
  storage : String → Verb → Body → Call
  reseed : String → Option String → Option (List String) → String → Call
  -- `this.action`, an automation verb inside the guest
  act : String → Json → Call

pub record Host (W : Type 0) : Type 0 where
  pub now : W → ℕ
  pub random : W → String × W
  pub sha256 : String → String
  pub arrived : W → List GuestMessage × W
  pub describe : String → W → Outcome Described × W
  -- the ids that the runtime holds
  pub list : W → Outcome (List String) × W
  pub manifest : String → String → W → Outcome Json × W
  pub perform : Call → W → Outcome Json × W
  -- setTimeout
  pub pause : ℕ → W → W

pub record Sent : Type 0 where
  pub call : Call
  pub durable : List (String × Record)

pub record Engine (W : Type 0) : Type 0 where
  pub guests : Guests
  pub world : W
  pub sent : List Sent
  pub desktop : Tickets
  pub ssh : Tickets

abbrev pub registry_of : {W : Type 0} → Engine W → Registry
registry_of e = e.guests.registry

-- The guests' requests in the order of their arrival; the answers go back to the guests.
unfoldable pub serve_guests : (String → String) → List GuestMessage → Guests → Guests
unfolding guest_request
serve_guests sha256 [] g = g
serve_guests sha256 (m ∷ ms) g = serve_guests sha256 ms (guest_request sha256 m g).1

module _ {W : Type 0} (host : Host W) where
  -- What is done to the engine while a call that left the world as `w` was pending.
  unfoldable pub meanwhile : W → Engine W → Engine W
  unfolding serve_guests
  meanwhile w e =
      let (messages, w') = host.arrived w in
      record e { world = w'; guests = serve_guests host.sha256 messages e.guests }

  unfoldable pub await {ℓ} : {A : Type ℓ} → (W → Outcome A × W) → Engine W → Outcome A × Engine W
  unfolding meanwhile
  await call e = let (answer, w) = call e.world in (answer, meanwhile w e)

  unfoldable pub send : Call → Exec (Engine W) Json
  unfolding await
  send c e =
      await (host.perform c)
        (record e { sent = record { call = c; durable = e.guests.registry.durable } ∷ e.sent })

  unfoldable pub describe : String → Exec (Engine W) Described
  unfolding await
  describe id = await (host.describe id)

  unfoldable pub list : Exec (Engine W) (List String)
  unfolding await
  list = await host.list

  -- delay(ms)
  unfoldable pub delay : ℕ → Exec (Engine W) (Unit {0})
  unfolding meanwhile
  delay ms e = (ok tt, meanwhile (host.pause ms e.world) e)

  unfoldable pub random : Exec (Engine W) String
  random e = let (text, w) = host.random e.world in (ok text, record e { world = w })

  unfoldable pub clock : Exec (Engine W) ℕ
  clock e = (ok (host.now e.world), e)

module _ {W : Type 0} where
  -- a synchronous change of the registry
  unfoldable pub write : (Registry → Registry) → Exec (Engine W) (Unit {0})
  write f e = (ok tt, record e { guests = record e.guests { registry = f e.guests.registry } })
