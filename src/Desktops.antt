-- ===== src/Desktops.antt =====
-- The branches of `HostApi.handle` (src/host-api.js) that open a desktop and run an action, under the
-- lock of their machine.
--
-- The record is read through its reference, so what guests have written while the runtime was asked
-- is seen. The URL is its ticket: the engine's own address stands before it.
pub mod Ready
use hyperwake_core.Prelude.{String, Bool, true, false, not, Option, none, some, if◌then◌else◌}
use hyperwake_core.Json.{Json}
use hyperwake_core.Exec.{Outcome, ok, thrown, fail, fail_if, Exec, pure, lift, gets, ◌>>=◌, ◌>>◌}
use hyperwake_core.Records.{Record, Cloud, Described}
use hyperwake_core.Api.{validate_action}
use hyperwake_core.Tickets.{Binding, mint_desktop}
use hyperwake_core.Engine
use hyperwake_core.Engine.{Host, Engine, send, random, clock}
use hyperwake_core.Description.{host_description, is_running}
use hyperwake_core.Journal.{cloud_of}
use hyperwake_core.Lifecycle.{current, reread}
use hyperwake_core.Storage.{alive}

-- { generation: record.cloud.generation, boot_id: record.boot_id }
abbrev pub binding_of : Record → Cloud → Binding
binding_of r c = record { generation = c.generation; boot_id = r.boot_id }

-- try { return validateAction(body) } catch (error) { fail(400, error.message) }
abbrev pub action_or_error : Outcome Json → Outcome Json
action_or_error (ok action) = ok action
action_or_error (thrown e) = fail 400 e.message

module _ {W : Type 0} (host : Host W) (id : String) where
  -- mintTicket(id, described, binding)
  unfoldable pub mint : Record → Cloud → Described → Exec (Engine W) String
  unfolding random clock mint_desktop
  mint r c d = do
    ticket ← random host
    now ← clock host
    (λ e. (
      ok ticket,
      record e {
        desktop = mint_desktop host.sha256 now ticket id d (some (binding_of r c)) e.desktop;
      },
    ))

  -- The desktop of a machine that runs.
  unfoldable pub ready_desktop : Described → Record → Cloud → Exec (Engine W) String
  unfolding clock host_description mint
  ready_desktop d r c = do
    now ← clock host
    lift (fail_if (not (host_description now r c (some d) none).ready) 409 "Machine is not ready.")
    mint r c d

  -- this.record(id), then the runtime's description of a machine that runs
  unfoldable pub running : Exec (Engine W) Described
  unfolding current alive Engine.describe
  running = do
    r ← gets (current id)
    lift (alive (cloud_of r))
    d ← Engine.describe host id
    lift (fail_if (not (is_running d.status)) 409 "Machine is not running.")
    pure d

  -- verb === 'desktop'
  unfoldable pub open_desktop : Exec (Engine W) String
  unfolding running reread ready_desktop
  open_desktop = do d ← running; (r, c) ← reread id; ready_desktop d r c

  -- verb === 'actions'
  unfoldable pub run_action : Json → Exec (Engine W) Json
  unfolding running validate_action send
  run_action body = do
    d ← running
    action ← lift (action_or_error (validate_action body))
    send host (Engine.act id action)
