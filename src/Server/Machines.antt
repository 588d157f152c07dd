-- ===== src/Server/Machines.antt =====
-- A machine's record stays until the runtime has destroyed the machine.
use mathlib.Core.Option
use hyperwake_core.Prelude.{◌≡◌, Option, none, some}
use hyperwake_core.Json.{Json}
use hyperwake_core.Exec.{Outcome, ok, Exec}
use hyperwake_core.Exec.Keeps.{Keeps}
use hyperwake_core.Records.{Record}
use hyperwake_core.Guest.Isolation.{SamePlatform, platform}
use hyperwake_core.Engine
use hyperwake_core.Engine.{Engine, Host, registry_of}
use hyperwake_core.Server.{Response, deleted, not_destroyed, needs_cleanup}

-- What the registry holds of the machine `x` after a delete, by the answer that is given.
abbrev pub HasOutcome : Record → Outcome Response → Option Record → Type 0
HasOutcome x (ok (deleted j)) r = r ≡ none
HasOutcome x (ok (not_destroyed m)) r =
    (y : Record) × (r ≡ some (needs_cleanup m y)) × (platform y ≡ platform x)
HasOutcome x _ r = ⊥

module _ {W : Type 0} (host : Host W) where
  -- The same machines are registered, with the same platform fields.
  record SameMachines (s t : Engine W) : Type 0 where
    same : SamePlatform (registry_of t) (registry_of s)
