-- ===== src/Api/Status.antt =====
-- The status that a caller sees.
use hyperwake_core.Prelude.{ℕ, ◌+◌, ◌<◌, ◌≡◌, ◌↔◌, ◌≢◌, true, none, some, arith}
use hyperwake_core.Records.{Record, Described, RuntimeStatus}
use hyperwake_core.Api.{ready, booting, present, beat, claims_shell}

-- The runtime's word for the machine is none of the three that are passed on as they are.
abbrev pub IsUp : RuntimeStatus → Type 0
IsUp s = (s ≢ RuntimeStatus.stopped) × (s ≢ RuntimeStatus.starting) × (s ≢ RuntimeStatus.unknown)

-- The last heartbeat is less than a minute old, and claimed a shell.
abbrev pub HasCheckedIn : ℕ → Record → Type 0
HasCheckedIn now r = (now < beat r + 60000) × (claims_shell r.capabilities ≡ true)

-- A machine that the runtime can describe is presented as ready exactly when the runtime does not
-- call it stopped, starting or unknown, and its guest has claimed a shell in the last minute.
present-ready_iff :
    (now : ℕ) (r : Record) (d : Described)
    → ((present now r (some d)).status ≡ ready) ↔ (IsUp d.status × HasCheckedIn now r)
unfolding present
present-ready_iff now r d = ground arith

-- A machine that the runtime could not describe is presented as ready exactly if its guest has
-- claimed a shell in the last minute, and as booting exactly if it has not, while its runtime status
-- is unknown.
pub present_undescribed :
    (now : ℕ) (r : Record)
    → ((present now r none).runtime_status ≡ RuntimeStatus.unknown)
      × (((present now r none).status ≡ ready) ↔ HasCheckedIn now r)
      × (((present now r none).status ≡ booting) ↔ (HasCheckedIn now r → ⊥))
unfolding present
present_undescribed now r = ground arith
