-- ===== src/Description/Readiness.antt =====
-- When the control plane is told that a machine is ready, stopped or uncertain.
use hyperwake_core.Prelude.{
  ℕ, ◌+◌, ◌<◌, ◌≤◌, ◌≡◌, refl, true, false, Option, none, some, List, [], ◌∷◌, arith, Bool-cases,
  inl, inr,
}
use hyperwake_core.Records.{
  OperationKey, Operation, Cloud, Record, Described, DesiredState, RuntimeStatus,
}
use hyperwake_core.Guest.{is_set}
use hyperwake_core.Description.{
  host_description, describe_after, pending_operations, held_status, known_status, is_ready,
  same_revision, is_listed, is_fresh, is_running, unknown_answer,
}

-- A heartbeat of the boot that was asked for, less than a minute old.
pub record HasHeartbeat (now : ℕ) (r : Record) (c : Cloud) : Type 0 where
  pub heartbeat : ℕ
  pub requested : ℕ
  pub received : r.last_heartbeat_at ≡ some heartbeat
  pub asked : c.boot_requested_at ≡ some requested
  pub after_request : requested ≤ heartbeat
  pub not_ahead : heartbeat ≤ now
  pub recent : now < heartbeat + 60000

-- What a machine has shown when it is called ready.
pub record HasShown (now : ℕ) (r : Record) (c : Cloud) (d : Option Described)
    (settling : Option OperationKey) : Type 0 where
  pub settled : pending_operations settling c.operations ≡ []
  pub running : known_status d ≡ RuntimeStatus.running
  pub unfenced : c.fenced ≡ false
  pub wanted : r.desired_state ≡ some DesiredState.running
  pub booted : is_set r.boot_id ≡ true
  pub new_boot : is_listed r.boot_id c.previous_boot_ids ≡ false
  pub beat : HasHeartbeat now r c
  pub capable : r.capabilities ≡ some (record { shell = true; display = true; sshd = true })

running_unheld :
    (ops : List (OperationKey × Operation)) (d : Option Described)
    → is_running (held_status ops d) ≡ true
    → (ops ≡ []) × (known_status d ≡ RuntimeStatus.running)
unfolding held_status
running_unheld [] d h = ground arith
running_unheld (e ∷ ops) d h = ground arith

HasHeartbeat-fresh :
    (now : ℕ) (r : Record) (c : Cloud) (heartbeat requested : Option ℕ)
    → r.last_heartbeat_at ≡ heartbeat
    → c.boot_requested_at ≡ requested
    → is_fresh now heartbeat requested ≡ true
    → HasHeartbeat now r c
HasHeartbeat-fresh now r c none requested p q h = absurd (cc)
HasHeartbeat-fresh now r c (some b) none p q h = absurd (cc)
HasHeartbeat-fresh now r c (some b) (some t) p q h = record {
  heartbeat = b;
  requested = t;
  received = p;
  asked = q;
  after_request = ground arith;
  not_ahead = ground arith;
  recent = ground arith;
}

-- A machine is called ready only if no other operation on it is pending, the runtime calls it
-- running, it is not fenced and is meant to run, its guest has named a boot that is no earlier one,
-- has sent a heartbeat since the boot was asked for and in the last minute, and has claimed a
-- shell, a display and sshd.
pub ready-HasShown :
    (now : ℕ) (r : Record) (c : Cloud) (d : Option Described) (settling : Option OperationKey)
    → (host_description now r c d settling).ready ≡ true
    → HasShown now r c d settling
unfolding host_description is_ready
ready-HasShown now r c d settling h =
    let (settled, running) =
      running_unheld (pending_operations settling c.operations) d (ground arith) in
    record {
      settled = settled;
      running = running;
      unfenced = ground arith;
      wanted = ground arith;
      booted = ground arith;
      new_boot = ground arith;
      beat =
          HasHeartbeat-fresh now r c r.last_heartbeat_at c.boot_requested_at refl refl
            (ground arith);
      capable = ground arith;
    }

stopped_unheld :
    (ops : List (OperationKey × Operation)) (d : Option Described)
    → held_status ops d ≡ RuntimeStatus.stopped
    → (ops ≡ []) × (known_status d ≡ RuntimeStatus.stopped)
unfolding held_status
stopped_unheld [] d h = (refl, h)
stopped_unheld (e ∷ ops) d h = ground arith

known_stopped :
    (o : Option Described)
    → known_status o ≡ RuntimeStatus.stopped
    → (d : Described) × (o ≡ some d) × (d.status ≡ RuntimeStatus.stopped)
unfolding known_status
known_stopped none h = absurd (cc)
known_stopped (some d) h = (d, refl, ground arith)

held_unknown :
    (ops : List (OperationKey × Operation)) → held_status ops unknown_answer ≡ RuntimeStatus.unknown
unfolding held_status known_status
held_unknown [] = refl
held_unknown (e ∷ ops) = ground arith

-- A machine is reported stopped only if the runtime answered that it is stopped, no other operation
-- on it is pending, and no lifecycle step overtook the reading.
pub describe_after-stopped :
    (now : ℕ) (before : Cloud) (r : Record) (c : Cloud) (answer : Option Described)
    (settling : Option OperationKey)
    → (describe_after now before r c answer settling).status ≡ RuntimeStatus.stopped
    → (same_revision before c ≡ true)
      × (pending_operations settling c.operations ≡ [])
      × ((d : Described) × (answer ≡ some d) × (d.status ≡ RuntimeStatus.stopped))
unfolding describe_after host_description
describe_after-stopped now before r c answer settling h =
    elim (Bool-cases (same_revision before c)) [
      | inl same ↦
          let (settled, stopped) =
            stopped_unheld (pending_operations settling c.operations) answer (rw same at h) in
          (same, settled, known_stopped answer stopped)
      | inr changed ↦
          absurd (cc (held_unknown (pending_operations settling c.operations), rw changed at h))
    ]

-- A reading that a lifecycle step overtook says nothing of the machine: its status is unknown, and
-- it is not ready.
describe_after_overtaken :
    (now : ℕ) (before : Cloud) (r : Record) (c : Cloud) (answer : Option Described)
    (settling : Option OperationKey)
    → same_revision before c ≡ false
    → ((describe_after now before r c answer settling).status ≡ RuntimeStatus.unknown)
      × ((describe_after now before r c answer settling).ready ≡ false)
unfolding describe_after host_description is_ready
describe_after_overtaken now before r c answer settling h =
    rw (h, held_unknown (pending_operations settling c.operations)) (refl, ground arith)
