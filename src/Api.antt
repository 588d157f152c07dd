-- ===== src/Api.antt =====
-- src/api.js: who may call, what a request may ask for, and the status that a caller sees.
--
-- sha256 of node:crypto is an argument. `authorised` compares digests, `timingSafeEqual` of two
-- digests is their equality.
pub mod Bounds
pub mod Actions
pub mod Status
use Prim.Native.String.{◌++◌ as append}
use hyperwake_core.Prelude.{
  ℕ, ◌-◌, String, Bool, true, false, ◌&&◌, Option, none, some, ltb, str_eq, ℤ, pos, negsuc, between,
  or_else, if◌then◌else◌,
}
use hyperwake_core.Json.{Json, member, as_string, as_integer, truthy}
use hyperwake_core.Exec.{Outcome, ok, thrown, error, and_then}
use hyperwake_core.Records.{Spec, Capabilities, Described, Record, RuntimeStatus}
use hyperwake_core.Text.{strip_prefix, trim, take_units, decimal}

-- What the caller presented: the text behind `Bearer `, or nothing.
unfoldable pub presented : Option String → String
unfolding strip_prefix
presented none = ""
presented (some header) = or_else (strip_prefix "Bearer " header) ""

unfoldable pub authorised : (String → String) → Option String → String → Bool
unfolding presented
authorised sha256 header token = str_eq (sha256 (presented header)) (sha256 token)

pub data PresentStatus : Type 0 where
  stopped starting unknown ready booting : PresentStatus

-- `last_heartbeat_at ? Date.parse(last_heartbeat_at) : 0`
abbrev pub beat : Record → ℕ
beat r = or_else r.last_heartbeat_at 0

abbrev pub claims_shell : Option Capabilities → Bool
claims_shell none = false
claims_shell (some c) = c.shell

-- The runtime may have given no answer: `described?.status` is then undefined.
unfoldable pub present_status : ℕ → Option RuntimeStatus → Record → PresentStatus
present_status now (some RuntimeStatus.stopped) r = stopped
present_status now (some RuntimeStatus.starting) r = starting
present_status now (some RuntimeStatus.unknown) r = unknown
present_status now _ r =
    if ltb (now - beat r) 60000 && claims_shell r.capabilities then ready else booting

pub record Ssh : Type 0 where
  pub host : String
  pub port : Option ℕ

pub record Presented : Type 0 where
  pub id : String
  pub name : String
  pub status : PresentStatus
  pub runtime_status : RuntimeStatus
  pub vcpus : ℕ
  pub memory_mb : ℕ
  pub disk_gb : ℕ
  pub created_at : ℕ
  pub capabilities : Option Capabilities
  pub last_heartbeat_at : Option ℕ
  pub ssh : Option Ssh

abbrev pub status_of : Option Described → Option RuntimeStatus
status_of none = none
status_of (some d) = some d.status

abbrev pub ssh_of : Option Described → Option Ssh
ssh_of none = none
ssh_of (some d) = some (record { host = d.ssh_host; port = d.ssh_port })

unfoldable pub present : ℕ → Record → Option Described → Presented
unfolding present_status
present now r described = record {
  id = r.id;
  name = r.name;
  status = present_status now (status_of described) r;
  runtime_status = or_else (status_of described) RuntimeStatus.unknown;
  vcpus = r.vcpus;
  memory_mb = r.memory_mb;
  disk_gb = r.disk_gb;
  created_at = r.created_at;
  capabilities = r.capabilities;
  last_heartbeat_at = r.last_heartbeat_at;
  ssh = ssh_of described;
}

-- Number.isInteger(body?.key) ? body.key : fallback
abbrev pub integer_or : Json → String → ℕ → ℤ
integer_or body key fallback = or_else (as_integer (member body key)) (pos fallback)

-- if (n < lo || n > hi) throw new Error(message)
abbrev pub required : String → Option ℕ → Outcome ℕ
required message none = error message
required message (some n) = ok n

-- A label of at most 64 code units, or one made from the time.
unfoldable pub spec_name : ℕ → Json → String
unfolding trim take_units decimal as_string member
spec_name now body =
    let given = trim (or_else (as_string (member body "name")) "") in
    if str_eq given "" then append "omarchy-" (decimal now) else take_units 64 given

-- The three range checks in order, each size `none` where it is out of its range.
unfoldable pub checked_spec : String → Option ℕ → Option ℕ → Option ℕ → Outcome Spec
checked_spec name vcpus memory_mb disk_gb =
    and_then (required "vcpus must be between 1 and 8." vcpus) λ v.
      and_then (required "memory_mb must be between 1024 and 16384." memory_mb) λ m.
        and_then (required "disk_gb must be between 16 and 1024." disk_gb)
          λ d. ok (record { name = name; vcpus = v; memory_mb = m; disk_gb = d })

unfoldable pub validate_spec : ℕ → Json → Outcome Spec
unfolding spec_name as_integer member checked_spec
validate_spec now body =
    checked_spec (spec_name now body) (between 1 8 (integer_or body "vcpus" 4))
      (between 1024 16384 (integer_or body "memory_mb" 4096))
      (between 16 1024 (integer_or body "disk_gb" 40))

-- ACTIONS
pub data Action : Type 0 where
  exec read_file write_file screenshot click move scroll type_text key : Action

unfoldable pub action_named : String → Option Action
action_named name =
    if str_eq name "exec"
    then some exec
    else if str_eq name "read_file"
    then some read_file
    else if str_eq name "write_file"
    then some write_file
    else if str_eq name "screenshot"
    then some screenshot
    else if str_eq name "click"
    then some click
    else if str_eq name "move"
    then some move
    else if str_eq name "scroll"
    then some scroll
    else if str_eq name "type"
    then some type_text
    else if str_eq name "key"
    then some key
    else none

-- if (typeof body[field] !== 'string') throw new Error(message)
abbrev pub texts : Json → String → String → Outcome String
texts body field message = elim (as_string (member body field)) [
  | none ↦ error message
  | some s ↦ ok s
]

unfoldable pub check_action : Action → Json → Outcome Json
unfolding as_string member
check_action exec body =
    and_then (texts body "command" "exec requires a command string.") λ _. ok body
check_action read_file body = and_then (texts body "path" "path is required.") λ _. ok body
check_action write_file body =
    and_then (texts body "path" "path is required.")
      λ _. and_then (texts body "content" "content is required.") λ _. ok body
check_action type_text body = and_then (texts body "text" "text is required.") λ _. ok body
check_action key body = and_then (texts body "key" "key is required.") λ _. ok body
check_action _ body = ok body

abbrev unknown_action : String
unknown_action =
    "action must be one of: exec, read_file, write_file, screenshot, click, move, scroll, type, key"

unfoldable pub named_action : Json → Option Action
unfolding as_string member action_named
named_action body = elim (as_string (member body "action")) [
  | none ↦ none
  | some name ↦ action_named name
]

unfoldable pub validated : Option Action → Json → Outcome Json
unfolding check_action
validated none body = error unknown_action
validated (some action) body = check_action action body

unfoldable pub validate_action : Json → Outcome Json
unfolding named_action validated
validate_action body = validated (named_action body) body
