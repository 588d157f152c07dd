-- ===== src/Guest.antt =====
-- src/guest.js, the control-plane half of the guest protocol, and its routes in src/server.js.
--
-- `sha256`, the time and the random texts are arguments. A registration token or a bearer that is
-- not a text is read as the empty text. `record` is a reference to `registry.records[id]`: what
-- `registry.update` assigns is seen through it.
pub mod Isolation
pub mod Enrolment
pub mod Saving
use hyperwake_core.Prelude.{
  ℕ, String, Bool, true, false, not, ◌&&◌, Option, none, some, List, [], str_eq, string_eq, find,
  lookup, insert, is_some, or_else, if◌then◌else◌,
}
use hyperwake_core.Json.{Json, member, as_string, truthy}
use hyperwake_core.Records.{Record, Capabilities, DesiredState}
use hyperwake_core.Registry
use hyperwake_core.Registry.{Registry, all, update}
use hyperwake_core.Text.{take_units, strip_prefix}

pub record Guests : Type 0 where
  pub registry : Registry
  pub challenges : List (String × String)

pub record Beat : Type 0 where
  pub desired_state : DesiredState
  pub runtime_generation : ℕ
  pub challenge : String
  pub challenge_verified : Bool
  pub authorized_keys : List String

pub data GuestReply : Type 0 where
  -- 401, with its message
  rejected : String → GuestReply
  -- 200: machine_token, computer_id and recovered
  registered : String → String → Bool → GuestReply
  -- 200
  beaten : Beat → GuestReply
  -- 204
  acknowledged : GuestReply
  -- 404
  not_found : GuestReply

-- A text that is there and is not empty.
abbrev pub is_set : Option String → Bool
is_set none = false
is_set (some s) = not (str_eq s "")

-- Buffer.from(a ?? '', 'utf8') and the same of b are equal.
unfoldable pub same_token : Option String → Option String → Bool
same_token a b = str_eq (or_else a "") (or_else b "")

unfoldable pub find_by_registration_token : Option String → Registry → Option Record
unfolding same_token
find_by_registration_token token r =
    find (λ x. is_set x.registration_token && same_token x.registration_token token) (all r)

abbrev pub has_hash : String → Record → Bool
has_hash digest x = elim x.machine_token_hash [ none ↦ false | some h ↦ str_eq h digest ]

unfoldable pub authenticate : (String → String) → String → Registry → Option Record
authenticate sha256 bearer r =
    if str_eq bearer "" then none else find (has_hash (sha256 bearer)) (all r)

-- typeof body?.key === 'string' ? body.key.slice(0, 64) : null
abbrev pub short_text : Json → String → Option String
short_text body key = elim (as_string (member body key)) [
  | none ↦ none
  | some s ↦ some (take_units 64 s)
]

-- body?.enrollment_public_key ?? record.enrollment_public_key ?? null
abbrev pub kept_key : Option Json → Option Json → Option Json
kept_key none old = old
kept_key (some Json.null) old = old
kept_key (some v) old = some v

-- The patch of `register`.
unfoldable pub enrolled : (String → String) → ℕ → String → Json → Record → Record
unfolding as_string member take_units
enrolled sha256 now token body x = record x {
  machine_token_hash = some (sha256 token);
  enrollment_public_key = kept_key (member body "enrollment_public_key") x.enrollment_public_key;
  guest_version = short_text body "guest_version";
  registered_at = some now;
}

-- Whether the record has a credential by now, read through the updated record.
abbrev pub holds_credential : Option Record → Bool
holds_credential none = false
holds_credential (some x) = is_set x.machine_token_hash

-- The body of `register` for the record that the registration token names.
unfoldable pub enrol :
    (String → String) → ℕ → String → Json → Option Record → Guests → GuestReply × Guests
unfolding enrolled truthy member
enrol sha256 now token body none g = (rejected "Unknown registration token.", g)
enrol sha256 now token body (some x) g =
    let after = update x.id (enrolled sha256 now token body) g.registry in
    if is_set x.machine_token_hash && not (truthy (member body "enrollment_public_key"))
    then (rejected "Registration token already redeemed.", g)
    else (
      registered token x.id (holds_credential (Registry.get after x.id)),
      record g { registry = after },
    )

unfoldable pub register : (String → String) → ℕ → String → Json → Guests → GuestReply × Guests
unfolding find_by_registration_token enrol as_string member
register sha256 now token body g =
    enrol sha256 now token body
      (find_by_registration_token (as_string (member body "registration_token")) g.registry) g

-- Boolean(body?.capabilities?.name)
abbrev pub claim : Json → String → Bool
claim body name = elim (member body "capabilities") [
  | none ↦ false
  | some c ↦ truthy (member c name)
]

-- The patch of `heartbeat`.
unfoldable pub beaten_record : ℕ → Json → Record → Record
unfolding truthy member as_string take_units
beaten_record now body x = record x {
  last_heartbeat_at = some now;
  boot_id = short_text body "boot_id";
  capabilities = some (record {
    shell = claim body "shell";
    display = claim body "display";
    sshd = claim body "sshd";
  });
}

-- Boolean(previous) && body?.challenge_response === previous
abbrev pub verifies : Option String → Option String → Bool
verifies none response = false
verifies (some p) none = false
verifies (some p) (some r) = not (str_eq p "") && str_eq r p

unfoldable pub heartbeat : ℕ → String → Record → Json → Guests → GuestReply × Guests
unfolding beaten_record lookup insert as_string member
heartbeat now challenge x body g =
    let previous = lookup x.id g.challenges in
    (
      beaten (record {
        desired_state = or_else x.desired_state DesiredState.running;
        runtime_generation = or_else x.runtime_generation 1;
        challenge = challenge;
        challenge_verified = verifies previous (as_string (member body "challenge_response"));
        authorized_keys = or_else x.authorized_keys [];
      }),
      record {
        registry = update x.id (beaten_record now body) g.registry;
        challenges = insert x.id challenge g.challenges;
      },
    )

-- registry.update(record.id, { desired_state: 'stopped' })
abbrev pub desire : DesiredState → Record → Record
desire d x = record x { desired_state = some d }

pub data GuestPath : Type 0 where
  register_path heartbeat_path shutdown_ack_path other_path : GuestPath

unfoldable pub authenticated :
    ℕ → String → GuestPath → Json → Option Record → Guests → GuestReply × Guests
unfolding heartbeat
authenticated now random path body none g = (rejected "Unauthenticated.", g)
authenticated now random heartbeat_path body (some x) g = heartbeat now random x body g
authenticated now random shutdown_ack_path body (some x) g =
    (acknowledged, record g { registry = update x.id (desire DesiredState.stopped) g.registry })
authenticated now random _ body (some x) g = (not_found, g)

-- (request.headers.authorization ?? '').replace(/^Bearer /, '')
unfoldable pub bearer_of : Option String → String
unfolding strip_prefix
bearer_of none = ""
bearer_of (some header) = or_else (strip_prefix "Bearer " header) header

pub record GuestMessage : Type 0 where
  pub at : ℕ
  pub random : String
  pub path : GuestPath
  pub authorization : Option String
  pub body : Json

unfoldable pub routed : (String → String) → GuestMessage → GuestPath → Guests → GuestReply × Guests
unfolding register authenticated bearer_of authenticate
routed sha256 m register_path g = register sha256 m.at m.random m.body g
routed sha256 m path g =
    authenticated m.at m.random path m.body
      (authenticate sha256 (bearer_of m.authorization) g.registry) g

-- One request under /guest: registration needs no credential, all else a machine's.
unfoldable pub guest_request : (String → String) → GuestMessage → Guests → GuestReply × Guests
unfolding routed
guest_request sha256 m g = routed sha256 m m.path g
