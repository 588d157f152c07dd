-- ===== src/Guest/Isolation.antt =====
-- What a guest can change: its own claims, and nothing that the platform owns.
use mathlib.Core.Option
use hyperwake_core.Prelude.{
  ℕ, String, ◌≡◌, ◌≢◌, refl, ◌∙◌, Bool, true, false, Option, none, some, arith, str_eq, eq_iff,
  string_eq, Bool-cases, inl, inr, ap, ◌&&◌, not, if◌then◌else◌,
}
use hyperwake_core.Json.{Json, member, truthy, as_string}
use hyperwake_core.Records.{Record, DesiredState}
use hyperwake_core.Registry.{Registry, get, update}
use hyperwake_core.Registry.Laws.{get-update}
use hyperwake_core.Guest.{
  Guests, GuestMessage, GuestPath, register_path, heartbeat_path, shutdown_ack_path, other_path,
  guest_request, routed, authenticated, enrol, enrolled, beaten_record, desire,
  find_by_registration_token, authenticate, bearer_of, rejected, is_set,
}

-- The record with all that a guest reports left out.
unfoldable pub platform : Record → Record
platform x = record x {
  machine_token_hash = none;
  boot_id = none;
  capabilities = none;
  last_heartbeat_at = none;
  desired_state = none;
  enrollment_public_key = none;
  guest_version = none;
  registered_at = none;
}

-- The registries hold the same machines, with the same platform fields.
abbrev pub SamePlatform : Registry → Registry → Type 0
SamePlatform a b = (j : String) → Option.map platform (get a j) ≡ Option.map platform (get b j)

update-SamePlatform :
    (r : Registry) (id : String) (patch : Record → Record)
    → ((x : Record) → platform (patch x) ≡ platform x)
    → SamePlatform (update id patch r) r
update-SamePlatform r id patch same j = rw get-update (go (str_eq id j) (get r j))
  where
    go :
        (b : Bool) (o : Option Record)
        → Option.map platform (if b then Option.map patch o else o) ≡ Option.map platform o
    go true none = refl
    go true (some x) = ap some (same x)
    go false o = refl

enrol-SamePlatform :
    (sha256 : String → String) (now : ℕ) (token : String) (body : Json) (o : Option Record)
    (g : Guests)
    → SamePlatform (enrol sha256 now token body o g).1.registry g.registry
unfolding enrol platform
enrol-SamePlatform sha256 now token body none g j = refl
enrol-SamePlatform sha256 now token body (some x) g j =
    elim (Bool-cases
      (is_set x.machine_token_hash && not (truthy (member body "enrollment_public_key")))) [
        | inl redeemed ↦ rw redeemed
        | inr fresh ↦
            rw fresh
              (update-SamePlatform g.registry x.id (enrolled sha256 now token body) (λ y. refl) j)
      ]

authenticated-SamePlatform :
    (now : ℕ) (random : String) (path : GuestPath) (body : Json) (o : Option Record) (g : Guests)
    → SamePlatform (authenticated now random path body o g).1.registry g.registry
unfolding authenticated platform
authenticated-SamePlatform now random path body none g j = refl
authenticated-SamePlatform now random heartbeat_path body (some x) g j =
    update-SamePlatform g.registry x.id (beaten_record now body) (λ y. refl) j
authenticated-SamePlatform now random shutdown_ack_path body (some x) g j =
    update-SamePlatform g.registry x.id (desire DesiredState.stopped) (λ y. refl) j
authenticated-SamePlatform now random _ body (some x) g j = refl

routed-SamePlatform :
    (sha256 : String → String) (m : GuestMessage) (path : GuestPath) (g : Guests)
    → SamePlatform (routed sha256 m path g).1.registry g.registry
unfolding routed
routed-SamePlatform sha256 m register_path g =
    enrol-SamePlatform sha256 m.at m.random m.body
      (find_by_registration_token (as_string (member m.body "registration_token")) g.registry) g
routed-SamePlatform sha256 m other_path g =
    authenticated-SamePlatform m.at m.random other_path m.body
      (authenticate sha256 (bearer_of m.authorization) g.registry) g
routed-SamePlatform sha256 m path g =
    authenticated-SamePlatform m.at m.random path m.body
      (authenticate sha256 (bearer_of m.authorization) g.registry) g

-- Whatever a guest sends, authenticated or not, every machine stays registered and keeps its name,
-- sizes, registration token, authorized keys, generations and the whole of its cloud journal.
pub guest_request-SamePlatform :
    (sha256 : String → String) (m : GuestMessage) (g : Guests)
    → SamePlatform (guest_request sha256 m g).1.registry g.registry
unfolding guest_request
guest_request-SamePlatform sha256 m g = routed-SamePlatform sha256 m m.path g

get-update_ne :
    (r : Registry) (id : String) (patch : Record → Record) (j : String)
    → j ≢ id
    → get (update id patch r) j ≡ get r j
get-update_ne r id patch j other = rw get-update (ground (arith, eq_iff id j))

authenticated_ne :
    (now : ℕ) (random : String) (path : GuestPath) (body : Json) (x : Record) (g : Guests)
    (j : String)
    → j ≢ x.id
    → get (authenticated now random path body (some x) g).1.registry j ≡ get g.registry j
unfolding authenticated
authenticated_ne now random heartbeat_path body x g j other =
    get-update_ne g.registry x.id (beaten_record now body) j other
authenticated_ne now random shutdown_ack_path body x g j other =
    get-update_ne g.registry x.id (desire DesiredState.stopped) j other
authenticated_ne now random _ body x g j other = refl

routed_past :
    (sha256 : String → String) (m : GuestMessage) (path : GuestPath) (g : Guests)
    → path ≢ register_path
    → routed sha256 m path g
      ≡ authenticated m.at m.random path m.body
          (authenticate sha256 (bearer_of m.authorization) g.registry)
          g
unfolding routed
routed_past sha256 m register_path g past = absurd (past refl)
routed_past sha256 m other_path g past = refl
routed_past sha256 m _ g past = refl

-- Past registration, a credential that is no machine's is refused and changes nothing at all.
guest_request_unauthenticated :
    (sha256 : String → String) (m : GuestMessage) (g : Guests)
    → m.path ≢ register_path
    → authenticate sha256 (bearer_of m.authorization) g.registry ≡ none
    → guest_request sha256 m g ≡ (rejected "Unauthenticated.", g)
unfolding guest_request authenticated
guest_request_unauthenticated sha256 m g past stranger =
    routed_past sha256 m m.path g past ∙ rw stranger

-- Past registration, a machine's credential leaves every other machine as it was.
pub guest_request_own_machine :
    (sha256 : String → String) (m : GuestMessage) (g : Guests) (x : Record) (j : String)
    → m.path ≢ register_path
    → authenticate sha256 (bearer_of m.authorization) g.registry ≡ some x
    → j ≢ x.id
    → get (guest_request sha256 m g).1.registry j ≡ get g.registry j
unfolding guest_request
guest_request_own_machine sha256 m g x j past own other =
    rw (routed_past sha256 m m.path g past, own)
      (authenticated_ne m.at m.random m.path m.body x g j other)
