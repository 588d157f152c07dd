-- ===== src/Guest/Saving.antt =====
-- A guest's request leaves the registry file as it was, or brings it up to date.
use hyperwake_core.Prelude.{
  ℕ, String, ◌≡◌, ◌⊎◌, inl, inr, refl, Option, none, some, Bool-cases, Option-cases, ◌&&◌, not,
}
use hyperwake_core.Json.{Json, member, as_string, truthy}
use hyperwake_core.Records.{Record, DesiredState}
use hyperwake_core.Registry.{Registry, get, update, flush}
use hyperwake_core.Guest.{
  Guests, GuestMessage, GuestPath, register_path, heartbeat_path, shutdown_ack_path, other_path,
  guest_request, routed, authenticated, enrol, enrolled, beaten_record, desire,
  find_by_registration_token, authenticate, bearer_of, is_set,
}

abbrev pub IsSavedOrKept : Registry → Registry → Type 0
IsSavedOrKept before after = (after.durable ≡ before.durable) ⊎ (after.durable ≡ after.records)

pub update-IsSavedOrKept :
    (r : Registry) (id : String) (patch : Record → Record) → IsSavedOrKept r (update id patch r)
unfolding update flush
update-IsSavedOrKept r id patch = elim (Option-cases (get r id)) [
  | inl absent ↦ rw (absent, update) (inl refl)
  | inr (x, present) ↦ rw (present, update) (inr refl)
]

enrol-IsSavedOrKept :
    (sha256 : String → String) (now : ℕ) (token : String) (body : Json) (o : Option Record)
    (g : Guests)
    → IsSavedOrKept g.registry (enrol sha256 now token body o g).1.registry
unfolding enrol
enrol-IsSavedOrKept sha256 now token body none g = inl refl
enrol-IsSavedOrKept sha256 now token body (some x) g =
    elim (Bool-cases
      (is_set x.machine_token_hash && not (truthy (member body "enrollment_public_key")))) [
        | inl redeemed ↦ rw redeemed (inl refl)
        | inr fresh ↦
            rw fresh (update-IsSavedOrKept g.registry x.id (enrolled sha256 now token body))
      ]

authenticated-IsSavedOrKept :
    (now : ℕ) (random : String) (path : GuestPath) (body : Json) (o : Option Record) (g : Guests)
    → IsSavedOrKept g.registry (authenticated now random path body o g).1.registry
unfolding authenticated
authenticated-IsSavedOrKept now random path body none g = inl refl
authenticated-IsSavedOrKept now random heartbeat_path body (some x) g =
    update-IsSavedOrKept g.registry x.id (beaten_record now body)
authenticated-IsSavedOrKept now random shutdown_ack_path body (some x) g =
    update-IsSavedOrKept g.registry x.id (desire DesiredState.stopped)
authenticated-IsSavedOrKept now random _ body (some x) g = inl refl

routed-IsSavedOrKept :
    (sha256 : String → String) (m : GuestMessage) (path : GuestPath) (g : Guests)
    → IsSavedOrKept g.registry (routed sha256 m path g).1.registry
unfolding routed
routed-IsSavedOrKept sha256 m register_path g =
    enrol-IsSavedOrKept sha256 m.at m.random m.body
      (find_by_registration_token (as_string (member m.body "registration_token")) g.registry) g
routed-IsSavedOrKept sha256 m other_path g =
    authenticated-IsSavedOrKept m.at m.random other_path m.body
      (authenticate sha256 (bearer_of m.authorization) g.registry) g
routed-IsSavedOrKept sha256 m path g =
    authenticated-IsSavedOrKept m.at m.random path m.body
      (authenticate sha256 (bearer_of m.authorization) g.registry) g

pub guest_request-IsSavedOrKept :
    (sha256 : String → String) (m : GuestMessage) (g : Guests)
    → IsSavedOrKept g.registry (guest_request sha256 m g).1.registry
unfolding guest_request
guest_request-IsSavedOrKept sha256 m g = routed-IsSavedOrKept sha256 m m.path g
