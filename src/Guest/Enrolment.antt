-- ===== src/Guest/Enrolment.antt =====
-- What a registration answers.
use hyperwake_core.Prelude.{ℕ, String, ◌≡◌, refl, true, false, some, arith, str_eq, eq_iff}
use hyperwake_core.Json.{Json, member, as_string, truthy}
use hyperwake_core.Records.{Record}
use hyperwake_core.Registry.{get}
use hyperwake_core.Registry.Laws.{get-update}
use hyperwake_core.Guest.{
  Guests, rejected, registered, register, enrol, enrolled, find_by_registration_token, is_set,
}

module _ (sha256 : String → String) (now : ℕ) (token : String) (body : Json) (g : Guests)
    (x : Record)
    (named : find_by_registration_token (as_string (member body "registration_token")) g.registry
      ≡ some x) where
  -- A registration token that was redeemed is refused, and nothing changes, unless the guest sends an
  -- enrolment key.
  register_redeemed :
      is_set x.machine_token_hash ≡ true
      → truthy (member body "enrollment_public_key") ≡ false
      → register sha256 now token body g ≡ (rejected "Registration token already redeemed.", g)
  unfolding register enrol
  register_redeemed held bare = rw (named, held, bare)

  -- A machine that has no credential yet and registers under its own id is answered with the new
  -- token and with `recovered` true, as if it had had one, provided that sha256 of the token is not
  -- the empty text.
  pub register_first :
      (y : Record)
      → is_set x.machine_token_hash ≡ false
      → get g.registry x.id ≡ some y
      → str_eq (sha256 token) "" ≡ false
      → (register sha256 now token body g).0 ≡ registered token x.id true
  unfolding register enrol enrolled
  register_first y bare stored digest =
      rw (named, bare, get-update, (eq_iff x.id x.id).1 refl, stored) (ground arith)
