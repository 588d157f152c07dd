-- ===== src/Routes/Private.antt =====
-- What a request of the private host API must bring before anything is run for it.
use mathlib.Core.Path.{subst}
use hyperwake_core.Prelude.{
  ℕ, String, ◌≡◌, refl, Bool, true, false, not, Option, none, some, List, [], ◌∷◌, str_eq, lookup,
  string_eq, is_some, or_else, arith, Bool-cases, Option-cases, inl, inr, if◌then◌else◌,
}
use hyperwake_core.Exec.{Outcome, ok, thrown, fail_if, and_then}
use hyperwake_core.Json.{Json}
use hyperwake_core.Text.{is_uuid}
use hyperwake_core.Api.{authorised}
use hyperwake_core.Records.{Verb}
use hyperwake_core.Routes.{Method, get, post, delete, other_method, Request}
use hyperwake_core.Routes.Host.{
  HostRoute, create_machine, id_text, list_machines, describe_machine, manifest, ssh, storage,
  command, open_desktop, run_action, storage_verbs, or_not_found, three_parts, checked_id,
  post_route, manifest_route, method_route, is_machines, host_route,
}

-- The ids that go to the runtime or name a record to change are UUIDs; of a create, the text of the
-- body's id is.
abbrev pub HasUuid : (Json → String) → HostRoute → Type 0
HasUuid text_of list_machines = Unit
HasUuid text_of (describe_machine id) = Unit
HasUuid text_of (manifest id snapshot_id) = is_uuid snapshot_id ≡ true
HasUuid text_of (create_machine id) = is_uuid (id_text text_of (some id)) ≡ true
HasUuid text_of (ssh id) = is_uuid id ≡ true
HasUuid text_of (storage v id) = is_uuid id ≡ true
HasUuid text_of (command v id) = is_uuid id ≡ true
HasUuid text_of (open_desktop id) = is_uuid id ≡ true
HasUuid text_of (run_action id) = is_uuid id ≡ true

-- If there is a route, it has the property.
abbrev Gives : (Json → String) → Outcome HostRoute → Type 0
Gives text_of (ok route) = HasUuid text_of route
Gives text_of (thrown e) = Unit

passed :
    {A : Type 0} (b : Bool) (status : ℕ) (message : String) (m : Outcome A) (a : A)
    → and_then (fail_if b status message) (λ _. m) ≡ ok a
    → (b ≡ false) × (m ≡ ok a)
passed true status message m a h = absurd (cc)
passed false status message m a h = (refl, h)

module _ (text_of : Json → String) where
  checked_id-Gives :
      (id : Option Json) (k : Json → Outcome HostRoute)
      → (is_uuid (id_text text_of id) ≡ true → Gives text_of (k (or_else id Json.null)))
      → Gives text_of (and_then (checked_id text_of id) k)
  unfolding checked_id
  checked_id-Gives id k h = elim (Bool-cases (is_uuid (id_text text_of id))) [
    | inl uuid ↦ rw uuid (h uuid)
    | inr other ↦ rw other tt
  ]

  created-Gives :
      (id : Option Json)
      → Gives text_of (and_then (checked_id text_of id) (λ i. ok (create_machine i)))
  unfolding is_uuid
  created-Gives none = unfold checked_id in tt
  created-Gives (some v) = checked_id-Gives (some v) _ (λ uuid. uuid)

  or_not_found-Gives :
      (o : Option Verb) (id : String) → is_uuid id ≡ true → Gives text_of (or_not_found o id)
  or_not_found-Gives none id h = tt
  or_not_found-Gives (some v) id h = h

  three_parts-Gives : (verb id : String) → is_uuid id ≡ true → Gives text_of (three_parts verb id)
  unfolding three_parts
  three_parts-Gives verb id h = elim (Bool-cases (str_eq verb "ssh")) [
    | inl a ↦ rw a h
    | inr na ↦ elim (Option-cases (lookup verb storage_verbs)) [
      | inr (v, b) ↦ rw (three_parts, na, b) h
      | inl nb ↦ elim (Bool-cases (str_eq verb "desktop")) [
        | inl c ↦ rw (three_parts, na, nb, c) h
        | inr nc ↦ elim (Bool-cases (str_eq verb "actions")) [
          | inl d ↦ rw (three_parts, na, nb, nc, d) h
          | inr nd ↦ rw (three_parts, na, nb, nc, nd) (or_not_found-Gives _ id h)
        ]
      ]
    ]
  ]

  post_route-Gives :
      (parts : List String) (body_id : Option Json)
      → Gives text_of (post_route text_of parts body_id)
  unfolding post_route
  post_route-Gives [] body_id = tt
  post_route-Gives (machines ∷ []) body_id = created-Gives body_id
  post_route-Gives (machines ∷ id ∷ []) body_id =
      checked_id-Gives (some (Json.str id)) _ (λ uuid. tt)
  post_route-Gives (machines ∷ id ∷ verb ∷ []) body_id = elim (Bool-cases (str_eq verb "create")) [
    | inl here ↦ rw here (created-Gives body_id)
    | inr other ↦
        rw other (checked_id-Gives (some (Json.str id)) _ (λ uuid. three_parts-Gives verb id uuid))
  ]
  post_route-Gives (machines ∷ id ∷ verb ∷ more ∷ rest) body_id =
      checked_id-Gives (if str_eq verb "create" then body_id else some (Json.str id)) _ (λ uuid. tt)

  manifest_route-Gives : (id snapshot_id : String) → Gives text_of (manifest_route id snapshot_id)
  unfolding manifest_route
  manifest_route-Gives id snapshot_id = elim (Bool-cases (is_uuid snapshot_id)) [
    | inl uuid ↦ rw uuid uuid
    | inr other ↦ rw other tt
  ]

  method_route-Gives :
      (m : Method) (parts : List String) (body_id : Option Json)
      → Gives text_of (method_route text_of m parts body_id)
  unfolding method_route
  method_route-Gives post parts body_id = post_route-Gives parts body_id
  method_route-Gives delete parts body_id = tt
  method_route-Gives other_method parts body_id = tt
  method_route-Gives get [] body_id = tt
  method_route-Gives get (machines ∷ []) body_id = tt
  method_route-Gives get (machines ∷ id ∷ []) body_id = tt
  method_route-Gives get (machines ∷ id ∷ part ∷ []) body_id = tt
  method_route-Gives get (machines ∷ id ∷ part ∷ snapshot_id ∷ []) body_id =
      elim (Bool-cases (str_eq part "snapshots")) [
        | inl here ↦ rw here (manifest_route-Gives id snapshot_id)
        | inr other ↦ rw other tt
      ]
  method_route-Gives get (machines ∷ id ∷ part ∷ snapshot_id ∷ more ∷ rest) body_id = tt

  given :
      (o : Outcome HostRoute) (route : HostRoute)
      → Gives text_of o
      → o ≡ ok route
      → HasUuid text_of route
  given (ok r) route g h = subst (HasUuid text_of) (cc) g
  given (thrown e) route g h = absurd (cc)

not-false : (b : Bool) → not b ≡ false → b ≡ true
not-false b h = ground arith

not_some : {A : Type 0} (o : Option A) → is_some o ≡ false → o ≡ none
not_some none h = refl
not_some (some a) h = absurd (cc)

-- A request of the private host API is sent to an operation only where the host API has a token, the
-- request bears it, and it comes from no browser page; and an operation that changes a machine, or
-- hands anything about one to the runtime but to describe it, is given a UUID, except a create: the
-- text of the id that it is given is one, though the id itself need not be a text.
pub host_route-IsGuarded :
    (sha256 : String → String) (text_of : Json → String) (host_token : Option String) (r : Request)
    (parts : List String) (body_id : Option Json) (route : HostRoute)
    → host_route sha256 text_of host_token r parts body_id ≡ ok route
    → (token : String) × (host_token ≡ some token)
      × (authorised sha256 r.authorization token ≡ true)
      × (r.origin ≡ none)
      × HasUuid text_of route
unfolding host_route
host_route-IsGuarded sha256 text_of none r parts body_id route h = absurd (cc)
host_route-IsGuarded sha256 text_of (some token) r parts body_id route h =
    let (bears, h1) = passed (not (authorised sha256 r.authorization token)) 401 _ _ route h in
    let (page, h2) = passed (is_some r.origin) 403 _ _ route h1 in
    let (root, h3) = passed (not (is_machines parts)) 404 _ _ route h2 in
    (
      token,
      refl,
      not-false (authorised sha256 r.authorization token) bears,
      not_some r.origin page,
      given text_of (method_route text_of r.method parts body_id) route
          (method_route-Gives text_of r.method parts body_id) h3,
    )
