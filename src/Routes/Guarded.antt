-- ===== src/Routes/Guarded.antt =====
-- No operation is reached without the token that it needs.
use hyperwake_core.Prelude.{
  String, ◌≡◌, ◌⊎◌, inl, inr, refl, ◌≤◌, Bool, true, false, not, ◌&&◌, Option, none, some, List, [],
  ◌∷◌, str_eq, is_some, arith, Bool-cases,
}
use hyperwake_core.Exec.{Failure}
use hyperwake_core.Records.{Record}
use hyperwake_core.Api.{authorised}
use hyperwake_core.Text.{strip_prefix}
use hyperwake_core.Routes.{
  Method, get, post, delete, other_method, Request, Route, is_get, machine_verb, is_local,
  is_deleted, machine_route, machines_route, operator_route, version_route, operator_only,
  host_only, open_or, server_route, internal_or, guest_or, starts_with, parts_of, error_status,
  answered, health, desktop_page, about, novnc, guest, internal, list_machines, create_machine,
  show_machine, delete_machine, start_machine, stop_machine, open_desktop, run_action,
}

-- A local machine of that id is registered.
abbrev pub HasLocal : (String → Option Record) → String → Type 0
HasLocal records id = (x : Record) × (records id ≡ some x) × (x.cloud ≡ none)

-- A machine of that id is registered and is no tombstone.
abbrev pub IsHeld : (String → Option Record) → String → Type 0
IsHeld records id = (x : Record) × (records id ≡ some x) × (is_deleted x ≡ false)

-- What the route of an operator needs of the records.
abbrev pub Allows : (String → Option Record) → Route → Type 0
Allows records (show_machine id) = IsHeld records id
Allows records (delete_machine id) = HasLocal records id
Allows records (start_machine id) = HasLocal records id
Allows records (stop_machine id) = HasLocal records id
Allows records (open_desktop id) = HasLocal records id
Allows records (run_action id) = HasLocal records id
Allows records (internal rest) = ⊥
Allows records _ = Unit

-- Who may be sent to a route: anyone, the guests, the host's control plane or the operator.
abbrev pub needs_token : Route → Bool
needs_token (answered status message) = false
needs_token health = false
needs_token desktop_page = false
needs_token novnc = false
needs_token guest = false
needs_token (internal rest) = false
needs_token _ = true

abbrev pub is_internal : Route → Bool
is_internal (internal rest) = true
is_internal _ = false

module _ (records : String → Option Record) where
  machine_verb-Allows :
      (m : Method) (id : String) (rest : List String) (x : Record)
      → records id ≡ some x
      → is_deleted x ≡ false
      → (is_get m ≡ true) ⊎ (x.cloud ≡ none)
      → Allows records (machine_verb m id rest)
  machine_verb-Allows get id [] x there held may = (x, there, held)
  machine_verb-Allows get id (verb ∷ rest) x there held may = tt
  machine_verb-Allows delete id [] x there held (inl read) = absurd (cc)
  machine_verb-Allows delete id [] x there held (inr local) = (x, there, local)
  machine_verb-Allows delete id (verb ∷ rest) x there held may = tt
  machine_verb-Allows post id [] x there held may = tt
  machine_verb-Allows post id (verb ∷ []) x there held (inl read) = absurd (cc)
  machine_verb-Allows post id (verb ∷ []) x there held (inr local) =
      let found : HasLocal records id = (x, there, local) in ground arith
  machine_verb-Allows post id (verb ∷ more ∷ rest) x there held may = tt
  machine_verb-Allows other_method id rest x there held may = tt

  reads_or_local :
      (g : Bool) (x : Record) → (not (is_local x) && not g) ≡ false → (g ≡ true) ⊎ (x.cloud ≡ none)
  reads_or_local true x h = inl refl
  reads_or_local false x h = inr (ground arith)

  machine_route-Allows :
      (m : Method) (id : String) (rest : List String) (o : Option Record)
      → records id ≡ o
      → Allows records (machine_route m id rest o)
  unfolding machine_route
  machine_route-Allows m id rest none there = tt
  machine_route-Allows m id rest (some x) there = elim (Bool-cases (is_deleted x)) [
    | inl gone ↦ rw gone tt
    | inr held ↦ elim (Bool-cases (not (is_local x) && not (is_get m))) [
      | inl cloud ↦ rw (held, cloud) tt
      | inr may ↦
          rw (held, may)
            (machine_verb-Allows m id rest x there held (reads_or_local (is_get m) x may))
    ]
  ]

  machines_route-Allows :
      (m : Method) (parts : List String) → Allows records (machines_route m parts records)
  unfolding machines_route
  machines_route-Allows get [] = tt
  machines_route-Allows post [] = tt
  machines_route-Allows delete [] = tt
  machines_route-Allows other_method [] = tt
  machines_route-Allows get (id ∷ rest) = machine_route-Allows get id rest (records id) refl
  machines_route-Allows post (id ∷ rest) = machine_route-Allows post id rest (records id) refl
  machines_route-Allows delete (id ∷ rest) = machine_route-Allows delete id rest (records id) refl
  machines_route-Allows other_method (id ∷ rest) =
      machine_route-Allows other_method id rest (records id) refl

  version_route-Allows :
      (m : Method) (parts : List String) → Allows records (version_route m parts records)
  unfolding version_route
  version_route-Allows get [] = tt
  version_route-Allows post [] = tt
  version_route-Allows delete [] = tt
  version_route-Allows other_method [] = tt
  version_route-Allows m (part ∷ rest) = elim (Bool-cases (str_eq part "machines")) [
    | inl here ↦ rw (version_route, here) (machines_route-Allows m rest)
    | inr other ↦ rw (version_route, other) tt
  ]

  operator_route-Allows :
      (m : Method) (parts : List String) → Allows records (operator_route m parts records)
  unfolding operator_route
  operator_route-Allows m [] = tt
  operator_route-Allows m (root ∷ parts) = elim (Bool-cases (str_eq root "v1")) [
    | inl here ↦ rw here (version_route-Allows m parts)
    | inr other ↦ rw other tt
  ]

module _ (sha256 : String → String) (token : String) (host_token : Option String) (r : Request)
    (records : String → Option Record) where
  -- The bearer token of the request is this one.
  abbrev pub Bears : String → Type 0
  Bears t = authorised sha256 r.authorization t ≡ true

  -- What stands between a request and its route.
  pub record IsGuarded (route : Route) : Type 0 where
    pub allowed : (is_internal route ≡ true) ⊎ Allows records route
    pub by_operator : needs_token route ≡ true → Bears token
    pub by_host : is_internal route ≡ true → (t : String) × (host_token ≡ some t) × Bears t

  open_to_all :
      (route : Route)
      → Allows records route
      → needs_token route ≡ false
      → is_internal route ≡ false
      → IsGuarded route
  open_to_all route a b c = record {
    allowed = inr a;
    by_operator = λ h. absurd (cc);
    by_host = λ h. absurd (cc);
  }

  not_internal : (route : Route) → Allows records route → is_internal route ≡ true → ⊥
  not_internal (internal rest) a h = a
  not_internal (answered status message) a h = cc
  not_internal health a h = cc
  not_internal desktop_page a h = cc
  not_internal novnc a h = cc
  not_internal guest a h = cc
  not_internal about a h = cc
  not_internal list_machines a h = cc
  not_internal create_machine a h = cc
  not_internal (show_machine id) a h = cc
  not_internal (delete_machine id) a h = cc
  not_internal (start_machine id) a h = cc
  not_internal (stop_machine id) a h = cc
  not_internal (open_desktop id) a h = cc
  not_internal (run_action id) a h = cc

  operator_only-IsGuarded : IsGuarded (operator_only sha256 token host_token r records)
  unfolding operator_only
  operator_only-IsGuarded = elim (Bool-cases (authorised sha256 r.authorization token)) [
    | inl bears ↦ rw bears (record {
      allowed = inr (operator_route-Allows records r.method (parts_of r.path));
      by_operator = λ h. bears;
      by_host =
          λ h. absurd (not_internal _ (operator_route-Allows records r.method (parts_of r.path)) h);
    })
    | inr other ↦ rw other (open_to_all _ tt refl refl)
  ]

  host_only-IsGuarded :
      (rest : List String) (o : Option String)
      → host_token ≡ o
      → IsGuarded (host_only sha256 token host_token r rest o)
  unfolding host_only
  host_only-IsGuarded rest none e = open_to_all _ tt refl refl
  host_only-IsGuarded rest (some t) e = elim (Bool-cases (authorised sha256 r.authorization t)) [
    | inl bears ↦ rw bears (record {
      allowed = inl refl;
      by_operator = λ h. absurd (cc);
      by_host = λ h. (t, e, bears);
    })
    | inr other ↦ rw other (open_to_all _ tt refl refl)
  ]

  internal_or-IsGuarded :
      (other : Route)
      → IsGuarded other
      → (o : Option (List String)) → IsGuarded (internal_or sha256 token host_token r o other)
  internal_or-IsGuarded other g none = g
  internal_or-IsGuarded other g (some rest) = host_only-IsGuarded rest host_token refl

  guest_or-IsGuarded :
      (other : Route)
      → IsGuarded other
      → (o : Option (List String)) → IsGuarded (guest_or sha256 token host_token o other)
  guest_or-IsGuarded other g none = g
  guest_or-IsGuarded other g (some rest) = open_to_all guest tt refl refl

  open_or-IsGuarded :
      (other : Route) → IsGuarded other → IsGuarded (open_or sha256 token host_token r other)
  unfolding open_or
  open_or-IsGuarded other g = elim (Bool-cases (is_get r.method && str_eq r.path "/health")) [
    | inl a ↦ rw a (open_to_all health tt refl refl)
    | inr na ↦ elim (Bool-cases (is_get r.method && is_some (strip_prefix "/novnc/" r.path))) [
      | inl b ↦ rw (na, b) (open_to_all novnc tt refl refl)
      | inr nb ↦ elim (Bool-cases (is_get r.method && str_eq r.path "/desktop")) [
        | inl c ↦ rw (na, nb, c) (open_to_all desktop_page tt refl refl)
        | inr nc ↦ rw (na, nb, nc) g
      ]
    ]
  ]

  -- Every operation of the public API, on whatever path and by whatever method, is run for the bearer
  -- of the operator's token only; the private host API is entered by the bearer of its own token only,
  -- if it has one. A machine is shown only if it is registered and no tombstone, and it is deleted,
  -- started, stopped, opened or acted on only if it is registered and no machine of the control
  -- plane's.
  pub server_route-IsGuarded : IsGuarded (server_route sha256 token host_token r records)
  unfolding server_route
  server_route-IsGuarded = open_or-IsGuarded _ (
      guest_or-IsGuarded _
        (internal_or-IsGuarded _ operator_only-IsGuarded
          (starts_with ("internal" ∷ "v1" ∷ []) (parts_of r.path)))
        (starts_with ("guest" ∷ []) (parts_of r.path)))

-- Every error is answered with an error status of HTTP.
error_status-bounds :
    (is_internal is_syntax : Bool) (e : Failure)
    → (400 ≤ error_status is_internal is_syntax e) × (error_status is_internal is_syntax e ≤ 599)
unfolding error_status
error_status-bounds is_internal is_syntax e = ground arith
