-- ===== src/Routes.antt =====
-- Where src/server.js and `HostApi.handle` (src/host-api.js) send a request, and what they answer of
-- themselves.
--
-- The URL is its path; sha256 is an argument, as in the modules that check tokens. A route is the
-- operation that is run; those are modelled in the modules of their own.
pub mod Host
pub mod Private
pub mod Guarded
use hyperwake_core.Prelude.{
  ℕ, ◌+◌, String, Bool, true, false, not, ◌&&◌, ◌||◌, Option, none, some, List, [], ◌∷◌, keep,
  length, leb, ltb, nat_beq, str_eq, string_eq, lookup, is_some, or_else, if◌then◌else◌,
}
use hyperwake_core.Text.{strip_prefix, is_uuid}
use hyperwake_core.Text.Split.{split}
use hyperwake_core.Exec.{Failure, Outcome, ok, thrown, error, fail, fail_if, and_then}
use hyperwake_core.Records.{
  Verb, create, start, shutdown, force_stop, destroy, snapshot, restore, snapshot_delete,
  snapshot_import, snapshot_write, snapshot_read, snapshot_seal, fence, Record,
}
use hyperwake_core.Api.{authorised}
use hyperwake_core.Journal.{is_unsettled}

pub data Method : Type 0 where
  get post delete other_method : Method

pub record Request : Type 0 where
  pub method : Method
  pub path : String
  -- the header `authorization`
  pub authorization : Option String
  -- the header `origin`
  pub origin : Option String

-- url.pathname.split('/').filter(Boolean)
unfoldable pub parts_of : String → List String
unfolding split
parts_of path =
    let (first, rest) = split "/" path in keep (λ part. not (str_eq part "")) (first ∷ rest)

pub data Route : Type 0 where
  -- an answer without an operation: the status and the message
  answered : ℕ → String → Route
  health desktop_page about : Route
  novnc guest : Route
  -- the private host API, with the rest of the path
  internal : List String → Route
  list_machines create_machine : Route
  show_machine delete_machine start_machine stop_machine open_desktop run_action : String → Route

abbrev pub is_get : Method → Bool
is_get get = true
is_get _ = false

-- The routes of one machine: those that change it, by the rest of the path.
abbrev pub machine_verb : Method → String → List String → Route
machine_verb get id [] = show_machine id
machine_verb delete id [] = delete_machine id
machine_verb post id (verb ∷ []) =
    if str_eq verb "start"
    then start_machine id
    else if str_eq verb "stop"
    then stop_machine id
    else if str_eq verb "desktop"
    then open_desktop id
    else if str_eq verb "actions"
    then run_action id
    else answered 404 "Unknown action."
machine_verb _ id _ = answered 405 "Method not allowed."

abbrev pub is_local : Record → Bool
is_local r = not (is_some r.cloud)

abbrev pub is_deleted : Record → Bool
is_deleted r = elim r.cloud [ none ↦ false | some c ↦ c.deleted ]

abbrev pub no_such_machine : Route
no_such_machine = answered 404 "No such machine."

-- What is done with the record of the machine that the path names.
unfoldable pub machine_route : Method → String → List String → Option Record → Route
machine_route m id rest none = no_such_machine
machine_route m id rest (some r) =
    if is_deleted r
    then no_such_machine
    else if not (is_local r) && not (is_get m)
    then answered 409 "Cloud-managed machines must use the private host API."
    else machine_verb m id rest

-- /v1/machines and what is below it
unfoldable pub machines_route : Method → List String → (String → Option Record) → Route
unfolding machine_route
machines_route get [] records = list_machines
machines_route post [] records = create_machine
machines_route m [] records = no_such_machine
machines_route m (id ∷ rest) records = machine_route m id rest (records id)

-- /v1 and what is below it
unfoldable pub version_route : Method → List String → (String → Option Record) → Route
unfolding machines_route
version_route get [] records = about
version_route m [] records = answered 404 "Not found."
version_route m (part ∷ rest) records =
    if str_eq part "machines" then machines_route m rest records else answered 404 "Not found."

-- What an operator may ask for.
unfoldable pub operator_route : Method → List String → (String → Option Record) → Route
unfolding version_route
operator_route m [] records = answered 404 "Not found. The API is served under /v1."
operator_route m (root ∷ parts) records =
    if str_eq root "v1"
    then version_route m parts records
    else answered 404 "Not found. The API is served under /v1."

abbrev pub starts_with : List String → List String → Option (List String)
starts_with [] parts = some parts
starts_with (p ∷ ps) [] = none
starts_with (p ∷ ps) (q ∷ parts) = if str_eq p q then starts_with ps parts else none

module _ (sha256 : String → String) (token : String) (host_token : Option String) where
  -- Everything that needs the operator's token.
  unfoldable pub operator_only : Request → (String → Option Record) → Route
  unfolding authorised operator_route parts_of
  operator_only r records =
      if authorised sha256 r.authorization token
      then operator_route r.method (parts_of r.path) records
      else answered 401 "Unauthenticated. Send Authorization: Bearer <token>."

  -- The private host API: the token is checked before the body is read.
  unfoldable pub host_only : Request → List String → Option String → Route
  unfolding authorised
  host_only r rest none = answered 404 "Not found."
  host_only r rest (some t) =
      if authorised sha256 r.authorization t then internal rest else answered 401 "Unauthenticated."

  -- if (parts[0] === 'guest'): the rest of such a path
  abbrev pub guest_or : Option (List String) → Route → Route
  guest_or none other = other
  guest_or (some rest) other = guest

  -- if (parts[0] === 'internal' && parts[1] === 'v1')
  abbrev pub internal_or : Request → Option (List String) → Route → Route
  internal_or r none other = other
  internal_or r (some rest) other = host_only r rest host_token

  -- Health and the desktop viewer, which need no token.
  unfoldable pub open_or : Request → Route → Route
  unfolding strip_prefix
  open_or r other =
      if is_get r.method && str_eq r.path "/health"
      then health
      else if is_get r.method && is_some (strip_prefix "/novnc/" r.path)
      then novnc
      else if is_get r.method && str_eq r.path "/desktop"
      then desktop_page
      else other

  -- The handler of createServer
  unfoldable pub server_route : Request → (String → Option Record) → Route
  unfolding open_or host_only operator_only parts_of
  server_route r records = open_or r (
      guest_or (starts_with ("guest" ∷ []) (parts_of r.path)) (
        internal_or r (starts_with ("internal" ∷ "v1" ∷ []) (parts_of r.path))
          (operator_only r records)))

-- The status of an error: its own where it is one of HTTP's error statuses.
unfoldable pub error_status : Bool → Bool → Failure → ℕ
error_status is_internal is_syntax e =
    let otherwise = if is_internal && not is_syntax then 502 else 400 in
    elim e.status [
      | none ↦ otherwise
      | some status ↦ if leb 400 status && leb status 599 then status else otherwise
    ]

-- readBody(request, limit): the sizes of the chunks are added up, and a body over the limit is thrown
-- away at the chunk that exceeds it.
unfoldable pub read_body : ℕ → ℕ → List (List ℕ) → Outcome ℕ
read_body limit size [] = ok size
read_body limit size (chunk ∷ chunks) =
    let rest = read_body limit (size + length chunk) chunks in
    if ltb limit (size + length chunk) then error "Request body too large." else rest

-- The limit on the body of a request of the host API.
abbrev pub body_limit : List String → ℕ
body_limit (a ∷ b ∷ verb ∷ rest) =
    if str_eq verb "snapshot-write" then 11184812 + 65536 else 2097152
body_limit _ = 2097152
