-- ===== src/Routes/Host.antt =====
-- `HostApi.handle` of src/host-api.js: where a request of the private host API is sent.
use hyperwake_core.Prelude.{
  String, Bool, false, not, Option, none, some, List, [], ◌∷◌, str_eq, string_eq, lookup, is_some,
  or_else, if◌then◌else◌,
}
use hyperwake_core.Json.{Json, truthy}
use hyperwake_core.Text.{is_uuid}
use hyperwake_core.Exec.{Outcome, ok, fail, fail_if, and_then}
use hyperwake_core.Records.{
  Verb, create, start, shutdown, force_stop, destroy, snapshot, restore, snapshot_delete,
  snapshot_import, snapshot_write, snapshot_read, snapshot_seal, fence,
}
use hyperwake_core.Api.{authorised}
use hyperwake_core.Routes.{Method, get, post, Request}

pub data HostRoute : Type 0 where
  list_machines : HostRoute
  describe_machine : String → HostRoute
  -- a snapshot's manifest
  manifest : String → String → HostRoute
  -- these run under the lock of their machine; a create is given the id of its body as it is, which
  -- need not be a text
  create_machine : Json → HostRoute
  ssh : String → HostRoute
  storage command : Verb → String → HostRoute
  open_desktop run_action : String → HostRoute

-- STORAGE_VERBS
abbrev pub storage_verbs : List (String × Verb)
storage_verbs =
    ("snapshot", snapshot)
    ∷ ("restore", restore)
    ∷ ("snapshot-delete", snapshot_delete)
    ∷ ("snapshot-import", snapshot_import)
    ∷ ("snapshot-write", snapshot_write)
    ∷ ("snapshot-read", snapshot_read)
    ∷ ("snapshot-seal", snapshot_seal)
    ∷ ("fence", fence)
    ∷ []

abbrev pub command_verbs : List (String × Verb)
command_verbs =
    ("create", create)
    ∷ ("start", start)
    ∷ ("shutdown", shutdown)
    ∷ ("force-stop", force_stop)
    ∷ ("destroy", destroy)
    ∷ []

abbrev pub or_not_found : Option Verb → String → Outcome HostRoute
or_not_found none id = fail 404 "Not found."
or_not_found (some v) id = ok (command v id)

-- The operation on one machine, of a path with three parts.
unfoldable pub three_parts : String → String → Outcome HostRoute
unfolding lookup
three_parts verb id = if str_eq verb "ssh" then ok (ssh id) else elim (lookup verb storage_verbs) [
  | some v ↦ ok (storage v id)
  | none ↦
      if str_eq verb "desktop"
      then ok (open_desktop id)
      else if str_eq verb "actions"
      then ok (run_action id)
      else or_not_found (lookup verb command_verbs) id
]

-- The text of id || '' as UUID.test reads it: `text_of` is String(value) of a value that is no text.
abbrev pub id_text : (Json → String) → Option Json → String
id_text text_of none = ""
id_text text_of (some (Json.str s)) = s
id_text text_of (some v) = if truthy (some v) then text_of v else ""

-- if (!UUID.test(id || '')) fail(…): the id goes on as it is.
unfoldable pub checked_id : (Json → String) → Option Json → Outcome Json
unfolding is_uuid
checked_id text_of id =
    if is_uuid (id_text text_of id)
    then ok (or_else id Json.null)
    else fail 400 "id must be a UUID."

-- POST: a path of one part is a create, whose id stands in the body; so does that of the verb create
-- in a path of three, which is none of the other verbs.
unfoldable pub post_route : (Json → String) → List String → Option Json → Outcome HostRoute
unfolding checked_id three_parts
post_route text_of (machines ∷ []) body_id =
    and_then (checked_id text_of body_id) λ id. ok (create_machine id)
post_route text_of (machines ∷ id ∷ verb ∷ []) body_id =
    if str_eq verb "create"
    then and_then (checked_id text_of body_id) (λ i. ok (create_machine i))
    else and_then (checked_id text_of (some (Json.str id))) (λ i. three_parts verb id)
post_route text_of (machines ∷ id ∷ []) body_id =
    and_then (checked_id text_of (some (Json.str id))) λ i. fail 404 "Not found."
post_route text_of (machines ∷ id ∷ verb ∷ more) body_id =
    and_then (checked_id text_of (if str_eq verb "create" then body_id else some (Json.str id)))
      λ i. fail 404 "Not found."
post_route text_of [] body_id = fail 404 "Not found."

-- GET of a snapshot's manifest
unfoldable pub manifest_route : String → String → Outcome HostRoute
unfolding is_uuid
manifest_route id snapshot_id =
    if is_uuid snapshot_id
    then ok (manifest id snapshot_id)
    else fail 400 "snapshot_id must be a UUID."

unfoldable pub method_route :
    (Json → String) → Method → List String → Option Json → Outcome HostRoute
unfolding post_route manifest_route
method_route text_of get (machines ∷ []) body_id = ok list_machines
method_route text_of get (machines ∷ id ∷ []) body_id = ok (describe_machine id)
method_route text_of get (machines ∷ id ∷ part ∷ snapshot_id ∷ []) body_id =
    if str_eq part "snapshots"
    then manifest_route id snapshot_id
    else fail 405 "Method not allowed."
method_route text_of post parts body_id = post_route text_of parts body_id
method_route text_of _ parts body_id = fail 405 "Method not allowed."

abbrev pub is_machines : List String → Bool
is_machines [] = false
is_machines (part ∷ rest) = str_eq part "machines"

-- HostApi.handle(request, parts, body); `body_id` is body.id, any value. That the machine of a manifest is there
-- is checked by the operation.
unfoldable pub host_route :
    (String → String)
    → (Json → String)
    → Option String
    → Request
    → List String
    → Option Json
    → Outcome HostRoute
unfolding authorised method_route
host_route sha256 text_of none r parts body_id = fail 404 "Not found."
host_route sha256 text_of (some token) r parts body_id =
    and_then (fail_if (not (authorised sha256 r.authorization token)) 401 "Unauthenticated.") λ _.
      and_then (fail_if (is_some r.origin) 403 "Browser origins are not accepted.") λ _.
        and_then (fail_if (not (is_machines parts)) 404 "Not found.")
          λ _. method_route text_of r.method parts body_id
