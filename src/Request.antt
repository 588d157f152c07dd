-- ===== src/Request.antt =====
-- The checks of `HostApi.mutate` (src/host-api.js) that read nothing but the request, in the order
-- of the source. A body is the list of its own fields.
use hyperwake_core.Prelude.{
  ℕ, String, Bool, false, not, ◌&&◌, ◌||◌, Option, none, some, List, [], ◌∷◌, leb, str_eq,
  string_eq, any, all, is_some, or_else, lookup, if◌then◌else◌,
}
use hyperwake_core.Json.{
  Json, Body, Fields, end, field, obj, as_string, as_integer, as_index, as_bool,
}
use hyperwake_core.Json.Fingerprint.{canonical}
use hyperwake_core.Exec.{Outcome, ok, thrown, fail, fail_if, and_then}
use hyperwake_core.Records.{Verb, create, destroy, verb_beq, OperationKey, Spec}
use hyperwake_core.Text.{is_operation_id, trim}
use hyperwake_core.Api.{validate_spec}

pub record Request : Type 0 where
  pub key : OperationKey
  pub generation : ℕ
  pub fingerprint : Body
  -- of a create
  pub spec : Option Spec
  pub image_ref : Option Json
  pub recreate : Bool
  -- of a destroy
  pub delete_disk : Bool

-- Number.isSafeInteger(body.generation) && body.generation >= 1
unfoldable pub generation_of : Body → Option ℕ
unfolding lookup as_index
generation_of body = elim (as_index (lookup "generation" body)) [
  | none ↦ none
  | some n ↦ if leb 1 n then some n else none
]

unfoldable pub operation_id_of : Body → Option String
unfolding lookup as_string is_operation_id
operation_id_of body = elim (as_string (lookup "operation_id" body)) [
  | none ↦ none
  | some s ↦ if is_operation_id s then some s else none
]

abbrev pub allowed_fields : Verb → List String
allowed_fields create =
    "id" ∷ "name" ∷ "vcpus" ∷ "memory_mb" ∷ "disk_gb" ∷ "image_ref" ∷ "operation_id" ∷ "generation"
    ∷ "recreate" ∷ []
allowed_fields destroy = "operation_id" ∷ "generation" ∷ "delete_disk" ∷ []
allowed_fields _ = "operation_id" ∷ "generation" ∷ []

abbrev pub only_fields : List String → Body → Bool
only_fields allowed body = all (λ e. any (str_eq e.0) allowed) body

-- typeof body[k] !== 'boolean'
abbrev pub lacks_bool : Body → String → Bool
lacks_bool body k = not (is_some (as_bool (lookup k body)))

unfoldable pub fields_of_body : Body → Fields
fields_of_body [] = end
fields_of_body ((k, v) ∷ rest) = field k v (fields_of_body rest)

-- 'A name and integer resource sizes are required.'
unfoldable pub lacks_sizes : Body → Bool
unfolding lookup as_integer as_string trim
lacks_sizes body =
    not (
      is_some (as_integer (lookup "vcpus" body))
      && is_some (as_integer (lookup "memory_mb" body))
      && is_some (as_integer (lookup "disk_gb" body)))
    || str_eq (trim (or_else (as_string (lookup "name" body)) "")) ""

-- try { spec = validateSpec(body) } catch (error) { fail(400, error.message) }
abbrev pub as_client_error : Outcome Spec → Outcome (Option Spec)
as_client_error (ok spec) = ok (some spec)
as_client_error (thrown e) = fail 400 e.message

unfoldable pub spec_of : ℕ → Verb → Body → Outcome (Option Spec)
unfolding lacks_sizes validate_spec fields_of_body
spec_of now create body =
    and_then (fail_if (lacks_sizes body) 400 "A name and integer resource sizes are required.")
      λ _. as_client_error (validate_spec now (obj (fields_of_body body)))
spec_of now _ body = ok none

-- if (absent) fail(400, message)
abbrev pub needed {ℓ} : {A : Type ℓ} → String → Option A → Outcome A
needed message none = fail 400 message
needed message (some a) = ok a

abbrev is_true : Option Bool → Bool
is_true none = false
is_true (some b) = b

unfoldable pub check_request : ℕ → Verb → Body → Outcome Request
unfolding generation_of operation_id_of lookup as_bool canonical spec_of
check_request now verb body =
    and_then (needed "generation must be a positive integer." (generation_of body)) λ generation.
      and_then
        (needed "operation_id is required (letters, numbers, underscores or hyphens; maximum 128)."
          (operation_id_of body))
        λ operation_id.
          and_then
            (fail_if (not (only_fields (allowed_fields verb) body)) 400 "Unknown operation field.")
            λ _.
              and_then
                (fail_if
                  (verb_beq verb create
                    && is_some (lookup "recreate" body)
                    && lacks_bool body "recreate")
                  400 "recreate must be a boolean.")
                λ _.
                  and_then
                    (fail_if (verb_beq verb destroy && lacks_bool body "delete_disk") 400
                      "destroy requires explicit delete_disk.")
                    λ _. and_then (spec_of now verb body) λ spec. ok (record {
                      key = record { verb = verb; operation_id = operation_id };
                      generation = generation;
                      fingerprint = canonical body;
                      spec = spec;
                      image_ref = lookup "image_ref" body;
                      recreate = is_true (as_bool (lookup "recreate" body));
                      delete_disk = is_true (as_bool (lookup "delete_disk" body));
                    })
