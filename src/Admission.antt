-- ===== src/Admission.antt =====
-- `hostToken` and `HostApi.validateDesktop` of src/host-api.js, and `identify` and `imageStatus` of
-- src/image.js: what lets a caller, a viewer or an image through.
--
-- The environment, the files and the answer of fetch are arguments; an empty variable or file is
-- none.
pub mod Tokens
use hyperwake_core.Prelude.{
  ℕ, String, Bool, true, false, not, ◌&&◌, ◌||◌, Option, none, some, List, [], ◌∷◌, ltb, nat_beq,
  str_eq, find, or_else, if◌then◌else◌,
}
use hyperwake_core.Json.{Json, Items, nil, cons, member, as_string}
use hyperwake_core.Exec.{
  Outcome, ok, thrown, error, fail_if, and_then, Exec, pure, lift, gets, ◌>>=◌,
}
use hyperwake_core.Records.{Cloud, Record, Described}
use hyperwake_core.Text.{units_of, trim}
use hyperwake_core.Guest.{is_set}
use hyperwake_core.Tickets.{Binding}
use hyperwake_core.Engine
use hyperwake_core.Engine.{Host, Engine, clock}
use hyperwake_core.Description.{host_description}
use hyperwake_core.Lifecycle.{current}

-- The token of the file; where there is none it is minted, and written with the flag 'wx', which
-- refuses a file that is there, though its text be blank.
abbrev pub filed_token : Option String → String → Outcome String
filed_token none minted = ok minted
filed_token (some s) minted = if str_eq (trim s) "" then error "EEXIST" else ok (trim s)

abbrev pub chosen_token : Option String → Option String → String → Outcome String
chosen_token none file minted = filed_token file minted
chosen_token (some s) file minted = if str_eq s "" then filed_token file minted else ok s

abbrev pub distinct : String → String → Outcome (Option String)
distinct operator token =
    if ltb (units_of token) 32 || str_eq token operator
    then error "Host API requires a distinct token of at least 32 characters."
    else ok (some token)

-- hostToken(operator, env): `configured` is MOLA_HOST_TOKEN, `file` the token file's content.
unfoldable pub host_token :
    Bool → Option String → Option String → String → String → Outcome (Option String)
unfolding units_of trim
host_token false configured file minted operator = ok none
host_token true configured file minted operator =
    and_then (chosen_token configured file minted) (distinct operator)

abbrev pub same_boot : Option String → Option String → Bool
same_boot (some a) (some b) = str_eq a b
same_boot none none = true
same_boot _ _ = false

-- The machine is there, under the binding's generation and boot.
abbrev pub is_bound : Binding → Record → Cloud → Bool
is_bound b r c = not c.deleted && nat_beq c.generation b.generation && same_boot r.boot_id b.boot_id

abbrev pub still_bound : ℕ → Binding → Described → Option Record → Bool
still_bound now b d none = false
still_bound now b d (some r) = elim r.cloud [
  | none ↦ false
  | some c ↦ is_bound b r c && (host_description now r c (some d) none).ready
]

abbrev pub bound_before : Binding → Option Record → Bool
bound_before b none = false
bound_before b (some r) = elim r.cloud [
  | none ↦ false
  | some c ↦ is_set b.boot_id && is_bound b r c
]

-- validateDesktop(id, binding), under the machine's lock
unfoldable pub validate_desktop : {W : Type 0} → Host W → String → Binding → Exec (Engine W) Bool
unfolding host_description
validate_desktop host id b = do
  before ← gets (current id)
  if bound_before b before
      then (do
        d ← Engine.describe host id
        now ← clock host
        after ← gets (current id)
        pure (still_bound now b d after))
      else pure false

abbrev pub elements : Items → List Json
elements nil = []
elements (cons v vs) = v ∷ elements vs

abbrev pub items_of : Option Json → List Json
items_of (some (Json.arr vs)) = elements vs
items_of _ = []

pub record Identity : Type 0 where
  pub version : Option Json
  pub digest : Option String

abbrev pub is_rootfs : Json → Bool
is_rootfs a = str_eq (or_else (as_string (member a "name")) "") "root.ext4"

abbrev pub digest_of : Option Json → Option String
digest_of none = none
digest_of (some a) = as_string (member a "sha256")

-- identify(manifest)
unfoldable pub identify : Json → Identity
unfolding member as_string
identify manifest = record {
  version = member manifest "version";
  digest = digest_of (find is_rootfs (items_of (member manifest "artifacts")));
}

pub data ImageState : Type 0 where
  unrecorded unknown current_image stale : ImageState

abbrev pub compared : Option String → Option String → ImageState
compared (some a) (some b) =
    if str_eq a "" || str_eq b "" then unknown else if str_eq a b then current_image else stale
compared _ _ = unknown

-- imageStatus: `published` is the manifest that fetch answered, none where it failed.
unfoldable pub image_status : Option Json → Option Json → ImageState
unfolding identify
image_status none published = unrecorded
image_status (some installed) none = unknown
image_status (some installed) (some published) =
    compared (identify published).digest (identify installed).digest
