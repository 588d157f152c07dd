-- ===== src/Api/Actions.antt =====
-- What `validateAction` lets through.
use hyperwake_core.Prelude.{String, ◌≡◌, refl, Bool, true, Option, none, some, arith, is_some, ◌&&◌}
use hyperwake_core.Json.{Json, member, as_string}
use hyperwake_core.Exec.{ok}
use hyperwake_core.Api.{
  Action, exec, read_file, write_file, type_text, key, named_action, check_action, validate_action,
  validated,
}

abbrev pub has_text : Json → String → Bool
has_text body field = is_some (as_string (member body field))

-- The text fields that each action needs.
abbrev pub is_complete : Action → Json → Bool
is_complete exec body = has_text body "command"
is_complete read_file body = has_text body "path"
is_complete write_file body = has_text body "path" && has_text body "content"
is_complete type_text body = has_text body "text"
is_complete key body = has_text body "key"
is_complete _ body = true

check_action-ok :
    (a : Action) (body b : Json)
    → check_action a body ≡ ok b
    → (b ≡ body) × (is_complete a body ≡ true)
unfolding check_action
check_action-ok exec body b h = ground arith
check_action-ok _ body b h = ground arith

validated-ok :
    (o : Option Action) (body b : Json)
    → validated o body ≡ ok b
    → (b ≡ body) × ((a : Action) × (o ≡ some a) × (is_complete a body ≡ true))
unfolding validated
validated-ok none body b h = absurd (cc)
validated-ok (some a) body b h =
    let (same, complete) = check_action-ok a body b h in (same, (a, refl, complete))

-- An action is let through only as it came, and only if it names one of the nine actions and has
-- the text fields that this action needs.
validate_action-ok :
    (body b : Json)
    → validate_action body ≡ ok b
    → (b ≡ body) × ((a : Action) × (named_action body ≡ some a) × (is_complete a body ≡ true))
unfolding validate_action
validate_action-ok body b h = validated-ok (named_action body) body b h

validated_complete :
    (a : Action) (body : Json) → is_complete a body ≡ true → validated (some a) body ≡ ok body
unfolding validated
validated_complete exec body h = ground arith
validated_complete _ body h = ground arith

-- A body that names an action and has its text fields is let through.
validate_action_complete :
    (body : Json) (a : Action)
    → named_action body ≡ some a
    → is_complete a body ≡ true
    → validate_action body ≡ ok body
unfolding validate_action
validate_action_complete body a named h = rw named (validated_complete a body h)
