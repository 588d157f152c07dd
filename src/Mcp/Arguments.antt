-- ===== src/Mcp/Arguments.antt =====
-- How the tools of src/mcp/tools.js read their arguments and the client's answers.
use hyperwake_core.Prelude.{ℕ, String, Option, none, some, [], ◌∷◌, ltb, pos, negsuc, if◌then◌else◌}
use hyperwake_core.Json.{Json, Items, nil, cons, Fields, field, str, member, truthy}
use hyperwake_core.Mcp.{
  Js, Program, throws, other_error, concat, given, machine_fields, describe_machine,
}

-- A method of what is no text, or a field of null.
abbrev pub type_error : Program
type_error = throws (other_error "TypeError")

-- value ?? n
abbrev pub or_number : ℕ → Option Json → Json
or_number n none = Json.int (pos n)
or_number n (some Json.null) = Json.int (pos n)
or_number n (some v) = v

-- Math.min(Math.max(value, low), high)
unfoldable pub clamped : Js → ℕ → ℕ → Json → Json
clamped js low high (Json.int (pos n)) =
    Json.int (pos (if ltb n low then low else if ltb high n then high else n))
clamped js low high (Json.int (negsuc n)) = Json.int (pos low)
clamped js low high v = js.bounded low high v

-- { action, … }
abbrev pub action : String → Fields → Json
action name fields = Json.obj (field "action" (str name) fields)

-- ...(args.key ? { key: args.key } : {})
abbrev pub if_truthy : Json → String → Fields → Fields
if_truthy args k rest = if truthy (member args k) then given k (member args k) rest else rest

abbrev pub machine : Json → Option Json
machine args = member args "machine_id"

-- taskLog(handle)
abbrev pub task_log : String → String
task_log handle = concat ("/tmp/mola-task-" ∷ handle ∷ ".log" ∷ [])

-- (Array.isArray(machines) ? machines : []).map(describeMachine), or none where an element is null.
unfoldable pub described_list : Json → Option Items
unfolding machine_fields
described_list (Json.arr items) = described items
  where
    described : Items → Option Items
    described nil = some nil
    described (cons Json.null rest) = none
    described (cons m rest) = elim (described rest) [
      | none ↦ none
      | some others ↦ some (cons (describe_machine m) others)
    ]
described_list _ = some nil

-- A field of `body` that an action takes over from the arguments.
abbrev pub takes : Json → String → Fields → Fields
takes args k rest = given k (member args k) rest

-- A method of a value that must be a text.
abbrev pub with_text : Option Json → (String → Program) → Program
with_text (some (Json.str s)) k = k s
with_text _ k = type_error
