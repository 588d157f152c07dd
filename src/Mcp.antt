-- ===== src/Mcp.antt =====
-- The MCP server's tools (src/mcp/tools.js, src/mcp/index.js) as programs over the engine's client.
--
-- A tool is a program: it asks the client of src/mcp/engine.js for one operation at a time, goes on
-- with what the client answers or throws, and ends in a result or an error. The functions of the
-- platform that turn values into text, and the fresh handle of a background task, are arguments.
pub mod Schema
pub mod Quote
pub mod Quoting
pub mod Arguments
pub mod Machines
pub mod Shell
pub mod Screen
pub mod Run
pub mod Methods
pub mod Requests
pub mod Tasks
pub mod Answers
use hyperwake_core.Prelude.{ℕ, String, Bool, true, false, Option, none, some, List, [], ◌∷◌}
use Prim.Native.String.{◌++◌ as append}
use hyperwake_core.Json.{Json, Fields, end, field, str, member}

-- What the tools use of JavaScript: String(value), JSON.stringify(value, null, 2), Math.min and
-- Math.max on a value that is no integer, `.length` of a value that is no text, and the UTF-8 text of
-- Buffer.from(value, 'base64').
pub record Js : Type 0 where
  pub text_of : Json → String
  pub stringify : Json → String
  pub bounded : ℕ → ℕ → Json → Json
  pub length_of : Json → String
  pub decoded : Json → String

-- The methods of the client, and waitForReady. An id is what the caller passed: any value, or none.
pub data Op : Type 0 where
  create_machine : Json → Op
  list_machines : Op
  start_machine stop_machine delete_machine desktop wait_for_ready : Option Json → Op
  act : Option Json → Json → Op

-- An error that was thrown: EngineDown, EngineError with its status, or any other.
pub data Raised : Type 0 where
  engine_down : String → Raised
  engine_error : ℕ → String → Raised
  other_error : String → Raised

pub data Answered : Type 0 where
  answered : Json → Answered
  raised : Raised → Answered

pub data Content : Type 0 where
  text_content : String → Content
  -- { type: 'image', data, mimeType }
  image_content : Option Json → Option Json → Content

pub record ToolResult : Type 0 where
  pub content : Content
  pub is_error : Bool

pub data Program : Type 0 where
  returns : ToolResult → Program
  throws : Raised → Program
  asks : Op → (Answered → Program) → Program

-- const value = await engine.method(…); an error goes on to the caller.
abbrev pub or_throw : (Json → Program) → Answered → Program
or_throw k (answered v) = k v
or_throw k (raised e) = throws e

abbrev pub awaits : Op → (Json → Program) → Program
awaits op k = asks op (or_throw k)

-- text(value)
abbrev pub text : String → ToolResult
text value = record { content = text_content value; is_error = false }

-- json(value)
abbrev pub json : Js → Json → ToolResult
json js value = text (js.stringify value)

abbrev pub concat : List String → String
concat [] = ""
concat (s ∷ ss) = append s (concat ss)

-- A field of an object literal; JSON.stringify leaves out what is undefined.
abbrev pub given : String → Option Json → Fields → Fields
given k none rest = rest
given k (some v) rest = field k v rest

-- `a.key`, undefined as none. String(undefined) is 'undefined'.
abbrev pub spelt : Js → Option Json → String
spelt js none = "undefined"
spelt js (some v) = js.text_of v

-- The fields of describeMachine(m), before others.
unfoldable pub machine_fields : Json → Fields → Fields
unfolding member
machine_fields m rest = given "id" (member m "id") (
    given "name" (member m "name") (
      given "status" (member m "status") (
        given "vcpus" (member m "vcpus")
          (given "memory_mb" (member m "memory_mb") (given "disk_gb" (member m "disk_gb") rest)))))

abbrev pub describe_machine : Json → Json
describe_machine m = Json.obj (machine_fields m end)

-- How a program ends.
pub data Ending : Type 0 where
  returned : ToolResult → Ending
  thrown : Raised → Ending

-- Where the client answers by `perform`.
unfoldable pub run_with : {W : Type 0} → (Op → W → Answered × W) → Program → W → Ending × W
run_with perform (returns r) w = (returned r, w)
run_with perform (throws e) w = (thrown e, w)
run_with perform (asks op k) w = let (a, w') = perform op w in run_with perform (k a) w'
