-- ===== src/Mcp/Methods.antt =====
-- src/mcp/index.js: the methods of the MCP server.
--
-- The version of package.json is an argument, and so is what the client does. A listed tool shows its
-- name and its schema; its titles and descriptions are left out, and so is the advice of initialize.
use Prim.Native.String.{◌++◌ as append}
use hyperwake_core.Prelude.{
  ℕ, String, Bool, true, false, Option, none, some, List, [], ◌∷◌, ℤ, negsuc, nat_beq, lookup,
  string_eq, if◌then◌else◌,
}
use hyperwake_core.Json.{Json, Items, nil, cons, Fields, end, field, str, member}
use hyperwake_core.Frames.{Handled, result, rpc_error, method_not_found}
use hyperwake_core.Mcp.{
  Js, Op, Raised, engine_down, engine_error, other_error, Answered, Content, text_content,
  image_content, ToolResult, Ending, returned, thrown, concat, given, spelt, run_with,
}
use hyperwake_core.Mcp.Schema.{Kind, Tool, schema, tools, by_name}
use hyperwake_core.Mcp.Run.{run}

abbrev pub failed_with : String → ToolResult
failed_with message = record { content = text_content message; is_error = true }

-- The advice for a status of the engine.
abbrev pub hint : ℕ → String
hint status =
    if nat_beq status 409
    then " The machine is not in a state that allows this; check list_machines."
    else if nat_beq status 404
    then " No machine with that id. Check list_machines, or create one."
    else ""

-- asToolError(error)
unfoldable pub as_tool_error : Raised → ToolResult
as_tool_error (engine_down message) = failed_with (
    append message
      "\n\nThe Mola engine is not running. Ask the person to run `npx mola-core` in a terminal and leave it running, then try again.")
as_tool_error (engine_error status message) = failed_with (append message (hint status))
as_tool_error (other_error message) = failed_with message

-- try { return await tool.run(args) } catch (error) { return asToolError(error) }
abbrev pub settled : Ending → ToolResult
settled (returned r) = r
settled (thrown e) = as_tool_error e

abbrev content_json : Content → Json
content_json (text_content text) =
    Json.obj (field "type" (str "text") (field "text" (str text) end))
content_json (image_content image kind) =
    Json.obj (field "type" (str "image") (given "data" image (given "mimeType" kind end)))

abbrev marks_error : Bool → Fields
marks_error true = field "isError" (Json.bool true) end
marks_error false = end

abbrev pub result_json : ToolResult → Json
result_json r =
    Json.obj
      (field "content" (Json.arr (cons (content_json r.content) nil)) (marks_error r.is_error))

abbrev pub invalid_params : ℤ
invalid_params = negsuc 32601

-- args?.[key]
abbrev pub given_argument : Option Json → String → Option Json
given_argument none k = none
given_argument (some args) k = member args k

-- The first required argument that is undefined.
unfoldable pub first_missing : List String → Option Json → Option String
unfolding member
first_missing [] args = none
first_missing (k ∷ ks) args =
    let later = first_missing ks args in
    elim (given_argument args k) [ none ↦ some k | some v ↦ later ]

-- args ?? {}
abbrev pub or_empty : Option Json → Json
or_empty none = Json.obj end
or_empty (some Json.null) = Json.obj end
or_empty (some args) = args

abbrev texts_items : List String → Items
texts_items [] = nil
texts_items (s ∷ ss) = cons (str s) (texts_items ss)

abbrev texts : List String → Json
texts ss = Json.arr (texts_items ss)

abbrev kind_json : Kind → Json
kind_json Kind.text = Json.obj (field "type" (str "string") end)
kind_json Kind.integer = Json.obj (field "type" (str "integer") end)
kind_json (Kind.one_of choices) =
    Json.obj (field "type" (str "string") (field "enum" (texts choices) end))

abbrev properties_json : List (String × Kind) → Fields
properties_json [] = end
properties_json ((k, kind) ∷ ps) = field k (kind_json kind) (properties_json ps)

abbrev required_json : List String → Fields
required_json [] = end
required_json ks = field "required" (texts ks) end

-- The object that tools/list shows of a tool.
unfoldable pub spec_json : Tool → Json
spec_json t = Json.obj (
    field "name" (str (schema t).name) (
      field "inputSchema"
        (Json.obj (
          field "type" (str "object") (
            field "properties" (Json.obj (properties_json (schema t).properties))
              (required_json (schema t).required))))
        end))

unfoldable pub specs : List Tool → Items
unfolding spec_json
specs [] = nil
specs (t ∷ ts) = cons (spec_json t) (specs ts)

-- byName.get(name) of any value
abbrev pub named : Option Json → Option Tool
named (some (Json.str name)) = by_name name
named _ = none

module _ {W : Type 0} (js : Js) (handle : String) (perform : Op → W → Answered × W) where
  unfoldable pub call_tool : Tool → Option Json → W → Handled × W
  unfolding run run_with as_tool_error first_missing
  call_tool t args w = elim (first_missing (schema t).required args) [
    | some k ↦
        (rpc_error invalid_params (concat ((schema t).name ∷ " needs \"" ∷ k ∷ "\"." ∷ [])), w)
    | none ↦
        let (ending, w') = run_with perform (run js handle t (or_empty args)) w in
        (result (some (result_json (settled ending))), w')
  ]

  -- 'tools/call'
  unfoldable pub tools_call : Json → W → Handled × W
  unfolding member call_tool
  tools_call params w = elim (named (member params "name")) [
    | none ↦
        (rpc_error method_not_found (append "No such tool: " (spelt js (member params "name"))), w)
    | some t ↦ call_tool t (member params "arguments") w
  ]

  abbrev always : Option Json → Json → W → Handled × W
  always answer params w = (result answer, w)

  -- initialize()
  abbrev introduction : String → Json
  introduction version = Json.obj (
      field "protocolVersion" (str "2025-06-18") (
        field "capabilities"
          (Json.obj (field "tools" (Json.obj (field "listChanged" (Json.bool false) end)) end))
          (field "serverInfo"
            (Json.obj (field "name" (str "mola") (field "version" (str version) end))) end)))

  -- The methods of createMcpServer, for src/mcp/stdio.js to serve.
  unfoldable pub methods : String → String → Option (Json → W → Handled × W)
  unfolding tools_call specs lookup
  methods version method = lookup method (
      ("initialize", always (some (introduction version)))
      ∷ ("notifications/initialized", always none)
      ∷ ("ping", always (some (Json.obj end)))
      ∷ ("tools/list", always (some (Json.obj (field "tools" (Json.arr (specs tools)) end))))
      ∷ ("tools/call", tools_call)
      ∷ [])
