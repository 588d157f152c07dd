-- ===== src/Tests/Tools.antt =====
-- The MCP tools on small inputs.
use Prim.Native.String.{◌++◌ as append}
use hyperwake_core.Prelude.{String, ◌≡◌, refl, true, some, [], ◌∷◌, pos, arith, eq_iff}
use hyperwake_core.Json.{Json, end, field, str, member}
use hyperwake_core.Frames.{result, rpc_error}
use hyperwake_core.Mcp.{Js, Op, Answered, raised, engine_error, ToolResult, concat}
use hyperwake_core.Mcp.Schema.{Tool}
use hyperwake_core.Mcp.Quote.{shell_quote, read_word, bare}
use hyperwake_core.Mcp.Quoting.{read_word-shell_quote}
use hyperwake_core.Mcp.Run.{run}
use hyperwake_core.Mcp.Requests.{Asks, IsAbout, IsTimely, run-IsAbout, run-IsTimely}
use hyperwake_core.Mcp.Shell.{task_report}
use hyperwake_core.Mcp.Tasks.{task_report-reads}
use hyperwake_core.Mcp.Methods.{named, tools_call, invalid_params, result_json}
use hyperwake_core.Mcp.Answers.{Requires, IsMissing, tools_call_incomplete, tools_call_complete}
use hyperwake_core.Text.{trim_end}

abbrev js : Js
js = record {
  text_of = λ v. "v";
  stringify = λ v. "{}";
  bounded = λ low high v. v;
  length_of = λ v. "0";
  decoded = λ v. "";
}

abbrev arguments : Json
arguments = Json.obj (
    field "machine_id" (str "m1")
      (field "command" (str "make all") (field "timeout" (Json.int (pos 900)) end)))

abbrev params : Json
params = Json.obj (field "name" (str "run_command") (field "arguments" arguments end))

abbrev no_command : Json
no_command = Json.obj (
    field "name" (str "run_command")
      (field "arguments" (Json.obj (field "machine_id" (str "m1") end)) end))

-- A client whose engine refuses everything.
abbrev refusing : Op → Unit {0} → Answered × (Unit {0})
refusing op w = (raised (engine_error 409 "Machine is not running."), w)

read_word-shell_quote_example :
    read_word bare (append (shell_quote "echo 'a b' \\ c") (append " " "> log"))
    ≡ some ("echo 'a b' \\ c", append " " "> log")
read_word-shell_quote_example = read_word-shell_quote "echo 'a b' \\ c" "> log"

run-IsAbout_example :
    Asks (IsAbout (member arguments "machine_id")) (run js "h1" Tool.start_machine arguments)
run-IsAbout_example = run-IsAbout js "h1" Tool.start_machine arguments (λ x. x)

given_timeout : member arguments "timeout" ≡ some (Json.int (pos 900))
unfolding member
given_timeout = refl

run-IsTimely_example : Asks IsTimely (run js "h1" Tool.run_command arguments)
run-IsTimely_example =
    run-IsTimely js "h1" Tool.run_command arguments (some (pos 900)) given_timeout (λ x. x)

task_report-reads_example :
    task_report (append "RUNNING" (append "\n---\n" "step 1\n---\nstep 2\n"))
    ≡ Json.obj (
        field "running"
          (Json.bool true)
          (field "output" (str (trim_end "step 1\n---\nstep 2\n")) end))
task_report-reads_example = task_report-reads true "step 1\n---\nstep 2\n"

IsMissing-command : IsMissing no_command "command"
unfolding member
IsMissing-command = refl

named_incomplete : named (member no_command "name") ≡ some Tool.run_command
unfolding member
named_incomplete = refl

named_complete : named (member params "name") ≡ some Tool.run_command
unfolding member
named_complete = refl

tools_call_incomplete_example :
    (j : String) × Requires Tool.run_command j
    × IsMissing no_command j
    × (tools_call js "h1" refusing no_command tt
        ≡ (rpc_error invalid_params (concat ("run_command" ∷ " needs \"" ∷ j ∷ "\"." ∷ [])), tt))
tools_call_incomplete_example =
    tools_call_incomplete js "h1" refusing no_command Tool.run_command "command" tt named_incomplete
      refl IsMissing-command

-- Both arguments that run_command requires are there.
all_given : (k : String) → Requires Tool.run_command k → IsMissing params k → ⊥
unfolding member
all_given k required missing = ground (arith, eq_iff k "machine_id", eq_iff k "command")

tools_call_complete_example :
    (r : ToolResult) × ((tools_call js "h1" refusing params tt).0 ≡ result (some (result_json r)))
tools_call_complete_example =
    tools_call_complete js "h1" refusing params Tool.run_command tt named_complete all_given
