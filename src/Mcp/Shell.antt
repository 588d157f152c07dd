-- ===== src/Mcp/Shell.antt =====
-- run_command, start_task and check_task (src/mcp/tools.js).
use hyperwake_core.Prelude.{String, true, [], ◌∷◌, str_eq, pos, if◌then◌else◌}
use hyperwake_core.Json.{Json, end, field, str, member, truthy}
use hyperwake_core.Text.{trim, trim_end}
use hyperwake_core.Text.Split.{split, join}
use hyperwake_core.Mcp.{
  Js, Op, Program, returns, ToolResult, text_content, awaits, json, concat, spelt,
}
use hyperwake_core.Mcp.Quote.{shell_quote}
use hyperwake_core.Mcp.Arguments.{or_number, clamped, action, machine, task_log, takes, with_text}

abbrev pub task_state : String → String → Json
task_state state output = Json.obj (
    field "running" (Json.bool (str_eq (trim state) "RUNNING"))
      (field "output" (str (trim_end output)) end))

-- What check_task makes of its script's output.
unfoldable pub task_report : String → Json
unfolding split join trim trim_end
task_report stdout =
    let (state, rest) = split "\n---\n" stdout in task_state state (join "\n---\n" rest)

module _ (js : Js) where
  -- What is said of a command that met its limit: `timeout` as the caller gave it.
  unfoldable pub stopped_early : Json → Json → ToolResult
  unfolding member
  stopped_early args result = record {
    content = text_content (
        concat (
          "The command hit its "
          ∷ js.text_of (or_number 60 (member args "timeout"))
          ∷ "s limit and was stopped.\n\nPartial output:\n"
          ∷ spelt js (member result "stdout")
          ∷ spelt js (member result "stderr")
          ∷ "\n\nRun it with start_task instead, which has no time limit."
          ∷ []));
    is_error = true;
  }

  unfoldable pub run_command : Json → Program
  unfolding member truthy clamped stopped_early
  run_command args =
      awaits
        (Op.act (machine args) (
          action "exec" (
            takes args "command"
              (field "timeout" (clamped js 1 120 (or_number 60 (member args "timeout"))) end))))
        λ result.
          if truthy (member result "timed_out")
          then returns (stopped_early args result)
          else returns (
              json js (
                Json.obj (
                  takes result "exit_code" (
                    takes result "stdout" (takes result "stderr" (takes result "truncated" end))))))

  -- The script that detaches a command.
  unfoldable pub task_script : String → String → String
  unfolding shell_quote
  task_script handle command =
      let log = task_log handle in
      concat (
        "setsid nohup sh -c "
        ∷ shell_quote command
        ∷ " > "
        ∷ log
        ∷ " 2>&1 < /dev/null &\necho $! > "
        ∷ log
        ∷ ".pid"
        ∷ [])

  -- `handle` is what the clock and Math.random gave.
  unfoldable pub start_task : String → Json → Program
  unfolding member task_script
  start_task handle args = with_text (member args "command") λ command.
      awaits
        (Op.act (machine args) (
          action "exec" (
            field "command" (str (task_script handle command))
              (field "timeout" (Json.int (pos 20)) end))))
        λ _. returns (
          json js (
            Json.obj (
              field "handle" (str handle) (
                field "log" (str (task_log handle)) (
                  field "note"
                    (str
                      "Started. Call check_task with this handle. Do not assume it succeeded until check_task says it finished.")
                    end)))))

  unfoldable pub check_script : String → Json → String
  check_script handle lines =
      let log = task_log handle in
      concat (
        "if [ -f "
        ∷ log
        ∷ ".pid ] && kill -0 \"$(cat "
        ∷ log
        ∷ ".pid)\" 2>/dev/null; then echo RUNNING; else echo FINISHED; fi; echo '---'; tail -n "
        ∷ js.text_of lines
        ∷ " "
        ∷ log
        ∷ " 2>/dev/null || echo '(no output yet)'"
        ∷ [])

  unfoldable pub check_task : Json → Program
  unfolding member clamped check_script task_report
  check_task args =
      awaits
        (Op.act (machine args) (
          action "exec" (
            field "timeout" (Json.int (pos 30)) (
              field "command"
                (str (
                  check_script (spelt js (member args "handle"))
                    (clamped js 1 500 (or_number 40 (member args "lines")))))
                end))))
        λ result.
          with_text (member result "stdout") λ stdout. returns (json js (task_report stdout))
