-- ===== src/Mcp/Tasks.antt =====
-- What check_task reads is what its script printed.
use Prim.Native.String.{◌++◌ as append}
use hyperwake_core.Prelude.{String, ◌≡◌, refl, ap, ◌∙◌, Bool, true, false, some}
use hyperwake_core.Json.{Json, end, field, str}
use hyperwake_core.Text.{trim, trim_end}
use hyperwake_core.Text.Split.{split, join, cut_at, cut_at-append, split-cut_at}
use hyperwake_core.Mcp.Shell.{task_report, task_state}

-- The first line of the script's output.
abbrev pub state_line : Bool → String
state_line true = "RUNNING"
state_line false = "FINISHED"

-- The separator is the line '---'.
abbrev pub separator : String
separator = "\n---\n"

cut_at-state :
    (running : Bool) (output : String)
    → cut_at separator (append (state_line running) (append separator output))
      ≡ some (state_line running, output)
cut_at-state true output = cut_at-append "\n" "---\n" "RUNNING" output refl
cut_at-state false output = cut_at-append "\n" "---\n" "FINISHED" output refl

state_read :
    (running : Bool) (output : String)
    → task_state (state_line running) output
      ≡ Json.obj (field "running" (Json.bool running) (field "output" (str (trim_end output)) end))
unfolding trim
state_read true output = refl
state_read false output = refl

-- Whether the task is running, and all of its output less the blanks at its end, are read from what
-- the script prints (its state, a line of three dashes, the output), whatever the output is, lines of
-- three dashes within it included.
pub task_report-reads :
    (running : Bool) (output : String)
    → task_report (append (state_line running) (append separator output))
      ≡ Json.obj (field "running" (Json.bool running) (field "output" (str (trim_end output)) end))
unfolding task_report
task_report-reads running output =
    let stdout = append (state_line running) (append separator output) in
    let (first, others) =
      split-cut_at separator stdout (state_line running) output (cut_at-state running output) in
    ap (λ x. task_state x (join separator (split separator stdout).1)) first
    ∙ ap (task_state (state_line running)) others
    ∙ state_read running output
