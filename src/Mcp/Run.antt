-- ===== src/Mcp/Run.antt =====
-- The table of the tools (src/mcp/tools.js): what each does with its arguments.
use hyperwake_core.Prelude.{String}
use hyperwake_core.Json.{Json}
use hyperwake_core.Mcp.{Js, Program}
use hyperwake_core.Mcp.Schema.{Tool}
use hyperwake_core.Mcp.Machines.{
  create_machine, list_machines, stop_machine, start_machine, delete_machine, open_desktop,
}
use hyperwake_core.Mcp.Shell.{run_command, start_task, check_task}
use hyperwake_core.Mcp.Screen.{
  read_file, write_file, screenshot, click, move_mouse, scroll, type_text, press_key,
}

module _ (js : Js) where
  -- tool.run(args)
  unfoldable pub run : String → Tool → Json → Program
  unfolding create_machine list_machines stop_machine start_machine delete_machine run_command
      start_task check_task read_file write_file screenshot click move_mouse scroll type_text
      press_key open_desktop
  run handle Tool.create_machine args = create_machine js args
  run handle Tool.list_machines args = list_machines js
  run handle Tool.stop_machine args = stop_machine js args
  run handle Tool.start_machine args = start_machine js args
  run handle Tool.delete_machine args = delete_machine js args
  run handle Tool.run_command args = run_command js args
  run handle Tool.start_task args = start_task js handle args
  run handle Tool.check_task args = check_task js args
  run handle Tool.read_file args = read_file js args
  run handle Tool.write_file args = write_file js args
  run handle Tool.screenshot args = screenshot js args
  run handle Tool.click args = click js args
  run handle Tool.move_mouse args = move_mouse js args
  run handle Tool.scroll args = scroll js args
  run handle Tool.type_text args = type_text js args
  run handle Tool.press_key args = press_key js args
  run handle Tool.open_desktop args = open_desktop js args
