-- ===== src/Mcp/Schema.antt =====
-- The tools of src/mcp/tools.js: their names, and the arguments that their schemas name and require.
-- The titles and descriptions are texts for the model and are left out.
use hyperwake_core.Prelude.{String, Option, List, [], ◌∷◌, str_eq, find}

-- The type of an argument; a direction is one of four texts.
pub data Kind : Type 0 where
  text integer : Kind
  one_of : List String → Kind

pub record Schema : Type 0 where
  pub name : String
  pub properties : List (String × Kind)
  pub required : List String

pub data Tool : Type 0 where
  create_machine list_machines stop_machine start_machine delete_machine : Tool
  run_command start_task check_task : Tool
  read_file write_file : Tool
  screenshot click move_mouse scroll type_text press_key : Tool
  open_desktop : Tool

-- machineArg
abbrev machine_id : String × Kind
machine_id = ("machine_id", text)

abbrev about_machine : String → List (String × Kind) → List String → Schema
about_machine name properties required = record {
  name = name;
  properties = machine_id ∷ properties;
  required = "machine_id" ∷ required;
}

abbrev directions : Kind
directions = one_of ("up" ∷ "down" ∷ "left" ∷ "right" ∷ [])

-- spec.name and spec.inputSchema
abbrev pub schema : Tool → Schema
schema create_machine = record {
  name = "create_machine";
  properties =
      ("name", text) ∷ ("vcpus", integer) ∷ ("memory_mb", integer) ∷ ("disk_gb", integer) ∷ [];
  required = [];
}
schema list_machines = record { name = "list_machines"; properties = []; required = [] }
schema stop_machine = about_machine "stop_machine" [] []
schema start_machine = about_machine "start_machine" [] []
schema delete_machine = about_machine "delete_machine" [] []
schema run_command =
    about_machine "run_command" (("command", text) ∷ ("timeout", integer) ∷ []) ("command" ∷ [])
schema start_task = about_machine "start_task" (("command", text) ∷ []) ("command" ∷ [])
schema check_task =
    about_machine "check_task" (("handle", text) ∷ ("lines", integer) ∷ []) ("handle" ∷ [])
schema read_file = about_machine "read_file" (("path", text) ∷ []) ("path" ∷ [])
schema write_file =
    about_machine "write_file" (("path", text) ∷ ("content", text) ∷ []) ("path" ∷ "content" ∷ [])
schema screenshot = about_machine "screenshot" [] []
schema click =
    about_machine "click" (("x", integer) ∷ ("y", integer) ∷ ("button", integer) ∷ [])
      ("x" ∷ "y" ∷ [])
schema move_mouse =
    about_machine "move_mouse" (("x", integer) ∷ ("y", integer) ∷ []) ("x" ∷ "y" ∷ [])
schema scroll =
    about_machine "scroll" (("direction", directions) ∷ ("amount", integer) ∷ []) ("direction" ∷ [])
schema type_text = about_machine "type_text" (("text", text) ∷ []) ("text" ∷ [])
schema press_key = about_machine "press_key" (("key", text) ∷ []) ("key" ∷ [])
schema open_desktop = about_machine "open_desktop" [] []

-- buildTools(engine), in the order of the definitions
abbrev pub tools : List Tool
tools =
    create_machine ∷ list_machines ∷ stop_machine ∷ start_machine ∷ delete_machine ∷ run_command
    ∷ start_task ∷ check_task ∷ read_file ∷ write_file ∷ screenshot ∷ click ∷ move_mouse ∷ scroll
    ∷ type_text ∷ press_key ∷ open_desktop ∷ []

-- byName.get(name)
abbrev pub by_name : String → Option Tool
by_name name = find (λ t. str_eq (schema t).name name) tools
