-- ===== src/Mcp/Machines.antt =====
-- The tools that make, list, start, stop and delete machines, and the link to a desktop
-- (src/mcp/tools.js).
use hyperwake_core.Prelude.{Option, none, some, [], ◌∷◌}
use hyperwake_core.Json.{Json, Items, end, field, str, member, truthy}
use hyperwake_core.Mcp.{
  Js, Op, Program, returns, awaits, text, json, concat, spelt, machine_fields, describe_machine,
}
use hyperwake_core.Mcp.Arguments.{type_error, if_truthy, machine, described_list}

module _ (js : Js) where
  unfoldable pub create_machine : Json → Program
  unfolding member truthy machine_fields
  create_machine args =
      awaits
        (Op.create_machine (
          Json.obj (
            if_truthy args "name" (
              if_truthy args "vcpus" (if_truthy args "memory_mb" (if_truthy args "disk_gb" end))))))
        λ made. awaits (Op.wait_for_ready (member made "id")) λ ready. returns (
          json js (
            Json.obj (
              machine_fields ready (
                field "note"
                  (str
                    "Ready. Prefer run_command for anything a shell can do; use the screen tools only for genuinely graphical work.")
                  end))))

  abbrev pub listed : Option Items → Program
  listed none = type_error
  listed (some items) = returns (json js (Json.arr items))

  unfoldable pub list_machines : Program
  unfolding described_list
  list_machines = awaits Op.list_machines λ machines. listed (described_list machines)

  unfoldable pub stop_machine : Json → Program
  unfolding member
  stop_machine args = awaits (Op.stop_machine (machine args)) λ stopped. returns (json js stopped)

  unfoldable pub start_machine : Json → Program
  unfolding member machine_fields
  start_machine args = awaits (Op.start_machine (machine args)) λ _.
      awaits (Op.wait_for_ready (machine args)) λ ready. returns (json js (describe_machine ready))

  unfoldable pub delete_machine : Json → Program
  unfolding member
  delete_machine args =
      awaits (Op.delete_machine (machine args))
        λ _. returns (text (concat ("Deleted " ∷ spelt js (machine args) ∷ " and its disk." ∷ [])))

  unfoldable pub open_desktop : Json → Program
  unfolding member
  open_desktop args = awaits (Op.desktop (machine args)) λ minted. returns (
      text (
        concat (
          spelt js (member minted "desktop_url")
          ∷ "\n\nThis opens the live desktop, mouse and keyboard included. It works once and expires in "
          ∷ spelt js (member minted "expires_in")
          ∷ " seconds."
          ∷ [])))
