-- ===== src/Mcp/Screen.antt =====
-- The tools for files and for the screen (src/mcp/tools.js).
use hyperwake_core.Prelude.{String, false, Option, none, some, [], ◌∷◌}
use hyperwake_core.Json.{Json, end, field, str, member}
use hyperwake_core.Text.{decimal, units_of}
use hyperwake_core.Mcp.{Js, Op, Program, returns, awaits, image_content, text, concat, spelt}
use hyperwake_core.Mcp.Arguments.{or_number, action, machine, takes, with_text}

module _ (js : Js) where
  unfoldable pub read_file : Json → Program
  unfolding member
  read_file args =
      awaits (Op.act (machine args) (action "read_file" (takes args "path" end))) λ result.
        with_text (member result "content_base64")
          λ encoded. returns (text (js.decoded (str encoded)))

  unfoldable pub write_file : Json → Program
  unfolding member
  write_file args =
      awaits
        (Op.act (machine args) (action "write_file" (takes args "path" (takes args "content" end))))
        λ _. returns (text (concat ("Wrote " ∷ spelt js (member args "path") ∷ "." ∷ [])))

  unfoldable pub screenshot : Json → Program
  unfolding member
  screenshot args = awaits (Op.act (machine args) (action "screenshot" end)) λ shot.
      returns (record {
        content = image_content (member shot "image_base64") (member shot "mime_type");
        is_error = false;
      })

  unfoldable pub click : Json → Program
  unfolding member
  click args =
      awaits
        (Op.act (machine args) (
          action "click" (
            takes args "x"
              (takes args "y" (field "button" (or_number 1 (member args "button")) end)))))
        λ _. returns (
          text (
            concat (
              "Clicked "
              ∷ spelt js (member args "x")
              ∷ ","
              ∷ spelt js (member args "y")
              ∷ "."
              ∷ [])))

  unfoldable pub move_mouse : Json → Program
  unfolding member
  move_mouse args =
      awaits (Op.act (machine args) (action "move" (takes args "x" (takes args "y" end)))) λ _.
        returns (
          text (
            concat (
              "Moved to "
              ∷ spelt js (member args "x")
              ∷ ","
              ∷ spelt js (member args "y")
              ∷ "."
              ∷ [])))

  unfoldable pub scroll : Json → Program
  unfolding member
  scroll args =
      awaits
        (Op.act (machine args) (
          action "scroll"
            (takes args "direction" (field "amount" (or_number 3 (member args "amount")) end))))
        λ _. returns (text (concat ("Scrolled " ∷ spelt js (member args "direction") ∷ "." ∷ [])))

  -- `${a.text.length}`
  unfoldable pub length_of : Option Json → String
  unfolding decimal units_of
  length_of none = "undefined"
  length_of (some (Json.str s)) = decimal (units_of s)
  length_of (some v) = js.length_of v

  unfoldable pub type_text : Json → Program
  unfolding member length_of
  type_text args =
      awaits (Op.act (machine args) (action "type" (takes args "text" end))) λ _.
        returns (text (concat ("Typed " ∷ length_of (member args "text") ∷ " characters." ∷ [])))

  unfoldable pub press_key : Json → Program
  unfolding member
  press_key args =
      awaits (Op.act (machine args) (action "key" (takes args "key" end)))
        λ _. returns (text (concat ("Pressed " ∷ spelt js (member args "key") ∷ "." ∷ [])))
