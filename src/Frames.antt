-- ===== src/Frames.antt =====
-- src/mcp/stdio.js: newline-delimited JSON-RPC over stdin and stdout.
--
-- JSON.parse, the decoding of a Buffer as UTF-8 and the methods are arguments; a message is its id,
-- its method and its params.
pub mod Chunks
pub mod Replies
use Prim.Native.Char.{Char, code}
use Prim.Native.String.{◌++◌ as append}
use hyperwake_core.Prelude.{
  ℕ, zero, suc, ◌+◌, String, Bool, true, false, not, ◌&&◌, ◌||◌, Option, none, some, List, [], ◌∷◌,
  ◌++◌, ℤ, negsuc, nat_beq, str_eq, is_some, or_else, if◌then◌else◌,
}
use hyperwake_core.Json.{Json, end}
use hyperwake_core.Text.{trim}

abbrev pub behind_of : Char → Option (String × String) → Option (String × String)
behind_of c none = none
behind_of c (some (line, behind)) = some (String.◌∷◌ c line, behind)

-- buffer.indexOf('\n'), and the texts before and behind it.
unfoldable pub cut : String → Option (String × String)
cut String.[] = none
cut (String.◌∷◌ c s) =
    let rest = cut s in if nat_beq (code c) 10 then some ("", s) else behind_of c rest

-- The while loop: the complete lines of the buffer, and what is left. Each round takes at least the
-- newline off the buffer, so its length is enough fuel.
unfoldable pub drain : ℕ → String → List String × String
drain zero buffer = ([], buffer)
drain (suc fuel) buffer = elim (cut buffer) [
  | none ↦ ([], buffer)
  | some (line, behind) ↦ let (lines, left) = drain fuel behind in (line ∷ lines, left)
]

abbrev pub chars : String → ℕ
chars String.[] = 0
chars (String.◌∷◌ c s) = suc (chars s)

module _ (decode : List ℕ → String) where
  -- buffer += chunk, and the loop: the bytes of the chunk are decoded on their own.
  unfoldable pub receive : String → List ℕ → List String × String
  unfolding drain cut
  receive buffer chunk = let text = append buffer (decode chunk) in drain (suc (chars text)) text

  -- The lines of all the chunks in their order, with the buffer that is left.
  unfoldable pub receive_all : String → List (List ℕ) → List String × String
  unfolding receive
  receive_all buffer [] = ([], buffer)
  receive_all buffer (chunk ∷ chunks) =
      let (lines, left) = receive buffer chunk in
      let (more, last) = receive_all left chunks in (lines ++ more, last)

-- One line: what JSON.parse makes of it, as serve tells it apart. The id is none where it is undefined
-- or null; absent or null params are the empty object.
pub data Incoming : Type 0 where
  -- JSON.parse throws, or gives an object with a truthy field parseError
  unparsable : Incoming
  -- the line is the JSON text null
  null_frame : Incoming
  message : Option Json → String → Json → Incoming

-- const line = buffer.slice(0, cut).trim(); if (!line) continue; JSON.parse(line)
unfoldable pub frames : (String → Incoming) → List String → List Incoming
unfolding trim
frames parse [] = []
frames parse (line ∷ lines) =
    let rest = frames parse lines in
    if str_eq (trim line) "" then rest else parse (trim line) ∷ rest

-- What a method does: its result (none: undefined), an RpcError, or another error.
pub data Handled : Type 0 where
  result : Option Json → Handled
  rpc_error : ℤ → String → Handled
  other_error : String → Handled

pub data Answer : Type 0 where
  replied : Json → Json → Answer
  failed : Json → ℤ → String → Answer

abbrev pub parse_error : ℤ
parse_error = negsuc 32699

abbrev pub method_not_found : ℤ
method_not_found = negsuc 32600

abbrev pub internal_error : ℤ
internal_error = negsuc 32602

-- result ?? {}
abbrev pub or_empty : Option Json → Json
or_empty none = Json.obj end
or_empty (some Json.null) = Json.obj end
or_empty (some v) = v

-- The answer to a request, from what its method did.
unfoldable pub answer : Json → Handled → Answer
answer id (result v) = replied id (or_empty v)
answer id (rpc_error code text) = failed id code text
answer id (other_error text) = failed id internal_error text

-- if (!isNotification) …
abbrev pub unless_notification : Option Json → (Json → Answer) → List Answer
unless_notification none f = []
unless_notification (some id) f = f id ∷ []

module _ {S : Type 0} (methods : String → Option (Json → S → Handled × S)) where
  -- The body of the loop for a message: what is written, and the state that the method leaves.
  unfoldable pub serve_message : Option Json → String → Json → S → List Answer × S
  unfolding answer
  serve_message id method params s = elim (methods method) [
    | none ↦ (
      unless_notification id (λ i. failed i method_not_found (append "No such method: " method)),
      s,
    )
    | some handler ↦
        let (handled, s') = handler params s in (unless_notification id (λ i. answer i handled), s')
  ]

  -- The body of the loop; none: reading the field parseError of null throws, out of serve.
  unfoldable pub serve_one : Incoming → S → Option (List Answer × S)
  unfolding serve_message
  serve_one unparsable s =
      some (failed Json.null parse_error "Could not parse that as JSON." ∷ [], s)
  serve_one null_frame s = none
  serve_one (message id method params) s = some (serve_message id method params s)

  -- serve, and whether it came to the end of its input without throwing
  unfoldable pub serve : List Incoming → S → List Answer × Bool × S
  unfolding serve_one
  serve [] s = ([], true, s)
  serve (m ∷ ms) s = elim (serve_one m s) [
    | none ↦ ([], false, s)
    | some (here, s') ↦ let (later, finished, last) = serve ms s' in (here ++ later, finished, last)
  ]
