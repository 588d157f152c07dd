-- ===== src/Client.antt =====
-- src/mcp/engine.js: the client of the public API that the MCP server uses.
--
-- The clock, the pause, fetch and JSON.parse are arguments. A machine is the JSON that the engine
-- answers with; one without a textual status has the empty one.
pub mod Waiting
use Prim.Native.String.{◌++◌ as append}
use hyperwake_core.Prelude.{
  ℕ, zero, suc, ◌+◌, ◌/◌, String, Bool, true, false, not, ◌||◌, Option, none, some, ltb, leb,
  str_eq, or_else, if◌then◌else◌,
}
use hyperwake_core.Json.{Json, end, member, as_string}
use hyperwake_core.Exec.{Failure, Outcome, ok, thrown, fail, error}
use hyperwake_core.Text.{decimal, take_units}

-- What became of fetch: it timed out, it failed otherwise, or there is a response (its status, and
-- its text).
pub data Fetched : Type 0 where
  timed_out : Fetched
  unreachable : Fetched
  responded : ℕ → String → Fetched

-- Math.round(ms / 1000)
abbrev pub seconds : ℕ → ℕ
seconds ms = (ms + 500) / 1000

-- response.ok
abbrev pub is_ok : ℕ → Bool
is_ok status = if leb 200 status then leb status 299 else false

-- value ?? other
abbrev pub or_value : Option Json → Json → Json
or_value none other = other
or_value (some Json.null) other = other
or_value (some v) other = v

-- The payload of a response: an EngineError, or what the engine answered.
unfoldable pub unwrapped : ℕ → Json → Outcome Json
unfolding member as_string decimal
unwrapped status payload =
    if not (is_ok status)
    then fail status
        (or_else (as_string (member payload "message")) (append "HTTP " (decimal status)))
    else ok (or_value (member payload "data") payload)

unfoldable pub parsed : ℕ → String → Option Json → Outcome Json
unfolding unwrapped take_units
parsed status text none =
    fail status
      (append "The engine replied with something that is not JSON: " (take_units 200 text))
parsed status text (some payload) = unwrapped status payload

-- text ? JSON.parse(text) : {}
abbrev pub parse_text : (String → Option Json) → String → Option Json
parse_text parse text = if str_eq text "" then some (Json.obj end) else parse text

unfoldable pub received : (String → Option Json) → String → ℕ → Fetched → Outcome Json
unfolding parsed decimal
received parse base timeout timed_out =
    fail 504 (append "The engine did not answer within " (append (decimal (seconds timeout)) "s."))
received parse base timeout unreachable =
    error (append "No engine at " (append base ". Start it with: npx mola-core"))
received parse base timeout (responded status text) = parsed status text (parse_text parse text)

-- call(method, path, body): `fetched` is what fetch comes to, if there is a token to send.
unfoldable pub call : (String → Option Json) → String → Option String → ℕ → Fetched → Outcome Json
unfolding received
call parse base none timeout fetched =
    error "No engine token. Start the engine first with: npx mola-core"
call parse base (some token) timeout fetched = received parse base timeout fetched

pub record World (W : Type 0) : Type 0 where
  pub now : W → ℕ
  pub get_machine : String → W → Outcome Json × W
  pub pause : ℕ → W → W

abbrev pub status_of : Json → String
status_of machine = or_else (as_string (member machine "status")) ""

abbrev pub is_lost : String → Bool
is_lost status = str_eq status "stopped" || str_eq status "failed"

-- What one answer of the engine decides: the result, or (none) to ask again.
unfoldable pub verdict : Outcome Json → Option (Outcome Json)
unfolding as_string member
verdict (thrown e) = some (thrown e)
verdict (ok machine) =
    if str_eq (status_of machine) "ready"
    then some (ok machine)
    else if is_lost (status_of machine)
    then some (
        fail 409 (
          append "The machine reached \""
            (append (status_of machine) "\" instead of becoming ready.")))
    else none

abbrev pub seen : Outcome Json → String
seen (ok machine) = status_of machine
seen (thrown e) = ""

unfoldable pub late : ℕ → String → Outcome Json
unfolding decimal
late timeout last = fail 504 (
    append "The machine was still \""
      (append last (append "\" after " (append (decimal (seconds timeout)) "s."))))

abbrev pub unless_decided : Option (Outcome Json) → Option (Outcome Json) → Option (Outcome Json)
unless_decided (some result) again = some result
unless_decided none again = again

module _ {W : Type 0} (world : World W) (id : String) (interval timeout deadline : ℕ) where
  -- The loop; none: out of fuel.
  unfoldable pub wait : ℕ → String → W → Option (Outcome Json)
  unfolding verdict late
  wait zero last w = none
  wait (suc fuel) last w =
      let (answer, w') = world.get_machine id w in
      let again = wait fuel (seen answer) (world.pause interval w') in
      if ltb (world.now w) deadline
      then unless_decided (verdict answer) again
      else some (late timeout last)

-- waitForReady(engine, id, { timeoutMs, intervalMs })
unfoldable pub wait_for_ready :
    {W : Type 0} → World W → String → ℕ → ℕ → ℕ → W → Option (Outcome Json)
unfolding wait
wait_for_ready world id interval timeout fuel w =
    wait world id interval timeout (world.now w + timeout) fuel "null" w
