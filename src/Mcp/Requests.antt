-- ===== src/Mcp/Requests.antt =====
-- What the tools ask of the engine.
use mathlib.Core.Option
use hyperwake_core.Prelude.{
  ℕ, String, ◌≡◌, refl, ◌≤◌, Bool, true, false, Option, none, some, ℤ, pos, negsuc, lookup,
  string_eq, str_eq, ltb, arith, Bool-cases, inl, inr, if◌then◌else◌,
}
use hyperwake_core.Json.{Json, Fields, end, member, entries}
use hyperwake_core.Mcp.{
  Js, Op, Answered, answered, raised, Raised, ToolResult, Program, returns, throws, asks, or_throw,
  given,
}
use hyperwake_core.Mcp.Arguments.{clamped, or_number, with_text}
use hyperwake_core.Mcp.Schema.{Tool}
use hyperwake_core.Mcp.Machines.{stop_machine, start_machine, delete_machine, open_desktop}
use hyperwake_core.Mcp.Shell.{run_command, start_task, check_task}
use hyperwake_core.Mcp.Screen.{
  read_file, write_file, screenshot, click, move_mouse, scroll, type_text, press_key,
}
use hyperwake_core.Mcp.Run.{run}

-- Whatever the client answers, each operation that is asked for has the property.
pub data Asks (P : Op → Type 0) : Program → Type 0 where
  returned : {r : ToolResult} → Asks P (returns r)
  thrown : {e : Raised} → Asks P (throws e)
  asked :
      {op : Op} {k : Answered → Program}
      → P op
      → ((a : Answered) → Asks P (k a))
      → Asks P (asks op k)

-- An operation on a machine is on this one.
abbrev pub IsAbout : Option Json → Op → Type 0
IsAbout id (Op.create_machine spec) = ⊥
IsAbout id Op.list_machines = ⊥
IsAbout id (Op.start_machine m) = m ≡ id
IsAbout id (Op.stop_machine m) = m ≡ id
IsAbout id (Op.delete_machine m) = m ≡ id
IsAbout id (Op.desktop m) = m ≡ id
IsAbout id (Op.wait_for_ready m) = m ≡ id
IsAbout id (Op.act m action) = m ≡ id

-- The tools that name no machine.
abbrev pub IsForAll : Tool → Type 0
IsForAll Tool.create_machine = Unit
IsForAll Tool.list_machines = Unit
IsForAll _ = ⊥

awaits-Asks :
    (P : Op → Type 0) (k : Json → Program)
    → ((v : Json) → Asks P (k v))
    → (a : Answered) → Asks P (or_throw k a)
awaits-Asks P k h (answered v) = h v
awaits-Asks P k h (raised e) = thrown

asked_once :
    (P : Op → Type 0) (r : Json → Program)
    → ((v : Json) → Asks P (r v))
    → (op : Op) → P op
    → Asks P (asks op (or_throw r))
asked_once P r h op p = asked p (awaits-Asks P r h)

final_if :
    (P : Op → Type 0) (b : Bool) (x y : Program) → Asks P x → Asks P y → Asks P (if b then x else y)
final_if P true x y p q = p
final_if P false x y p q = q

-- The timeout that an action carries, if it carries one: a constant, or what run_command makes of its
-- argument.
pub data CarriesTimeout (js : Js) (args : Json) : Option Json → Type 0 where
  no_timeout : CarriesTimeout js args none
  constant : (n : ℕ) → 1 ≤ n → n ≤ 120 → CarriesTimeout js args (some (Json.int (pos n)))
  of_argument :
      CarriesTimeout js args (some (clamped js 1 120 (or_number 60 (member args "timeout"))))

with_text-Asks :
    (P : Op → Type 0) (v : Option Json) (k : String → Program)
    → ((s : String) → Asks P (k s))
    → Asks P (with_text v k)
with_text-Asks P none k h = thrown
with_text-Asks P (some (Json.str s)) k h = h s
with_text-Asks P (some _) k h = thrown

-- A field in front of a body says nothing of its timeout.
carries-given :
    (js : Js) (args : Json) (k : String) (v : Option Json) (rest : Fields)
    → str_eq k "timeout" ≡ false
    → CarriesTimeout js args (lookup "timeout" (entries rest))
    → CarriesTimeout js args (lookup "timeout" (entries (given k v rest)))
unfolding entries lookup
carries-given js args k none rest other h = h
carries-given js args k (some v) rest other h = rw other h

module _ (js : Js) (args : Json) (P : Op → Type 0) where
  -- `P` allows the operations on the machine that the arguments name.
  record Allows : Type 0 where
    start : P (Op.start_machine (member args "machine_id"))
    stop : P (Op.stop_machine (member args "machine_id"))
    delete : P (Op.delete_machine (member args "machine_id"))
    desktop : P (Op.desktop (member args "machine_id"))
    wait : P (Op.wait_for_ready (member args "machine_id"))
    act :
        (action : Json)
        → CarriesTimeout js args (member action "timeout")
        → P (Op.act (member args "machine_id") action)

  nothing_carried : CarriesTimeout js args (lookup "timeout" (entries end))
  unfolding lookup entries
  nothing_carried = no_timeout

  run_command-Asks : Allows → Asks P (run_command js args)
  unfolding run_command member
  run_command-Asks a =
      asked_once P _ (λ result. final_if P _ _ _ returned returned) _
        (a.act _ (carries-given js args "command" (member args "command") _ refl of_argument))

  start_task-Asks : (handle : String) → Allows → Asks P (start_task js handle args)
  unfolding start_task member
  start_task-Asks handle a = with_text-Asks P _ _ (λ command.
      asked_once P _ (λ result. returned) _ (a.act _ (constant 20 (omega arith) (omega arith))))

  check_task-Asks : Allows → Asks P (check_task js args)
  unfolding check_task member
  check_task-Asks a =
      asked_once P _ (λ result. with_text-Asks P _ _ (λ stdout. returned)) _
        (a.act _ (constant 30 (omega arith) (omega arith)))

  read_file-Asks : Allows → Asks P (read_file js args)
  unfolding read_file member
  read_file-Asks a =
      asked_once P _ (λ result. with_text-Asks P _ _ (λ encoded. returned)) _
        (a.act _ (carries-given js args "path" (member args "path") _ refl nothing_carried))

  write_file-Asks : Allows → Asks P (write_file js args)
  unfolding write_file member
  write_file-Asks a =
      asked_once P _ (λ result. returned) _
        (a.act _ (
          carries-given js args "path" (member args "path") _ refl
            (carries-given js args "content" (member args "content") _ refl nothing_carried)))

  screenshot-Asks : Allows → Asks P (screenshot js args)
  unfolding screenshot
  screenshot-Asks a = asked_once P _ (λ result. returned) _ (a.act _ no_timeout)

  click-Asks : Allows → Asks P (click js args)
  unfolding click member
  click-Asks a =
      asked_once P _ (λ result. returned) _
        (a.act _ (
          carries-given js args "x" (member args "x") _ refl
            (carries-given js args "y" (member args "y") _ refl no_timeout)))

  move_mouse-Asks : Allows → Asks P (move_mouse js args)
  unfolding move_mouse member
  move_mouse-Asks a =
      asked_once P _ (λ result. returned) _
        (a.act _ (
          carries-given js args "x" (member args "x") _ refl
            (carries-given js args "y" (member args "y") _ refl nothing_carried)))

  scroll-Asks : Allows → Asks P (scroll js args)
  unfolding scroll member
  scroll-Asks a =
      asked_once P _ (λ result. returned) _
        (a.act _ (carries-given js args "direction" (member args "direction") _ refl no_timeout))

  type_text-Asks : Allows → Asks P (type_text js args)
  unfolding type_text member
  type_text-Asks a =
      asked_once P _ (λ result. returned) _
        (a.act _ (carries-given js args "text" (member args "text") _ refl nothing_carried))

  press_key-Asks : Allows → Asks P (press_key js args)
  unfolding press_key member
  press_key-Asks a =
      asked_once P _ (λ result. returned) _
        (a.act _ (carries-given js args "key" (member args "key") _ refl nothing_carried))

  start_machine-Asks : Allows → Asks P (start_machine js args)
  unfolding start_machine
  start_machine-Asks a = asked_once P _ (λ _. asked_once P _ (λ ready. returned) _ a.wait) _ a.start

  run-Asks :
      (handle : String) (t : Tool) → (IsForAll t → ⊥) → Allows → Asks P (run js handle t args)
  unfolding run stop_machine delete_machine open_desktop
  run-Asks handle Tool.create_machine one a = absurd (one tt)
  run-Asks handle Tool.list_machines one a = absurd (one tt)
  run-Asks handle Tool.stop_machine one a = asked_once P _ (λ _. returned) _ a.stop
  run-Asks handle Tool.start_machine one a = start_machine-Asks a
  run-Asks handle Tool.delete_machine one a = asked_once P _ (λ _. returned) _ a.delete
  run-Asks handle Tool.run_command one a = run_command-Asks a
  run-Asks handle Tool.start_task one a = start_task-Asks handle a
  run-Asks handle Tool.check_task one a = check_task-Asks a
  run-Asks handle Tool.read_file one a = read_file-Asks a
  run-Asks handle Tool.write_file one a = write_file-Asks a
  run-Asks handle Tool.screenshot one a = screenshot-Asks a
  run-Asks handle Tool.click one a = click-Asks a
  run-Asks handle Tool.move_mouse one a = move_mouse-Asks a
  run-Asks handle Tool.scroll one a = scroll-Asks a
  run-Asks handle Tool.type_text one a = type_text-Asks a
  run-Asks handle Tool.press_key one a = press_key-Asks a
  run-Asks handle Tool.open_desktop one a = asked_once P _ (λ _. returned) _ a.desktop

-- Every operation that a tool asks of the engine, whatever the engine answers or throws, is on the
-- machine that the arguments name, for each of the tools that take a machine.
pub run-IsAbout :
    (js : Js) (handle : String) (t : Tool) (args : Json)
    → (IsForAll t → ⊥)
    → Asks (IsAbout (member args "machine_id")) (run js handle t args)
run-IsAbout js handle t args one =
    run-Asks js args (IsAbout (member args "machine_id")) handle t one (record {
      start = refl;
      stop = refl;
      delete = refl;
      desktop = refl;
      wait = refl;
      act = λ action carried. refl;
    })

abbrev IsShort : Option Json → Type 0
IsShort none = Unit
IsShort (some (Json.int (pos n))) = (1 ≤ n) × (n ≤ 120)
IsShort (some _) = ⊥

-- An action asks for no time, or for one of 1 to 120 seconds.
abbrev pub IsTimely : Op → Type 0
IsTimely (Op.act m action) = IsShort (member action "timeout")
IsTimely _ = Unit

clamped-IsShort :
    (js : Js) (low high : ℕ) (z : ℤ)
    → 1 ≤ low
    → low ≤ high
    → high ≤ 120
    → IsShort (some (clamped js low high (Json.int z)))
unfolding clamped
clamped-IsShort js low high (pos n) a b c = elim (Bool-cases (ltb n low)) [
  | inl less ↦ rw less (a, omega arith)
  | inr more ↦ elim (Bool-cases (ltb high n)) [
    | inl over ↦ rw (more, over) (omega arith, c)
    | inr fits ↦ rw (more, fits) (ground arith, ground arith)
  ]
]
clamped-IsShort js low high (negsuc n) a b c = (a, omega arith)

argument-IsShort :
    (js : Js) (z : Option ℤ)
    → IsShort (some (clamped js 1 120 (or_number 60 (Option.map Json.int z))))
argument-IsShort js none =
    clamped-IsShort js 1 120 (pos 60) (omega arith) (omega arith) (omega arith)
argument-IsShort js (some z) = clamped-IsShort js 1 120 z (omega arith) (omega arith) (omega arith)

carried-IsShort :
    (js : Js) (args : Json) (z : Option ℤ) (v : Option Json)
    → member args "timeout" ≡ Option.map Json.int z
    → CarriesTimeout js args v
    → IsShort v
carried-IsShort js args z _ e no_timeout = tt
carried-IsShort js args z _ e (constant n a b) = (a, b)
carried-IsShort js args z _ e of_argument = rw e (argument-IsShort js z)

-- Whatever integer the caller gives as the timeout, or if it gives none, each action that a tool
-- sends to the engine asks for no time, or for a whole number of seconds from 1 to 120.
pub run-IsTimely :
    (js : Js) (handle : String) (t : Tool) (args : Json) (timeout : Option ℤ)
    → member args "timeout" ≡ Option.map Json.int timeout
    → (IsForAll t → ⊥)
    → Asks IsTimely (run js handle t args)
run-IsTimely js handle t args timeout e one = run-Asks js args IsTimely handle t one (record {
  start = tt;
  stop = tt;
  delete = tt;
  desktop = tt;
  wait = tt;
  act = λ action carried. carried-IsShort js args timeout _ e carried;
})
