-- ===== src/Uninstall.antt =====
-- src/uninstall.js: what an uninstallation finds on the computer, before it touches anything.
--
-- What ps printed, the tree of files and the parsed machines.json are arguments. A line of ps has no
-- line terminator in it.
pub mod Steps
pub mod Consent
use Prim.Native.Char.{Char, code}
use Prim.Native.String.{◌++◌ as append}
use hyperwake_core.Prelude.{
  ℕ, zero, suc, ◌+◌, ◌-◌, ◌*◌, String, Bool, true, false, not, ◌&&◌, Option, none, some, List, [],
  ◌∷◌, ◌++◌, map, keep, length, or_else, is_some, if◌then◌else◌,
}
use hyperwake_core.Text.{is_space, is_digit, strip_prefix, trim_start, decimal}
use hyperwake_core.Text.Split.{split}

-- What a directory holds: files by the blocks that they occupy, directories, one that cannot be read,
-- and what is neither or has vanished.
mutual
  pub data Entry : Type 0 where
    file : ℕ → Entry
    directory : Entries → Entry
    unreadable other : Entry

  pub data Entries : Type 0 where
    empty : Entries
    entry : Entry → Entries → Entries

-- sizeOf: the space that is really allocated.
unfoldable mutual
  pub size_of : Entry → ℕ
  size_of (file blocks) = blocks * 512
  size_of (directory es) = size_of_all es
  size_of unreadable = 0
  size_of other = 0

  pub size_of_all : Entries → ℕ
  size_of_all empty = 0
  size_of_all (entry e es) = size_of e + size_of_all es

-- The longest start of the text that is digits, with the rest.
unfoldable pub digits : String → String × String
digits String.[] = ("", "")
digits (String.◌∷◌ c s) =
    let (more, rest) = digits s in
    if is_digit (code c) then (String.◌∷◌ c more, rest) else ("", String.◌∷◌ c s)

abbrev value_from : ℕ → String → ℕ
value_from n String.[] = n
value_from n (String.◌∷◌ c s) = value_from (n * 10 + (code c - b'0')) s

-- Number(pid)
abbrev pub value : String → ℕ
value s = value_from 0 s

abbrev starts_blank : String → Bool
starts_blank String.[] = false
starts_blank (String.◌∷◌ c s) = is_space (code c)

abbrev pid_and_rest : String × String → Option (ℕ × String)
pid_and_rest (String.[], rest) = none
pid_and_rest (String.◌∷◌ c pid, rest) =
    if starts_blank rest then some (value (String.◌∷◌ c pid), trim_start rest) else none

-- line.match(/^\s*(\d+)\s+(.*)$/): the pid and the command
unfoldable pub process_line : String → Option (ℕ × String)
unfolding digits trim_start
process_line line = pid_and_rest (digits (trim_start line))

-- The first place of the text where `f` finds something.
unfoldable pub scan {ℓ} : {A : Type ℓ} → (String → Option A) → String → Option A
scan f String.[] = f ""
scan f (String.◌∷◌ c s) =
    let later = scan f s in elim (f (String.◌∷◌ c s)) [ none ↦ later | some a ↦ some a ]

-- \s-name\s+mola- at the start of the text: what stands behind it.
unfoldable pub mola_name : String → Option String
unfolding strip_prefix trim_start
mola_name String.[] = none
mola_name (String.◌∷◌ c s) = if is_space (code c) then named (strip_prefix "-name" s) else none
  where
    named : Option String → Option String
    named none = none
    named (some rest) = if starts_blank rest then strip_prefix "mola-" (trim_start rest) else none

-- The longest start of the text without blanks.
unfoldable pub word : String → String
word String.[] = ""
word (String.◌∷◌ c s) = let rest = word s in if is_space (code c) then "" else String.◌∷◌ c rest

abbrev not_empty : String → Option String
not_empty String.[] = none
not_empty (String.◌∷◌ c s) = some (String.◌∷◌ c s)

abbrev word_of : Option String → Option String
word_of none = none
word_of (some rest) = not_empty (word rest)

-- /qemu-system/.test(command) && /\s-name\s+mola-/.test(command)
unfoldable pub is_ours : String → Bool
unfolding scan strip_prefix mola_name
is_ours command =
    is_some (scan (strip_prefix "qemu-system") command) && is_some (scan mola_name command)

pub record Process : Type 0 where
  pub pid : ℕ
  pub id : String

-- command.match(/\s-name\s+mola-(\S+)/)?.[1] ?? 'unknown'
unfoldable pub machine_of : String → String
unfolding scan mola_name word
machine_of command = or_else (scan (λ s. word_of (mola_name s)) command) "unknown"

abbrev process_of : Option (ℕ × String) → List Process
process_of none = []
process_of (some (pid, command)) =
    if is_ours command then record { pid = pid; id = machine_of command } ∷ [] else []

unfoldable pub processes : List String → List Process
unfolding process_line is_ours machine_of
processes [] = []
processes (line ∷ lines) = process_of (process_line line) ++ processes lines

-- runningMachines(): `output` is what ps printed, none where it failed.
unfoldable pub running_machines : Option String → List Process
unfolding split processes
running_machines none = []
running_machines (some output) = let (first, rest) = split "\n" output in processes (first ∷ rest)

pub record Part : Type 0 where
  pub label : String
  pub path : String
  pub bytes : ℕ

-- The files of the computer, as far as a survey asks: what a path holds, and the names in /tmp.
pub record Files : Type 0 where
  pub at : String → Option Entry
  pub temporary : List String

abbrev pub in_root : String → String → String
in_root root name = append root (append "/" name)

unfoldable pub measured : Files → String → String × String → List Part
unfolding size_of
measured files root (label, name) = elim (files.at (in_root root name)) [
  | none ↦ []
  | some e ↦ record { label = label; path = in_root root name; bytes = size_of e } ∷ []
]

abbrev pub sum : List ℕ → ℕ
sum [] = 0
sum (n ∷ ns) = n + sum ns

abbrev pub total_of : List Part → ℕ
total_of parts = sum (map (λ p. p.bytes) parts)

pub record Found : Type 0 where
  pub root : String
  pub exists : Bool
  pub parts : List Part
  pub total : ℕ
  pub recorded : ℕ
  pub running : List Process
  pub sockets : List String
  pub legacy : Option Part

-- The sockets of this user in /tmp.
abbrev pub sockets_of : ℕ → List String → List String
sockets_of uid names =
    map (λ n. in_root "/tmp" n)
      (keep (λ n. is_some (strip_prefix (append "mola-" (append (decimal uid) "-")) n)) names)

abbrev legacy_of : String → Option Entry → Option Part
legacy_of path none = none
legacy_of path (some e) = some (record { label = "legacy"; path = path; bytes = size_of e })

-- survey(): `recorded` is the number of machines in machines.json, 0 where it cannot be read.
unfoldable pub survey : String → String → ℕ → Files → Option String → ℕ → Found
unfolding measured running_machines size_of strip_prefix decimal
survey root old uid files output recorded =
    let parts =
      measured files root ("guest image", "image")
      ++ (measured files root ("machine disks", "runtime")
          ++ (measured files root ("python runtime", "python")
              ++ measured files root ("keys and token", "keys"))) in
    record {
      root = root;
      exists = is_some (files.at root);
      parts = parts;
      total = total_of parts;
      recorded = recorded;
      running = running_machines output;
      sockets = sockets_of uid files.temporary;
      legacy = legacy_of old (files.at old);
    }
