-- ===== src/Uninstall/Steps.antt =====
-- The steps of `uninstall` (src/uninstall.js), and what they do to the computer.
--
-- What is done is recorded in its order, the latest first. The engine, ps, the clock and the person
-- who is asked are the world; nothing is assumed of their answers. The lines that are logged are left
-- out.
use hyperwake_core.Prelude.{
  ℕ, zero, suc, ◌+◌, String, Bool, true, false, not, ◌&&◌, ◌||◌, Option, none, some, List, [], ◌∷◌,
  keep, nat_beq, str_eq, is_some, length, if◌then◌else◌,
}
use hyperwake_core.Text.{trim}
use hyperwake_core.Uninstall.{Process, running_machines, Part, Found, in_root, total_of}

pub data Signal : Type 0 where
  terminate kill : Signal

pub data Act : Type 0 where
  -- rmSync(path, …)
  removed : String → Act
  signalled : Signal → ℕ → Act
  -- ps was run, and printed this
  looked : Option String → Act
  -- DELETE /v1/machines/{id}
  asked_deletion : String → Act

pub record World (W : Type 0) : Type 0 where
  -- what ps prints
  pub ps : W → Option String × W
  pub wait : ℕ → W → W
  -- the token file
  pub token : W → Option String
  -- GET /v1/machines: the ids, none where the engine does not answer so
  pub machines : W → Option (List String) × W
  -- DELETE: the status, none where fetch threw
  pub delete : String → W → Option ℕ × W
  -- the answer to a question, none without a terminal
  pub answer : W → Option String × W
  -- s.toLowerCase()
  pub lower : String → String

pub record Computer (W : Type 0) : Type 0 where
  pub acts : List Act
  pub world : W

-- { removed, reclaimed }
pub record Result : Type 0 where
  pub removed_any : Bool
  pub reclaimed : ℕ

abbrev pub nothing_removed : Result
nothing_removed = record { removed_any = false; reclaimed = 0 }

module _ {W : Type 0} (w : World W) where
  abbrev pub does : Act → Computer W → Computer W
  does a c = record c { acts = a ∷ c.acts }

  -- for (const machine of machines) …; the status of the response is not looked at.
  unfoldable pub delete_all : List String → Computer W → Computer W
  delete_all [] c = c
  delete_all (id ∷ ids) c =
      let (status, after) = w.delete id c.world in
      delete_all ids (record (does (asked_deletion id) c) { world = after })

  -- What deleteThroughEngine does with the list of the machines.
  abbrev pub listed : Option (List String) → Computer W → Bool × Computer W
  listed none c = (false, c)
  listed (some ids) c = (true, delete_all ids c)

  -- deleteThroughEngine: whether the engine was asked.
  unfoldable pub delete_through_engine : Computer W → Bool × Computer W
  unfolding delete_all
  delete_through_engine c = elim (w.token c.world) [
    | none ↦ (false, c)
    | some token ↦ let (ids, after) = w.machines c.world in listed ids (record c { world = after })
  ]

  unfoldable pub signal_all : Signal → List Process → Computer W → Computer W
  signal_all s [] c = c
  signal_all s (p ∷ ps) c = signal_all s ps (does (signalled s p.pid) c)

  unfoldable pub look : Computer W → List Process × Computer W
  unfolding running_machines
  look c =
      let (output, after) = w.ps c.world in
      (running_machines output, record (does (looked output) c) { world = after })

  -- The loop over ten seconds, `left` rounds of which are left, and what follows it.
  unfoldable pub insist : ℕ → Computer W → Computer W
  unfolding look signal_all
  insist zero c = let (still, c') = look c in signal_all kill still c'
  insist (suc left) c =
      let (still, c') = look c in
      let later = insist left (record c' { world = w.wait 500 c'.world }) in
      if nat_beq (length still) 0 then c' else later

  -- stopQemu(running)
  unfoldable pub stop_qemu : List Process → Computer W → Computer W
  unfolding signal_all insist
  stop_qemu [] c = c
  stop_qemu (p ∷ ps) c = insist 20 (signal_all terminate (p ∷ ps) c)

  abbrev pub is_yes : Option String → Bool
  is_yes none = false
  is_yes (some text) = let answer = w.lower (trim text) in str_eq answer "y" || str_eq answer "yes"

  -- confirm(question)
  unfoldable pub confirm : Computer W → Bool × Computer W
  unfolding trim
  confirm c = let (text, after) = w.answer c.world in (is_yes text, record c { world = after })

  unfoldable pub remove_all : List String → Computer W → Computer W
  remove_all [] c = c
  remove_all (path ∷ paths) c = remove_all paths (does (removed path) c)

  abbrev pub is_image : Part → Bool
  is_image p = str_eq p.label "guest image"

  -- What is removed of the state directory, and how much is counted for it.
  abbrev pub doomed : Bool → Found → List String
  doomed true found = paths (keep (λ p. not (is_image p)) found.parts)
    where
      paths : List Part → List String
      paths [] = in_root found.root "machines.json" ∷ in_root found.root "token" ∷ []
      paths (p ∷ ps) = p.path ∷ paths ps
  doomed false found = found.root ∷ []

  abbrev pub reclaimed_by : Bool → Found → ℕ
  reclaimed_by true found = total_of (keep (λ p. not (is_image p)) found.parts)
  reclaimed_by false found = found.total

  -- yes || await confirm(…)
  abbrev pub consent : Bool → Computer W → Bool × Computer W
  consent true c = (true, c)
  consent false c = confirm c

  abbrev pub stopped : Found → Bool × Computer W → Computer W
  stopped found (true, c) = c
  stopped found (false, c) = stop_qemu found.running c

  abbrev pub with_legacy : ℕ → Part → Bool × Computer W → Result × Computer W
  with_legacy reclaimed old (true, c) =
      (record { removed_any = true; reclaimed = reclaimed + old.bytes }, does (removed old.path) c)
  with_legacy reclaimed old (false, c) = (record { removed_any = true; reclaimed = reclaimed }, c)

  -- The part on the directory of the old name.
  unfoldable pub finish : Bool → ℕ → Option Part → Computer W → Result × Computer W
  unfolding confirm
  finish agreed reclaimed none c = (record { removed_any = true; reclaimed = reclaimed }, c)
  finish agreed reclaimed (some old) c = with_legacy reclaimed old (consent agreed c)

  -- From the teardown on.
  unfoldable pub remove_found : Bool → Bool → Found → Computer W → Result × Computer W
  unfolding delete_through_engine stop_qemu remove_all finish
  remove_found agreed keep_image found c =
      let c1 = stopped found (delete_through_engine c) in
      let c2 = remove_all found.sockets (remove_all (doomed keep_image found) c1) in
      finish agreed (reclaimed_by keep_image found) found.legacy c2

  abbrev pub if_agreed : Bool → Bool → Found → Bool × Computer W → Result × Computer W
  if_agreed agreed keep_image found (true, c) = remove_found agreed keep_image found c
  if_agreed agreed keep_image found (false, c) = (nothing_removed, c)

  abbrev pub is_nothing : Found → Bool
  is_nothing found =
      not found.exists && nat_beq (length found.running) 0 && not (is_some found.legacy)

  -- uninstall({ yes, keepImage }), on what the survey found
  unfoldable pub uninstall : Bool → Bool → Found → Computer W → Result × Computer W
  unfolding remove_found confirm
  uninstall agreed keep_image found c =
      if is_nothing found
      then (nothing_removed, c)
      else if_agreed agreed keep_image found (consent agreed c)
