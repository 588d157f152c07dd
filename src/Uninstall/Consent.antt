-- ===== src/Uninstall/Consent.antt =====
-- What an uninstallation may do, and that it does nothing without consent.
use mathlib.Core.Path.{subst}
use hyperwake_core.Prelude.{
  ℕ, zero, suc, String, ◌≡◌, ◌⊎◌, inl, inr, refl, Bool, true, false, Option, none, some, List, [],
  ◌∷◌, any, not, ◌&&◌, nat_beq, nat_beq_iff, length, str_eq, eq_iff, arith, Bool-cases,
  Option-cases,
}
use hyperwake_core.Uninstall.{Process, running_machines, Part, Found, in_root}
use hyperwake_core.Uninstall.Steps.{
  Signal, terminate, kill, Act, removed, signalled, looked, asked_deletion, World, Computer, does,
  delete_all, listed, delete_through_engine, signal_all, look, insist, stop_qemu, confirm, is_yes,
  remove_all, doomed, reclaimed_by, consent, stopped, with_legacy, finish, remove_found, if_agreed,
  is_nothing, nothing_removed, uninstall,
}

-- The acts after are those before with others that all have the property, which sees what was done
-- before each.
pub data Adds (P : List Act → Act → Type 0) (before : List Act) : List Act → Type 0 where
  same : Adds P before before
  more : {a : Act} {acts : List Act} → P acts a → Adds P before acts → Adds P before (a ∷ acts)

Adds-trans : (P : List Act → Act → Type 0) (a b c : List Act) → Adds P a b → Adds P b c → Adds P a c
Adds-trans P a b _ first same = first
Adds-trans P a b _ first (more p rest) = more p (Adds-trans P a b _ first rest)

abbrev pub Mem : String → List String → Type 0
Mem p paths = any (str_eq p) paths ≡ true

abbrev pub HasPid : ℕ → List Process → Type 0
HasPid pid ps = any (λ p. nat_beq p.pid pid) ps ≡ true

-- What ps printed when it was last run.
abbrev pub last_look : List Act → Option (Option String)
last_look [] = none
last_look (looked output ∷ acts) = some output
last_look (removed path ∷ acts) = last_look acts
last_look (signalled s pid ∷ acts) = last_look acts
last_look (asked_deletion id ∷ acts) = last_look acts

-- A machine of this engine was running under the pid when ps was last run.
abbrev pub IsSeen : List Act → ℕ → Type 0
IsSeen acts pid =
    (output : Option String) × (last_look acts ≡ some output) × HasPid pid (running_machines output)

-- The path is the state directory; or, where the image is kept, a part that is not the image, or one
-- of the two files that are no part.
abbrev pub IsDoomed : Bool → Found → String → Type 0
IsDoomed false found path = path ≡ found.root
IsDoomed true found path =
    (any (λ p. not (str_eq p.label "guest image") && str_eq path p.path) found.parts ≡ true)
    ⊎ ((path ≡ in_root found.root "machines.json") ⊎ (path ≡ in_root found.root "token"))

-- What the uninstallation of `found` may do: remove what is doomed, the sockets and the old
-- directory; ask machines that were found running to exit; kill those that are seen still; run ps; and
-- ask the engine for deletions.
abbrev pub IsPlanned : Bool → Found → List Act → Act → Type 0
IsPlanned keep_image found acts (removed path) =
    IsDoomed keep_image found path
    ⊎ (Mem path found.sockets ⊎ ((old : Part) × (found.legacy ≡ some old) × (old.path ≡ path)))
IsPlanned keep_image found acts (signalled terminate pid) = HasPid pid found.running
IsPlanned keep_image found acts (signalled kill pid) = IsSeen acts pid
IsPlanned keep_image found acts (looked output) = Unit
IsPlanned keep_image found acts (asked_deletion id) = Unit

mem_head : (p : String) (ps : List String) → Mem p (p ∷ ps)
mem_head p ps = rw ((eq_iff p p).1 refl) refl

mem_tail : (p q : String) (ps : List String) → Mem p ps → Mem p (q ∷ ps)
mem_tail p q ps h = ground arith

pid_tail : (n : ℕ) (q : Process) (ps : List Process) → HasPid n ps → HasPid n (q ∷ ps)
pid_tail n q ps h = ground arith

pid_head : (q : Process) (ps : List Process) → HasPid q.pid (q ∷ ps)
pid_head q ps = rw ((nat_beq_iff q.pid q.pid).1 refl) refl

mem_cases : (p q : String) (ps : List String) → Mem p (q ∷ ps) → (p ≡ q) ⊎ Mem p ps
mem_cases p q ps h = elim (Bool-cases (str_eq p q)) [
  | inl here ↦ inl ((eq_iff p q).0 here)
  | inr other ↦ inr (ground arith)
]

module _ {W : Type 0} (w : World W) (found : Found) (path : String) where
  -- What the survey found, with only these parts.
  abbrev only : List Part → Found
  only parts = record found { parts = parts }

  part-IsDoomed :
      (p : Part) (ps : List Part)
      → IsDoomed true (only ps) path
      → IsDoomed true (only (p ∷ ps)) path
  part-IsDoomed p ps (inl h) = inl (ground arith)
  part-IsDoomed p ps (inr h) = inr h

  parts-IsDoomed :
      (ps : List Part) → Mem path (doomed w true (only ps)) → IsDoomed true (only ps) path
  parts-IsDoomed [] m =
      let machines = in_root found.root "machines.json" in
      let token = in_root found.root "token" in
      elim (mem_cases path machines (token ∷ []) m) [
        | inl here ↦ inr (inl here)
        | inr later ↦ elim (mem_cases path token [] later) [
          | inl here ↦ inr (inr here)
          | inr absent ↦ absurd (cc)
        ]
      ]
  parts-IsDoomed (p ∷ ps) m = elim (Bool-cases (str_eq p.label "guest image")) [
    | inl image ↦ part-IsDoomed p ps (parts-IsDoomed ps (rw image at m))
    | inr other ↦ elim (mem_cases path p.path (doomed w true (only ps)) (rw other at m)) [
      | inl here ↦ inl (rw (other, here, (eq_iff p.path p.path).1 refl) refl)
      | inr later ↦ part-IsDoomed p ps (parts-IsDoomed ps later)
    ]
  ]

  doomed-IsDoomed :
      (keep_image : Bool) → Mem path (doomed w keep_image found) → IsDoomed keep_image found path
  doomed-IsDoomed true m = parts-IsDoomed found.parts m
  doomed-IsDoomed false m = elim (mem_cases path found.root [] m) [
    | inl here ↦ here
    | inr absent ↦ absurd (cc)
  ]

module _ {W : Type 0} (w : World W) (P : List Act → Act → Type 0) where
  remove_all-Adds :
      (paths : List String) (c : Computer W)
      → ((p : String) → Mem p paths → (acts : List Act) → P acts (removed p))
      → Adds P c.acts (remove_all w paths c).acts
  unfolding remove_all
  remove_all-Adds [] c h = same
  remove_all-Adds (p ∷ ps) c h =
      Adds-trans P c.acts (removed p ∷ c.acts) _ (more (h p (mem_head p ps) c.acts) same)
        (remove_all-Adds ps (does w (removed p) c) (λ q m. h q (mem_tail q p ps m)))

  signal_all-Adds :
      (s : Signal) (ps : List Process) (c : Computer W)
      → ((n : ℕ)
          → HasPid n ps
          → (acts : List Act) → last_look acts ≡ last_look c.acts
          → P acts (signalled s n))
      → Adds P c.acts (signal_all w s ps c).acts
  unfolding signal_all
  signal_all-Adds s [] c h = same
  signal_all-Adds s (p ∷ ps) c h =
      Adds-trans P c.acts (signalled s p.pid ∷ c.acts) _
        (more (h p.pid (pid_head p ps) c.acts refl) same)
        (signal_all-Adds s ps (does w (signalled s p.pid) c) (λ n m. h n (pid_tail n p ps m)))

  delete_all-Adds :
      (ids : List String) (c : Computer W)
      → ((id : String) (acts : List Act) → P acts (asked_deletion id))
      → Adds P c.acts (delete_all w ids c).acts
  unfolding delete_all
  delete_all-Adds [] c h = same
  delete_all-Adds (id ∷ ids) c h =
      Adds-trans P c.acts (asked_deletion id ∷ c.acts) _ (more (h id c.acts) same)
        (delete_all-Adds ids _ h)

  look-Adds :
      (c : Computer W)
      → ((output : Option String) (acts : List Act) → P acts (looked output))
      → Adds P c.acts (look w c).1.acts
  unfolding look
  look-Adds c h = more (h (w.ps c.world).0 c.acts) same

  insist-Adds :
      (left : ℕ) (c : Computer W)
      → ((output : Option String) (acts : List Act) → P acts (looked output))
      → ((n : ℕ) (acts : List Act) → IsSeen acts n → P acts (signalled kill n))
      → Adds P c.acts (insist w left c).acts
  unfolding insist look
  insist-Adds zero c looks h =
      let seen = look w c in
      Adds-trans P c.acts seen.1.acts _ (look-Adds c looks)
        (signal_all-Adds kill seen.0 seen.1 (λ n m acts e. h n acts ((w.ps c.world).0, e, m)))
  insist-Adds (suc left) c looks h =
      let seen = look w c in
      let later = insist-Adds left (record seen.1 { world = w.wait 500 seen.1.world }) looks h in
      elim (Bool-cases (nat_beq (length seen.0) 0)) [
        | inl gone ↦ rw gone (look-Adds c looks)
        | inr still ↦ rw still (Adds-trans P c.acts seen.1.acts _ (look-Adds c looks) later)
      ]

-- The deletions of these machines, the first asked for first.
abbrev pub asked : List String → List Act → List Act
asked [] acts = acts
asked (id ∷ ids) acts = asked ids (asked_deletion id ∷ acts)

module _ {W : Type 0} (w : World W) (keep_image : Bool) (found : Found) where
  delete_all-acts :
      (ids : List String) (c : Computer W) → (delete_all w ids c).acts ≡ asked ids c.acts
  unfolding delete_all
  delete_all-acts [] c = refl
  delete_all-acts (id ∷ ids) c = delete_all-acts ids _

  -- The plan of this uninstallation.
  abbrev Plan : List Act → Act → Type 0
  Plan = IsPlanned keep_image found

  stop_qemu-Adds :
      (c : Computer W) (ps : List Process)
      → ps ≡ found.running
      → Adds Plan c.acts (stop_qemu w ps c).acts
  unfolding stop_qemu
  stop_qemu-Adds c [] e = same
  stop_qemu-Adds c (p ∷ ps) e =
      Adds-trans Plan c.acts _ _
        (signal_all-Adds w Plan terminate (p ∷ ps) c (λ n m acts l. subst (λ x. HasPid n x) e m))
        (insist-Adds w Plan 20 (signal_all w terminate (p ∷ ps) c) (λ output acts. tt)
          (λ n acts seen. seen))

  stopped-Adds : (b : Bool) (c : Computer W) → Adds Plan c.acts (stopped w found (b, c)).acts
  stopped-Adds true c = same
  stopped-Adds false c = stop_qemu-Adds c found.running refl

  listed-Adds : (o : Option (List String)) (c : Computer W) → Adds Plan c.acts (listed w o c).1.acts
  listed-Adds none c = same
  listed-Adds (some ids) c = delete_all-Adds w Plan ids c (λ id acts. tt)

  consent-acts : (agreed : Bool) (c : Computer W) → (consent w agreed c).1.acts ≡ c.acts
  unfolding confirm
  consent-acts true c = refl
  consent-acts false c = refl

  with_legacy-Adds :
      (n : ℕ) (old : Part) (b : Bool) (c : Computer W)
      → found.legacy ≡ some old
      → Adds Plan c.acts (with_legacy w n old (b, c)).1.acts
  with_legacy-Adds n old true c e = more (inr (inr (old, e, refl))) same
  with_legacy-Adds n old false c e = same

  finish-Adds :
      (agreed : Bool) (n : ℕ) (o : Option Part) (c : Computer W)
      → found.legacy ≡ o
      → Adds Plan c.acts (finish w agreed n o c).1.acts
  unfolding finish
  finish-Adds agreed n none c e = same
  finish-Adds agreed n (some old) c e =
      let asked = consent w agreed c in
      subst (λ l. Adds Plan l (with_legacy w n old asked).1.acts) (consent-acts agreed c)
        (with_legacy-Adds n old asked.0 asked.1 e)

  delete_through_engine-Adds :
      (c : Computer W) → Adds Plan c.acts (delete_through_engine w c).1.acts
  unfolding delete_through_engine
  delete_through_engine-Adds c = elim (Option-cases (w.token c.world)) [
    | inl absent ↦ rw (delete_through_engine, absent) same
    | inr (token, present) ↦
        let (ids, after) = w.machines c.world in
        rw (delete_through_engine, present) (listed-Adds ids (record c { world = after }))
  ]

  remove_found-Adds :
      (agreed : Bool) (c : Computer W)
      → Adds Plan c.acts (remove_found w agreed keep_image found c).1.acts
  unfolding remove_found
  remove_found-Adds agreed c =
      let asked = delete_through_engine w c in
      let c1 = stopped w found asked in
      let c2 = remove_all w (doomed w keep_image found) c1 in
      let c3 = remove_all w found.sockets c2 in
      Adds-trans Plan c.acts asked.1.acts _ (delete_through_engine-Adds c) (
        Adds-trans Plan asked.1.acts c1.acts _ (stopped-Adds asked.0 asked.1) (
          Adds-trans Plan c1.acts c2.acts _
            (remove_all-Adds w Plan (doomed w keep_image found) c1
              (λ p m acts. inl (doomed-IsDoomed w found p keep_image m)))
            (Adds-trans Plan c2.acts c3.acts _
              (remove_all-Adds w Plan found.sockets c2 (λ p m acts. inr (inl m)))
              (finish-Adds agreed (reclaimed_by w keep_image found) found.legacy c3 refl))))

  if_agreed-Adds :
      (agreed b : Bool) (c : Computer W)
      → Adds Plan c.acts (if_agreed w agreed keep_image found (b, c)).1.acts
  if_agreed-Adds agreed true c = remove_found-Adds agreed c
  if_agreed-Adds agreed false c = same

  -- Whatever the engine, ps and the person answer, an uninstallation removes nothing but what the
  -- survey named (and of the state directory, where the image is to be kept, only the parts other than
  -- the image, and the two files), asks no process to exit but those that the survey found running,
  -- and kills none but those that ps, when it was last run, showed as machines of this engine.
  pub uninstall-IsPlanned :
      (agreed : Bool) (c : Computer W)
      → Adds (IsPlanned keep_image found) c.acts (uninstall w agreed keep_image found c).1.acts
  unfolding uninstall
  uninstall-IsPlanned agreed c =
      let asked = consent w agreed c in
      elim (Bool-cases (is_nothing w found)) [
        | inl nothing ↦ rw nothing same
        | inr something ↦ rw something (
            subst (λ l. Adds Plan l (if_agreed w agreed keep_image found asked).1.acts)
              (consent-acts agreed c) (if_agreed-Adds agreed asked.0 asked.1))
      ]

  -- Without --yes, and without the answer 'y' or 'yes' on a terminal, nothing is removed, signalled
  -- or asked of the engine.
  pub uninstall_refused :
      (c : Computer W)
      → is_yes w (w.answer c.world).0 ≡ false
      → ((uninstall w false keep_image found c).0 ≡ nothing_removed)
        × ((uninstall w false keep_image found c).1.acts ≡ c.acts)
  unfolding uninstall confirm
  uninstall_refused c refused = elim (Bool-cases (is_nothing w found)) [
    | inl nothing ↦ rw nothing (refl, refl)
    | inr something ↦ rw (something, refused) (refl, refl)
  ]

  -- Where the engine lists its machines, no process is signalled, whatever it answers to the
  -- deletions, and even where it refuses them all: each machine's deletion is asked for once.
  pub stopped_by_engine :
      (c : Computer W) (token : String) (ids : List String)
      → w.token c.world ≡ some token
      → (w.machines c.world).0 ≡ some ids
      → (stopped w found (delete_through_engine w c)).acts ≡ asked ids c.acts
  unfolding delete_through_engine
  stopped_by_engine c token ids present answered =
      rw (delete_through_engine, present, answered)
        (delete_all-acts ids (record c { world = (w.machines c.world).1 }))
