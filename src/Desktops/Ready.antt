-- ===== src/Desktops/Ready.antt =====
-- That a desktop is opened only of a machine that is ready.
use mathlib.Core.Path.{subst}
use hyperwake_core.Prelude.{
  String, ◌+◌, ◌≡◌, refl, true, false, none, some, string_eq, lookup, lookup-insert_self,
  Bool-cases, inl, inr, not,
}
use hyperwake_core.Exec.{Outcome, ok, thrown, continue, lift, gets, fail_if, pure, Exec, ◌>>=◌}
use hyperwake_core.Records.{Record, Cloud, Described}
use hyperwake_core.Tickets.{Target, mint_desktop, local_host}
use hyperwake_core.Engine
use hyperwake_core.Engine.{Host, Engine, await, random, clock}
use hyperwake_core.Description.{host_description, is_running}
use hyperwake_core.Journal.{cloud_of}
use hyperwake_core.Storage.{alive}
use hyperwake_core.Description.Readiness.{HasShown, ready-HasShown}
use hyperwake_core.Lifecycle.{current, reread, managed}
use hyperwake_core.Desktops.{binding_of, mint, ready_desktop, running, open_desktop}

same_answer : (r : Outcome String) (a b : String) → r ≡ ok a → r ≡ ok b → a ≡ b
same_answer r a b p q = cc

module _ {W : Type 0} (host : Host W) (id : String) where
  -- What stands behind the test that the machine is the control plane's.
  abbrev asked : Cloud → Exec (Engine W) Described
  asked c = Engine.describe host id >>= λ d.
      lift (fail_if (not (is_running d.status)) 409 "Machine is not running.") >>= λ _. pure d

  described_from :
      (o : Outcome Described) (d : Described) (s : Engine W)
      → (continue o
          (λ d. lift (fail_if (not (is_running d.status)) 409 "Machine is not running.") >>= λ _.
            pure d)
          s).0
        ≡ ok d
      → o ≡ ok d
  unfolding ◌>>=◌ lift pure
  described_from (thrown e) d s h = absurd (cc)
  described_from (ok x) d s h = elim (Bool-cases (is_running x.status)) [
    | inl runs ↦ rw runs at h
    | inr other ↦ absurd (cc (rw other at h))
  ]

  alive_from :
      (o : Outcome Cloud) (d : Described) (s : Engine W)
      → (continue o asked s).0 ≡ ok d
      → (host.describe id s.world).0 ≡ ok d
  unfolding ◌>>=◌ Engine.describe await
  alive_from (thrown e) d s h = absurd (cc)
  alive_from (ok c) d s h =
      described_from (host.describe id s.world).0 d (Engine.describe host id s).1 h

  running_described :
      (s : Engine W) (d : Described)
      → (running host id s).0 ≡ ok d
      → (host.describe id s.world).0 ≡ ok d
  unfolding running ◌>>=◌ gets lift
  running_described s d h = alive_from (alive (cloud_of (current id s))) d s h

  -- The ticket leads to the display of the machine, which is ready as its record now stands; and it
  -- is bound to the generation and the boot of that record.
  pub record Opens (ticket : String) (began e : Engine W) : Type 0 where
    pub of_record : Record
    pub of_cloud : Cloud
    pub shown_as : Described
    -- what the runtime answered when it was asked
    pub answered : (host.describe id began.world).0 ≡ ok shown_as
    -- the world as it was when the record was read
    pub before : W
    pub after : e.world ≡ (host.random before).1
    pub there : managed (current id e) ≡ ok (of_record, of_cloud)
    pub ready : HasShown (host.now before) of_record of_cloud (some shown_as) none
    pub leads : Target
    pub waits : lookup (host.sha256 ticket) e.desktop.waiting ≡ some leads
    pub own : leads.machine_id ≡ id
    pub bound : leads.binding ≡ some (binding_of of_record of_cloud)
    pub display : leads.port ≡ shown_as.display_port
    pub at_host : leads.host ≡ local_host shown_as.display_host

  minted-Opens :
      (began : Engine W) (d : Described) (r : Record) (c : Cloud) (s : Engine W)
      → managed (current id s) ≡ ok (r, c)
      → (host_description (host.now s.world) r c (some d) none).ready ≡ true
      → (host.describe id began.world).0 ≡ ok d
      → Opens (host.random s.world).0 began (mint host id r c d s).1
  unfolding mint ◌>>=◌ random clock mint_desktop
  minted-Opens began d r c s there ready said = record {
    of_record = r;
    of_cloud = c;
    shown_as = d;
    answered = said;
    before = s.world;
    after = refl;
    there = there;
    ready = ready-HasShown (host.now s.world) r c (some d) none ready;
    leads = record {
      machine_id = id;
      binding = some (binding_of r c);
      revoked = false;
      host = local_host d.display_host;
      port = d.display_port;
      expires = host.now (host.random s.world).1 + 60000;
    };
    waits = lookup-insert_self _ _ s.desktop.waiting;
    own = refl;
    bound = refl;
    display = refl;
    at_host = refl;
  }

  ready_desktop-Opens :
      (began : Engine W) (d : Described) (r : Record) (c : Cloud) (s : Engine W) (ticket : String)
      → managed (current id s) ≡ ok (r, c)
      → (ready_desktop host id d r c s).0 ≡ ok ticket
      → (host.describe id began.world).0 ≡ ok d
      → Opens ticket began (ready_desktop host id d r c s).1
  unfolding ready_desktop mint ◌>>=◌ clock lift random
  ready_desktop-Opens began d r c s ticket there h said =
      elim (Bool-cases (host_description (host.now s.world) r c (some d) none).ready) [
        | inl ready ↦ rw ready (
            subst (λ x. Opens x began (mint host id r c d s).1)
              (same_answer (mint host id r c d s).0 _ _ refl (rw ready at h))
              (minted-Opens began d r c s there ready said))
        | inr other ↦ absurd (cc (rw other at h))
      ]

  reread-Opens :
      (began : Engine W) (d : Described) (s : Engine W) (ticket : String)
      (o : Outcome (Record × Cloud))
      → managed (current id s) ≡ o
      → (continue o (λ p. ready_desktop host id d p.0 p.1) s).0 ≡ ok ticket
      → (host.describe id began.world).0 ≡ ok d
      → Opens ticket began (continue o (λ p. ready_desktop host id d p.0 p.1) s).1
  reread-Opens began d s ticket (ok (r, c)) there h said =
      ready_desktop-Opens began d r c s ticket there h said
  reread-Opens began d s ticket (thrown e) there h said = absurd (cc)

  running-Opens :
      (began : Engine W) (o : Outcome Described) (s : Engine W) (ticket : String)
      → ((d : Described) → o ≡ ok d → (host.describe id began.world).0 ≡ ok d)
      → (continue o (λ d. reread id >>= λ p. ready_desktop host id d p.0 p.1) s).0 ≡ ok ticket
      → Opens ticket began
          (continue o (λ d. reread id >>= λ p. ready_desktop host id d p.0 p.1) s).1
  unfolding ◌>>=◌ reread
  running-Opens began (ok d) s ticket said h =
      reread-Opens began d s ticket (managed (current id s)) refl h (said d refl)
  running-Opens began (thrown e) s ticket said h = absurd (cc)

  -- A desktop that is opened without an error has a new ticket, which leads to the display that the
  -- runtime named when it was asked; and the machine was ready as its record stood then, whatever guests had sent while
  -- the runtime was asked: the ticket is bound to the boot and the generation that were ready.
  pub open_desktop-Opens :
      (e : Engine W) (ticket : String)
      → (open_desktop host id e).0 ≡ ok ticket
      → Opens ticket e (open_desktop host id e).1
  unfolding open_desktop ◌>>=◌
  open_desktop-Opens e ticket h =
      unfold ◌>>=◌ in
      running-Opens e (running host id e).0 (running host id e).1 ticket
        (λ d said. running_described e d said) h
