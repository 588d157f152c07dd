-- ===== src/Journal/Resumption.antt =====
-- What the journal admits.
use hyperwake_core.Prelude.{
  ◌≤◌, ◌<◌, ◌≡◌, ◌⊎◌, refl, true, false, Option, none, some, List, arith, any,
}
use hyperwake_core.Exec.{ok}
use hyperwake_core.Records.{start, verb_beq, OperationKey, Operation, Cloud, Record}
use hyperwake_core.Request.{Request}
use hyperwake_core.Journal.{
  Settings, cloud_of, admit, claim, again, is_unsettled, is_prior_intent, confirms_removal,
}

-- A machine in a state that lets a new command of this request begin.
pub record IsOpen (q : Request) (c : Cloud) : Type 0 where
  pub alive : c.deleted ≡ false
  pub current : c.generation ≤ q.generation
  pub settled : any is_unsettled c.operations ≡ false
  pub new_boot :
      (verb_beq q.key.verb start ≡ false)
      ⊎ ((c.generation < q.generation) ⊎ (any (is_prior_intent q.generation) c.operations ≡ false))

-- A new command for an existing machine is admitted only if the machine is the control plane's and
-- no tombstone, the command's generation is not older than the machine's, every earlier operation is
-- settled, and, for a start, its generation is newer or this generation has seen no command but
-- its create.
pub admit-IsOpen :
    (q : Request) (r : Option Record) {c : Cloud}
    → admit q r ≡ ok c
    → (cloud_of r ≡ some c) × IsOpen q c
unfolding admit
admit-IsOpen q none h = absurd (cc)
admit-IsOpen q (some r) h = ground arith

again_from :
    (settings : Settings) (q : Request) (r : Record) (o : Option Cloud)
    {operations : List (OperationKey × Operation)}
    → r.cloud ≡ o
    → claim settings q (some r) ≡ ok (again operations)
    → (c : Cloud) × (r.cloud ≡ some c)
      × (operations ≡ c.operations)
      × (q.recreate ≡ true)
      × (c.deleted ≡ true)
      × (any (confirms_removal c.generation) c.operations ≡ true)
      × (c.generation < q.generation)
unfolding claim
again_from settings q r none e h = absurd (ground arith)
again_from settings q r (some c) e h =
    (c, e, ground arith, ground arith, ground arith, ground arith, ground arith)

-- A create takes over a reserved id only if the id's machine is a tombstone of the control plane's, a
-- completed destroy of its last generation confirms that the disk is gone, and the request asks for
-- the re-creation under a newer generation; and it keeps the tombstone's journal.
pub claim-again :
    (settings : Settings) (q : Request) (r : Option Record)
    {operations : List (OperationKey × Operation)}
    → claim settings q r ≡ ok (again operations)
    → (c : Cloud) × (cloud_of r ≡ some c)
      × (operations ≡ c.operations)
      × (q.recreate ≡ true)
      × (c.deleted ≡ true)
      × (any (confirms_removal c.generation) c.operations ≡ true)
      × (c.generation < q.generation)
unfolding claim
claim-again settings q none h = absurd (ground arith)
claim-again settings q (some r) h = again_from settings q r r.cloud refl h
