-- ===== src/Orderly/Patches.antt =====
-- The changes of a record that enter nothing into its journal.
use mathlib.Core.Option
use hyperwake_core.Prelude.{
  ℕ, String, ◌≡◌, inl, inr, sym, ◌∙◌, true, not, Option, none, some, string_eq, lookup,
  lookup-insert, is_some, Option-cases, Bool-cases,
}
use hyperwake_core.Records.{
  Verb, fence, restore, OperationKey, key_beq, key_beq_iff, key_eq, Operation, Cloud, DesiredState,
  Reply,
}
use hyperwake_core.Guest.{desire}
use hyperwake_core.Journal.{
  in_cloud, in_operation, settled_with, tombstone, deleted_cloud, prepare_boot, remembered,
}
use hyperwake_core.Storage.{marked, fenced_cloud}
use hyperwake_core.Lifecycle.Entry.{is_entered}
use hyperwake_core.Orderly.{EntersNothing, is_entered_in, is_entered-lookup}

-- The changes of a cloud part that enter nothing.
record EntersNothingIn (f : Cloud → Cloud) : Type 0 where
  before_in :
      (key : OperationKey) (c : Cloud)
      → is_entered key (some (f c)) ≡ true
      → is_entered key (some c) ≡ true

is_entered-map :
    (f : Cloud → Cloud) (key : OperationKey) (o : Option Cloud)
    → EntersNothingIn f
    → is_entered key (Option.map f o) ≡ true
    → is_entered key o ≡ true
is_entered-map f key none n h = h
is_entered-map f key (some c) n h = n.before_in key c h

-- The change of an entry takes no answer away.
abbrev KeepsAnswer : (Operation → Operation) → Type 0
KeepsAnswer f = (o : Operation) → not (is_some (f o).result) ≡ true → not (is_some o.result) ≡ true

in_operation-lookup :
    (k key : OperationKey) (f : Operation → Operation) (c : Cloud)
    → KeepsAnswer f
    → is_entered_in (lookup key (in_operation k f c).operations) ≡ true
    → is_entered_in (lookup key c.operations) ≡ true
unfolding in_operation
in_operation-lookup k key f c keeps h = elim (Option-cases (lookup k c.operations)) [
  | inl absent ↦ rw (absent, in_operation) at h
  | inr (o, present) ↦
      let there = rw (present, in_operation, lookup-insert) at h in
      elim (Bool-cases (key_beq k key)) [
        | inl same ↦ rw (sym ((key_beq_iff k key).0 same), present) (keeps o (rw same at there))
        | inr other ↦ rw other at there
      ]
]

in_operation-EntersNothing :
    (k : OperationKey) (f : Operation → Operation)
    → KeepsAnswer f
    → EntersNothingIn (in_operation k f)
in_operation-EntersNothing k f keeps = record {
  before_in = λ key c h.
      is_entered-lookup key c
      ∙ in_operation-lookup k key f c keeps (sym (is_entered-lookup key (in_operation k f c)) ∙ h);
}

pub desire-EntersNothing : (d : DesiredState) → EntersNothing (desire d)
desire-EntersNothing d = record { before = λ key r h. h }

pub tombstone-EntersNothing : EntersNothing tombstone
unfolding is_entered
tombstone-EntersNothing = record {
  before =
      λ key r h. is_entered-map deleted_cloud key r.cloud (record { before_in = λ k c x. x }) h;
}

-- An entry that is settled.
pub settle-EntersNothing :
    (k : OperationKey) (reply : Reply)
    → EntersNothing (in_cloud (in_operation k (settled_with reply)))
settle-EntersNothing k reply = record {
  before = λ key r h.
      is_entered-map (in_operation k (settled_with reply)) key r.cloud
        (in_operation-EntersNothing k (settled_with reply) (λ o x. absurd (cc))) h;
}

pub prepare_boot-EntersNothing : (now : ℕ) (k : OperationKey) → EntersNothing (prepare_boot now k)
unfolding prepare_boot is_entered
prepare_boot-EntersNothing now k = record {
  before = λ key r h.
      is_entered-map _ key r.cloud
        (record {
          before_in = λ j c x.
              (in_operation-EntersNothing k (λ o. record o { boot_prepared = true })
                  (λ o y. y)).before_in
                j
                (record c {
                  previous_boot_ids = remembered r.boot_id c.previous_boot_ids;
                  boot_requested_at = some now;
                })
                x;
        })
        h;
}

-- What a storage operation's intent changes beside its entry.
pub marked-EntersNothing : (verb : Verb) (token : String) → EntersNothing (marked verb token)
unfolding marked is_entered
marked-EntersNothing fence token = record {
  before = λ key r h. is_entered-map fenced_cloud key r.cloud (record { before_in = λ k c x. x }) h;
}
marked-EntersNothing restore token = record { before = λ key r h. h }
marked-EntersNothing _ token = record { before = λ key r h. h }
