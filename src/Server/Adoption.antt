-- ===== src/Server/Adoption.antt =====
-- What the start of the server does with the machines that the runtime holds.
use hyperwake_core.Prelude.{
  ℕ, String, ◌≡◌, refl, ◌∙◌, Bool, true, false, Option, some, List, [], ◌∷◌, any, str_eq, eq_iff,
  Bool-cases, inl, inr, nat_beq, length, if◌then◌else◌,
}
use hyperwake_core.Records.{Record}
use hyperwake_core.Registry
use hyperwake_core.Registry.{Registry, get, put}
use hyperwake_core.Registry.Laws.{get-put}
use hyperwake_core.Server.{adopt, adopted_record, is_known, reconcile}

abbrev pub is_held : String → List String → Bool
is_held id ids = any (λ j. str_eq j id) ids

-- The record of a machine after the adoption.
abbrev pub adopted_as : ℕ → List Record → List String → String → Option Record → Option Record
adopted_as now known ids j old =
    if is_held j ids then (if is_known j known then old else some (adopted_record now j)) else old

kept_known :
    (held known : Bool) (old new : Option Record)
    → known ≡ true
    → (if held then (if known then old else new) else old)
      ≡ (if true then (if known then old else new) else old)
kept_known true known old new h = refl
kept_known false known old new h = rw h refl

put_lost :
    (held known : Bool) (old new : Option Record)
    → known ≡ false
    → (if held then (if known then new else new) else new)
      ≡ (if true then (if known then old else new) else old)
put_lost true known old new h = rw h refl
put_lost false known old new h = rw h refl

get-adopt :
    (now : ℕ) (known : List Record) (ids : List String) (r : Registry) (j : String)
    → get (adopt now known ids r) j ≡ adopted_as now known ids j (get r j)
unfolding adopt
get-adopt now known [] r j = refl
get-adopt now known (id ∷ ids) r j = elim (Bool-cases (is_known id known)) [
  | inl seen ↦
      rw (seen, get-adopt now known ids r j)
        (elim (Bool-cases (str_eq id j)) [
          | inl same ↦ rw same (
              kept_known (is_held j ids) (is_known j known) (get r j) (some (adopted_record now j))
                (rw ((eq_iff id j).0 same) at seen))
          | inr other ↦ rw other refl
        ])
  | inr lost ↦
      rw (lost, get-adopt now known ids (put r id (adopted_record now id)) j, get-put)
        (elim (Bool-cases (str_eq id j)) [
          | inl same ↦
              rw (same, (eq_iff id j).0 same)
                (put_lost (is_held j ids) (is_known j known) (get r j) (some (adopted_record now j))
                  (rw ((eq_iff id j).0 same) at lost))
          | inr other ↦ rw other refl
        ])
]

flushed_or_not :
    (b : Bool) (r : Registry) (j : String) → get (if b then r else Registry.flush r) j ≡ get r j
unfolding get Registry.flush
flushed_or_not true r j = refl
flushed_or_not false r j = refl

-- After the start every machine that the runtime holds has a record, its own if the registry knew the
-- machine and a new one named after its id if not, and every other machine has the record that it
-- had.
pub get-reconcile :
    (now : ℕ) (ids : List String) (r : Registry) (j : String)
    → get (reconcile now ids r) j ≡ adopted_as now (Registry.all r) ids j (get r j)
unfolding reconcile
get-reconcile now ids r j =
    flushed_or_not
      (nat_beq (length (adopt now (Registry.all r) ids r).records) (length (Registry.all r)))
      (adopt now (Registry.all r) ids r) j
    ∙ get-adopt now (Registry.all r) ids r j
