-- ===== src/Registry/Laws.antt =====
-- What the operations of the registry change, seen through `get`, and the order of `all`.
use mathlib.Core.List.{Perm}
use mathlib.Core.List.Perm
use mathlib.Core.Option
use hyperwake_core.Prelude.{
  ℕ, String, ◌≡◌, none, some, List, [], ◌∷◌, map, arith, ◌≤◌, leb, leb→le, str_eq, eq_iff,
  string_eq, lookup, lookup-insert, lookup-remove, Option-cases, Bool-cases, inl, inr,
  if◌then◌else◌,
}
use hyperwake_core.Records.{Record, Spec}
use hyperwake_core.Registry.{
  Registry, flush, all, get, put, new_record, create, modify, update, remove, insert_by_creation,
  sort_by_creation,
}

pub get-put :
    (r : Registry) (id j : String) (x : Record)
    → get (put r id x) j ≡ (if str_eq id j then some x else get r j)
unfolding get put
get-put r id j x = lookup-insert id j x r.records

pub get-create :
    (r : Registry) (id : String) (now : ℕ) (token : String) (spec : Spec) (j : String)
    → get (create id now token spec r) j
      ≡ (if str_eq id j then some (new_record id now token spec) else get r j)
unfolding create get
get-create r id now token spec j = lookup-insert id j (new_record id now token spec) r.records

-- An update of a machine applies the patch to it if it is there, and changes no other machine.
pub get-update :
    (r : Registry) (id : String) (patch : Record → Record) (j : String)
    → get (update id patch r) j ≡ (if str_eq id j then Option.map patch (get r j) else get r j)
unfolding update get flush put
get-update r id patch j = elim (Option-cases (lookup id r.records)) [
  | inl absent ↦ rw (absent, update) (ground (arith, eq_iff id j))
  | inr (x, present) ↦ rw (present, update, lookup-insert) (ground (arith, eq_iff id j))
]

-- A write through a reference changes that record alone, and leaves the file as it was.
pub get-modify :
    (r : Registry) (id : String) (f : Record → Record) (j : String)
    → get (modify id f r) j ≡ (if str_eq id j then Option.map f (get r j) else get r j)
unfolding modify get put
get-modify r id f j = elim (Option-cases (lookup id r.records)) [
  | inl absent ↦ rw (absent, modify) (ground (arith, eq_iff id j))
  | inr (x, present) ↦ rw (present, modify, lookup-insert) (ground (arith, eq_iff id j))
]

pub durable-modify :
    (r : Registry) (id : String) (f : Record → Record) → (modify id f r).durable ≡ r.durable
unfolding modify put
durable-modify r id f = elim (Option-cases (get r id)) [
  | inl absent ↦ rw (absent, modify)
  | inr (x, present) ↦ rw (present, modify)
]

pub get-remove :
    (r : Registry) (id j : String) → get (remove id r) j ≡ (if str_eq id j then none else get r j)
unfolding remove get flush
get-remove r id j = lookup-remove id j r.records

insert_by_creation-perm : (x : Record) (xs : List Record) → Perm (insert_by_creation x xs) (x ∷ xs)
unfolding insert_by_creation
insert_by_creation-perm x [] = Perm.refl (x ∷ [])
insert_by_creation-perm x (y ∷ ys) = elim (Bool-cases (leb x.created_at y.created_at)) [
  | inl before ↦ rw before (Perm.refl (x ∷ y ∷ ys))
  | inr after ↦
      rw after (Perm.trans (Perm.cons y (insert_by_creation-perm x ys)) (Perm.swap x y ys))
]

sort_by_creation-perm : (xs : List Record) → Perm (sort_by_creation xs) xs
unfolding sort_by_creation
sort_by_creation-perm [] = Perm.refl []
sort_by_creation-perm (x ∷ xs) =
    Perm.trans (insert_by_creation-perm x (sort_by_creation xs))
      (Perm.cons x (sort_by_creation-perm xs))

abbrev pub NoneBefore : ℕ → List Record → Type 0
NoneBefore t [] = Unit
NoneBefore t (x ∷ xs) = (t ≤ x.created_at) × NoneBefore t xs

-- Each record was created no later than those behind it.
abbrev pub IsOldestFirst : List Record → Type 0
IsOldestFirst [] = Unit
IsOldestFirst (x ∷ xs) = NoneBefore x.created_at xs × IsOldestFirst xs

NoneBefore-le : (t u : ℕ) (xs : List Record) → t ≤ u → NoneBefore u xs → NoneBefore t xs
NoneBefore-le t u [] le h = tt
NoneBefore-le t u (x ∷ xs) le h = (omega arith, NoneBefore-le t u xs le h.1)

NoneBefore-insert :
    (t : ℕ) (x : Record) (xs : List Record)
    → t ≤ x.created_at
    → NoneBefore t xs
    → NoneBefore t (insert_by_creation x xs)
unfolding insert_by_creation
NoneBefore-insert t x [] le h = (le, tt)
NoneBefore-insert t x (y ∷ ys) le h = elim (Bool-cases (leb x.created_at y.created_at)) [
  | inl before ↦ rw before (le, h)
  | inr after ↦ rw after (h.0, NoneBefore-insert t x ys le h.1)
]

insert_by_creation-IsOldestFirst :
    (x : Record) (xs : List Record) → IsOldestFirst xs → IsOldestFirst (insert_by_creation x xs)
unfolding insert_by_creation
insert_by_creation-IsOldestFirst x [] h = (tt, tt)
insert_by_creation-IsOldestFirst x (y ∷ ys) h = elim (Bool-cases (leb x.created_at y.created_at)) [
  | inl before ↦
      let le : x.created_at ≤ y.created_at = leb→le _ _ before in
      rw before ((le, NoneBefore-le x.created_at y.created_at ys le h.0), h)
  | inr after ↦ rw after (
    NoneBefore-insert y.created_at x ys (ground arith) h.0,
    insert_by_creation-IsOldestFirst x ys h.1,
  )
]

sort_by_creation-IsOldestFirst : (xs : List Record) → IsOldestFirst (sort_by_creation xs)
unfolding sort_by_creation
sort_by_creation-IsOldestFirst [] = tt
sort_by_creation-IsOldestFirst (x ∷ xs) =
    insert_by_creation-IsOldestFirst x (sort_by_creation xs) (sort_by_creation-IsOldestFirst xs)

-- The listing holds each record once for each time it is stored, the oldest first.
all-IsOldestFirst : (r : Registry) → Perm (all r) (map (λ e. e.1) r.records) × IsOldestFirst (all r)
unfolding all
all-IsOldestFirst r = (
  sort_by_creation-perm (map (λ e. e.1) r.records),
  sort_by_creation-IsOldestFirst (map (λ e. e.1) r.records),
)
