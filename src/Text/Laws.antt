-- ===== src/Text/Laws.antt =====
-- What trimming and cutting do to a text.
use Prim.Native.Char.{code}
use Prim.Native.String.{◌++◌ as append}
use Prim.Native.String.append as append_clauses
use hyperwake_core.Prelude.{
  ℕ, ◌-◌, String, ◌≡◌, refl, ◌≤◌, true, false, some, arith, leb, leb→le, Bool-cases, inl, inr,
}
use hyperwake_core.Text.{is_uuid, trim, decimal, take_units, units_of, units, strip_prefix}

-- A cut text is no longer than the cut.
pub units_of-take_units-le : (n : ℕ) (s : String) → units_of (take_units n s) ≤ n
unfolding take_units units_of
units_of-take_units-le n String.[] = omega arith
units_of-take_units-le n (String.◌∷◌ c s) = elim (Bool-cases (leb (units (code c)) n)) [
  | inl fits ↦
      rw fits (
        omega
          (arith, leb→le (units (code c)) n fits, units_of-take_units-le (n - units (code c)) s))
  | inr over ↦ rw over (omega arith)
]

pub strip_prefix-append : (p s : String) → strip_prefix p (append p s) ≡ some s
unfolding strip_prefix
strip_prefix-append String.[] s = rw append_clauses.nil
strip_prefix-append (String.◌∷◌ c p) s =
    rw append_clauses.cons (ground (arith, strip_prefix-append p s))

pub append-empty : (s : String) → append s "" ≡ s
append-empty String.[] = rw append_clauses.nil refl
append-empty (String.◌∷◌ c s) = rw (append_clauses.cons, append-empty s) refl

pub append_assoc : (a b c : String) → append (append a b) c ≡ append a (append b c)
append_assoc String.[] b c = rw (append_clauses.nil b, append_clauses.nil (append b c)) refl
append_assoc (String.◌∷◌ x a) b c =
    rw (append_clauses.cons, append_clauses.cons, append_clauses.cons, append_assoc a b c) refl

uuid_accepts : is_uuid "849baf6a-a7e7-4648-afd7-932aa2d3c785" ≡ true
unfolding is_uuid
uuid_accepts = refl

uuid_rejects_version : is_uuid "849baf6a-a7e7-0648-afd7-932aa2d3c785" ≡ false
unfolding is_uuid
uuid_rejects_version = refl

decimal_runs : decimal 1764166576000 ≡ "1764166576000"
unfolding decimal
decimal_runs = refl

trim_runs : take_units 3 (trim "  a bcd ") ≡ "a b"
unfolding trim take_units
trim_runs = refl
