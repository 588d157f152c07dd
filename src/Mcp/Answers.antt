-- ===== src/Mcp/Answers.antt =====
-- Which calls of a tool the MCP server refuses, and that it answers all others.
use hyperwake_core.Prelude.{
  String, ◌≡◌, refl, ◌≢◌, ◌⊎◌, Bool, true, ◌||◌, Option, none, some, List, [], ◌∷◌, any, str_eq,
  eq_iff, Option-cases, Bool-cases, inl, inr, arith,
}
use hyperwake_core.Json.{Json, member}
use hyperwake_core.Frames.{result, rpc_error}
use hyperwake_core.Mcp.{Js, Op, Answered, ToolResult, concat, run_with}
use hyperwake_core.Mcp.Schema.{Tool, schema}
use hyperwake_core.Mcp.Run.{run}
use hyperwake_core.Mcp.Methods.{
  named, first_missing, given_argument, call_tool, tools_call, invalid_params, result_json, settled,
  or_empty,
}

-- The argument is required by the tool.
abbrev pub Requires : Tool → String → Type 0
Requires t k = any (str_eq k) (schema t).required ≡ true

-- The argument is undefined.
abbrev pub IsMissing : Json → String → Type 0
IsMissing params k = given_argument (member params "arguments") k ≡ none

or_true : (a b : Bool) → (a ≡ true) ⊎ (b ≡ true) → (a || b) ≡ true
or_true a b (inl h) = ground arith
or_true a b (inr h) = ground arith

-- A missing argument is none that is given.
later :
    (k j : String) (ks : List String) (args : Option Json) (v : Json)
    → given_argument args j ≡ some v
    → given_argument args k ≡ none
    → any (str_eq k) (j ∷ ks) ≡ true
    → any (str_eq k) ks ≡ true
later k j ks args v present missing there = elim (Bool-cases (str_eq k j)) [
  | inl same ↦ absurd (cc (present, rw ((eq_iff k j).0 same) at missing))
  | inr other ↦ rw other at there
]

missing_found :
    (k : String) (ks : List String) (args : Option Json)
    → any (str_eq k) ks ≡ true
    → given_argument args k ≡ none
    → (j : String) × (first_missing ks args ≡ some j)
      × (any (str_eq j) ks ≡ true)
      × (given_argument args j ≡ none)
unfolding first_missing
missing_found k [] args there missing = absurd (cc)
missing_found k (j ∷ ks) args there missing = elim (Option-cases (given_argument args j)) [
  | inl absent ↦ (
    j,
    rw (first_missing, absent) refl,
    or_true (str_eq j j) (any (str_eq j) ks) (inl ((eq_iff j j).1 refl)),
    absent,
  )
  | inr (v, present) ↦
      let (i, found, required, missed) =
        missing_found k ks args (later k j ks args v present missing there) missing in
      (
        i,
        rw (first_missing, present) found,
        or_true (str_eq i j) (any (str_eq i) ks) (inr required),
        missed,
      )
]

none_missing :
    (ks : List String) (args : Option Json)
    → ((k : String) → any (str_eq k) ks ≡ true → given_argument args k ≢ none)
    → first_missing ks args ≡ none
unfolding first_missing
none_missing [] args h = refl
none_missing (j ∷ ks) args h = elim (Option-cases (given_argument args j)) [
  | inl absent ↦
      absurd (h j (or_true (str_eq j j) (any (str_eq j) ks) (inl ((eq_iff j j).1 refl))) absent)
  | inr (v, present) ↦
      rw (first_missing, present)
        (none_missing ks args
          (λ k there. h k (or_true (str_eq k j) (any (str_eq k) ks) (inr there))))
]

module _ {W : Type 0} (js : Js) (handle : String) (perform : Op → W → Answered × W) where
  -- A call of a tool without an argument that the tool requires is refused with the code for invalid
  -- parameters and the name of an argument that is required and missing, and the engine is asked
  -- nothing.
  pub tools_call_incomplete :
      (params : Json) (t : Tool) (k : String) (w : W)
      → named (member params "name") ≡ some t
      → Requires t k
      → IsMissing params k
      → (j : String) × Requires t j
        × IsMissing params j
        × (tools_call js handle perform params w ≡ (
          rpc_error invalid_params (concat ((schema t).name ∷ " needs \"" ∷ j ∷ "\"." ∷ [])),
          w,
        ))
  unfolding tools_call call_tool
  tools_call_incomplete params t k w tool required missing =
      let (j, found, demanded, absent) =
        missing_found k (schema t).required (member params "arguments") required missing in
      (j, demanded, absent, rw (tools_call, tool) (rw (call_tool, found) refl))

  -- A call of a tool with every argument that the tool requires is answered with a result, never with
  -- an error of the protocol, whatever the engine answers or throws.
  pub tools_call_complete :
      (params : Json) (t : Tool) (w : W)
      → named (member params "name") ≡ some t
      → ((k : String) → Requires t k → IsMissing params k → ⊥)
      → (r : ToolResult) × ((tools_call js handle perform params w).0
          ≡ result (some (result_json r)))
  unfolding tools_call call_tool
  tools_call_complete params t w tool complete = (
    settled (run_with perform (run js handle t (or_empty (member params "arguments"))) w).0,
    rw (tools_call, tool)
        (rw (call_tool, none_missing (schema t).required (member params "arguments") complete)
          refl),
  )
