-- ===== src/Json/Fingerprint.antt =====
-- `canonical` of src/host-api.js and `stable` of src/host-storage.js.
use text.Mathlib.Text.{is_le}
use Prim.Native.String.{compare}
use hyperwake_core.Prelude.{
  String, ◌≡◌, refl, Bool, true, false, ◌&&◌, List, [], ◌∷◌, arith, int_beq_self, str_eq, eq_iff,
  if◌then◌else◌,
}
use hyperwake_core.Json.{
  Json, Items, Fields, null, bool, int, fraction, str, arr, obj, nil, cons, end, field, Body,
  bool_beq, json_beq, items_beq, fields_beq,
}

-- One entry into its place in Object.keys(value).sort().
unfoldable pub insert_sorted {ℓ} : {V : Type ℓ} → String → V → List (String × V) → List (String × V)
insert_sorted k v [] = (k, v) ∷ []
insert_sorted k v ((j, w) ∷ rest) =
    if is_le (compare k j) then (k, v) ∷ (j, w) ∷ rest else (j, w) ∷ insert_sorted k v rest

-- The replacer array of `canonical` lists the top-level keys. What it would drop from a nested
-- object cannot matter: every field that an accepted lifecycle request may have is a number, a
-- text or a boolean.
unfoldable pub canonical : Body → Body
unfolding insert_sorted
canonical [] = []
canonical ((k, v) ∷ rest) = insert_sorted k v (canonical rest)

unfoldable pub insert_field : String → Json → Fields → Fields
insert_field k v end = field k v end
insert_field k v (field j w rest) =
    if is_le (compare k j) then field k v (field j w rest) else field j w (insert_field k v rest)

unfoldable mutual
  unfolding insert_field

  pub stable_value : Json → Json
  stable_value (arr xs) = arr (stable_items xs)
  stable_value (obj fs) = obj (stable_fields fs)
  stable_value v = v

  pub stable_items : Items → Items
  stable_items nil = nil
  stable_items (cons x xs) = cons (stable_value x) (stable_items xs)

  pub stable_fields : Fields → Fields
  stable_fields end = end
  stable_fields (field k v fs) = insert_field k (stable_value v) (stable_fields fs)

unfoldable pub stable : Body → Body
unfolding insert_sorted stable_value
stable [] = []
stable ((k, v) ∷ rest) = insert_sorted k (stable_value v) (stable rest)

-- a.fingerprint === b.fingerprint
unfoldable pub body_beq : Body → Body → Bool
body_beq [] [] = true
body_beq ((k, v) ∷ a) ((j, w) ∷ b) = str_eq k j && (json_beq v w && body_beq a b)
body_beq _ _ = false

mutual
  unfolding json_beq items_beq fields_beq bool_beq

  json_beq_self : (v : Json) → json_beq v v ≡ true
  json_beq_self null = refl
  json_beq_self (bool true) = refl
  json_beq_self (bool false) = refl
  json_beq_self (int z) = int_beq_self z
  json_beq_self (fraction s) = (eq_iff s s).1 refl
  json_beq_self (str s) = (eq_iff s s).1 refl
  json_beq_self (arr xs) = items_beq_self xs
  json_beq_self (obj fs) = fields_beq_self fs

  items_beq_self : (xs : Items) → items_beq xs xs ≡ true
  items_beq_self nil = refl
  items_beq_self (cons x xs) = ground (arith, json_beq_self x, items_beq_self xs)

  fields_beq_self : (fs : Fields) → fields_beq fs fs ≡ true
  fields_beq_self end = refl
  fields_beq_self (field k v fs) = ground (arith, eq_iff k k, json_beq_self v, fields_beq_self fs)

-- A body has the fingerprint that it had before.
pub body_beq_self : (b : Body) → body_beq b b ≡ true
unfolding body_beq
body_beq_self [] = refl
body_beq_self ((k, v) ∷ b) = ground (arith, eq_iff k k, json_beq_self v, body_beq_self b)
