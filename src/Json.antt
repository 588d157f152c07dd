-- ===== src/Json.antt =====
-- The JSON values that requests carry (src/server.js, readBody), the objects that the engine reads
-- fields from, and the fingerprints of request bodies (`canonical` of src/host-api.js, `stable` of
-- src/host-storage.js).
--
-- A number is an integer or a numeral that is none, which the engine only ever rejects. A
-- fingerprint is the sorted object itself: JSON.stringify of it is read back by JSON.parse, and two
-- texts are equal exactly when the sorted objects are.
pub mod Fingerprint
use hyperwake_core.Prelude.{
  ℕ, String, Bool, true, false, ◌&&◌, Option, none, some, List, [], ◌∷◌, ℤ, pos, int_beq, str_eq,
  string_eq, leb, lookup, if◌then◌else◌,
}

mutual
  pub data Json : Type 0 where
    null : Json
    bool : Bool → Json
    int : ℤ → Json
    fraction : String → Json
    str : String → Json
    arr : Items → Json
    obj : Fields → Json

  pub data Items : Type 0 where
    nil : Items
    cons : Json → Items → Items

  pub data Fields : Type 0 where
    end : Fields
    field : String → Json → Fields → Fields

-- An object's own fields.
abbrev pub Body : Type 0
Body = List (String × Json)

unfoldable pub entries : Fields → Body
entries end = []
entries (field k v fs) = (k, v) ∷ entries fs

-- value?.key: none is `undefined`
unfoldable pub member : Json → String → Option Json
unfolding entries lookup
member (obj fs) k = lookup k (entries fs)
member _ k = none

-- typeof value === 'string'
unfoldable pub as_string : Option Json → Option String
as_string (some (str s)) = some s
as_string _ = none

-- Number.isInteger(value)
unfoldable pub as_integer : Option Json → Option ℤ
as_integer (some (int z)) = some z
as_integer _ = none

abbrev pub max_safe_integer : ℕ
max_safe_integer = 9007199254740991

-- Number.isSafeInteger(value) && value >= 0
unfoldable pub as_index : Option Json → Option ℕ
as_index (some (int (pos n))) = if leb n max_safe_integer then some n else none
as_index _ = none

-- typeof value === 'boolean'
unfoldable pub as_bool : Option Json → Option Bool
as_bool (some (bool b)) = some b
as_bool _ = none

-- Boolean(value)
unfoldable pub truthy : Option Json → Bool
truthy none = false
truthy (some null) = false
truthy (some (bool b)) = b
truthy (some (int (pos n))) = leb 1 n
truthy (some (str s)) = if str_eq s "" then false else true
truthy (some _) = true

unfoldable pub bool_beq : Bool → Bool → Bool
bool_beq true b = b
bool_beq false true = false
bool_beq false false = true

unfoldable mutual
  unfolding bool_beq

  pub json_beq : Json → Json → Bool
  json_beq null null = true
  json_beq (bool a) (bool b) = bool_beq a b
  json_beq (int a) (int b) = int_beq a b
  json_beq (fraction a) (fraction b) = str_eq a b
  json_beq (str a) (str b) = str_eq a b
  json_beq (arr a) (arr b) = items_beq a b
  json_beq (obj a) (obj b) = fields_beq a b
  json_beq _ _ = false

  pub items_beq : Items → Items → Bool
  items_beq nil nil = true
  items_beq (cons a as') (cons b bs) = json_beq a b && items_beq as' bs
  items_beq _ _ = false

  pub fields_beq : Fields → Fields → Bool
  fields_beq end end = true
  fields_beq (field k a as') (field j b bs) = str_eq k j && (json_beq a b && fields_beq as' bs)
  fields_beq _ _ = false
