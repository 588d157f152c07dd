-- ===== src/Text.antt =====
-- The text operations of JavaScript that the engine uses: trim, slice, startsWith, and the two
-- patterns that identifiers are tested against.
pub mod Laws
pub mod Split
use Prim.Native.Char.{Char, code}
use Prim.Native.String.{◌++◌ as append}
use hyperwake_core.Prelude.{
  ℕ, zero, suc, ◌+◌, ◌-◌, ◌/◌, ◌%◌, String, Bool, true, false, ◌&&◌, ◌||◌, Option, none, some, List,
  [], ◌∷◌, ◌++◌, leb, ltb, nat_beq, str_eq, length, all, if◌then◌else◌,
}

-- WhiteSpace and LineTerminator of ECMAScript.
abbrev pub is_space : ℕ → Bool
is_space c =
    (leb 9 c && leb c 13)
    || nat_beq c 32
    || nat_beq c 160
    || nat_beq c 0x1680
    || (leb 0x2000 c && leb c 0x200a)
    || nat_beq c 0x2028
    || nat_beq c 0x2029
    || nat_beq c 0x202f
    || nat_beq c 0x205f
    || nat_beq c 0x3000
    || nat_beq c 0xfeff

-- The code points of a text.
abbrev pub codes : String → List ℕ
codes String.[] = []
codes (String.◌∷◌ c s) = code c ∷ codes s

unfoldable pub trim_start : String → String
trim_start String.[] = ""
trim_start (String.◌∷◌ c s) = if is_space (code c) then trim_start s else String.◌∷◌ c s

unfoldable pub trim_end : String → String
trim_end String.[] = ""
trim_end (String.◌∷◌ c s) =
    let rest = trim_end s in if is_space (code c) && str_eq rest "" then "" else String.◌∷◌ c rest

unfoldable pub trim : String → String
unfolding trim_start trim_end
trim s = trim_start (trim_end s)

-- UTF-16 code units of one character.
abbrev pub units : ℕ → ℕ
units c = if leb 0x10000 c then 2 else 1

-- s.slice(0, n): the characters that fit whole. (Where the cut falls inside a surrogate pair
-- JavaScript keeps the first half, which is no character.)
unfoldable pub take_units : ℕ → String → String
take_units n String.[] = ""
take_units n (String.◌∷◌ c s) =
    let rest = take_units (n - units (code c)) s in
    if leb (units (code c)) n then String.◌∷◌ c rest else ""

-- s.length
unfoldable pub units_of : String → ℕ
units_of String.[] = 0
units_of (String.◌∷◌ c s) = units (code c) + units_of s

-- s.startsWith(p) ? s.slice(p.length) : undefined
unfoldable pub strip_prefix : String → String → Option String
strip_prefix String.[] s = some s
strip_prefix (String.◌∷◌ c p) String.[] = none
strip_prefix (String.◌∷◌ c p) (String.◌∷◌ d s) =
    let rest = strip_prefix p s in if nat_beq (code c) (code d) then rest else none

abbrev digit : ℕ → String
digit n =
    if nat_beq n 0
    then "0"
    else if nat_beq n 1
    then "1"
    else if nat_beq n 2
    then "2"
    else if nat_beq n 3
    then "3"
    else if nat_beq n 4
    then "4"
    else if nat_beq n 5
    then "5"
    else if nat_beq n 6
    then "6"
    else if nat_beq n 7
    then "7"
    else if nat_beq n 8
    then "8"
    else "9"

decimal_from : ℕ → ℕ → String
decimal_from zero n = ""
decimal_from (suc fuel) n =
    let more = append (decimal_from fuel (n / 10)) (digit (n % 10)) in
    if ltb n 10 then digit n else more

-- `${n}` of a time in milliseconds, which has fewer than twenty digits.
unfoldable pub decimal : ℕ → String
unfolding decimal_from
decimal n = decimal_from 20 n

abbrev pub is_digit : ℕ → Bool
is_digit c = leb b'0' c && leb c b'9'

-- [0-9a-f]
abbrev pub is_hex : ℕ → Bool
is_hex c = is_digit c || (leb b'a' c && leb c b'f')

-- [a-zA-Z0-9_-]
abbrev pub is_word : ℕ → Bool
is_word c =
    is_digit c
    || (leb b'a' c && leb c b'z')
    || (leb b'A' c && leb c b'Z')
    || nat_beq c b'_'
    || nat_beq c b'-'

-- One test for each place, to the end of the text.
unfoldable pub matches : List (ℕ → Bool) → List ℕ → Bool
matches [] [] = true
matches (p ∷ ps) (c ∷ cs) = p c && matches ps cs
matches _ _ = false

abbrev is_dash : ℕ → Bool
is_dash c = nat_beq c b'-'

-- [1-8] and [89ab]
abbrev is_version : ℕ → Bool
is_version c = leb b'1' c && leb c b'8'

abbrev is_variant : ℕ → Bool
is_variant c = nat_beq c b'8' || nat_beq c b'9' || nat_beq c b'a' || nat_beq c b'b'

abbrev hex3 : List (ℕ → Bool)
hex3 = is_hex ∷ is_hex ∷ is_hex ∷ []

abbrev hex4 : List (ℕ → Bool)
hex4 = is_hex ∷ hex3

abbrev dash : List (ℕ → Bool)
dash = is_dash ∷ []

abbrev uuid_pattern : List (ℕ → Bool)
uuid_pattern =
    hex4
    ++ (hex4
        ++ (dash
            ++ (hex4
                ++ (dash
                    ++ (is_version
                        ∷ (hex3
                            ++ (dash
                                ++ (is_variant
                                    ∷ (hex3 ++ (dash ++ (hex4 ++ (hex4 ++ hex4))))))))))))

-- UUID.test(s)
unfoldable pub is_uuid : String → Bool
unfolding matches
is_uuid s = matches uuid_pattern (codes s)

-- /^[a-zA-Z0-9_-]{1,128}$/.test(s)
unfoldable pub is_operation_id : String → Bool
is_operation_id s = leb 1 (length (codes s)) && leb (length (codes s)) 128 && all is_word (codes s)

-- /^[0-9a-f]{64}$/.test(s)
unfoldable pub is_sha256 : String → Bool
is_sha256 s = nat_beq (length (codes s)) 64 && all is_hex (codes s)
