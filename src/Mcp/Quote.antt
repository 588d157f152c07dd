-- ===== src/Mcp/Quote.antt =====
-- shellQuote of src/mcp/tools.js, and how sh reads a word with quotes.
use Prim.Native.Char.{Char, code}
use Prim.Native.String.{◌++◌ as append}
use hyperwake_core.Prelude.{
  ℕ, String, Bool, true, ◌≡◌, refl, Option, none, some, nat_beq, if◌then◌else◌,
}

-- command.replaceAll("'", `'\\''`)
unfoldable pub replace_quotes : String → String
replace_quotes String.[] = ""
replace_quotes (String.◌∷◌ c s) =
    let rest = replace_quotes s in
    if nat_beq (code c) 39 then append "'\\''" rest else String.◌∷◌ c rest

-- `'${…}'`
unfoldable pub shell_quote : String → String
unfolding replace_quotes
shell_quote command = append "'" (append (replace_quotes command) "'")

-- Where the reading of a word stands: in single quotes, outside of quotes, or behind a backslash
-- outside of quotes.
pub data Quoting : Type 0 where
  quoted bare escaped : Quoting

abbrev pub in_front : Char → Option (String × String) → Option (String × String)
in_front c none = none
in_front c (some (word, behind)) = some (String.◌∷◌ c word, behind)

abbrev pub ends_word : ℕ → Bool
ends_word c = if nat_beq c 32 then true else nat_beq c 10

-- The word that sh reads, with what stands behind it; none where a quote is left open. POSIX.1
-- 2.2.1 and 2.2.2: a backslash outside of quotes keeps the character behind it, single quotes keep
-- every character between them. (A newline behind a backslash, and what other characters mean outside
-- of quotes, are left out: `plain` words have none.)
unfoldable pub read_word : Quoting → String → Option (String × String)
read_word bare String.[] = some ("", "")
read_word _ String.[] = none
read_word quoted (String.◌∷◌ c s) =
    let closed = read_word bare s in
    let kept = in_front c (read_word quoted s) in if nat_beq (code c) 39 then closed else kept
read_word escaped (String.◌∷◌ c s) = in_front c (read_word bare s)
read_word bare (String.◌∷◌ c s) =
    let opened = read_word quoted s in
    let escape = read_word escaped s in
    let kept = in_front c (read_word bare s) in
    if nat_beq (code c) 39
    then opened
    else if nat_beq (code c) 92
    then escape
    else if ends_word (code c)
    then some ("", String.◌∷◌ c s)
    else kept

quote_runs :
    read_word bare (append (shell_quote "echo 'a b' \\ x") " > log")
    ≡ some ("echo 'a b' \\ x", " > log")
unfolding read_word shell_quote
quote_runs = refl
