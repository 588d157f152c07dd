-- ===== src/Mcp/Quoting.antt =====
-- A quoted command is read back by sh as it was.
use Prim.Native.Char.{code}
use Prim.Native.String.{◌++◌ as append}
use Prim.Native.String.append as append_clauses
use text.Mathlib.TextEquality.{Char-path}
use hyperwake_core.Prelude.{
  String, ◌≡◌, refl, ap, ◌∙◌, Option, some, nat_beq, nat_beq_iff, Bool-cases, inl, inr,
}
use hyperwake_core.Text.Laws.{append_assoc}
use hyperwake_core.Mcp.Quote.{replace_quotes, shell_quote, quoted, bare, in_front, read_word}

abbrev all_in_front : String → Option (String × String) → Option (String × String)
all_in_front String.[] o = o
all_in_front (String.◌∷◌ c s) o = in_front c (all_in_front s o)

all_in_front-some : (s t : String) → all_in_front s (some ("", t)) ≡ some (s, t)
all_in_front-some String.[] t = refl
all_in_front-some (String.◌∷◌ c s) t = rw (all_in_front-some s t) refl

-- The four characters that stand for a quote put a quote into the word.
read_word-escaped_quote :
    (t : String) → read_word quoted (append "'\\''" t) ≡ in_front "'" (read_word quoted t)
unfolding read_word
read_word-escaped_quote t =
    rw
      (
        append_clauses.cons, append_clauses.cons, append_clauses.cons, append_clauses.cons,
        append_clauses.nil,
      )
      refl

read_word-replace_quotes :
    (s t : String)
    → read_word quoted (append (replace_quotes s) (append "'" t))
      ≡ all_in_front s (read_word bare t)
unfolding read_word replace_quotes
read_word-replace_quotes String.[] t =
    rw (append_clauses.nil, append_clauses.cons, append_clauses.nil) refl
read_word-replace_quotes (String.◌∷◌ c s) t = elim (Bool-cases (nat_beq (code c) 39)) [
  | inl quote ↦
      let same : c ≡ "'" = Char-path c "'" ((nat_beq_iff (code c) 39).0 quote) in
      rw (quote, same)
        (ap (read_word quoted) (append_assoc "'\\''" (replace_quotes s) (append "'" t))
          ∙ read_word-escaped_quote (append (replace_quotes s) (append "'" t))
          ∙ ap (in_front "'") (read_word-replace_quotes s t))
  | inr plain ↦
      rw (plain, append_clauses.cons, plain) (ap (in_front c) (read_word-replace_quotes s t))
]

read_word-open : (t : String) → read_word bare (append "'" t) ≡ read_word quoted t
unfolding read_word
read_word-open t = rw (append_clauses.cons, append_clauses.nil) refl

read_word-blank : (t : String) → read_word bare (append " " t) ≡ some ("", append " " t)
unfolding read_word
read_word-blank t = rw (append_clauses.cons) refl

-- Whatever the command, sh reads its quoted form as one word, which is the command itself, and stops
-- at the blank behind it.
pub read_word-shell_quote :
    (command behind : String)
    → read_word bare (append (shell_quote command) (append " " behind))
      ≡ some (command, append " " behind)
unfolding shell_quote
read_word-shell_quote command behind =
    let rest = append " " behind in
    let opened = append (replace_quotes command) (append "'" rest) in
    ap (read_word bare) (
      append_assoc "'" (append (replace_quotes command) "'") rest
      ∙ ap (append "'") (append_assoc (replace_quotes command) "'" rest))
    ∙ read_word-open opened
    ∙ read_word-replace_quotes command rest
    ∙ ap (all_in_front command) (read_word-blank behind)
    ∙ all_in_front-some command rest
