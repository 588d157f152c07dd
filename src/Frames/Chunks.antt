-- ===== src/Frames/Chunks.antt =====
-- How stdin is cut into chunks makes no difference to the lines that are read.
use Prim.Native.Char.{Char, code}
use Prim.Native.String.{◌++◌ as append}
use Prim.Native.String.append as append_clauses
use hyperwake_core.Prelude.{
  ℕ, zero, suc, ◌<◌, String, ◌≡◌, refl, sym, ap, ◌∙◌, false, Option, none, some, List, [], ◌∷◌,
  ◌++◌, map, nat_beq, arith, Bool-cases, Option-cases, inl, inr, if◌then◌else◌,
}
use hyperwake_core.Text.Laws.{append_assoc, append-empty}
use hyperwake_core.Frames.{cut, drain, chars, receive, receive_all}

abbrev starts : Char → List String × String → List String × String
starts c ([], left) = ([], String.◌∷◌ c left)
starts c (line ∷ lines, left) = (String.◌∷◌ c line ∷ lines, left)

-- The lines of a text, character by character.
unfoldable pub lines_of : String → List String × String
lines_of String.[] = ([], "")
lines_of (String.◌∷◌ c s) =
    let rest = lines_of s in if nat_beq (code c) 10 then ("" ∷ rest.0, rest.1) else starts c rest

cut-none : (s : String) → cut s ≡ none → lines_of s ≡ ([], s)
unfolding cut lines_of
cut-none String.[] h = refl
cut-none (String.◌∷◌ c s) h = elim (Bool-cases (nat_beq (code c) 10)) [
  | inl newline ↦ absurd (cc (rw (cut, newline) at h))
  | inr other ↦ elim (Option-cases (cut s)) [
    | inl whole ↦ rw (lines_of, other, cut-none s whole) refl
    | inr (found, split) ↦ absurd (cc (rw (cut, other, split) at h))
  ]
]

first_line :
    (s line behind : String)
    → ◌≡◌ {A = Option (String × String)} (some ("", s)) (some (line, behind))
    → ("" ≡ line) × (s ≡ behind)
first_line s line behind h = ground arith

cut-some :
    (s line behind : String)
    → cut s ≡ some (line, behind)
    → (lines_of s ≡ (line ∷ (lines_of behind).0, (lines_of behind).1)) × (chars behind < chars s)
unfolding cut lines_of
cut-some String.[] line behind h = absurd (cc)
cut-some (String.◌∷◌ c s) line behind h = elim (Bool-cases (nat_beq (code c) 10)) [
  | inl newline ↦
      let (l, b) = first_line s line behind (rw (cut, newline) at h) in
      rw (sym l, sym b, lines_of, newline) (refl, omega arith)
  | inr other ↦ elim (Option-cases (cut s)) [
    | inl whole ↦ absurd (cc (rw (cut, other, whole) at h))
    | inr ((before, after), split) ↦
        let (lines, shorter) = cut-some s before after split in
        rw (lines_of, other, lines) (ground (arith, rw (cut, other, split) at h))
  ]
]

drain-lines_of : (fuel : ℕ) (s : String) → chars s < fuel → drain fuel s ≡ lines_of s
unfolding drain
drain-lines_of zero s h = absurd (omega arith)
drain-lines_of (suc fuel) s h = elim (Option-cases (cut s)) [
  | inl whole ↦ rw (drain, whole) (sym (cut-none s whole))
  | inr ((line, behind), split) ↦
      let (lines, shorter) = cut-some s line behind split in
      rw (drain, split, drain-lines_of fuel behind (omega arith)) (sym lines)
]

abbrev joined : List String × String → String → List String × String
joined (lines, left) more = let rest = lines_of (append left more) in (lines ++ rest.0, rest.1)

starts-joined :
    (c : Char) (r : List String × String) (more : String)
    → nat_beq (code c) 10 ≡ false
    → starts c (joined r more) ≡ joined (starts c r) more
unfolding lines_of
starts-joined c ([], left) more other = rw (append_clauses.cons, lines_of, other) refl
starts-joined c (line ∷ lines, left) more other = refl

lines_of-append : (s more : String) → lines_of (append s more) ≡ joined (lines_of s) more
unfolding lines_of
lines_of-append String.[] more = rw append_clauses.nil refl
lines_of-append (String.◌∷◌ c s) more = elim (Bool-cases (nat_beq (code c) 10)) [
  | inl newline ↦ rw (append_clauses.cons, lines_of, newline, lines_of-append s more) refl
  | inr other ↦
      rw (append_clauses.cons, lines_of, other, lines_of-append s more)
        (starts-joined c (lines_of s) more other)
]

starts-left :
    (c : Char) (r : List String × String)
    → nat_beq (code c) 10 ≡ false
    → lines_of r.1 ≡ ([], r.1)
    → lines_of (starts c r).1 ≡ ([], (starts c r).1)
unfolding lines_of
starts-left c ([], left) other h = rw (lines_of, other, h) refl
starts-left c (line ∷ lines, left) other h = h

lines_of-left : (s : String) → lines_of (lines_of s).1 ≡ ([], (lines_of s).1)
unfolding lines_of
lines_of-left String.[] = refl
lines_of-left (String.◌∷◌ c s) = elim (Bool-cases (nat_beq (code c) 10)) [
  | inl newline ↦ rw (lines_of, newline) (lines_of-left s)
  | inr other ↦ rw (lines_of, other) (starts-left c (lines_of s) other (lines_of-left s))
]

abbrev pub concat : List String → String
concat [] = ""
concat (chunk ∷ chunks) = append chunk (concat chunks)

module _ (decode : List ℕ → String) where
  receive-lines_of :
      (buffer : String) (chunk : List ℕ)
      → receive decode buffer chunk ≡ lines_of (append buffer (decode chunk))
  unfolding receive
  receive-lines_of buffer chunk =
      let text = append buffer (decode chunk) in
      drain-lines_of (suc (chars text)) text (omega arith)

  receive_all-from :
      (buffer : String) (chunks : List (List ℕ))
      → lines_of buffer ≡ ([], buffer)
      → receive_all decode buffer chunks ≡ lines_of (append buffer (concat (map decode chunks)))
  unfolding receive_all
  receive_all-from buffer [] h = rw append-empty (sym h)
  receive_all-from buffer (chunk ∷ chunks) h =
      let text = append buffer (decode chunk) in
      rw
        (
          receive-lines_of buffer chunk,
          receive_all-from (lines_of text).1 chunks (lines_of-left text),
          sym (append_assoc buffer (decode chunk) (concat (map decode chunks))),
          lines_of-append text (concat (map decode chunks)),
        )
        refl

  -- However stdin is cut into chunks, the lines that are read, and the text that is left over, are
  -- those of the chunks' texts put together, each chunk decoded on its own: each line ends at a
  -- newline, in order, and none is lost, joined or repeated. So they are the lines of the whole stream
  -- as far as decoding it piece by piece gives its text, which it does not where a chunk ends within
  -- the bytes of a character. (The loop on each chunk is given as much fuel as the buffer has
  -- characters, and one more.)
  pub receive_all-lines_of :
      (chunks : List (List ℕ))
      → receive_all decode "" chunks ≡ lines_of (concat (map decode chunks))
  unfolding lines_of
  receive_all-lines_of chunks =
      receive_all-from "" chunks refl
      ∙ ap lines_of (append_clauses.nil (concat (map decode chunks)))
