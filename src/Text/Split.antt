-- ===== src/Text/Split.antt =====
-- s.split(separator) and xs.join(separator), for a separator that is not empty.
use Prim.Native.Char.{Char, code}
use text.Mathlib.TextEquality.{Char-path}
use Prim.Native.String.{◌++◌ as append}
use Prim.Native.String.append as append_clauses
use hyperwake_core.Prelude.{
  ℕ, zero, suc, String, Bool, not, ◌&&◌, all, arith, ◌≡◌, refl, ap, sym, ◌∙◌, true, false, Option,
  none, some, List, [], ◌∷◌, nat_beq, nat_beq_iff, Bool-cases, Option-cases, inl, inr,
}
use hyperwake_core.Text.{strip_prefix, codes}
use hyperwake_core.Text.Laws.{append-empty, strip_prefix-append}

-- A character put before the first of two texts.
abbrev pub in_front : Char → Option (String × String) → Option (String × String)
in_front c none = none
in_front c (some (before, behind)) = some (String.◌∷◌ c before, behind)

-- The texts before and behind the first separator.
unfoldable pub cut_at : String → String → Option (String × String)
unfolding strip_prefix
cut_at separator String.[] = none
cut_at separator (String.◌∷◌ c s) =
    let later = cut_at separator s in
    elim (strip_prefix separator (String.◌∷◌ c s)) [
      | none ↦ in_front c later
      | some behind ↦ some ("", behind)
    ]

-- The first part, and the others.
unfoldable split_from : ℕ → String → String → String × List String
unfolding cut_at
split_from zero separator s = (s, [])
split_from (suc fuel) separator s = elim (cut_at separator s) [
  | none ↦ (s, [])
  | some (before, behind) ↦
      let (next, others) = split_from fuel separator behind in (before, next ∷ others)
]

abbrev chars : String → ℕ
chars String.[] = 0
chars (String.◌∷◌ c s) = suc (chars s)

-- Each part takes a separator off the text, so its length is enough fuel.
unfoldable pub split : String → String → String × List String
unfolding split_from
split separator s = split_from (chars s) separator s

abbrev joined_behind : String → List String → String
joined_behind separator [] = ""
joined_behind separator (s ∷ rest) = append separator (append s (joined_behind separator rest))

unfoldable pub join : String → List String → String
join separator [] = ""
join separator (s ∷ rest) = append s (joined_behind separator rest)

split_runs : split "--" "a--b-c----" ≡ ("a", "b-c" ∷ "" ∷ "" ∷ [])
unfolding split
split_runs = refl

strip_prefix_correct : (p s t : String) → strip_prefix p s ≡ some t → append p t ≡ s
unfolding strip_prefix
strip_prefix_correct String.[] s t h = append_clauses.nil t ∙ cc
strip_prefix_correct (String.◌∷◌ c p) String.[] t h = absurd (cc)
strip_prefix_correct (String.◌∷◌ c p) (String.◌∷◌ d s) t h =
    elim (Bool-cases (nat_beq (code c) (code d))) [
      | inl same ↦
          let equal = Char-path c d ((nat_beq_iff (code c) (code d)).0 same) in
          append_clauses.cons c p t
          ∙ ap (String.◌∷◌ c) (strip_prefix_correct p s t (rw same at h))
          ∙ ap (λ x. String.◌∷◌ x s) equal
      | inr other ↦ absurd (cc (rw other at h))
    ]

in_front-some :
    (c : Char) (o : Option (String × String)) (before behind : String)
    → in_front c o ≡ some (before, behind)
    → (rest : String) × (o ≡ some (rest, behind)) × (before ≡ String.◌∷◌ c rest)
in_front-some c none before behind h = absurd (cc)
in_front-some c (some (x, y)) before behind h = (x, cc, cc)

cut_at_correct :
    (separator s before behind : String)
    → cut_at separator s ≡ some (before, behind)
    → append before (append separator behind) ≡ s
unfolding cut_at
cut_at_correct separator String.[] before behind h = absurd (cc)
cut_at_correct separator (String.◌∷◌ c s) before behind h =
    elim (Option-cases (strip_prefix separator (String.◌∷◌ c s))) [
      | inl later ↦
          let (rest, there, same) =
            in_front-some c (cut_at separator s) before behind (rw (cut_at, later) at h) in
          rw same (
            append_clauses.cons c rest (append separator behind)
            ∙ ap (String.◌∷◌ c) (cut_at_correct separator s rest behind there))
      | inr (t, here) ↦
          let found = rw (cut_at, here) at h in
          let empty : "" ≡ before = cc (found) in
          let same : t ≡ behind = cc (found) in
          rw (sym empty, sym same)
            (append_clauses.nil (append separator t)
              ∙ strip_prefix_correct separator (String.◌∷◌ c s) t here)
    ]

join-split_from :
    (fuel : ℕ) (separator s : String)
    → append
        (split_from fuel separator s).0
        (joined_behind separator (split_from fuel separator s).1)
      ≡ s
unfolding split_from
join-split_from zero separator s = append-empty s
join-split_from (suc fuel) separator s = elim (Option-cases (cut_at separator s)) [
  | inl whole ↦ rw (split_from, whole) (append-empty s)
  | inr ((before, behind), cut) ↦
      rw (split_from, cut, join-split_from fuel separator behind)
        (cut_at_correct separator s before behind cut)
]

-- The parts of a split text, joined by the separator, are the text.
pub join-split :
    (separator s : String) → join separator ((split separator s).0 ∷ (split separator s).1) ≡ s
unfolding split join
join-split separator s = join-split_from (chars s) separator s

and_true : (a b : Bool) → (a && b) ≡ true → (a ≡ true) × (b ≡ true)
and_true a b h = ground arith

not-true : (b : Bool) → not b ≡ true → b ≡ false
not-true b h = ground arith

strip_prefix-other :
    (d c : Char) (p s : String)
    → nat_beq (code d) (code c) ≡ false
    → strip_prefix (String.◌∷◌ d p) (String.◌∷◌ c s) ≡ none
unfolding strip_prefix
strip_prefix-other d c p s other = rw other refl

cut_at-found :
    (d : Char) (p t : String) → cut_at (String.◌∷◌ d p) (append (String.◌∷◌ d p) t) ≡ some ("", t)
unfolding cut_at
cut_at-found d p t =
    let found = strip_prefix-append (String.◌∷◌ d p) t in
    rw (append_clauses.cons, cut_at) (rw (rw append_clauses.cons at found) refl)

-- The text before a separator, where the first character of the separator is not in that text.
pub cut_at-append :
    (d : Char) (p s t : String)
    → all (λ c. not (nat_beq (code d) c)) (codes s) ≡ true
    → cut_at (String.◌∷◌ d p) (append s (append (String.◌∷◌ d p) t)) ≡ some (s, t)
unfolding cut_at
cut_at-append d p String.[] t none_in = rw append_clauses.nil (cut_at-found d p t)
cut_at-append d p (String.◌∷◌ c s) t none_in =
    let (here, later) = and_true (not (nat_beq (code d) (code c))) _ none_in in
    rw
      (
        append_clauses.cons c s,
        cut_at,
        strip_prefix-other d c p _ (not-true _ here),
        cut_at-append d p s t later,
      )
      refl

no_cut : (separator before behind : String) → cut_at separator "" ≡ some (before, behind) → ⊥
unfolding cut_at
no_cut separator before behind h = cc

-- Where the text has a separator, the first part is what stands before it, and the others, joined,
-- are what stands behind it.
pub split-cut_at :
    (separator s before behind : String)
    → cut_at separator s ≡ some (before, behind)
    → ((split separator s).0 ≡ before) × (join separator (split separator s).1 ≡ behind)
unfolding split split_from join
split-cut_at separator String.[] before behind h = absurd (no_cut separator before behind h)
split-cut_at separator (String.◌∷◌ c s) before behind h =
    (rw (split_from, h) refl, rw (split_from, h) (join-split_from (chars s) separator behind))
