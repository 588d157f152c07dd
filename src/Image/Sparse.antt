-- ===== src/Image/Sparse.antt =====
-- The sparse writer against the plain one: the file is what the stream carried.
use hyperwake_core.Prelude.{
  ℕ, zero, suc, ◌+◌, ◌-◌, ◌≤◌, ◌<◌, ◌≡◌, refl, sym, ap, ◌∙◌, true, false, List, [], ◌∷◌, ◌++◌, leb,
  leb→le, nat_beq, nat_beq_iff, length, length-append, Bool-cases, inl, inr, arith,
}
use mathlib.Core.List.{append-nil, append_assoc}
use hyperwake_core.Image.{
  Bytes, zeroes, take, drop, extended, write_at, truncate, Writer, opened, is_empty, flush, drain,
  write, write_all, final, sparse_file,
}

-- The bytes of a stream.
abbrev pub concat : List Bytes → Bytes
concat [] = []
concat (chunk ∷ chunks) = chunk ++ concat chunks

length-zeroes : (n : ℕ) → length (zeroes n) ≡ n
unfolding zeroes
length-zeroes zero = refl
length-zeroes (suc n) = omega (arith, length-zeroes n)

zeroes-add : (m n : ℕ) → zeroes (m + n) ≡ zeroes m ++ zeroes n
unfolding zeroes
zeroes-add zero n = ap zeroes (omega arith)
zeroes-add (suc m) n =
    let step : suc m + n ≡ suc (m + n) = omega arith in
    ap zeroes step ∙ ap (λ x. 0 ∷ x) (zeroes-add m n)

-- A block of zeroes is the zeroes of its length.
is_empty-zeroes : (block : Bytes) → is_empty block ≡ true → block ≡ zeroes (length block)
unfolding zeroes
is_empty-zeroes [] h = refl
is_empty-zeroes (b ∷ block) h = elim (Bool-cases (nat_beq 0 b)) [
  | inl null ↦
      ap (λ x. x ∷ block) (sym ((nat_beq_iff 0 b).0 null))
      ∙ ap (λ x. 0 ∷ x) (is_empty-zeroes block (rw null at h))
  | inr other ↦ absurd (cc (rw other at h))
]

take-length : (xs ys : Bytes) → take (length xs) (xs ++ ys) ≡ xs
unfolding take
take-length [] [] = refl
take-length [] (y ∷ ys) = refl
take-length (x ∷ xs) ys = ap (λ t. x ∷ t) (take-length xs ys)

take-drop : (n : ℕ) (xs : Bytes) → take n xs ++ drop n xs ≡ xs
unfolding take drop
take-drop zero [] = refl
take-drop zero (x ∷ xs) = refl
take-drop (suc n) [] = refl
take-drop (suc n) (x ∷ xs) = ap (λ t. x ∷ t) (take-drop n xs)

drop-all : (n : ℕ) (xs : Bytes) → length xs ≤ n → drop n xs ≡ []
unfolding drop
drop-all zero [] h = refl
drop-all zero (x ∷ xs) h = absurd (omega arith)
drop-all (suc n) [] h = refl
drop-all (suc n) (x ∷ xs) h = drop-all n xs (omega arith)

length-take : (n : ℕ) (xs : Bytes) → n ≤ length xs → length (take n xs) ≡ n
unfolding take
length-take n [] h = omega arith
length-take zero (x ∷ xs) h = refl
length-take (suc n) (x ∷ xs) h = omega (arith, length-take n xs (omega arith))

take-all : (n : ℕ) (xs : Bytes) → length xs ≤ n → take n xs ≡ xs
unfolding take
take-all n [] h = refl
take-all zero (x ∷ xs) h = absurd (omega arith)
take-all (suc n) (x ∷ xs) h = ap (λ t. x ∷ t) (take-all n xs (omega arith))

length-extended : (n : ℕ) (file : Bytes) → length file ≤ n → length (extended n file) ≡ n
unfolding extended
length-extended n file h =
    omega (arith, length-append file (zeroes (n - length file)), length-zeroes (n - length file))

-- A write that begins at the end of the file or beyond it.
write_at-end :
    (position : ℕ) (block file : Bytes)
    → length file ≤ position
    → write_at position block file ≡ extended position file ++ block
unfolding write_at
write_at-end position block file h =
    rw
      (
        take-all position (extended position file) (omega (arith, length-extended position file h)),
        drop-all (position + length block) file (omega arith),
        append-nil block,
      )
      refl

extended_self : (file : Bytes) → extended (length file) file ≡ file
unfolding extended zeroes
extended_self file =
    let nothing : length file - length file ≡ 0 = omega arith in
    ap (λ n. file ++ zeroes n) nothing ∙ append-nil file

extended-add :
    (position n : ℕ) (file : Bytes)
    → length file ≤ position
    → extended (position + n) file ≡ extended position file ++ zeroes n
unfolding extended
extended-add position n file h =
    let split : (position + n) - length file ≡ (position - length file) + n = omega arith in
    ap (λ k. file ++ zeroes k) split
    ∙ ap (λ t. file ++ t) (zeroes-add (position - length file) n)
    ∙ sym (append_assoc file (zeroes (position - length file)) (zeroes n))

-- What the file reads as, up to the position.
abbrev content : Writer → Bytes
content w = extended w.position w.file

-- The file does not reach beyond the position, and it is the first bytes, all but the pending ones.
record Holds (bytes : Bytes) (w : Writer) : Type 0 where
  inside : length w.file ≤ w.position
  read : content w ++ w.pending ≡ bytes

flush-content :
    (block : Bytes) (w : Writer)
    → length w.file ≤ w.position
    → (length (flush block w).file ≤ (flush block w).position)
      × (content (flush block w) ≡ content w ++ block)
unfolding flush
flush-content block w h = elim (Bool-cases (is_empty block)) [
  | inl empty ↦ rw empty (
    omega arith,
    extended-add w.position (length block) w.file h
        ∙ ap (λ b. content w ++ b) (sym (is_empty-zeroes block empty)),
  )
  | inr full ↦
      let written = write_at-end w.position block w.file h in
      let size : length (content w ++ block) ≡ w.position + length block =
        omega (arith, length-append (content w) block, length-extended w.position w.file h) in
      rw (full, written)
        (
          omega (arith, size),
          ap (λ n. extended n (content w ++ block)) (sym size) ∙ extended_self (content w ++ block),
        )
]

module _ (block_size : ℕ) where
  drain-Holds :
      (fuel : ℕ) (bytes : Bytes) (w : Writer)
      → Holds bytes w
      → Holds bytes (drain block_size fuel w)
  unfolding drain
  drain-Holds zero bytes w h = h
  drain-Holds (suc fuel) bytes w h = elim (Bool-cases (leb block_size (length w.pending))) [
    | inr less ↦ rw (drain, less) h
    | inl enough ↦
        let block = take block_size w.pending in
        let (inside, read) = flush-content block w h.inside in
        rw (drain, enough)
          (drain-Holds fuel bytes (record (flush block w) { pending = drop block_size w.pending })
            (record {
              inside = inside;
              read =
                  ap (λ t. t ++ drop block_size w.pending) read
                  ∙ append_assoc (content w) block (drop block_size w.pending)
                  ∙ ap (λ t. content w ++ t) (take-drop block_size w.pending)
                  ∙ h.read;
            }))
  ]

  write-Holds :
      (chunk bytes : Bytes) (w : Writer)
      → Holds bytes w
      → Holds (bytes ++ chunk) (write block_size chunk w)
  unfolding write
  write-Holds chunk bytes w h =
      drain-Holds (length (w.pending ++ chunk)) (bytes ++ chunk)
        (record w { pending = w.pending ++ chunk })
        (record {
          inside = h.inside;
          read = sym (append_assoc (content w) w.pending chunk) ∙ ap (λ t. t ++ chunk) h.read;
        })

  write_all-Holds :
      (chunks : List Bytes) (bytes : Bytes) (w : Writer)
      → Holds bytes w
      → Holds (bytes ++ concat chunks) (write_all block_size chunks w)
  unfolding write_all
  write_all-Holds [] bytes w h = rw (append-nil bytes) h
  write_all-Holds (chunk ∷ chunks) bytes w h = rw (sym (append_assoc bytes chunk (concat chunks))) (
      write_all-Holds chunks (bytes ++ chunk) (write block_size chunk w)
        (write-Holds chunk bytes w h))

  truncate-content :
      (w : Writer) → length w.file ≤ w.position → truncate w.position w.file ≡ content w
  unfolding truncate
  truncate-content w h =
      take-all w.position (content w) (omega (arith, length-extended w.position w.file h))

  no_bytes : (xs : Bytes) → leb 1 (length xs) ≡ false → xs ≡ []
  no_bytes [] h = refl
  no_bytes (x ∷ xs) h = absurd (ground arith)

  final-content : (bytes : Bytes) (w : Writer) → Holds bytes w → final block_size w ≡ bytes
  unfolding final
  final-content bytes w h = elim (Bool-cases (leb 1 (length w.pending))) [
    | inl some_left ↦
        let (inside, read) = flush-content w.pending w h.inside in
        rw some_left (truncate-content (flush w.pending w) inside ∙ read ∙ h.read)
    | inr none_left ↦
        let nothing = no_bytes w.pending none_left in
        rw none_left (
          truncate-content w h.inside
          ∙ sym (append-nil (content w))
          ∙ ap (λ t. content w ++ t) (sym nothing)
          ∙ h.read)
  ]

  -- However the stream is cut into chunks, and whatever its blocks are, the file that is left reads as
  -- the bytes of the stream: the blocks that are left out read back as the zeroes that they were, and
  -- the file has its full length. (Each chunk's loop has as much fuel as there are bytes pending.)
  pub sparse_file-concat : (chunks : List Bytes) → sparse_file block_size chunks ≡ concat chunks
  unfolding sparse_file
  sparse_file-concat chunks =
      final-content (concat chunks) (write_all block_size chunks opened)
        (write_all-Holds chunks [] opened (record { inside = omega arith; read = refl }))

length-drop : (n : ℕ) (xs : Bytes) → n ≤ length xs → length (drop n xs) + n ≡ length xs
unfolding drop
length-drop zero xs h = omega arith
length-drop (suc n) [] h = absurd (omega arith)
length-drop (suc n) (x ∷ xs) h = omega (arith, length-drop n xs (omega arith))

drain-pending :
    (block_size fuel : ℕ) (w : Writer)
    → 1 ≤ block_size
    → length w.pending ≤ fuel
    → length (drain block_size fuel w).pending < block_size
unfolding drain
drain-pending block_size zero w some_size enough = omega arith
drain-pending block_size (suc fuel) w some_size enough =
    elim (Bool-cases (leb block_size (length w.pending))) [
      | inr less ↦ rw (drain, less) (ground arith)
      | inl more ↦
          let fits = leb→le block_size (length w.pending) more in
          rw (drain, more)
            (drain-pending block_size fuel
              (record (flush (take block_size w.pending) w) { pending = drop block_size w.pending })
              some_size (omega (arith, length-drop block_size w.pending fits)))
    ]

-- The loop of each write comes to an end with less than a block pending, whatever the chunk.
pub write-pending-lt :
    (block_size : ℕ) (chunk : Bytes) (w : Writer)
    → 1 ≤ block_size
    → length (write block_size chunk w).pending < block_size
unfolding write
write-pending-lt block_size chunk w some_size =
    drain-pending block_size (length (w.pending ++ chunk))
      (record w { pending = w.pending ++ chunk }) some_size (omega arith)
