-- ===== src/Image.antt =====
-- The sparse writer of src/image.js: a stream is written to a file block by block, and blocks of
-- zeroes are left out, as holes.
--
-- A file is the bytes that it reads as: a hole reads as zeroes. A write beyond the end leaves a hole
-- before it.
pub mod Sparse
pub mod Download
pub mod Fetched
pub mod Installed
use hyperwake_core.Prelude.{
  ℕ, zero, suc, ◌+◌, ◌-◌, Bool, true, false, List, [], ◌∷◌, ◌++◌, leb, nat_beq, length, all,
  if◌then◌else◌,
}

abbrev pub Bytes : Type 0
Bytes = List ℕ

-- Buffer.alloc(n)
unfoldable pub zeroes : ℕ → Bytes
zeroes zero = []
zeroes (suc n) = 0 ∷ zeroes n

-- xs.subarray(0, n)
unfoldable pub take : ℕ → Bytes → Bytes
take n [] = []
take zero (x ∷ xs) = []
take (suc n) (x ∷ xs) = x ∷ take n xs

-- xs.subarray(n)
unfoldable pub drop : ℕ → Bytes → Bytes
drop zero xs = xs
drop (suc n) [] = []
drop (suc n) (x ∷ xs) = drop n xs

-- The file with at least n bytes.
unfoldable pub extended : ℕ → Bytes → Bytes
unfolding zeroes
extended n file = file ++ zeroes (n - length file)

-- writeSync(fd, block, 0, block.length, position)
unfoldable pub write_at : ℕ → Bytes → Bytes → Bytes
unfolding take drop extended
write_at position block file =
    take position (extended position file) ++ (block ++ drop (position + length block) file)

-- ftruncateSync(fd, n), truncateSync(path, n)
unfoldable pub truncate : ℕ → Bytes → Bytes
unfolding take extended
truncate n file = take n (extended n file)

pub record Writer : Type 0 where
  pub file : Bytes
  pub pending : Bytes
  pub position : ℕ

-- openSync(path, 'w')
abbrev pub opened : Writer
opened = record { file = []; pending = []; position = 0 }

-- block.equals(zeroes)
abbrev pub is_empty : Bytes → Bool
is_empty block = all (nat_beq 0) block

-- flush(block)
unfoldable pub flush : Bytes → Writer → Writer
unfolding write_at
flush block w = record w {
  file = if is_empty block then w.file else write_at w.position block w.file;
  position = w.position + length block;
}

module _ (block_size : ℕ) where
  -- The while loop: each round takes a block off, so the number of pending bytes is enough fuel.
  unfoldable pub drain : ℕ → Writer → Writer
  unfolding flush take drop
  drain zero w = w
  drain (suc fuel) w =
      let rest =
        drain fuel
          (record (flush (take block_size w.pending) w) { pending = drop block_size w.pending }) in
      if leb block_size (length w.pending) then rest else w

  -- write(chunk)
  unfoldable pub write : Bytes → Writer → Writer
  unfolding drain
  write chunk w =
      let joined = w.pending ++ chunk in drain (length joined) (record w { pending = joined })

  unfoldable pub write_all : List Bytes → Writer → Writer
  unfolding write
  write_all [] w = w
  write_all (chunk ∷ chunks) w = write_all chunks (write chunk w)

  -- final()
  unfoldable pub final : Writer → Bytes
  unfolding flush truncate
  final w =
      let last = if leb 1 (length w.pending) then flush w.pending w else w in
      truncate last.position last.file

  -- The file that createSparseWriter leaves of a stream.
  unfoldable pub sparse_file : List Bytes → Bytes
  unfolding write_all final
  sparse_file chunks = final (write_all chunks opened)
