-- ===== src/Malloc/Words/Sizes.antt =====
-- The sizes that malloc/lab/mm.c computes, and the words that it packs them into.
use csapp_labs.Base.{ℕ, ◌+◌, ◌-◌, ◌%◌, ◌≤◌, ◌<◌, ◌≡◌, Bool, true, false, arith}
use csapp_labs.Malloc.Words.{block_size, word_mod, pack, size_of, alloc_of}

-- A request that `size_t` arithmetic can round up gets a block size that is a multiple of 8, at
-- least 16, and has room for the payload beside header and footer, with less than 8 bytes to spare
-- above the minimum.
pub block_size_bounds :
    (size : ℕ)
    → size + 15 < word_mod
    → (block_size size % 8 ≡ 0)
      × (16 ≤ block_size size)
      × (size + 8 ≤ block_size size)
      × (block_size size ≤ size + 15 + (8 - size))
unfolding block_size
block_size_bounds size h = ground arith

-- A request within 15 bytes of 2 ^ 32 overflows the rounding, and asks for a block of at most 8
-- bytes.
block_size_overflow : (size : ℕ) → size < word_mod → word_mod ≤ size + 15 → block_size size ≤ 8
unfolding block_size
block_size_overflow size h k = ground arith

abbrev pub bit : Bool → ℕ
bit true = 1
bit false = 0

-- What is packed into a word is read back from it.
pub pack_fields :
    (size : ℕ) (alloc : Bool)
    → size % 8 ≡ 0
    → (size_of (pack size alloc) ≡ size) × (alloc_of (pack size alloc) ≡ bit alloc)
pack_fields size true h = omega arith
pack_fields size false h = omega arith
