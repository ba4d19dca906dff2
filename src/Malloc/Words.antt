-- ===== src/Malloc/Words.antt =====
-- The macros and the size classes of malloc/lab/mm.c.
pub mod Sizes
pub mod Classes
use Prim.Native.Nat.{bit_or}
use csapp_labs.Base.{
  ℕ, zero, suc, ◌+◌, ◌-◌, ◌*◌, ◌/◌, ◌%◌, ◌^◌, ◌≡◌, Bool, true, false, Option, none, some, leb, ◌==◌,
  if◌then◌else◌,
}

abbrev pub wsize : ℕ
wsize = 4

abbrev pub dsize : ℕ
dsize = 8

-- N, the number of free lists
abbrev pub n_lists : ℕ
n_lists = 25

-- A `size_t` or a pointer is a word of 32 bits.
abbrev pub word_mod : ℕ
word_mod = 2 ^ 32

-- `((size) + (ALIGNMENT-1)) & ~0x7`
abbrev pub align : ℕ → ℕ
align size = (size + 7) % word_mod / 8 * 8

-- `(size) | (alloc)`, for the bit `alloc`
abbrev pub pack : ℕ → Bool → ℕ
pack size false = size
pack size true = size / 2 * 2 + 1

-- `GET(p) & ~0x7` and `GET(p) & 0x1`, of the word that is read
abbrev pub size_of : ℕ → ℕ
size_of w = w / 8 * 8

abbrev pub alloc_of : ℕ → ℕ
alloc_of w = w % 2

-- A block is known by a pointer 12 bytes behind its header.
abbrev pub hdrp : ℕ → ℕ
hdrp bp = bp - 12

abbrev pub pred : ℕ → ℕ
pred bp = bp - 8

abbrev pub succ : ℕ → ℕ
succ bp = bp - 4

-- The footer, of a block of the given size.
abbrev pub ftrp : ℕ → ℕ → ℕ
ftrp bp size = bp + size - 16

abbrev pub max_size : ℕ → ℕ
max_size i = 2 ^ i

-- `n |= n >> k`
abbrev pub smear : ℕ → ℕ → ℕ
smear k n = bit_or n (n / 2 ^ k)

-- `while (!(n >> u & 1)) u++`, with fuel
unfoldable pub lowest_bit : ℕ → ℕ → ℕ → Option ℕ
lowest_bit zero n u = none
lowest_bit (suc k) n u =
    let rest = lowest_bit k n (u + 1) in if n / 2 ^ u % 2 == 1 then some u else rest

-- `U(size)`: the free list for a size. `none` is the failed assertion, or a loop that does not end
-- because `n` has become 0.
unfoldable pub size_class : ℕ → Option ℕ
unfolding lowest_bit
size_class zero = none
size_class (suc n) =
    lowest_bit 32 ((smear 16 (smear 8 (smear 4 (smear 2 (smear 1 n)))) + 1) % word_mod) 0

-- The size of the block that `mm_malloc(size)` asks for.
unfoldable pub block_size : ℕ → ℕ
block_size size =
    if leb size dsize
    then 2 * dsize
    else dsize * ((size + dsize + (dsize - 1)) % word_mod / dsize) % word_mod
