-- ===== src/Malloc/Driver/Bytes.antt =====
-- The bytes of the simulated memory, with which malloc/lab/mdriver.c marks the payloads.
pub mod Marks
use csapp_labs.Base.{
  ℕ, zero, suc, ◌+◌, ◌*◌, ◌/◌, ◌%◌, ◌^◌, ◌≡◌, Bool, true, false, ◌&&◌, none, some, ltb, leb, ◌==◌,
  if◌then◌else◌,
}
use csapp_labs.Malloc.Memlib.{Heap, M, pure, ◌>>=◌, ◌>>◌, update}

-- The byte `k` of a word, the lowest one first, and the word with another one.
abbrev pub byte_of : ℕ → ℕ → ℕ
byte_of w k = w / 256 ^ k % 256

abbrev pub set_byte : ℕ → ℕ → ℕ → ℕ
set_byte w k v = w / 256 ^ (k + 1) * 256 ^ (k + 1) + v * 256 ^ k + w % 256 ^ k

abbrev pub has_byte : Heap → ℕ → Bool
has_byte h a = leb h.mem_start_brk a && ltb a h.mem_brk

-- The byte at the address `a`, and the heap with another one.
abbrev pub byte_at : Heap → ℕ → ℕ
byte_at h a = byte_of (h.word (a / 4 * 4)) (a % 4)

abbrev pub with_byte : Heap → ℕ → ℕ → Heap
with_byte h a v = record h {
  word = update h.word (a / 4 * 4) (set_byte (h.word (a / 4 * 4)) (a % 4) v);
}

unfoldable pub load_byte : ℕ → M ℕ
load_byte a h = if has_byte h a then some (byte_at h a, h) else none

unfoldable pub store_byte : ℕ → ℕ → M (Unit {0})
store_byte a v h = if has_byte h a then some (tt, with_byte h a v) else none

-- `memset(p, v, n)`
unfoldable pub memset : ℕ → ℕ → ℕ → M (Unit {0})
memset p v zero = pure tt
memset p v (suc n) = do store_byte p v; memset (p + 1) v n

-- `newp[j] != (index & 0xFF)`: the left side is a `char`, with a sign.
abbrev pub same_char : ℕ → ℕ → Bool
same_char b index = ltb b 128 && (b == index % 256)

-- The loop over the first `n` bytes of a block that has moved: false when one of them has changed.
unfoldable pub same_bytes : ℕ → ℕ → ℕ → M Bool
unfolding load_byte
same_bytes p index zero = pure true
same_bytes p index (suc n) = do
  b ← load_byte p
  if same_char b index then same_bytes (p + 1) index n else pure false
