-- ===== src/Malloc/Tests.antt =====
-- The allocator run at concrete sizes.
use csapp_labs.Base.{ℕ, ◌+◌, ◌%◌, ◌^◌, ◌≤◌, ◌≡◌, refl, true, Option, none, some, [], ◌∷◌, arith}
use csapp_labs.Malloc.Memlib.{Heap, M, pure, ◌>>=◌, ◌>>◌, mem_init, load, store, update}
use csapp_labs.Malloc.Words.{size_class, block_size}
use csapp_labs.Malloc.Words.Sizes.{block_size_bounds}
use csapp_labs.Malloc.Mm.{mm_init, mm_malloc, mm_free, find_fit}
use csapp_labs.Malloc.Ranges.{add_range, payload, add_range-accepts}
use csapp_labs.Malloc.Chain.Find.{FreeLists}
use csapp_labs.Malloc.Chain.First.{First, find_fit-First}

abbrev result : {A : Type 0} → Option (A × Heap) → Option A
result none = none
result (some (a, h)) = some a

-- The heap starts at 4096.
abbrev run : {A : Type 0} → M A → Option A
run m = unfold mem_init mm_init in result ((mm_init >> m) (mem_init 4096 (λ a. 0)))

-- Two blocks behind the 25 list heads; the first one is freed and used again, in part.
reuse :
    run (do
      a ← mm_malloc 100
      b ← mm_malloc 10
      mm_free a
      c ← mm_malloc 10
      d ← mm_malloc 10
      pure (a ∷ b ∷ c ∷ d ∷ []))
    ≡ some (4520 ∷ 4632 ∷ 4520 ∷ 4544 ∷ [])
unfolding mm_init mem_init mm_malloc mm_free load store
reuse = refl

-- A freed block joins its free neighbours, so that a larger one fits.
coalesces :
    run (do
      a ← mm_malloc 24
      b ← mm_malloc 24
      c ← mm_malloc 24
      d ← mm_malloc 24
      mm_free a
      mm_free c
      mm_free b
      e ← mm_malloc 80
      pure (a ∷ e ∷ d ∷ []))
    ≡ some (4520 ∷ 4520 ∷ 4616 ∷ [])
unfolding mm_init mem_init mm_malloc mm_free load store
coalesces = refl

-- A heap of five lists, the last one with the blocks 72 and 96, of 16 bytes each; the block 120, of
-- 16 bytes too, is in no list.
abbrev words : ℕ → ℕ
words =
    update
      (update (update (update (update (update (update (λ a. 0) 44 72) 64 48) 68 96) 88 72) 60 16) 84
        16)
      108 16

abbrev small : Heap
small = record {
  mem_start_brk = 0;
  mem_brk = 128;
  mem_max_addr = 256;
  word = words;
  heap_start = 0;
  heap = 16 ∷ 24 ∷ 32 ∷ 40 ∷ 48 ∷ [];
}

small-FreeLists : FreeLists small small.heap ([] ∷ [] ∷ [] ∷ [] ∷ (72 ∷ 96 ∷ []) ∷ [])
small-FreeLists = ground arith

find_fit-First_example :
    (r : ℕ) × (find_fit 16 small ≡ some (r, small)) × First small 16 (72 ∷ 96 ∷ []) r
find_fit-First_example =
    find_fit-First small 16 ([] ∷ [] ∷ [] ∷ [] ∷ (72 ∷ 96 ∷ []) ∷ []) small-FreeLists refl

block_size_bounds_example :
    (block_size 100 % 8 ≡ 0)
    × (16 ≤ block_size 100)
    × (108 ≤ block_size 100)
    × (block_size 100 ≤ 115)
block_size_bounds_example = block_size_bounds 100 (omega arith)

-- A free block above 2 ^ 24 bytes has no list: `heap` has the indices 0 to 24.
class_25 : size_class (2 ^ 24 + 8) ≡ some 25
unfolding size_class
class_25 = refl

-- The payload from 4096 to 4159 is taken beside the one from 4104 to 4111, which it contains.
abbrev one_kib : Heap
one_kib = record {
  mem_start_brk = 4096;
  mem_brk = 5120;
  mem_max_addr = 8192;
  word = λ a. 0;
  heap_start = 0;
  heap = [];
}

add_range-accepts_example :
    add_range one_kib (payload 4104 8 ∷ []) 4096 64
    ≡ some (true, payload 4096 64 ∷ payload 4104 8 ∷ [])
add_range-accepts_example =
    add_range-accepts one_kib (payload 4104 8 ∷ []) 4096 64 (omega arith) (omega arith)
      (omega arith) refl
