-- ===== src/Malloc/Mm/Boundary.antt =====
-- The boundary tags of malloc/lab/mm.c: what a block's header and footer say to its neighbours.
use csapp_labs.Base.{ℕ, ◌+◌, ◌-◌, ◌%◌, ◌≤◌, ◌≡◌, ◌≢◌, ap, ◌∙◌, Bool, true, some, arith}
use csapp_labs.Malloc.Memlib.{Heap, in_heap, stored, store-in_heap, store-then, bind-some}
use csapp_labs.Malloc.Words.{hdrp, pack, size_of, alloc_of}
use csapp_labs.Malloc.Words.Sizes.{pack_fields, bit}
use csapp_labs.Malloc.Mm.{mark, get_size, get_size-in_heap}

-- The heap after `mark`.
abbrev pub marked : Heap → ℕ → ℕ → Bool → Heap
marked h bp size alloc = let v = pack size alloc in stored (stored h (hdrp bp) v) (bp + size - 16) v

pub mark-marked :
    (h : Heap) (bp size : ℕ) (alloc : Bool)
    → size % 8 ≡ 0
    → in_heap h (hdrp bp) ≡ true
    → in_heap h (bp + size - 16) ≡ true
    → mark bp size alloc h ≡ some (tt, marked h bp size alloc)
unfolding mark
mark-marked h bp size alloc m i j =
    let v = pack size alloc in
    let h1 = stored h (hdrp bp) v in
    let same : size_of (h1.word (hdrp bp)) ≡ size = ground (arith, pack_fields size alloc m) in
    store-then h (hdrp bp) v _ i (
      bind-some (get_size (hdrp bp)) _ h1 h1 size
        (get_size-in_heap h1 (hdrp bp) i ∙ ap (λ n. some (n, h1)) same)
        (store-in_heap h1 (bp + size - 16) v j))

-- Marking a block whose header and footer lie inside the heap writes these two words and no other.
-- From its header its size and bit are read back, and so they are from the footer, 16 bytes before
-- the pointer of the next block: stepping to the next block and back returns to the block.
mark_lem :
    (h : Heap) (bp size : ℕ) (alloc : Bool)
    → size % 8 ≡ 0
    → 16 ≤ size
    → in_heap h (hdrp bp) ≡ true
    → in_heap h (bp + size - 16) ≡ true
    → (g : Heap) × (mark bp size alloc h ≡ some (tt, g))
      × (size_of (g.word (hdrp bp)) ≡ size)
      × (alloc_of (g.word (hdrp bp)) ≡ bit alloc)
      × (alloc_of (g.word (bp + size - 16)) ≡ bit alloc)
      × (bp + size - size_of (g.word (bp + size - 16)) ≡ bp)
      × ((a : ℕ) → a ≢ hdrp bp → a ≢ bp + size - 16 → g.word a ≡ h.word a)
mark_lem h bp size alloc m big i j = (
  marked h bp size alloc,
  mark-marked h bp size alloc m i j,
  ground (arith, pack_fields size alloc m),
  ground (arith, pack_fields size alloc m),
  ground (arith, pack_fields size alloc m),
  ground (arith, pack_fields size alloc m),
  λ a x y. ground arith,
)
