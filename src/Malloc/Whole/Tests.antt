-- ===== src/Malloc/Whole/Tests.antt =====
-- The theorems on whole heaps at concrete heaps of malloc/lab/mm.c.
use csapp_labs.Base.{
  ℕ, zero, suc, ◌+◌, ◌-◌, ◌*◌, ◌≤◌, ◌<◌, ◌≡◌, refl, sym, ap, ◌∙◌, Bool, true, false, List, [], ◌∷◌,
  ◌++◌, arith, some, none, Option, ◌⊎◌, inl, inr, Bool-cases,
}
use mathlib.Core.Path.{subst}
use csapp_labs.Base.Member.{has}
use csapp_labs.Malloc.Memlib.{Heap, mem_init}
use csapp_labs.Malloc.Mm.{mm_init, mm_malloc, mm_free}
use csapp_labs.Malloc.Words.{size_class, max_size, block_size}
use csapp_labs.Malloc.Words.Classes.{size_class_lem}
use csapp_labs.Malloc.Tiles.{Tiles, Tiles-split, tile_at-between}
use csapp_labs.Malloc.Words.{pack}
use csapp_labs.Malloc.Whole.{Whole, Holed, first, last}
use csapp_labs.Malloc.Whole.Closing.{closed, Holed-closed, closed-header, closed-footer}
use csapp_labs.Malloc.Whole.Blocks.{close_used}
use csapp_labs.Malloc.Whole.Coalesce.{merge}
use csapp_labs.Malloc.Whole.Payload.{payload_at}
use csapp_labs.Malloc.Whole.Split.{used_tile}
use csapp_labs.Malloc.Whole.Extend.{Holed-extended, extended}
use csapp_labs.Malloc.Whole.Pairs.{free_pairs}
use csapp_labs.Malloc.Whole.Free.{mm_free_lem}
use csapp_labs.Malloc.Whole.Allocate.{Allocated}
use csapp_labs.Malloc.Whole.Request.{mm_malloc_lem}
use csapp_labs.Malloc.Whole.Init.{mm_init_lem, used-tile}
use csapp_labs.Malloc.Whole.Begin.{empty_lists, heads}

size_class_lem_example :
    (u : ℕ) × (size_class 100 ≡ some u) × (100 ≤ max_size u) × (max_size u < 2 * 100) × (u ≤ 31)
size_class_lem_example = size_class_lem 100 (omega arith) (omega arith)

abbrev zeros : ℕ → ℕ
zeros a = 0

mm_init_lem_example :
    (g : Heap) × (mm_init (mem_init 4096 zeros) ≡ some (true, g))
    × Whole g (empty_lists g.heap) (heads 26)
    × (g.mem_brk ≡ 4096 + 424)
    × (g.mem_start_brk ≡ 4096)
mm_init_lem_example = mm_init_lem 4096 zeros refl

-- The heap that `mm_init` leaves.
abbrev heap_of : Option (Bool × Heap) → Heap
heap_of none = mem_init 4096 zeros
heap_of (some (b, h)) = h

abbrev init_heap : Heap
init_heap = heap_of (mm_init (mem_init 4096 zeros))

record Ready (h : Heap) : Type 0 where
  pub whole : Whole h (empty_lists h.heap) (heads 26)
  pub brk : h.mem_brk ≡ 4520
  pub start : h.mem_start_brk ≡ 4096

init_heap-Ready : Ready init_heap
init_heap-Ready =
    let (g, r, w, b, s) = mm_init_lem 4096 zeros refl in
    subst Ready (sym (ap heap_of r)) (record { whole = w; brk = b; start = s })

block_size-100 : block_size 100 ≡ 112
unfolding block_size
block_size-100 = refl

mm_malloc_lem_example :
    (p : ℕ) × (g : Heap) × (mm_malloc 100 init_heap ≡ some (p, g))
    × (Allocated init_heap (heads 26) 100 p g
        ⊎ ((p ≡ 0)
            × (g ≡ init_heap)
            × (init_heap.mem_max_addr < init_heap.mem_brk + block_size 100)))
mm_malloc_lem_example =
    mm_malloc_lem init_heap (empty_lists init_heap.heap) (used_tile 16) (heads 25) 100
      init_heap-Ready.whole (omega arith) (omega arith)
      (omega (arith, block_size-100, init_heap-Ready.brk, init_heap-Ready.start))

heads-end : (w : ℕ → ℕ) (a e n : ℕ) → Tiles w a (heads n) e → e ≡ a + 16 * n
heads-end w a e zero k = omega arith
heads-end w a e (suc n) (h, f, b, c, k) = omega (arith, heads-end w (a + 16) e n k)

-- One block of 16 bytes more behind the heads.
module _ (h : Heap) (r : Ready h) where
  opened : Holed (extended h 16) (empty_lists h.heap) (heads 26) (last h) (last (extended h 16)) []
  opened =
      Holed-extended h (empty_lists h.heap) (heads 26) 16 r.whole (omega arith) refl
        (omega (arith, r.brk, r.start))

  abbrev one_more : Heap
  one_more = closed opened true

  one_more-Whole :
      Whole one_more (empty_lists h.heap) (heads 25 ++ (used_tile 16 ∷ used_tile 16 ∷ []))
  one_more-Whole =
      let size : last (extended h 16) - last h ≡ 16 = omega (arith, r.brk) in
      close_used (Holed-closed opened true) (used_tile 16)
        (record {
          size = omega (arith, r.brk);
          header = closed-header opened true ∙ ap (λ s. pack s true) size;
          footer = closed-footer opened true ∙ ap (λ s. pack s true) size;
        })
        refl

  low_tiles : Tiles one_more.word (first one_more) (heads 25) 4500
  low_tiles =
      let w = one_more.word in
      let (k, low, _) =
        Tiles-split w (first one_more) (last one_more) (heads 25) (used_tile 16 ∷ used_tile 16 ∷ [])
          one_more-Whole.tiles in
      let end = heads-end w (first one_more) k 25 low in
      subst (λ e. Tiles w (first one_more) (heads 25) e) (omega (arith, end, r.start)) low

  plain : has (4500 + 16 + 12) h.heap ≡ false
  plain = elim (Bool-cases (has (4500 + 16 + 12) h.heap)) [
    | inl e ↦
        let u = used-tile 4528 (first h) (heads 26) (r.whole.heads 4528 e) in
        absurd (
          omega (
            arith,
            tile_at-between h.word 4528 (first h) (last h) (heads 26) r.whole.tiles u,
            r.brk,
          ))
    | inr e ↦ e
  ]

mm_free_lem_example :
    (let h = one_more init_heap init_heap-Ready in
      (g : Heap) × (yss : List (List ℕ)) × (mm_free (4500 + 16 + 4) h ≡ some (tt, g))
      × Whole g yss (heads 25 ++ merge (used_tile 16) 16 [])
      × (free_pairs false (heads 25 ++ merge (used_tile 16) 16 [])
          ≡ free_pairs false (heads 25 ++ (used_tile 16 ∷ used_tile 16 ∷ [])))
      × ((x : ℕ)
          → payload_at h.heap x (first h) (heads 25 ++ merge (used_tile 16) 16 []) ≡ true
          → g.word x ≡ h.word x))
mm_free_lem_example =
    mm_free_lem (one_more init_heap init_heap-Ready) (empty_lists init_heap.heap) (heads 25)
      (used_tile 16) (used_tile 16) [] 4500 refl (low_tiles init_heap init_heap-Ready)
      (one_more-Whole init_heap init_heap-Ready) (plain init_heap init_heap-Ready)
