-- ===== src/Malloc/Whole/Request.antt =====
-- `mm_malloc` of malloc/lab/mm.c on a whole heap.
use csapp_labs.Base.{
  ℕ, ◌+◌, ◌-◌, ◌/◌, ◌%◌, ◌^◌, ◌≤◌, ◌<◌, ◌≡◌, refl, sym, ap, ◌∙◌, Bool, true, false, List, [], ◌∷◌,
  ◌++◌, ◌==◌, arith, Bool-cases, inl, inr, some, if◌then◌else◌, ◌⊎◌, leb, ==-ne,
}
use mathlib.Core.Path.{subst, subst₂}
use csapp_labs.Base.Member.{has}
use csapp_labs.Malloc.Memlib.{Heap, bind-some}
use csapp_labs.Malloc.Mm.{place, find_fit, extend_heap, mm_malloc}
use csapp_labs.Malloc.Words.{block_size, word_mod, hdrp, size_of}
use csapp_labs.Malloc.Words.Sizes.{block_size_bounds, pack_fields}
use csapp_labs.Malloc.Chain.Find.{all_blocks, fits}
use csapp_labs.Malloc.Tiles.{Tile, Tiles, Tiles-split, Tiles-split_as}
use csapp_labs.Malloc.Whole.{Whole, first, last}
use csapp_labs.Malloc.Whole.Coalesce.{free_tile, merge}
use csapp_labs.Malloc.Whole.Payload.{
  payload_at, payload_at-append, payload_at-between, payload_at-Unlinked, Merged-outside,
}
use csapp_labs.Malloc.Whole.Extend.{extended, extended-other, extend_heap-full, extend_heap-Merged}
use csapp_labs.Malloc.Whole.Allocate.{Allocated, place-Allocated}
use csapp_labs.Malloc.Whole.Fit.{search_lists-hit, find_fit-search, free_at-split}

mm_malloc-fit :
    (h g : Heap) (size bp p : ℕ)
    → 0 < size
    → find_fit (block_size size) h ≡ some (bp, h)
    → (bp == 0) ≡ false
    → place bp (block_size size) h ≡ some (p, g)
    → mm_malloc size h ≡ some (p, g)
unfolding mm_malloc
mm_malloc-fit h g size bp p l f e r =
    let some_bytes : (size == 0) ≡ false = ground arith in
    rw some_bytes (bind-some (find_fit (block_size size)) _ h h bp f (rw e r))

mm_malloc-new :
    (h g1 g : Heap) (size bp p : ℕ)
    → 0 < size
    → find_fit (block_size size) h ≡ some (0, h)
    → extend_heap (block_size size / 4) h ≡ some (bp, g1)
    → (bp == 0) ≡ false
    → place bp (block_size size) g1 ≡ some (p, g)
    → mm_malloc size h ≡ some (p, g)
unfolding mm_malloc
mm_malloc-new h g1 g size bp p l f x e r =
    let some_bytes : (size == 0) ≡ false = ground arith in
    rw some_bytes (
      bind-some (find_fit (block_size size)) _ h h 0 f
        (bind-some (extend_heap (block_size size / 4)) _ h g1 bp x (rw e r)))

mm_malloc-full :
    (h : Heap) (size : ℕ)
    → 0 < size
    → find_fit (block_size size) h ≡ some (0, h)
    → extend_heap (block_size size / 4) h ≡ some (0, h)
    → mm_malloc size h ≡ some (0, h)
unfolding mm_malloc
mm_malloc-full h size l f x =
    let some_bytes : (size == 0) ≡ false = ground arith in
    rw some_bytes (
      bind-some (find_fit (block_size size)) _ h h 0 f
        (bind-some (extend_heap (block_size size / 4)) _ h h 0 x refl))

-- What is payload in the last block is payload when the block takes in a hole behind it.
payload-last :
    (ps : List ℕ) (x k s : ℕ) (pre : Tile)
    → payload_at ps x k (pre ∷ []) ≡ true
    → payload_at ps x k (merge pre s []) ≡ true
payload-last ps x k s pre i = elim (Bool-cases pre.used) [
  | inl e ↦
      let with_test : Bool → Bool = λ b.
        payload_at ps x k (if b then pre ∷ free_tile s ∷ [] else free_tile (s + pre.size) ∷ []) in
      ap with_test e ∙ ground arith
  | inr e ↦ absurd (ground arith)
]

module _ (h : Heap) (xss : List (List ℕ)) (t : Tile) (ts : List Tile) (size : ℕ)
    (w : Whole h xss (t ∷ ts)) (some_bytes : 0 < size) (no_overflow : size + 15 < word_mod) where
  bounds : (block_size size % 8 ≡ 0) × (16 ≤ block_size size) × (size + 8 ≤ block_size size)
  bounds = let (a, b, c, _) = block_size_bounds size no_overflow in (a, b, c)

  -- The search has come to a block.
  from_list :
      (bp : ℕ)
      → find_fit (block_size size) h ≡ some (bp, h)
      → has bp (all_blocks xss) ≡ true
      → fits h (block_size size) bp ≡ true
      → (g : Heap) × (p : ℕ) × (mm_malloc size h ≡ some (p, g)) × Allocated h (t ∷ ts) size p g
  from_list bp found listed fit =
      let (aligned, big, enough) = bounds in
      let (xs, s, ys, m, eq, low, at, free) =
        free_at-split h.word bp (first h) (last h) (t ∷ ts) w.tiles (sym (w.blocks bp) ∙ listed) in
      let w' = subst (λ l. Whole h xss l) eq w in
      let (_, (head, _, _, mult, _)) =
        Tiles-split_as h.word h.word (first h) m (last h) xs (s ∷ ys) low w'.tiles in
      let header : hdrp bp ≡ m = omega arith in
      let read : size_of (h.word (hdrp bp)) ≡ s.size =
        ap (λ a. size_of (h.word a)) header
        ∙ ap size_of head
        ∙ (pack_fields s.size s.used mult).0 in
      let large : block_size size ≤ s.size = ground arith in
      let (g, runs, done) =
        place-Allocated h xss xs s ys m (block_size size) size free low w' big aligned large
          enough in
      (
        g,
        m + 4,
        mm_malloc-fit h g size bp (m + 4) some_bytes found (==-ne bp 0 (omega arith))
            (subst (λ a. place a (block_size size) h ≡ some (m + 4, g)) (sym at) runs),
        subst (λ l. Allocated h l size (m + 4) g) (sym eq) done,
      )

  -- The heap is extended.
  from_storage :
      h.mem_brk + block_size size ≤ h.mem_start_brk + 2 ^ 24
      → leb (h.mem_brk + block_size size) h.mem_max_addr ≡ true
      → find_fit (block_size size) h ≡ some (0, h)
      → (g : Heap) × (p : ℕ) × (mm_malloc size h ≡ some (p, g)) × Allocated h (t ∷ ts) size p g
  from_storage small space found =
      let (aligned, big, enough) = bounds in
      let (g1, yss, zs, i, j, ws, runs, merged, room, us, pre, eq, tiles) =
        extend_heap-Merged h xss t ts (block_size size) w big aligned small space in
      let (g, placed, done) =
        place-Allocated g1 yss zs (free_tile (j - i)) ws i (block_size size) size refl merged.front
          merged.whole big aligned room enough in
      let start : first g1 ≡ first h = ap (λ a. a + 4) merged.bounds.start in
      let (end, low, _) =
        Tiles-split h.word (first h) (last h) us (pre ∷ [])
          (subst (λ l. Tiles h.word (first h) l (last h)) eq w.tiles) in
      (
        g,
        i + 4,
        mm_malloc-new h g1 g size (i + 12) (i + 4) some_bytes found runs
            (==-ne (i + 12) 0 (omega arith)) placed,
        record {
          free = done.free;
          blocks = done.blocks;
          whole = done.whole;
          aligned = done.aligned;
          new = done.new;
          kept = λ x k.
              let old : payload_at h.heap x (first h) (us ++ (pre ∷ [])) ≡ true =
                subst (λ l. payload_at h.heap x (first h) l ≡ true) eq k in
              let later : payload_at h.heap x (first h) (us ++ merge pre (block_size size) [])
                  ≡ true =
                ground (
                  arith,
                  payload_at-append h.heap x h.word (first h) end us (pre ∷ []) low,
                  payload_at-append h.heap x h.word (first h) end us
                      (merge pre (block_size size) []) low,
                  payload-last h.heap x end (block_size size) pre,
                ) in
              let here = subst (λ l. payload_at h.heap x (first h) l ≡ true) (sym tiles) later in
              let there =
                subst₂ (λ l a. payload_at l x a (zs ++ (free_tile (j - i) ∷ ws)) ≡ true)
                  (sym merged.bounds.lists) (sym start) here in
              let (a, b, c) = done.kept x there in
              let below =
                payload_at-between h.heap x h.word (first h) (last h) (t ∷ ts) w.tiles k in
              let outside =
                Merged-outside (extended h (block_size size)) xss g1 yss zs ws i j x merged here in
              (
                a
                    ∙ merged.spares x (payload_at-Unlinked h xss (t ∷ ts) x w k) outside
                    ∙ extended-other h xss (t ∷ ts) (block_size size) w big aligned small x
                        (omega arith),
                b,
                c,
              );
        },
      )

  -- In a whole heap with a block, a request for a byte or more, whose size can be rounded up and
  -- whose block still fits into 2 ^ 24 bytes of heap, returns. Either the heap is whole, with that
  -- many bytes of payload at the result, which is a multiple of 8; the payload from before has not
  -- changed, is still payload, and lies outside of them. Or a block of that size behind the heap
  -- would go beyond the storage, the result is NULL, and nothing has changed.
  pub mm_malloc_lem :
      h.mem_brk + block_size size ≤ h.mem_start_brk + 2 ^ 24
      → (p : ℕ) × (g : Heap) × (mm_malloc size h ≡ some (p, g))
        × (Allocated h (t ∷ ts) size p g
            ⊎ ((p ≡ 0) × (g ≡ h) × (h.mem_max_addr < h.mem_brk + block_size size)))
  mm_malloc_lem small =
      let found = find_fit-search h (block_size size) xss w.lists in
      elim (search_lists-hit h (block_size size) 0 xss) [
        | inr (listed, fit) ↦ let (g, p, r, a) = from_list _ found listed fit in (p, g, r, inl a)
        | inl e ↦
            let found' = found ∙ ap (λ r. some (r, h)) e in
            elim (Bool-cases (leb (h.mem_brk + block_size size) h.mem_max_addr)) [
              | inl s ↦ let (g, p, r, a) = from_storage small s found' in (p, g, r, inl a)
              | inr s ↦ (
                0,
                h,
                mm_malloc-full h size some_bytes found' (
                    extend_heap-full h (block_size size) bounds.0
                      (omega (arith, w.framed.brk_above)) s),
                inr (refl, refl, ground arith),
              )
            ]
      ]
