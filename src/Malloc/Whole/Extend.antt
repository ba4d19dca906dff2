-- ===== src/Malloc/Whole/Extend.antt =====
-- `extend_heap` of malloc/lab/mm.c on a whole heap.
use csapp_labs.Base.{
  ℕ, ◌+◌, ◌-◌, ◌*◌, ◌/◌, ◌%◌, ◌^◌, ◌≤◌, ◌<◌, ◌≡◌, refl, sym, ap, ◌∙◌, true, false, List, [], ◌∷◌,
  ◌++◌, ◌==◌, arith, some, none, if◌then◌else◌, leb,
}
use mathlib.Core.Path.{subst}
use csapp_labs.Malloc.Memlib.{Heap, in_heap, bind-some, as_int, mem_sbrk, stored, store-then}
use csapp_labs.Malloc.Mm.{get_size, get_size-in_heap, mark, coalesce, extend_heap}
use csapp_labs.Malloc.Mm.Boundary.{marked, mark-marked}
use csapp_labs.Malloc.Words.{size_of, hdrp}
use csapp_labs.Malloc.Words.Sizes.{pack_fields}
use csapp_labs.Malloc.Chain.All.{FreeLists-frame}
use csapp_labs.Malloc.Tiles.{Tile, Tiles, Tiles-frame, Tiles-aligned, tile_at, tile_at-between}
use csapp_labs.Malloc.Whole.{Holed, Whole, first, last, nodes-split}
use csapp_labs.Malloc.Whole.Coalesce.{free_tile, merge}
use csapp_labs.Malloc.Whole.Tags.{reshaped}
use csapp_labs.Malloc.Whole.Merging.{Merged, coalesce-Merged}
use csapp_labs.Malloc.Whole.Wider.{wider, FreeLists-wider, mem_sbrk-fits, mem_sbrk-full}

-- The size that `extend_heap` asks for.
abbrev asked : ℕ → ℕ
asked words = if words % 2 == 0 then words * 4 else (words + 1) * 4

extend_heap-fails :
    (h : Heap) (words : ℕ)
    → mem_sbrk (as_int (asked words)) h ≡ some (none, h)
    → extend_heap words h ≡ some (0, h)
unfolding extend_heap
extend_heap-fails h words s = bind-some (mem_sbrk (as_int (asked words))) _ h h none s refl

extend_heap-runs :
    (h g1 g2 g : Heap) (words q : ℕ)
    → (let size = asked words in
        mem_sbrk (as_int size) h ≡ some (some h.mem_brk, g1)
        → mark (h.mem_brk + 8) size false g1 ≡ some (tt, g2)
        → get_size (hdrp (h.mem_brk + 8)) g2 ≡ some (size, g2)
        → in_heap g2 (hdrp (h.mem_brk + 8 + size)) ≡ true
        → coalesce (h.mem_brk + 8) (stored g2 (hdrp (h.mem_brk + 8 + size)) 1) ≡ some (q, g)
        → extend_heap words h ≡ some (q, g))
unfolding extend_heap
extend_heap-runs h g1 g2 g words q s a b i c =
    bind-some (mem_sbrk (as_int (asked words))) _ h g1 (some h.mem_brk) s (
      bind-some (mark (h.mem_brk + 8) (asked words) false) _ g1 g2 tt a (
        bind-some (get_size (hdrp (h.mem_brk + 8))) _ g2 g2 (asked words) b
          (store-then g2 (hdrp (h.mem_brk + 8 + asked words)) 1 _ i c)))

extend_heap-asked :
    (h g1 g2 g : Heap) (words size q : ℕ)
    → asked words ≡ size
    → mem_sbrk (as_int size) h ≡ some (some h.mem_brk, g1)
    → mark (h.mem_brk + 8) size false g1 ≡ some (tt, g2)
    → get_size (hdrp (h.mem_brk + 8)) g2 ≡ some (size, g2)
    → in_heap g2 (hdrp (h.mem_brk + 8 + size)) ≡ true
    → coalesce (h.mem_brk + 8) (stored g2 (hdrp (h.mem_brk + 8 + size)) 1) ≡ some (q, g)
    → extend_heap words h ≡ some (q, g)
extend_heap-asked h g1 g2 g words size q e =
    subst
      (λ s.
        mem_sbrk (as_int s) h ≡ some (some h.mem_brk, g1)
        → mark (h.mem_brk + 8) s false g1 ≡ some (tt, g2)
        → get_size (hdrp (h.mem_brk + 8)) g2 ≡ some (s, g2)
        → in_heap g2 (hdrp (h.mem_brk + 8 + s)) ≡ true
        → coalesce (h.mem_brk + 8) (stored g2 (hdrp (h.mem_brk + 8 + s)) 1) ≡ some (q, g)
        → extend_heap words h ≡ some (q, g))
      e (extend_heap-runs h g1 g2 g words q)

asked-even : (size : ℕ) → size % 8 ≡ 0 → asked (size / 4) ≡ size
asked-even size e = let even : (size / 4 % 2 == 0) ≡ true = ground arith in rw even (omega arith)

-- The old epilogue is the header of the new block, and behind it there is a new epilogue.
abbrev pub extended : Heap → ℕ → Heap
extended h size =
    stored (marked (wider h size) (h.mem_brk + 8) size false) (hdrp (h.mem_brk + 8 + size)) 1

module _ (h : Heap) (xss : List (List ℕ)) (ts : List Tile) (size : ℕ) (w : Whole h xss ts)
    (big : 16 ≤ size) (aligned : size % 8 ≡ 0)
    (small : h.mem_brk + size ≤ h.mem_start_brk + 2 ^ 24) where
  extended-header : (extended h size).word (last h) ≡ size
  extended-header = let b = w.framed.brk_above in ground arith

  extended-epilogue : (extended h size).word (last (extended h size)) ≡ 1
  extended-epilogue = let b = w.framed.brk_above in ground arith

  pub extended-other : (x : ℕ) → x < last h → (extended h size).word x ≡ h.word x
  extended-other x l = let b = w.framed.brk_above in ground arith

  mark-new :
      mark (h.mem_brk + 8) size false (wider h size)
      ≡ some (tt, marked (wider h size) (h.mem_brk + 8) size false)
  mark-new =
      let b = w.framed.brk_above in
      mark-marked (wider h size) (h.mem_brk + 8) size false aligned (ground arith) (ground arith)

  pub Holed-extended : Holed (extended h size) xss ts (last h) (last (extended h size)) []
  Holed-extended =
      let b = w.framed.brk_above in
      let g = extended h size in
      record {
        framed = record {
          start_aligned = w.framed.start_aligned;
          brk_above = omega arith;
          epilogue = extended-epilogue;
          small = small;
          counted = w.framed.counted;
        };
        low =
            Tiles-frame h.word g.word (first h) (last h) ts (λ x i j r. extended-other x j) w.tiles;
        high = refl;
        room = omega arith;
        top_aligned = omega (
          arith,
          Tiles-aligned h.word (first h) (last h) ts (omega (arith, w.framed.start_aligned))
              w.tiles,
        );
        lists =
            FreeLists-frame (wider h size) g h.heap xss reshaped
              (λ q k.
                let tile : tile_at q (first h) ts ≡ true =
                  ground (arith, nodes-split h q h.heap xss w.lists k, w.heads q, w.blocks q) in
                let (a, c) = tile_at-between h.word q (first h) (last h) ts w.tiles tile in
                (extended-other (q - 8) (omega arith), extended-other (q - 4) (omega arith)))
              (FreeLists-wider h size h.heap xss w.lists);
        apart = w.apart;
        heads = λ q k. ground (arith, w.heads q k);
        blocks = λ q. ground (arith, w.blocks q);
      }

-- The last block.
last_tile :
    (w : ℕ → ℕ) (a e : ℕ) (t : Tile) (ts : List Tile)
    → Tiles w a (t ∷ ts) e
    → (us : List Tile) × (pre : Tile) × (k : ℕ) × (t ∷ ts ≡ us ++ (pre ∷ [])) × Tiles w a us k
last_tile w a e t [] k = ([], t, a, refl, refl)
last_tile w a e t (s ∷ ts) (h, f, b, n, k) =
    let (us, pre, m, eq, low) = last_tile w (a + t.size) e s ts k in
    (t ∷ us, pre, m, ap (λ l. t ∷ l) eq, (h, f, b, n, low))

-- If the storage is used up, `extend_heap` returns NULL and changes nothing.
pub extend_heap-full :
    (h : Heap) (size : ℕ)
    → size % 8 ≡ 0
    → size < 2 ^ 31
    → leb (h.mem_brk + size) h.mem_max_addr ≡ false
    → extend_heap (size / 4) h ≡ some (0, h)
extend_heap-full h size e s f = extend_heap-fails h (size / 4) (
    subst (λ z. mem_sbrk (as_int z) h ≡ some (none, h)) (sym (asked-even size e))
      (mem_sbrk-full h size s f))

module _ (h : Heap) (xss : List (List ℕ)) (t : Tile) (ts : List Tile) (size : ℕ)
    (w : Whole h xss (t ∷ ts)) (big : 16 ≤ size) (aligned : size % 8 ≡ 0)
    (small : h.mem_brk + size ≤ h.mem_start_brk + 2 ^ 24)
    (space : leb (h.mem_brk + size) h.mem_max_addr ≡ true) where
  -- Otherwise there is a free block at the end that is large enough.
  pub extend_heap-Merged :
      (g : Heap) × (yss : List (List ℕ)) × (zs : List Tile) × (i : ℕ) × (j : ℕ) × (ws : List Tile)
      × (extend_heap (size / 4) h ≡ some (i + 12, g))
      × Merged (extended h size) xss g yss zs i j ws
      × (size ≤ j - i)
      × (us : List Tile) × (pre : Tile) × (t ∷ ts ≡ us ++ (pre ∷ []))
      × (zs ++ (free_tile (j - i) ∷ ws) ≡ us ++ merge pre size [])
  extend_heap-Merged =
      let b = w.framed.brk_above in
      let h2 = extended h size in
      let o = Holed-extended h xss (t ∷ ts) size w big aligned small in
      let (us, pre, k, eq, low) = last_tile h2.word (first h) (last h) t ts o.low in
      let o' = subst (λ l. Holed h2 xss l (last h) (last h2) []) eq o in
      let g1 = marked (wider h size) (h.mem_brk + 8) size false in
      let read : g1.word (hdrp (h.mem_brk + 8)) ≡ size = ground arith in
      let at : last h + 12 ≡ h.mem_brk + 8 = omega arith in
      let length : last h2 - last h ≡ size = omega arith in
      let header : size_of (h2.word (last h)) ≡ last h2 - last h =
        ap size_of (extended-header h xss (t ∷ ts) size w big aligned small)
        ∙ (pack_fields size false aligned).0
        ∙ sym length in
      let (g, yss, zs, i, j, ws, runs, merged, tiles, i-le, j-ge) =
        coalesce-Merged h2 xss us pre k (last h) (last h2) [] o' low header in
      (
        g,
        yss,
        zs,
        i,
        j,
        ws,
        extend_heap-asked h (wider h size) g1 g (size / 4) size (i + 12) (asked-even size aligned)
            (mem_sbrk-fits h size (omega (arith, w.framed.start_aligned)) space)
            (mark-new h xss (t ∷ ts) size w big aligned small)
            (get_size-in_heap g1 (hdrp (h.mem_brk + 8)) (ground arith)
              ∙ ap (λ z. some (z, g1)) (ap size_of read ∙ (pack_fields size false aligned).0))
            (ground arith) (subst (λ a. coalesce a h2 ≡ some (i + 12, g)) at runs),
        merged,
        omega (arith, i-le, j-ge),
        us,
        pre,
        eq,
        tiles ∙ ap (λ s. us ++ merge pre s []) length,
      )
