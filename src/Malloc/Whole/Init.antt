-- ===== src/Malloc/Whole/Init.antt =====
-- `mm_init` of malloc/lab/mm.c makes a whole heap.
use csapp_labs.Base.{
  ℕ, zero, suc, ◌+◌, ◌-◌, ◌*◌, ◌%◌, ◌^◌, ◌≤◌, ◌≡◌, refl, sym, ◌∙◌, Bool, true, false, List, [], ◌∷◌,
  ◌++◌, arith, some, Option, ltb,
}
use csapp_labs.Base.Int.{pos}
use mathlib.Core.Path.{subst}
use csapp_labs.Base.Member.{distinct}
use csapp_labs.Malloc.Memlib.{
  Heap, M, mem_init, mem_sbrk, in_heap, ◌>>◌, bind-some, stored, store, store-then,
}
use csapp_labs.Malloc.Mm.{add_list, push_list, add_lists, set_start, mm_init}
use csapp_labs.Malloc.Words.{n_lists}
use csapp_labs.Malloc.Tiles.{Tile, used_at, tile_at, tile_at-between, tile_at-aligned}
use csapp_labs.Malloc.Whole.{Whole, first, last}
use csapp_labs.Malloc.Whole.Wider.{wider}
use csapp_labs.Malloc.Whole.Begin.{
  empty_lists, heads, Begun, nodes_empty, blocks_empty, heads-free_at, FreeLists-empty, added_head,
  add_list-head, Begun-pushed,
}

add_lists-Begun :
    (k n : ℕ) (h : Heap)
    → Begun h n
    → h.mem_brk + 16 * k ≤ h.mem_max_addr
    → (g : Heap) × (add_lists k h ≡ some (true, g))
      × Begun g (n + k)
      × (g.mem_start_brk ≡ h.mem_start_brk)
unfolding add_lists push_list
add_lists-Begun zero n h b s = (h, refl, subst (λ z. Begun h z) (omega arith) b, refl)
add_lists-Begun (suc k) n h b s =
    let p = h.mem_brk - 4 + 8 + 4 in
    let h1 = record (added_head h) { heap = h.heap ++ (p ∷ []) } in
    let space : h.mem_brk + 16 ≤ h.mem_max_addr = omega arith in
    let (g, r, c, e) = add_lists-Begun k (suc n) h1 (Begun-pushed h n b space) (omega arith) in
    (
      g,
      bind-some add_list _ h (added_head h) (some p) (add_list-head h n b space) r,
      subst (λ z. Begun g z) (omega arith) c,
      e,
    )

-- Only the padding, the prologue and the epilogue.
abbrev prologue : Heap → Heap
prologue h =
    let s = h.mem_brk in
    let h0 = record (wider h 24) { heap_start = s; heap = [] } in
    stored (stored (stored (stored h0 s 0) (s + 1 * 4) 17) (s + 4 * 4) 17) (s + 5 * 4) 1

set_start-then :
    {B : Type 0} (h : Heap) (p : ℕ) (f : M B) {r : Option (B × Heap)}
    → f (record h { heap_start = p; heap = [] }) ≡ r
    → (set_start p >> f) h ≡ r
unfolding set_start
set_start-then h p f k =
    bind-some (set_start p) (λ _. f) h (record h { heap_start = p; heap = [] }) tt refl k

module _ (h : Heap) (aligned : h.mem_start_brk % 8 ≡ 0) (empty : h.mem_brk ≡ h.mem_start_brk)
    (space : h.mem_brk + 24 ≤ h.mem_max_addr) where
  Begun-prologue : Begun (prologue h) 1
  Begun-prologue =
      let g = prologue h in
      record {
        start_aligned = aligned;
        break = omega arith;
        epilogue = ground arith;
        tiles = (ground arith, ground arith, omega arith, refl, omega arith);
        alone = λ q k. absurd (ground arith);
        apart = refl;
        each = λ q k. absurd (ground arith);
        counted = refl;
      }

  sbrk-24 : mem_sbrk (pos 24) h ≡ some (some h.mem_brk, wider h 24)
  unfolding mem_sbrk
  sbrk-24 = let f : ltb h.mem_max_addr (h.mem_brk + 24) ≡ false = ground arith in rw f refl

  inside-24 : (x : ℕ) → h.mem_brk ≤ x → x ≤ h.mem_brk + 20 → in_heap (wider h 24) x ≡ true
  inside-24 x i j = ground arith

  mm_init-lists : (r : Option (Bool × Heap)) → add_lists n_lists (prologue h) ≡ r → mm_init h ≡ r
  unfolding mm_init
  mm_init-lists r e =
      let s = h.mem_brk in
      let h0 = record (wider h 24) { heap_start = s; heap = [] } in
      let h1 = stored h0 s 0 in
      let h2 = stored h1 (s + 1 * 4) 17 in
      let h3 = stored h2 (s + 4 * 4) 17 in
      let p3 = store (s + 5 * 4) 1 >> add_lists n_lists in
      let p2 = store (s + 4 * 4) 17 >> p3 in
      let p1 = store (s + 1 * 4) 17 >> p2 in
      bind-some (mem_sbrk (pos 24)) _ h (wider h 24) (some s) sbrk-24 (
        set_start-then (wider h 24) s (store s 0 >> p1) (
          store-then h0 s 0 p1 (inside-24 s (omega arith) (omega arith)) (
            store-then h1 (s + 1 * 4) 17 p2 (inside-24 (s + 4) (omega arith) (omega arith)) (
              store-then h2 (s + 4 * 4) 17 p3 (inside-24 (s + 16) (omega arith) (omega arith)) (
                store-then h3 (s + 5 * 4) 1 (add_lists n_lists)
                  (inside-24 (s + 20) (omega arith) (omega arith)) e)))))

pub used-tile : (q a : ℕ) (ts : List Tile) → used_at q a ts ≡ true → tile_at q a ts ≡ true
used-tile q a ts u = ground arith

Begun-Whole : (g : Heap) → Begun g 26 → Whole g (empty_lists g.heap) (heads 26)
Begun-Whole g b = record {
  framed = record {
    start_aligned = b.start_aligned;
    brk_above = omega (arith, b.break);
    epilogue = b.epilogue;
    small = omega (arith, b.break);
    counted = omega (arith, b.counted);
  };
  tiles = b.tiles;
  lists = FreeLists-empty g g.heap (λ q k.
      let u = used-tile q (first g) (heads 26) (b.each q k) in
      let (low, high) = tile_at-between g.word q (first g) (last g) (heads 26) b.tiles u in
      (
        record {
          aligned =
              tile_at-aligned g.word q (first g) (last g) (heads 26)
                (omega (arith, b.start_aligned)) b.tiles u;
          above = omega arith;
          below = omega arith;
        },
        b.alone q k,
      ));
  apart = subst (λ l. distinct l ≡ true) (sym (nodes_empty g.heap)) b.apart;
  heads = b.each;
  blocks = λ q. blocks_empty q g.heap ∙ sym (heads-free_at q (first g) 26);
}

-- On the storage that `mem_init` has set up at a multiple of 8, `mm_init` returns true, and the heap is whole: all its
-- blocks are allocated and have 16 bytes, the free lists are empty, and 424 bytes are in use.
pub mm_init_lem :
    (base : ℕ) (word : ℕ → ℕ)
    → base % 8 ≡ 0
    → (g : Heap) × (mm_init (mem_init base word) ≡ some (true, g))
      × Whole g (empty_lists g.heap) (heads 26)
      × (g.mem_brk ≡ base + 424)
      × (g.mem_start_brk ≡ base)
unfolding mem_init
mm_init_lem base word aligned =
    let h = mem_init base word in
    let space : base + 24 ≤ base + 20 * 2 ^ 20 = omega arith in
    let b = Begun-prologue h aligned refl space in
    let (g, r, c, e) = add_lists-Begun 25 1 (prologue h) b (omega arith) in
    (g, mm_init-lists h aligned refl space _ r, Begun-Whole g c, omega (arith, c.break, e), e)
