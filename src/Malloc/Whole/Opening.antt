-- ===== src/Malloc/Whole/Opening.antt =====
-- The hole of a heap of malloc/lab/mm.c takes in the free block before it or behind it, when
-- `heap_remove` has taken the block out of its list.
use csapp_labs.Base.{ℕ, ◌+◌, ◌-◌, ◌≤◌, ◌≡◌, ◌∙◌, true, false, List, [], ◌∷◌, ◌++◌, arith, some}
use csapp_labs.Base.Member.{has}
use csapp_labs.Malloc.Memlib.{Heap}
use csapp_labs.Malloc.Mm.{heap_remove}
use csapp_labs.Malloc.Chain.Find.{all_blocks}
use csapp_labs.Malloc.Chain.Remove.{removed}
use csapp_labs.Malloc.Chain.All.{nodes, Unlinked}
use csapp_labs.Malloc.Chain.All.Take.{heap_remove-Taken}
use csapp_labs.Malloc.Tiles.{
  Tile, Tiles, free_at, tile_at, Tiles-split_as, tile_at-between, Tiles-aligned, Tiles-frame,
  link_at, link_at-tile, link_at-end, free_at-append, used_at-append,
}
use csapp_labs.Malloc.Whole.{
  Framed, Holed, Whole, link_ne, nodes-split, first, last, low-kept, high-kept, epilogue-kept,
}

-- A block is taken out of its list, from the lists `xss` to `yss`; nothing but links has changed.
pub record Opened (h : Heap) (bp : ℕ) (xss yss : List (List ℕ)) (xs : List Tile) (m n : ℕ)
    (ys : List Tile) : Type 0 where
  pub runs : heap_remove bp h ≡ some (tt, removed h bp)
  pub holed : Holed (removed h bp) yss xs m n ys
  pub within : (q : ℕ) → has q (nodes h.heap yss) ≡ true → has q (nodes h.heap xss) ≡ true
  pub spares : (x : ℕ) → Unlinked x (nodes h.heap xss) → (removed h bp).word x ≡ h.word x

-- A tile below the address `k` or above it is not the block at `k`.
low_ne :
    (w : ℕ → ℕ) (q a e : ℕ) (ts : List Tile) → Tiles w a ts e → free_at q a ts ≡ true → q + 4 ≤ e
low_ne w q a e ts k f = (tile_at-between w q a e ts k (ground arith)).1

high_ne :
    (w : ℕ → ℕ) (q a e : ℕ) (ts : List Tile) → Tiles w a ts e → free_at q a ts ≡ true → a + 12 ≤ q
high_ne w q a e ts k f = (tile_at-between w q a e ts k (ground arith)).0

-- The frame of a heap whose words were changed, but for the epilogue.
pub Framed-words :
    (h : Heap) (v : ℕ → ℕ) → Framed h → v (last h) ≡ 1 → Framed (record h { word = v })
Framed-words h v f e = record {
  start_aligned = f.start_aligned;
  brk_above = f.brk_above;
  epilogue = e;
  small = f.small;
  counted = f.counted;
}

module _ (h : Heap) (xss : List (List ℕ)) (xs ys : List Tile) (t : Tile) (free : t.used ≡ false)
    (m n k : ℕ) where
  -- The block before the hole, whose header is at `k`.
  pub open_low :
      Holed h xss (xs ++ (t ∷ [])) m n ys
      → Tiles h.word (first h) xs k
      → (yss : List (List ℕ)) × Opened h (k + 12) xss yss xs k n ys
  open_low o below =
      let bp = k + 12 in
      let (_, here) = Tiles-split_as h.word h.word (first h) k m xs (t ∷ []) below o.low in
      let listed : has bp (all_blocks xss) ≡ true =
        ground (arith, o.blocks bp, free_at-append h.word bp (t ∷ []) (first h) k xs below) in
      let (yss, d) = heap_remove-Taken h bp h.heap xss o.lists o.apart listed in
      let g = removed h bp in
      let (low, _) =
        Tiles-split_as h.word g.word (first h) k m xs (t ∷ []) below (low-kept o g.word d.spares) in
      let at_end : k + t.size ≡ m = here.4 in
      (
        yss,
        record {
          runs = d.runs;
          holed = record {
            framed = Framed-words h g.word o.framed (epilogue-kept o g.word d.spares);
            low = low;
            high = high-kept o g.word d.spares;
            room = omega (arith, o.room, here.2, at_end);
            top_aligned = o.top_aligned;
            lists = d.lists;
            apart = d.apart;
            heads = λ q j.
                ground (arith, o.heads q j, used_at-append h.word q (t ∷ []) (first h) k xs below);
            blocks = λ q. ground (
              arith,
              d.blocks q,
              o.blocks q,
              free_at-append h.word q (t ∷ []) (first h) k xs below,
              low_ne h.word q (first h) k xs below,
              high_ne h.word q n (last h) ys o.high,
              o.room,
              at_end,
            );
          };
          within = d.within;
          spares = d.spares;
        },
      )

  -- The block behind the hole.
  pub open_high :
      Holed h xss xs m n (t ∷ ys)
      → (yss : List (List ℕ)) × Opened h (n + 12) xss yss xs m (n + t.size) ys
  open_high o =
      let bp = n + 12 in
      let listed : has bp (all_blocks xss) ≡ true = ground (arith, o.blocks bp) in
      let (yss, d) = heap_remove-Taken h bp h.heap xss o.lists o.apart listed in
      let g = removed h bp in
      (
        yss,
        record {
          runs = d.runs;
          holed = record {
            framed = Framed-words h g.word o.framed (epilogue-kept o g.word d.spares);
            low = low-kept o g.word d.spares;
            high = (high-kept o g.word d.spares).4;
            room = omega (arith, o.room);
            top_aligned = omega (arith, o.top_aligned, o.high.3);
            lists = d.lists;
            apart = d.apart;
            heads = λ q j. ground (arith, o.heads q j);
            blocks = λ q. ground (
              arith,
              d.blocks q,
              o.blocks q,
              low_ne h.word q (first h) m xs o.low,
              high_ne h.word q (n + t.size) (last h) ys o.high.4,
              o.room,
              o.high.2,
            );
          };
          within = d.within;
          spares = d.spares;
        },
      )

-- The frame of a whole heap: what changes no word but links keeps its blocks and its epilogue.
module _ {h : Heap} {xss : List (List ℕ)} {ts : List Tile} (w : Whole h xss ts) (v : ℕ → ℕ)
    (same : (x : ℕ) → Unlinked x (nodes h.heap xss) → v x ≡ h.word x) where
  not_link : (x : ℕ) → link_at x (first h) ts ≡ false → Unlinked x (nodes h.heap xss)
  not_link x e q k =
      let tile : tile_at q (first h) ts ≡ true =
        ground (arith, nodes-split h q h.heap xss w.lists k, w.heads q, w.blocks q) in
      let (a, b) = link_at-tile q (first h) ts tile in
      (λ c. link_ne x (q - 8) (first h) ts e a c, λ c. link_ne x (q - 4) (first h) ts e b c)

  pub tiles-kept : Tiles v (first h) ts (last h)
  tiles-kept = Tiles-frame h.word v (first h) (last h) ts (λ x i j r. same x (not_link x r)) w.tiles

  pub last-kept : v (last h) ≡ 1
  last-kept =
      same (last h) (not_link (last h) (link_at-end h.word (first h) (last h) ts w.tiles))
      ∙ w.framed.epilogue

-- A free block of a whole heap is opened.
module _ (h : Heap) (xss : List (List ℕ)) (xs ys : List Tile) (t : Tile) (free : t.used ≡ false)
    (m : ℕ) where
  pub open_free :
      Whole h xss (xs ++ (t ∷ ys))
      → Tiles h.word (first h) xs m
      → (yss : List (List ℕ)) × Opened h (m + 12) xss yss xs m (m + t.size) ys
  open_free w low =
      let bp = m + 12 in
      let (_, (head, foot, big, aligned, high)) =
        Tiles-split_as h.word h.word (first h) m (last h) xs (t ∷ ys) low w.tiles in
      let listed : has bp (all_blocks xss) ≡ true =
        ground (arith, w.blocks bp, free_at-append h.word bp (t ∷ ys) (first h) m xs low) in
      let (yss, d) = heap_remove-Taken h bp h.heap xss w.lists w.apart listed in
      let g = removed h bp in
      let (low', (_, _, _, _, high')) =
        Tiles-split_as h.word g.word (first h) m (last h) xs (t ∷ ys) low
          (tiles-kept w g.word d.spares) in
      (
        yss,
        record {
          runs = d.runs;
          holed = record {
            framed = Framed-words h g.word w.framed (last-kept w g.word d.spares);
            low = low';
            high = high';
            room = omega arith;
            top_aligned = omega (
              arith,
              Tiles-aligned h.word (first h) m xs (omega (arith, w.framed.start_aligned)) low,
            );
            lists = d.lists;
            apart = d.apart;
            heads = λ q j.
                ground (arith, w.heads q j, used_at-append h.word q (t ∷ ys) (first h) m xs low);
            blocks = λ q. ground (
              arith,
              d.blocks q,
              w.blocks q,
              free_at-append h.word q (t ∷ ys) (first h) m xs low,
              low_ne h.word q (first h) m xs low,
              high_ne h.word q (m + t.size) (last h) ys high,
            );
          };
          within = d.within;
          spares = d.spares;
        },
      )
