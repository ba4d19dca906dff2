-- ===== src/Malloc/Whole/Merging.antt =====
-- `coalesce` of malloc/lab/mm.c makes a heap with a hole whole.
use csapp_labs.Base.{
  ℕ, zero, suc, ◌+◌, ◌-◌, ◌^◌, ◌≤◌, ◌<◌, ◌≡◌, refl, sym, ap, ◌∙◌, false, List, [], ◌∷◌, ◌++◌, arith,
  Bool-cases, inl, inr, some, get_elem?, ◌⊎◌, length, ltb,
}
use native.Mathlib.Nat.{pow-le-pow_right}
use csapp_labs.Malloc.Memlib.{Heap, bind-some}
use csapp_labs.Malloc.Mm.{
  get_size, get_alloc, get_size-in_heap, absorb_prev, absorb_next, heap_add, mark, coalesce,
}
use csapp_labs.Malloc.Words.{size_of, hdrp, ftrp, size_class}
use csapp_labs.Malloc.Words.Sizes.{bit}
use csapp_labs.Malloc.Words.Classes.{size_class_lem}
use csapp_labs.Malloc.Chain.All.{nodes, Unlinked, SameBounds}
use csapp_labs.Malloc.Chain.Add.{added}
use csapp_labs.Malloc.Tiles.{Tile, Tiles, Tiles-le, Tiles-split_as}
use csapp_labs.Malloc.Whole.{Framed, Holed, Whole, first, last}
use csapp_labs.Malloc.Whole.Closing.{
  above, below, closed, mark-hole, Holed-closed, closed-header, closed-footer, closed-other,
}
use csapp_labs.Malloc.Whole.Blocks.{Tagged, close_free}
use csapp_labs.Malloc.Whole.Coalesce.{
  free_tile, merge, Grown, next_bit, next_alloc, absorb_prev-Grown, absorb_next-Grown,
}
use csapp_labs.Malloc.Whole.Tags.{get_size-tag, get_alloc-tag, Framed-in_heap, reshaped}

coalesce-runs :
    (h g1 g2 g3 g4 : Heap) (bp back size ps pa na i s1 s2 : ℕ)
    → get_size (bp - 16) h ≡ some (back, h)
    → get_size (hdrp bp) h ≡ some (size, h)
    → get_size (hdrp (bp - back)) h ≡ some (ps, h)
    → get_alloc (ftrp (bp - back) ps) h ≡ some (pa, h)
    → get_alloc (hdrp (bp + size)) h ≡ some (na, h)
    → absorb_prev bp (bp - back) pa size h ≡ some ((i, s1), g1)
    → absorb_next (bp + size) na s1 g1 ≡ some (s2, g2)
    → mark i s2 false g2 ≡ some (tt, g3)
    → heap_add i g3 ≡ some (tt, g4)
    → coalesce bp h ≡ some (i, g4)
unfolding coalesce
coalesce-runs h g1 g2 g3 g4 bp back size ps pa na i s1 s2 a b c d e f g k l =
    bind-some (get_size (bp - 16)) _ h h back a (
      bind-some (get_size (hdrp bp)) _ h h size b (
        bind-some (get_size (hdrp (bp - back))) _ h h ps c (
          bind-some (get_alloc (ftrp (bp - back) ps)) _ h h pa d (
            bind-some (get_alloc (hdrp (bp + size))) _ h h na e (
              bind-some (absorb_prev bp (bp - back) pa size) _ h g1 (i, s1) f
                (bind-some (absorb_next (bp + size) na s1) _ g1 g2 s2 g (
                  bind-some (mark i s2 false) _ g2 g3 tt k
                    (bind-some (heap_add i) _ g3 g4 tt l refl))))))))

get_elem?-below :
    {A : Type 0} (xs : List A) (i : ℕ) → i < length xs → (x : A) × (get_elem? xs i ≡ some x)
get_elem?-below [] i l = absurd (omega arith)
get_elem?-below (x ∷ xs) zero l = (x, refl)
get_elem?-below (x ∷ xs) (suc i) l = get_elem?-below xs i (omega arith)

-- Every size that fits into the heap has a free list.
pub size-list :
    (h : Heap) (s : ℕ)
    → Framed h
    → 0 < s
    → s ≤ 2 ^ 24
    → (u : ℕ) × (p : ℕ) × (size_class s ≡ some u) × (get_elem? h.heap u ≡ some p)
size-list h s f a b =
    let (u, e, _, close, _) = size_class_lem s a (omega arith) in
    let small : u < 25 = elim (Bool-cases (ltb u 25)) [
      | inl k ↦ ground arith
      | inr k ↦
          absurd
            (omega (arith, pow-le-pow_right {n = 2} (omega arith) {i = 25} {j = u} (ground arith)))
    ] in
    let (p, g) = get_elem?-below h.heap u (omega (arith, f.counted)) in (u, p, e, g)

Grown-trans :
    {h g k : Heap} {xss yss zss : List (List ℕ)} {xs xs' ys ys' : List Tile} {m n m' n' : ℕ}
    → Grown h xss g yss xs m n ys
    → Grown g yss k zss xs' m' n' ys'
    → Grown h xss k zss xs' m' n' ys'
Grown-trans a b = record {
  holed = b.holed;
  bounds = record {
    start = b.bounds.start ∙ a.bounds.start;
    brk = b.bounds.brk ∙ a.bounds.brk;
    most = b.bounds.most ∙ a.bounds.most;
    lists = b.bounds.lists ∙ a.bounds.lists;
  };
  within = λ q k. a.within q (b.within q k);
  spares = λ x u. b.spares x (λ q k. u q (a.within q k)) ∙ a.spares x u;
}

-- The heap is whole again: a free block from `i` to `j` between the blocks `zs` and `ws`, outside
-- of which only links have changed.
pub record Merged (h : Heap) (xss : List (List ℕ)) (g : Heap) (yss : List (List ℕ)) (zs : List Tile)
    (i j : ℕ) (ws : List Tile) : Type 0 where
  pub whole : Whole g yss (zs ++ (free_tile (j - i) ∷ ws))
  pub bounds : SameBounds h g
  pub front : Tiles g.word (first g) zs i
  pub spares : (x : ℕ) → Unlinked x (nodes h.heap xss) → (x < i) ⊎ (j ≤ x) → g.word x ≡ h.word x

-- The hole is marked free and put into the list of its size.
pub close_hole :
    (h : Heap) (xss : List (List ℕ)) (zs : List Tile) (i j : ℕ) (ws : List Tile)
    → Holed h xss zs i j ws
    → (g : Heap) × (yss : List (List ℕ)) × (k : Heap) × (mark (i + 12) (j - i) false h
        ≡ some (tt, k))
      × (heap_add (i + 12) k ≡ some (tt, g))
      × Merged h xss g yss zs i j ws
close_hole h xss zs i j ws o =
    let k = closed o false in
    let t = free_tile (j - i) in
    let (u, p, class, slot) =
      size-list h (j - i) o.framed (omega (arith, o.room))
        (omega (arith, above o, below o, o.framed.small)) in
    let tags : Tagged k i j t = record {
      size = omega (arith, o.room);
      header = closed-header o false;
      footer = closed-footer o false;
    } in
    let (yss, runs, w, spares) = close_free (Holed-closed o false) t tags u p refl class slot in
    (
      added k p (i + 12),
      yss,
      k,
      mark-hole o false,
      runs,
      record {
        whole = w;
        bounds = reshaped;
        front =
            (Tiles-split_as h.word (added k p (i + 12)).word (first h) i (last h) zs (t ∷ ws) o.low
              w.tiles).0;
        spares = λ x a b.
            spares x a (elim b [ inl c ↦ λ d. omega arith | inr c ↦ λ d. omega (arith, o.room) ])
              (elim b [ inl c ↦ λ d. omega arith | inr c ↦ λ d. omega (arith, o.room) ])
            ∙ closed-other o false x
                (elim b [ inl c ↦ λ d. omega arith | inr c ↦ λ d. omega (arith, o.room) ])
                (elim b [
                  | inl c ↦ λ d. omega (arith, o.room)
                  | inr c ↦ λ d. omega (arith, o.room)
                ]);
      },
    )

Merged-Grown :
    {h g k : Heap} {xss yss zss : List (List ℕ)} {zs ws : List Tile} {i j : ℕ}
    → Grown h xss g yss zs i j ws
    → Merged g yss k zss zs i j ws
    → Merged h xss k zss zs i j ws
Merged-Grown a b = record {
  whole = b.whole;
  bounds = record {
    start = b.bounds.start ∙ a.bounds.start;
    brk = b.bounds.brk ∙ a.bounds.brk;
    most = b.bounds.most ∙ a.bounds.most;
    lists = b.bounds.lists ∙ a.bounds.lists;
  };
  front = b.front;
  spares = λ x u c. b.spares x (λ q k. u q (a.within q k)) c ∙ a.spares x u;
}

module _ (h : Heap) (xss : List (List ℕ)) (xs : List Tile) (pre : Tile) (k m n : ℕ) (ys : List Tile)
    (o : Holed h xss (xs ++ (pre ∷ [])) m n ys) (b : Tiles h.word (first h) xs k) where
  reads :
      size_of (h.word m) ≡ n - m
      → (k + pre.size ≡ m)
        × (get_size (m + 12 - 16) h ≡ some (pre.size, h))
        × (get_size (hdrp (m + 12)) h ≡ some (n - m, h))
        × (get_size (hdrp (k + 12)) h ≡ some (pre.size, h))
        × (get_alloc (ftrp (k + 12) pre.size) h ≡ some (bit pre.used, h))
        × (get_alloc (hdrp (m + 12 + (n - m))) h ≡ some (next_bit ys, h))
  reads size =
      let (head, foot, big, aligned, end) =
        (Tiles-split_as h.word h.word (first h) k m xs (pre ∷ []) b o.low).1 in
      let low = Tiles-le h.word (first h) k xs b in
      let top = below o in
      let r = o.room in
      let at_foot : m + 12 - 16 ≡ k + pre.size - 4 = omega (arith, end) in
      let at_head : m + 12 - 12 ≡ m = omega arith in
      let at_pre : k + 12 - 12 ≡ k = omega arith in
      let at_foot' : k + 12 + pre.size - 16 ≡ k + pre.size - 4 = omega arith in
      let at_next : m + 12 + (n - m) - 12 ≡ n = omega arith in
      let foot_in = Framed-in_heap h (k + pre.size - 4) o.framed (omega arith) (omega arith) in
      let pre_in = Framed-in_heap h k o.framed low (omega arith) in
      let hole_in = Framed-in_heap h m o.framed (above o) (omega arith) in
      (
        end,
        rw at_foot (get_size-tag h (k + pre.size - 4) pre foot_in foot aligned),
        rw at_head (get_size-in_heap h m hole_in ∙ ap (λ w. some (w, h)) size),
        rw at_pre (get_size-tag h k pre pre_in head aligned),
        rw at_foot' (get_alloc-tag h (k + pre.size - 4) pre foot_in foot aligned),
        rw at_next (next_alloc (xs ++ (pre ∷ [])) ys o),
      )

  -- `coalesce` on a hole whose header holds its size.
  pub coalesce-Merged :
      size_of (h.word m) ≡ n - m
      → (g : Heap) × (yss : List (List ℕ)) × (zs : List Tile) × (i : ℕ) × (j : ℕ) × (ws : List Tile)
        × (coalesce (m + 12) h ≡ some (i + 12, g))
        × Merged h xss g yss zs i j ws
        × (zs ++ (free_tile (j - i) ∷ ws) ≡ xs ++ merge pre (n - m) ys)
        × (i ≤ m)
        × (n ≤ j)
  coalesce-Merged size =
      let (end, r1, r2, r3, r4, r5) = reads size in
      let (g1, yss1, i, zs, run1, grown1, i-le, tiles1) =
        absorb_prev-Grown xs ys pre k (n - m) o b in
      let (g2, yss2, j, ws, run2, grown2, j-ge, tiles2) =
        absorb_next-Grown zs ys (n - m + (m - i)) grown1.holed in
      let grown = Grown-trans grown1 grown2 in
      let (g, yss, k3, run3, run4, merged) = close_hole g2 yss2 zs i j ws grown.holed in
      let at_pre : m + 12 - pre.size ≡ k + 12 = omega (arith, end) in
      let at_next : m + 12 + (n - m) ≡ n + 12 = omega (arith, o.room) in
      let all : n - m + (m - i) + (j - n) ≡ j - i = omega (arith, o.room) in
      (
        g,
        yss,
        zs,
        i,
        j,
        ws,
        coalesce-runs h g1 g2 k3 g (m + 12) pre.size (n - m) pre.size (bit pre.used) (next_bit ys)
            (i + 12) (n - m + (m - i)) (j - i) r1 r2 (rw at_pre r3) (rw at_pre r4) r5
            (rw at_pre run1) (rw at_next (run2 ∙ ap (λ z. some (z, g2)) all)) run3 run4,
        Merged-Grown grown merged,
        ap (λ l. zs ++ l) (ap (λ z. free_tile z ∷ ws) (sym all) ∙ tiles2 (n - m + (m - i)))
            ∙ tiles1 (n - m),
        i-le,
        j-ge,
      )
