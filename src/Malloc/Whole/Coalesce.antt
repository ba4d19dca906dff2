-- ===== src/Malloc/Whole/Coalesce.antt =====
-- `coalesce` of malloc/lab/mm.c on a whole heap: the hole takes in the free blocks beside it.
use csapp_labs.Base.{
  ℕ, ◌+◌, ◌-◌, ◌≤◌, ◌≡◌, refl, sym, ap, ◌∙◌, true, false, List, [], ◌∷◌, ◌++◌, arith, Bool-cases,
  inl, inr, some, if◌then◌else◌,
}
use csapp_labs.Base.Member.{has}
use csapp_labs.Malloc.Memlib.{Heap, load-then}
use csapp_labs.Malloc.Mm.{get_alloc, absorb_prev, absorb_next}
use csapp_labs.Malloc.Words.{alloc_of, hdrp}
use csapp_labs.Malloc.Words.Sizes.{bit}
use csapp_labs.Malloc.Chain.Remove.{removed}
use csapp_labs.Malloc.Chain.All.{nodes, Unlinked, SameBounds}
use csapp_labs.Malloc.Tiles.{Tile, Tiles, Tiles-le, Tiles-split_as}
use csapp_labs.Malloc.Whole.{Holed, first, low-kept}
use csapp_labs.Malloc.Whole.Opening.{open_low, open_high}
use csapp_labs.Malloc.Whole.Closing.{above, below}
use csapp_labs.Malloc.Whole.Tags.{
  reshaped, get_size-tag, get_alloc-tag, Framed-in_heap, absorb_next-used, absorb_next-free,
  absorb_prev-used, absorb_prev-free,
}

abbrev pub free_tile : ℕ → Tile
free_tile s = record { size = s; used = false }

-- The blocks when a hole of `s` bytes has become a free block: behind a block `pre`, in front of
-- the blocks `ys`, it takes in what is free beside it.
abbrev pub merge_next : ℕ → List Tile → List Tile
merge_next s [] = free_tile s ∷ []
merge_next s (y ∷ ys) = if y.used then free_tile s ∷ y ∷ ys else free_tile (s + y.size) ∷ ys

abbrev pub merge : Tile → ℕ → List Tile → List Tile
merge pre s ys = if pre.used then pre ∷ merge_next s ys else merge_next (s + pre.size) ys

merge-used :
    (pre : Tile) (s : ℕ) (ys : List Tile) → pre.used ≡ true → merge pre s ys ≡ pre ∷ merge_next s ys
merge-used pre s ys e =
    ap (λ b. if b then pre ∷ merge_next s ys else merge_next (s + pre.size) ys) e

append_one : (xs : List Tile) (x : Tile) (ys : List Tile) → (xs ++ (x ∷ [])) ++ ys ≡ xs ++ (x ∷ ys)
append_one [] x ys = refl
append_one (z ∷ xs) x ys = ap (λ l. z ∷ l) (append_one xs x ys)

-- Another heap with a hole: the hole may be larger, there may be fewer nodes, and only links have
-- changed.
pub record Grown (h : Heap) (xss : List (List ℕ)) (g : Heap) (yss : List (List ℕ)) (xs : List Tile)
    (m n : ℕ) (ys : List Tile) : Type 0 where
  pub holed : Holed g yss xs m n ys
  pub bounds : SameBounds h g
  pub within : (q : ℕ) → has q (nodes g.heap yss) ≡ true → has q (nodes h.heap xss) ≡ true
  pub spares : (x : ℕ) → Unlinked x (nodes h.heap xss) → g.word x ≡ h.word x

-- The bit of the block behind the hole, or of the epilogue.
abbrev pub next_bit : List Tile → ℕ
next_bit [] = 1
next_bit (y ∷ ys) = bit y.used

same_bounds : (h : Heap) → SameBounds h h
same_bounds h = record { start = refl; brk = refl; most = refl; lists = refl }

module _ {h : Heap} {xss : List (List ℕ)} {xs ys : List Tile} {m n : ℕ}
    (o : Holed h xss xs m n ys) where
  unchanged : Grown h xss h xss xs m n ys
  unchanged = record { holed = o; bounds = same_bounds h; within = λ q k. k; spares = λ x u. refl }

hdrp_lem : (a : ℕ) → hdrp (a + 12) ≡ a
hdrp_lem a = omega arith

more : (n k : ℕ) → n + k - n ≡ k
more n k = omega arith

no_more : (n s : ℕ) → s + (n - n) ≡ s
no_more n s = omega arith

module _ {h : Heap} {xss : List (List ℕ)} (xs : List Tile) {m n : ℕ} where
  pub next_alloc : (ys : List Tile) → Holed h xss xs m n ys → get_alloc n h ≡ some (next_bit ys, h)
  unfolding get_alloc
  next_alloc [] o =
      load-then h n _ (Framed-in_heap h n o.framed (omega (arith, above o, o.room)) (below o))
        (ap (λ w. some (alloc_of w, h)) (ap h.word o.high ∙ o.framed.epilogue))
  next_alloc (y ∷ ys) o =
      get_alloc-tag h n y (Framed-in_heap h n o.framed (omega (arith, above o, o.room)) (below o))
        o.high.0 o.high.3

  -- The block behind the hole.
  pub absorb_next-Grown :
      (ys : List Tile) (size : ℕ)
      → Holed h xss xs m n ys
      → (g : Heap) × (yss : List (List ℕ)) × (j : ℕ) × (ws : List Tile) × (absorb_next
            (n + 12)
            (next_bit ys)
            size
            h
          ≡ some (size + (j - n), g))
        × Grown h xss g yss xs m j ws
        × (n ≤ j)
        × ((s : ℕ) → free_tile (s + (j - n)) ∷ ws ≡ merge_next s ys)
  absorb_next-Grown [] size o = (
    h,
    xss,
    n,
    [],
    rw (no_more n size) (absorb_next-used h (n + 12) size),
    unchanged o,
    omega arith,
    λ s. rw (no_more n s) refl,
  )
  absorb_next-Grown (y ∷ ys) size o = elim (Bool-cases y.used) [
    | inl e ↦ (
      h,
      xss,
      n,
      y ∷ ys,
      rw (e, no_more n size) (absorb_next-used h (n + 12) size),
      unchanged o,
      omega arith,
      λ s. rw (e, no_more n s) refl,
    )
    | inr e ↦
        let (yss, p) = open_high h xss xs ys y e m n n o in
        (
          removed h (n + 12),
          yss,
          n + y.size,
          ys,
          rw (e, more n y.size)
              (absorb_next-free h (removed h (n + 12)) (n + 12) size y.size
                (rw (hdrp_lem n) (
                  get_size-tag h n y
                    (Framed-in_heap h n o.framed (omega (arith, above o, o.room)) (below o))
                    o.high.0 o.high.3))
                p.runs),
          record { holed = p.holed; bounds = reshaped; within = p.within; spares = p.spares },
          omega arith,
          λ s. rw (e, more n y.size) refl,
        )
  ]

  -- The block before the hole.
  pub absorb_prev-Grown :
      (ys : List Tile) (pre : Tile) (k size : ℕ)
      → Holed h xss (xs ++ (pre ∷ [])) m n ys
      → Tiles h.word (first h) xs k
      → (g : Heap) × (yss : List (List ℕ)) × (i : ℕ) × (zs : List Tile) × (absorb_prev
            (m + 12)
            (k + 12)
            (bit pre.used)
            size
            h
          ≡ some ((i + 12, size + (m - i)), g))
        × Grown h xss g yss zs i n ys
        × (i ≤ m)
        × ((s : ℕ) → zs ++ merge_next (s + (m - i)) ys ≡ xs ++ merge pre s ys)
  absorb_prev-Grown ys pre k size o b = elim (Bool-cases pre.used) [
    | inl e ↦ (
      h,
      xss,
      m,
      xs ++ (pre ∷ []),
      rw (e, no_more m size) (absorb_prev-used h (m + 12) (k + 12) size),
      unchanged o,
      omega arith,
      λ s. append_one xs pre _ ∙ ap (λ l. xs ++ l) (rw (no_more m s) (sym (merge-used pre s ys e))),
    )
    | inr e ↦
        let (yss, p) = open_low h xss xs ys pre e m n k o b in
        let g = removed h (k + 12) in
        let (here, _, _, _, _) =
          (Tiles-split_as h.word h.word (first h) k m xs (pre ∷ []) b o.low).1 in
        let (_, foot, big, aligned, end) =
          (Tiles-split_as h.word g.word (first h) k m xs (pre ∷ []) b
            (low-kept o g.word p.spares)).1 in
        let low = Tiles-le h.word (first h) k xs b in
        let top = below o in
        let back : m + 12 - pre.size ≡ k + 12 = omega (arith, end) in
        let length : m - k ≡ pre.size = omega (arith, end) in
        let at : m + 12 - 16 ≡ k + pre.size - 4 = omega (arith, end) in
        let head =
          get_size-tag h k pre (Framed-in_heap h k o.framed low (omega (arith, end, o.room))) here
            aligned in
        let foot' =
          get_size-tag g (k + pre.size - 4) pre
            (Framed-in_heap h (k + pre.size - 4) o.framed (omega arith)
              (omega (arith, end, o.room)))
            foot aligned in
        (
          g,
          yss,
          k,
          xs,
          rw (e, length)
              (absorb_prev-free h g (m + 12) (k + 12) size pre.size pre.size (rw (hdrp_lem k) head)
                  p.runs (rw at foot')
                ∙ ap (λ z. some ((z, size + pre.size), g)) back),
          record { holed = p.holed; bounds = reshaped; within = p.within; spares = p.spares },
          omega (arith, end),
          λ s. rw (e, length) refl,
        )
  ]
