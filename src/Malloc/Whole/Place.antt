-- ===== src/Malloc/Whole/Place.antt =====
-- `place` of malloc/lab/mm.c on a whole heap.
use csapp_labs.Base.{
  ℕ, ◌+◌, ◌-◌, ◌%◌, ◌≤◌, ◌<◌, ◌≡◌, refl, sym, ap, ◌∙◌, true, false, List, [], ◌∷◌, ◌++◌, arith,
  Bool-cases, inl, inr, some, if◌then◌else◌, ◌⊎◌, leb,
}
use mathlib.Core.Path.{subst, subst₂}
use csapp_labs.Malloc.Memlib.{Heap, bind-some}
use csapp_labs.Malloc.Mm.{get_size, heap_remove, mark, coalesce, place}
use csapp_labs.Malloc.Words.{size_of, hdrp, pack, word_mod}
use csapp_labs.Malloc.Words.Sizes.{pack_fields}
use csapp_labs.Malloc.Tiles.{Tile, Tiles, Tiles-le, Tiles-split_as}
use csapp_labs.Malloc.Whole.{Whole, first, last}
use csapp_labs.Malloc.Whole.Opening.{open_free}
use csapp_labs.Malloc.Whole.Closing.{
  above, below, closed, mark-hole, Holed-closed, closed-header, closed-footer, closed-other,
}
use csapp_labs.Malloc.Whole.Blocks.{Tagged, close_used}
use csapp_labs.Malloc.Whole.Coalesce.{merge}
use csapp_labs.Malloc.Whole.Tags.{get_size-tag, Framed-in_heap, reshaped}
use csapp_labs.Malloc.Chain.Remove.{removed}
use csapp_labs.Malloc.Chain.All.{nodes, Unlinked, SameBounds}
use csapp_labs.Malloc.Whole.Payload.{
  payload_at, payload_at-append, payload_at-between, payload_at-Unlinked, payload-merge_next,
  Merged-outside,
}
use csapp_labs.Malloc.Whole.Merging.{coalesce-Merged}
use csapp_labs.Malloc.Whole.Split.{
  used_tile, split, mark-split, split-header, split-other, Holed-split,
}

-- The free block `t` when `asize` bytes of it have been placed: the rest is split off if it is large
-- enough for a block.
abbrev pub placed : Tile → ℕ → List Tile → List Tile
placed t asize ys =
    if leb 16 (t.size - asize)
    then merge (used_tile asize) (t.size - asize) ys
    else used_tile t.size ∷ ys

place-splits :
    (h g1 g2 g3 g4 : Heap) (bp size asize rest q : ℕ)
    → get_size (hdrp bp) h ≡ some (size, h)
    → heap_remove bp h ≡ some (tt, g1)
    → (size + word_mod - asize) % word_mod ≡ rest
    → leb 16 rest ≡ true
    → mark bp asize true g1 ≡ some (tt, g2)
    → get_size (hdrp bp) g2 ≡ some (asize, g2)
    → mark (bp + asize) rest false g2 ≡ some (tt, g3)
    → coalesce (bp + asize) g3 ≡ some (q, g4)
    → place bp asize h ≡ some (bp - 8, g4)
unfolding place
place-splits h g1 g2 g3 g4 bp size asize rest q a b c d e f g k =
    bind-some (get_size (hdrp bp)) _ h h size a (
      bind-some (heap_remove bp) _ h g1 tt b (
        rw (c, d)
          (bind-some (mark bp asize true) _ g1 g2 tt e (
            bind-some (get_size (hdrp bp)) _ g2 g2 asize f (
              bind-some (mark (bp + asize) rest false) _ g2 g3 tt g
                (bind-some (coalesce (bp + asize)) _ g3 g4 q k refl))))))

place-keeps :
    (h g1 g2 : Heap) (bp size asize rest : ℕ)
    → get_size (hdrp bp) h ≡ some (size, h)
    → heap_remove bp h ≡ some (tt, g1)
    → (size + word_mod - asize) % word_mod ≡ rest
    → leb 16 rest ≡ false
    → mark bp size true g1 ≡ some (tt, g2)
    → place bp asize h ≡ some (bp - 8, g2)
unfolding place
place-keeps h g1 g2 bp size asize rest a b c d e = bind-some (get_size (hdrp bp)) _ h h size a (
    bind-some (heap_remove bp) _ h g1 tt b
      (rw (c, d) (bind-some (mark bp size true) _ g1 g2 tt e refl)))

-- What `place` leaves: a whole heap with the blocks `ts`, and the words of the blocks that were
-- allocated before.
pub record Placed (h : Heap) (old : List Tile) (bp asize : ℕ) (ts : List Tile) : Type 0 where
  pub heap : Heap
  pub free : List (List ℕ)
  pub runs : place bp asize h ≡ some (bp - 8, heap)
  pub whole : Whole heap free ts
  pub bounds : SameBounds h heap
  pub kept : (x : ℕ) → payload_at h.heap x (first h) old ≡ true → heap.word x ≡ h.word x

module _ (h : Heap) (xss : List (List ℕ)) (xs : List Tile) (t : Tile) (ys : List Tile) (m asize : ℕ)
    (free : t.used ≡ false) (low : Tiles h.word (first h) xs m) (w : Whole h xss (xs ++ (t ∷ ys)))
    (big : 16 ≤ asize) (aligned : asize % 8 ≡ 0) (fits : asize ≤ t.size) where
  here : Tiles h.word m (t ∷ ys) (last h)
  here = (Tiles-split_as h.word h.word (first h) m (last h) xs (t ∷ ys) low w.tiles).1

  reads : get_size (hdrp (m + 12)) h ≡ some (t.size, h)
  reads =
      let at : m + 12 - 12 ≡ m = omega arith in
      let top = Tiles-le h.word (m + t.size) (last h) ys here.4 in
      let i = Framed-in_heap h m w.framed (Tiles-le h.word (first h) m xs low) (omega arith) in
      rw at (get_size-tag h m t i here.0 here.3)

  rest : (t.size + word_mod - asize) % word_mod ≡ t.size - asize
  rest =
      let top = Tiles-le h.word (m + t.size) (last h) ys here.4 in
      let bottom = Tiles-le h.word (first h) m xs low in
      omega (arith, w.framed.small, w.framed.brk_above)

  -- A word of an allocated block lies outside the block, and is no link.
  outside :
      (x : ℕ)
      → payload_at h.heap x (first h) (xs ++ (t ∷ ys)) ≡ true
      → Unlinked x (nodes h.heap xss) × ((x < m) ⊎ (m + t.size ≤ x))
  outside x k = (
    payload_at-Unlinked h xss (xs ++ (t ∷ ys)) x w k,
    elim (Bool-cases (payload_at h.heap x (first h) xs)) [
      | inl e ↦ inl (omega (arith, payload_at-between h.heap x h.word (first h) m xs low e))
      | inr e ↦
          let f : payload_at h.heap x (m + t.size) ys ≡ true =
            ground (arith, payload_at-append h.heap x h.word (first h) m xs (t ∷ ys) low) in
          inr (omega (arith, payload_at-between h.heap x h.word (m + t.size) (last h) ys here.4 f))
    ],
  )

  place-all :
      t.size - asize < 16 → Placed h (xs ++ (t ∷ ys)) (m + 12) asize (xs ++ (used_tile t.size ∷ ys))
  place-all less =
      let (yss, o) = open_free h xss xs ys t free m w low in
      let size : m + t.size - m ≡ t.size = omega arith in
      let g = closed o.holed true in
      let tags : Tagged g m (m + t.size) (used_tile t.size) = record {
        size = refl;
        header = closed-header o.holed true ∙ ap (λ s. pack s true) size;
        footer = closed-footer o.holed true ∙ ap (λ s. pack s true) size;
      } in
      record {
        heap = g;
        free = yss;
        runs =
            place-keeps h (removed h (m + 12)) g (m + 12) t.size asize (t.size - asize) reads o.runs
              rest (ground arith)
              (subst (λ s. mark (m + 12) s true (removed h (m + 12)) ≡ some (tt, g)) size
                (mark-hole o.holed true));
        whole = close_used (Holed-closed o.holed true) (used_tile t.size) tags refl;
        bounds = reshaped;
        kept = λ x k.
            let (u, v) = outside x k in
            closed-other o.holed true x
              (elim v [ inl c ↦ λ d. omega arith | inr c ↦ λ d. omega (arith, here.2) ])
              (elim v [ inl c ↦ λ d. omega (arith, here.2) | inr c ↦ λ d. omega (arith, here.2) ])
            ∙ o.spares x u;
      }

  -- The old blocks that are allocated are among the new ones.
  payload-placed :
      (x s : ℕ)
      → asize + s ≡ t.size
      → payload_at h.heap x (first h) (xs ++ (t ∷ ys)) ≡ true
      → payload_at h.heap x (first h) (xs ++ merge (used_tile asize) s ys) ≡ true
  payload-placed x s e k =
      let sum : m + asize + s ≡ m + t.size = omega arith in
      ground (
        arith,
        payload_at-append h.heap x h.word (first h) m xs (t ∷ ys) low,
        payload_at-append h.heap x h.word (first h) m xs (merge (used_tile asize) s ys) low,
        payload-merge_next h.heap x (m + asize) s ys,
        ap (λ z. payload_at h.heap x z ys) sum,
      )

  place-splitted :
      16 ≤ t.size - asize
      → Placed h (xs ++ (t ∷ ys)) (m + 12) asize (xs ++ merge (used_tile asize) (t.size - asize) ys)
  place-splitted more =
      let (yss, o) = open_free h xss xs ys t free m w low in
      let n = m + t.size in
      let size : n - (m + asize) ≡ t.size - asize = omega arith in
      let g1 = removed h (m + 12) in
      let room : m + asize + 16 ≤ n = omega arith in
      let g2 = split o.holed asize big aligned room in
      let o2 = Holed-split o.holed asize big aligned room in
      let g3 = closed o2 false in
      let o3 = Holed-closed o2 false in
      let (low3, _) =
        Tiles-split_as h.word g3.word (first h) m (m + asize) xs (used_tile asize ∷ []) low
          o3.low in
      let header : size_of (g3.word (m + asize)) ≡ n - (m + asize) =
        ap size_of (closed-header o2 false)
        ∙ (pack_fields (n - (m + asize)) false (omega (arith, here.3))).0 in
      let (g4, zss, zs, i, j, ws, runs, merged, tiles, i-le, j-ge) =
        coalesce-Merged g3 yss xs (used_tile asize) m (m + asize) n ys o3 low3 header in
      let at : m + 12 + asize ≡ m + asize + 12 = omega arith in
      let at' : m + 12 - 12 ≡ m = omega arith in
      let read2 =
        get_size-tag g2 m (used_tile asize)
          (Framed-in_heap g2 m o2.framed (above o.holed) (omega (arith, below o.holed)))
          (split-header o.holed asize big aligned room) aligned in
      record {
        heap = g4;
        free = zss;
        runs =
            place-splits h g1 g2 g3 g4 (m + 12) t.size asize (t.size - asize) (i + 12) reads o.runs
              rest (ground arith) (mark-split o.holed asize big aligned room)
              (subst (λ a. get_size a g2 ≡ some (asize, g2)) (sym at') read2)
              (subst₂ (λ a s. mark a s false g2 ≡ some (tt, g3)) (sym at) size (mark-hole o2 false))
              (subst (λ a. coalesce a g3 ≡ some (i + 12, g4)) (sym at) runs);
        whole =
            subst (λ l. Whole g4 zss l) (tiles ∙ ap (λ s. xs ++ merge (used_tile asize) s ys) size)
              merged.whole;
        bounds = record {
          start = merged.bounds.start;
          brk = merged.bounds.brk;
          most = merged.bounds.most;
          lists = merged.bounds.lists;
        };
        kept = λ x k.
            let (u, v) = outside x k in
            let s = payload-placed x (n - (m + asize)) (omega arith) k in
            merged.spares x (λ q r. u q (o.within q r))
              (Merged-outside g3 yss g4 zss zs ws i j x merged
                (subst (λ l. payload_at h.heap x (first h) l ≡ true) (sym tiles) s))
            ∙ closed-other o2 false x
                (elim v [ inl c ↦ λ d. omega arith | inr c ↦ λ d. omega arith ])
                (elim v [ inl c ↦ λ d. omega arith | inr c ↦ λ d. omega (arith, here.2) ])
            ∙ split-other o.holed asize big aligned room x
                (elim v [ inl c ↦ λ d. omega arith | inr c ↦ λ d. omega (arith, here.2) ])
                (elim v [ inl c ↦ λ d. omega arith | inr c ↦ λ d. omega arith ])
            ∙ o.spares x u;
      }

  -- Placing a block of `asize` bytes in a free block that is large enough.
  pub place-Placed : Placed h (xs ++ (t ∷ ys)) (m + 12) asize (xs ++ placed t asize ys)
  place-Placed = elim (Bool-cases (leb 16 (t.size - asize))) [
    | inl e ↦
        subst (λ l. Placed h (xs ++ (t ∷ ys)) (m + 12) asize (xs ++ l)) (rw e refl)
          (place-splitted (ground arith))
    | inr e ↦
        subst (λ l. Placed h (xs ++ (t ∷ ys)) (m + 12) asize (xs ++ l)) (rw e refl)
          (place-all (ground arith))
  ]
