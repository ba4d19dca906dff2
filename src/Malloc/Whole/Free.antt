-- ===== src/Malloc/Whole/Free.antt =====
-- `mm_free` of malloc/lab/mm.c on a whole heap.
use csapp_labs.Base.{
  ℕ, ◌+◌, ◌-◌, ◌≡◌, refl, sym, ap, ◌∙◌, true, false, List, [], ◌∷◌, ◌++◌, arith, inl, inr, some,
  append_assoc,
}
use mathlib.Core.Path.{subst}
use csapp_labs.Base.Member.{has}
use csapp_labs.Malloc.Memlib.{Heap, bind-some}
use csapp_labs.Malloc.Mm.{get_size, mark, coalesce, mm_free}
use csapp_labs.Malloc.Words.{size_of, hdrp}
use csapp_labs.Malloc.Words.Sizes.{pack_fields}
use csapp_labs.Malloc.Tiles.{
  Tile, Tiles, Tiles-join, Tiles-aligned, Tiles-split_as, free_at-append, used_at-append,
}
use csapp_labs.Malloc.Whole.{Holed, Whole, first, last}
use csapp_labs.Malloc.Whole.Closing.{
  above, below, closed, mark-hole, Holed-closed, closed-header, closed-other,
}
use csapp_labs.Malloc.Whole.Coalesce.{free_tile, merge}
use csapp_labs.Malloc.Whole.Tags.{get_size-tag, Framed-in_heap}
use csapp_labs.Malloc.Whole.Payload.{payload_at, payload_at-append, payload-merge, Merged-payload}
use csapp_labs.Malloc.Whole.Pairs.{free_pairs, free_pairs-merge}
use csapp_labs.Malloc.Whole.Merging.{Merged, coalesce-Merged}

mm_free-runs :
    (h k g : Heap) (p s q : ℕ)
    → get_size (hdrp (p + 8)) h ≡ some (s, h)
    → mark (p + 8) s false h ≡ some (tt, k)
    → coalesce (p + 8) k ≡ some (q, g)
    → mm_free p h ≡ some (tt, g)
unfolding mm_free
mm_free-runs h k g p s q a b c =
    bind-some (get_size (hdrp (p + 8))) _ h h s a
      (bind-some (mark (p + 8) s false) _ h k tt b (bind-some (coalesce (p + 8)) _ k g q c refl))

module _ (h : Heap) (xss : List (List ℕ)) (xs : List Tile) (t : Tile) (ys : List Tile) (m : ℕ)
    (used : t.used ≡ true) (low : Tiles h.word (first h) xs m) where
  -- An allocated block that is no head of a list is opened.
  pub open_used :
      Whole h xss (xs ++ (t ∷ ys)) → has (m + 12) h.heap ≡ false → Holed h xss xs m (m + t.size) ys
  open_used w plain =
      let (_, (head, foot, big, aligned, high)) =
        Tiles-split_as h.word h.word (first h) m (last h) xs (t ∷ ys) low w.tiles in
      record {
        framed = w.framed;
        low = low;
        high = high;
        room = omega arith;
        top_aligned = omega (
          arith,
          Tiles-aligned h.word (first h) m xs (omega (arith, w.framed.start_aligned)) low,
        );
        lists = w.lists;
        apart = w.apart;
        heads =
            λ q k. ground (arith, w.heads q k, used_at-append h.word q (t ∷ ys) (first h) m xs low);
        blocks =
            λ q. ground (arith, w.blocks q, free_at-append h.word q (t ∷ ys) (first h) m xs low);
      }

  -- Its tags are marked free.
  pub mark_used :
      (w : Whole h xss (xs ++ (t ∷ ys)))
      → (plain : has (m + 12) h.heap ≡ false)
      → (let o = open_used w plain in
          (get_size (hdrp (m + 12)) h ≡ some (t.size, h))
          × (mark (m + 12) t.size false h ≡ some (tt, closed o false))
          × (size_of ((closed o false).word m) ≡ m + t.size - m))
  mark_used w plain =
      let o = open_used w plain in
      let (_, (head, foot, big, aligned, high)) =
        Tiles-split_as h.word h.word (first h) m (last h) xs (t ∷ ys) low w.tiles in
      let at : m + 12 - 12 ≡ m = omega arith in
      let size : m + t.size - m ≡ t.size = omega arith in
      (
        rw at (
            get_size-tag h m t
              (Framed-in_heap h m w.framed (above o) (omega (arith, below o, o.room))) head
              aligned),
        subst (λ s. mark (m + 12) s false h ≡ some (tt, closed o false)) size (mark-hole o false),
        ap size_of (closed-header o false) ∙ (rw size (pack_fields t.size false aligned).0),
      )

module _ (h : Heap) (xss : List (List ℕ)) (xs : List Tile) (pre t : Tile) (ys : List Tile) (k : ℕ)
    (used : t.used ≡ true) (low : Tiles h.word (first h) xs k) where
  mm_free-Merged :
      Whole h xss (xs ++ (pre ∷ t ∷ ys))
      → has (k + pre.size + 12) h.heap ≡ false
      → (g : Heap) × (yss : List (List ℕ)) × (zs : List Tile) × (i : ℕ) × (j : ℕ) × (ws : List Tile)
        × (mm_free (k + pre.size + 4) h ≡ some (tt, g))
        × Merged h xss g yss zs i j ws
        × (zs ++ (free_tile (j - i) ∷ ws) ≡ xs ++ merge pre t.size ys)
  mm_free-Merged w plain =
      let m = k + pre.size in
      let (_, (head, foot, big, aligned, high)) =
        Tiles-split_as h.word h.word (first h) k (last h) xs (pre ∷ t ∷ ys) low w.tiles in
      let low' =
        Tiles-join h.word (first h) k m xs (pre ∷ []) low (head, foot, big, aligned, refl) in
      let w' = subst (λ l. Whole h xss l) (sym (append_assoc xs (pre ∷ []) (t ∷ ys))) w in
      let o = open_used h xss (xs ++ (pre ∷ [])) t ys m used low' w' plain in
      let (size, marks, header) = mark_used h xss (xs ++ (pre ∷ [])) t ys m used low' w' plain in
      let size' : m + t.size - m ≡ t.size = omega arith in
      let c = closed o false in
      let o' = Holed-closed o false in
      let (low'', _) = Tiles-split_as h.word c.word (first h) k m xs (pre ∷ []) low o'.low in
      let (g, yss, zs, i, j, ws, runs, merged, tiles, i-le, j-ge) =
        coalesce-Merged c xss xs pre k m (m + t.size) ys o' low'' header in
      let at : m + 4 + 8 ≡ m + 12 = omega arith in
      (
        g,
        yss,
        zs,
        i,
        j,
        ws,
        mm_free-runs h c g (m + 4) t.size (i + 12) (rw at size) (rw at marks) (rw at runs),
        record {
          whole = merged.whole;
          bounds = record {
            start = merged.bounds.start;
            brk = merged.bounds.brk;
            most = merged.bounds.most;
            lists = merged.bounds.lists;
          };
          front = merged.front;
          spares = λ x u d.
              merged.spares x u d
              ∙ closed-other o false x
                  (elim d [ inl e ↦ λ f. omega arith | inr e ↦ λ f. omega (arith, o.room) ])
                  (elim d [
                    | inl e ↦ λ f. omega (arith, o.room)
                    | inr e ↦ λ f. omega (arith, o.room)
                  ]);
        },
        tiles ∙ ap (λ s. xs ++ merge pre s ys) size',
      )

  -- Freeing an allocated block of a whole heap, that is no head of a list and stands behind a block
  -- `pre`, returns, and the heap is whole again: the block is free, merged with the free blocks
  -- beside it, the lists hold exactly the free blocks, there are as many free neighbours as before,
  -- and the payload of the blocks that are still allocated, heads of lists aside, has not changed.
  pub mm_free_lem :
      Whole h xss (xs ++ (pre ∷ t ∷ ys))
      → has (k + pre.size + 12) h.heap ≡ false
      → (g : Heap) × (yss : List (List ℕ)) × (mm_free (k + pre.size + 4) h ≡ some (tt, g))
        × Whole g yss (xs ++ merge pre t.size ys)
        × (free_pairs false (xs ++ merge pre t.size ys) ≡ free_pairs false (xs ++ (pre ∷ t ∷ ys)))
        × ((x : ℕ)
            → payload_at h.heap x (first h) (xs ++ merge pre t.size ys) ≡ true
            → g.word x ≡ h.word x)
  mm_free_lem w plain =
      let (g, yss, zs, i, j, ws, runs, merged, tiles) = mm_free-Merged w plain in
      (
        g,
        yss,
        runs,
        subst (λ l. Whole g yss l) tiles merged.whole,
        free_pairs-merge false xs pre t ys used,
        λ x p.
            Merged-payload h xss (xs ++ (pre ∷ t ∷ ys)) g yss zs ws i j x w merged
              (subst (λ l. payload_at h.heap x (first h) l ≡ true) (sym tiles) p)
              (ground (
                arith,
                payload_at-append h.heap x h.word (first h) k xs (merge pre t.size ys) low,
                payload_at-append h.heap x h.word (first h) k xs (pre ∷ t ∷ ys) low,
                payload-merge h.heap x k pre t ys,
              )),
      )
