-- ===== src/Malloc/Whole/Split.antt =====
-- The lower part of a hole in a heap of malloc/lab/mm.c becomes an allocated block.
use csapp_labs.Base.{
  ℕ, ◌+◌, ◌-◌, ◌%◌, ◌≤◌, ◌≡◌, ◌≢◌, refl, true, List, [], ◌∷◌, ◌++◌, arith, inl, inr, some,
}
use csapp_labs.Malloc.Memlib.{Heap}
use csapp_labs.Malloc.Mm.{mark}
use csapp_labs.Malloc.Mm.Boundary.{marked, mark-marked}
use csapp_labs.Malloc.Words.{pack}
use csapp_labs.Malloc.Tiles.{Tile, Tiles-join, free_at-append, used_at-append}
use csapp_labs.Malloc.Whole.{Holed, first}
use csapp_labs.Malloc.Whole.Closing.{above, below, inside}

abbrev pub used_tile : ℕ → Tile
used_tile s = record { size = s; used = true }

-- The lower part of a hole becomes an allocated block.
module _ {h : Heap} {xss : List (List ℕ)} {xs ys : List Tile} {m n : ℕ} (o : Holed h xss xs m n ys)
    (a : ℕ) (big : 16 ≤ a) (aligned : a % 8 ≡ 0) (room : m + a + 16 ≤ n) where
  abbrev pub split : Heap
  split = marked h (m + 12) a true

  pub mark-split : mark (m + 12) a true h ≡ some (tt, split)
  mark-split =
      let b = o.framed.brk_above in
      mark-marked h (m + 12) a true aligned (ground (arith, above o, below o))
        (ground (arith, above o, below o))

  pub split-header : split.word m ≡ pack a true
  split-header = ground arith

  split-footer : split.word (m + a - 4) ≡ pack a true
  split-footer = ground arith

  pub split-other : (x : ℕ) → x ≢ m → x ≢ m + a - 4 → split.word x ≡ h.word x
  split-other x e f = ground arith

  pub Holed-split : Holed split xss (xs ++ (used_tile a ∷ [])) (m + a) n ys
  Holed-split =
      let o' = inside o split.word (λ x k. elim k [
        | inl e ↦ split-other x (λ c. omega arith) (λ c. omega arith)
        | inr e ↦ split-other x (λ c. omega arith) (λ c. omega arith)
      ]) in
      record {
        framed = o'.framed;
        low =
            Tiles-join split.word (first h) m (m + a) xs (used_tile a ∷ []) o'.low
              (split-header, split-footer, big, aligned, refl);
        high = o'.high;
        room = room;
        top_aligned = o.top_aligned;
        lists = o'.lists;
        apart = o.apart;
        heads = λ q k. ground (
          arith,
          o.heads q k,
          used_at-append split.word q (used_tile a ∷ []) (first h) m xs o'.low,
        );
        blocks = λ q. ground (
          arith,
          o.blocks q,
          free_at-append split.word q (used_tile a ∷ []) (first h) m xs o'.low,
        );
      }
