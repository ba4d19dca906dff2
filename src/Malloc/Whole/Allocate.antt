-- ===== src/Malloc/Whole/Allocate.antt =====
-- What `mm_malloc` of malloc/lab/mm.c promises to its callers, and the part of it that `place` does.
use csapp_labs.Base.{
  ℕ, ◌+◌, ◌-◌, ◌%◌, ◌≤◌, ◌≡◌, sym, ap, ◌∙◌, true, false, List, ◌∷◌, ◌++◌, arith, Bool-cases, inl,
  inr, some, ◌⊎◌, leb,
}
use mathlib.Core.Path.{subst, subst₂}
use csapp_labs.Base.Member.{has}
use csapp_labs.Malloc.Memlib.{Heap}
use csapp_labs.Malloc.Mm.{place}
use csapp_labs.Malloc.Tiles.{
  Tile, Tiles, Tiles-aligned, Tiles-split_as, tile_at-between, used_at-append,
}
use csapp_labs.Malloc.Whole.{Whole, first, last}
use csapp_labs.Malloc.Whole.Coalesce.{merge_next}
use csapp_labs.Malloc.Whole.Payload.{
  payload_at, payload_at-append, payload_at-between, payload-merge_next,
}
use csapp_labs.Malloc.Whole.Place.{placed, place-Placed}

-- `g` is the heap when `size` bytes at `p` have been allocated in the whole heap `h` with the blocks
-- `old`: the heap is whole, the bytes are payload, and the words that were payload before still are,
-- have not changed, and lie outside of them.
pub record Allocated (h : Heap) (old : List Tile) (size p : ℕ) (g : Heap) : Type 0 where
  pub free : List (List ℕ)
  pub blocks : List Tile
  pub whole : Whole g free blocks
  pub aligned : p % 8 ≡ 0
  pub new : (x : ℕ) → p ≤ x → x + 4 ≤ p + size → payload_at g.heap x (first g) blocks ≡ true
  pub kept :
      (x : ℕ)
      → payload_at h.heap x (first h) old ≡ true
      → (g.word x ≡ h.word x)
        × (payload_at g.heap x (first g) blocks ≡ true)
        × ((x + 4 ≤ p) ⊎ (p + size ≤ x))

module _ (ps : List ℕ) (x m asize : ℕ) (t : Tile) (ys : List Tile) (fits : asize ≤ t.size) where
  placed-new :
      has (m + 12) ps ≡ false
      → m + 4 ≤ x
      → x + 8 ≤ m + asize
      → payload_at ps x m (placed t asize ys) ≡ true
  placed-new e a b = elim (Bool-cases (leb 16 (t.size - asize))) [
    | inl f ↦ rw f (ground arith)
    | inr f ↦ rw f (ground arith)
  ]

  placed-old :
      t.used ≡ false
      → payload_at ps x m (t ∷ ys) ≡ true
      → payload_at ps x m (placed t asize ys) ≡ true
  placed-old e k =
      let rest : payload_at ps x (m + t.size) ys ≡ true = ground arith in
      elim (Bool-cases (leb 16 (t.size - asize))) [
        | inl f ↦
            let sum : m + asize + (t.size - asize) ≡ m + t.size = omega arith in
            let r : payload_at ps x (m + asize) (merge_next (t.size - asize) ys) ≡ true =
              payload-merge_next ps x (m + asize) (t.size - asize) ys
              ∙ ap (λ z. payload_at ps x z ys) sum
              ∙ rest in
            rw f (ground arith)
        | inr f ↦ rw f (ground arith)
      ]

module _ (h : Heap) (xss : List (List ℕ)) (xs : List Tile) (t : Tile) (ys : List Tile)
    (m asize size : ℕ) (free : t.used ≡ false) (low : Tiles h.word (first h) xs m)
    (w : Whole h xss (xs ++ (t ∷ ys))) (big : 16 ≤ asize) (aligned : asize % 8 ≡ 0)
    (fits : asize ≤ t.size) (enough : size + 8 ≤ asize) where
  here : Tiles h.word m (t ∷ ys) (last h)
  here = (Tiles-split_as h.word h.word (first h) m (last h) xs (t ∷ ys) low w.tiles).1

  -- A free block is no head.
  free_head : has (m + 12) h.heap ≡ false
  free_head = elim (Bool-cases (has (m + 12) h.heap)) [
    | inl e ↦ absurd (
        ground (
          arith,
          w.heads (m + 12) e,
          used_at-append h.word (m + 12) (t ∷ ys) (first h) m xs low,
          tile_at-between h.word (m + 12) (first h) m xs low,
          tile_at-between h.word (m + 12) (m + t.size) (last h) ys here.4,
          here.2,
        ))
    | inr e ↦ e
  ]

  pub place-Allocated :
      (g : Heap) × (place (m + 12) asize h ≡ some (m + 4, g))
      × Allocated h (xs ++ (t ∷ ys)) size (m + 4) g
  place-Allocated =
      let p = place-Placed h xss xs t ys m asize free low w big aligned fits in
      let g = p.heap in
      let start : first h ≡ first g = ap (λ a. a + 4) (sym p.bounds.start) in
      let new_blocks = xs ++ placed t asize ys in
      let here_to_there : (x : ℕ)
          → payload_at h.heap x (first h) new_blocks ≡ true
          → payload_at g.heap x (first g) new_blocks ≡ true =
        λ x k. subst₂ (λ l a. payload_at l x a new_blocks ≡ true) (sym p.bounds.lists) start k in
      let at : m + 12 - 8 ≡ m + 4 = omega arith in
      (
        g,
        subst (λ a. place (m + 12) asize h ≡ some (a, g)) at p.runs,
        record {
          free = p.free;
          blocks = new_blocks;
          whole = p.whole;
          aligned = omega (
            arith,
            Tiles-aligned h.word (first h) m xs (omega (arith, w.framed.start_aligned)) low,
          );
          new = λ x a b. here_to_there x (
              ground (
                arith,
                payload_at-append h.heap x h.word (first h) m xs (placed t asize ys) low,
                placed-new h.heap x m asize t ys fits free_head (omega arith) (omega arith),
              ));
          kept = λ x k.
              let both = payload_at-append h.heap x h.word (first h) m xs (t ∷ ys) low in
              (
                p.kept x k,
                here_to_there x (
                    ground (
                      arith,
                      both,
                      payload_at-append h.heap x h.word (first h) m xs (placed t asize ys) low,
                      placed-old h.heap x m asize t ys fits free,
                    )),
                elim (Bool-cases (payload_at h.heap x (first h) xs)) [
                  | inl e ↦
                      inl (omega (arith, payload_at-between h.heap x h.word (first h) m xs low e))
                  | inr e ↦
                      let f : payload_at h.heap x (m + t.size) ys ≡ true = ground arith in
                      inr (
                        omega (
                          arith,
                          payload_at-between h.heap x h.word (m + t.size) (last h) ys here.4 f,
                        ))
                ],
              );
        },
      )
