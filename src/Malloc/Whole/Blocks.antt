-- ===== src/Malloc/Whole/Blocks.antt =====
-- The hole of a heap of malloc/lab/mm.c becomes a block.
use csapp_labs.Base.{
  ℕ, ◌+◌, ◌-◌, ◌%◌, ◌≤◌, ◌<◌, ◌≡◌, ◌≢◌, refl, sym, ◌∙◌, true, false, ◌||◌, List, ◌∷◌, ◌++◌, ◌==◌,
  arith, Bool-cases, inl, inr, some, get_elem?, if◌then◌else◌,
}
use mathlib.Core.Path.{subst}
use csapp_labs.Base.Member.{has}
use csapp_labs.Malloc.Memlib.{Heap}
use csapp_labs.Malloc.Mm.{heap_add}
use csapp_labs.Malloc.Words.{hdrp, size_class, size_of}
use csapp_labs.Malloc.Words.Sizes.{pack_fields}
use csapp_labs.Malloc.Chain.{IsNode}
use csapp_labs.Malloc.Chain.Add.{added}
use csapp_labs.Malloc.Chain.All.{nodes, Unlinked}
use csapp_labs.Malloc.Chain.All.Put.{Put, heap_add-Put}
use csapp_labs.Malloc.Tiles.{Tile, tag, Tiles, Tiles-join, free_at-append, used_at-append}
use csapp_labs.Malloc.Whole.{
  Holed, Whole, first, last, not_link-Unlinked, low-kept, high-kept, epilogue-kept,
}
use csapp_labs.Malloc.Whole.Opening.{Framed-words}
use csapp_labs.Malloc.Whole.Closing.{above, below, low_aligned, node-outside, inside}

-- The tags of a block stand in the hole.
pub record Tagged (h : Heap) (m n : ℕ) (t : Tile) : Type 0 where
  pub size : m + t.size ≡ n
  pub header : h.word m ≡ tag t
  pub footer : h.word (n - 4) ≡ tag t

-- Tiles, a block, and tiles.
tiles-closed :
    (w : ℕ → ℕ) (a m n e : ℕ) (xs ys : List Tile) (t : Tile)
    → Tiles w a xs m
    → Tiles w n ys e
    → m + t.size ≡ n
    → w m ≡ tag t
    → w (n - 4) ≡ tag t
    → m + 16 ≤ n
    → m % 8 ≡ 4
    → n % 8 ≡ 4
    → Tiles w a (xs ++ (t ∷ ys)) e
tiles-closed w a m n e xs ys t low high s b f r k l = Tiles-join w a m e xs (t ∷ ys) low (
  b,
  subst (λ x. w (x - 4) ≡ tag t) (sym s) f,
  omega arith,
  omega arith,
  subst (λ x. Tiles w x ys e) (sym s) high,
)

module _ {h : Heap} {xss : List (List ℕ)} {xs ys : List Tile} {m n : ℕ} (o : Holed h xss xs m n ys)
    (t : Tile) (tags : Tagged h m n t) where
  -- An allocated block.
  pub close_used : t.used ≡ true → Whole h xss (xs ++ (t ∷ ys))
  close_used u = record {
    framed = o.framed;
    tiles =
        tiles-closed h.word (first h) m n (last h) xs ys t o.low o.high tags.size tags.header
          tags.footer o.room (low_aligned o) o.top_aligned;
    lists = o.lists;
    apart = o.apart;
    heads = λ q k.
        ground
          (arith, o.heads q k, used_at-append h.word q (t ∷ ys) (first h) m xs o.low, tags.size);
    blocks = λ q.
        ground
          (arith, o.blocks q, free_at-append h.word q (t ∷ ys) (first h) m xs o.low, tags.size);
  }

  hole-IsNode : IsNode h (m + 12)
  hole-IsNode = record {
    aligned = omega (arith, low_aligned o);
    above = omega (arith, above o);
    below = omega (arith, below o, o.room, o.framed.brk_above);
  }

  not_node : has (m + 12) (nodes h.heap xss) ≡ false
  not_node = elim (Bool-cases (has (m + 12) (nodes h.heap xss))) [
    | inl e ↦ elim (node-outside o (m + 12) e).1 [
      | inl f ↦ absurd (omega arith)
      | inr f ↦ absurd (omega (arith, o.room))
    ]
    | inr e ↦ e
  ]

  -- A free block, which `heap_add` puts into the list of its size class.
  module _ (i p : ℕ) (free : t.used ≡ false) (class : size_class t.size ≡ some i)
      (slot : get_elem? h.heap i ≡ some p) where
    header-size : size_of (h.word (hdrp (m + 12))) ≡ t.size
    header-size =
        let z : hdrp (m + 12) ≡ m = omega arith in
        rw (z, tags.header)
          (pack_fields t.size t.used (omega (arith, o.top_aligned, low_aligned o, tags.size))).0

    listed :
        (yss : List (List ℕ)) × (heap_add (m + 12) h ≡ some (tt, added h p (m + 12)))
        × Put h (m + 12) p h.heap xss yss
    listed =
        heap_add-Put h (m + 12) i p xss hole-IsNode
          (ground (arith, above o, below o, o.room, o.framed.brk_above))
          (subst (λ s. size_class s ≡ some i) (sym header-size) class) slot o.lists o.apart not_node

    pub close_free :
        (yss : List (List ℕ)) × (heap_add (m + 12) h ≡ some (tt, added h p (m + 12)))
        × Whole (added h p (m + 12)) yss (xs ++ (t ∷ ys))
        × ((x : ℕ)
            → Unlinked x (nodes h.heap xss)
            → x ≢ m + 4
            → x ≢ m + 8
            → (added h p (m + 12)).word x ≡ h.word x)
    close_free =
        let (yss, runs, put) = listed in
        let g = added h p (m + 12) in
        let v : ℕ → ℕ = λ x. if (x == m + 4) || (x == m + 8) then g.word x else h.word x in
        let o' =
          inside o v (λ x k. elim k [ inl e ↦ ground arith | inr e ↦ ground (arith, o.room) ]) in
        let same : (x : ℕ) → Unlinked x (nodes h.heap xss) → g.word x ≡ v x = λ x u.
          elim (Bool-cases ((x == m + 4) || (x == m + 8))) [
            | inl e ↦ rw e refl
            | inr e ↦
                rw e (put.spares x u (λ c. absurd (ground arith)) (λ c. absurd (ground arith)))
          ] in
        let inner : (x : ℕ) → m ≤ x → x < n → x ≢ m + 4 → x ≢ m + 8 → g.word x ≡ h.word x =
          λ x a b c d.
            put.spares x
              (not_link-Unlinked o x (λ z. absurd (omega arith)) (λ z. absurd (omega arith)))
              (λ z. c (omega arith)) (λ z. d (omega arith)) in
        (
          yss,
          runs,
          record {
            framed = Framed-words h g.word o.framed (epilogue-kept o' g.word same);
            tiles =
                tiles-closed g.word (first h) m n (last h) xs ys t (low-kept o' g.word same)
                  (high-kept o' g.word same) tags.size
                  (inner m (omega arith) (omega (arith, o.room)) (λ c. omega arith)
                      (λ c. omega arith)
                    ∙ tags.header)
                  (inner (n - 4) (omega (arith, o.room)) (omega (arith, o.room))
                      (λ c. omega (arith, o.room)) (λ c. omega (arith, o.room))
                    ∙ tags.footer)
                  o.room (low_aligned o) o.top_aligned;
            lists = put.lists;
            apart = put.apart;
            heads = λ q k. ground (
              arith,
              o.heads q k,
              used_at-append h.word q (t ∷ ys) (first h) m xs o.low,
              tags.size,
            );
            blocks = λ q. ground (
              arith,
              put.blocks q,
              o.blocks q,
              free_at-append h.word q (t ∷ ys) (first h) m xs o.low,
              tags.size,
            );
          },
          λ x u a b. put.spares x u (λ c. a (omega arith)) (λ c. b (omega arith)),
        )
