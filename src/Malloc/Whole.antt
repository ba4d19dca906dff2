-- ===== src/Malloc/Whole.antt =====
-- The heap of malloc/lab/mm.c as a whole: its blocks, one behind the other, and its free lists.
pub mod Opening
pub mod Closing
pub mod Blocks
pub mod Tags
pub mod Coalesce
pub mod Merging
pub mod Payload
pub mod Pairs
pub mod Free
pub mod Split
pub mod Place
pub mod Wider
pub mod Extend
pub mod Allocate
pub mod Fit
pub mod Request
pub mod Begin
pub mod Init
pub mod Tests
use csapp_labs.Base.{
  ℕ, zero, suc, ◌+◌, ◌-◌, ◌%◌, ◌≤◌, ◌<◌, ◌≡◌, ◌≢◌, refl, sym, ◌∙◌, Bool, true, false, not, ◌&&◌,
  ◌||◌, List, [], ◌∷◌, ◌++◌, ◌==◌, ◌^◌, length, ltb, arith, Bool-cases, inl, inr,
}
use mathlib.Core.Path.{subst}
use csapp_labs.Base.Member.{has, distinct, has-append}
use csapp_labs.Malloc.Memlib.{Heap, in_heap}
use csapp_labs.Malloc.Words.{pred, succ, hdrp, n_lists}
use csapp_labs.Malloc.Chain.{IsNode}
use csapp_labs.Malloc.Chain.Find.{FreeLists, all_blocks}
use csapp_labs.Malloc.Chain.All.{nodes, Unlinked, SameBounds}
use csapp_labs.Malloc.Tiles.{
  Tile, tag, Tiles, free_at, used_at, tile_at, link_at, Tiles-le, Tiles-aligned, tile_at-between,
  tile_at-aligned, link_at-tile, Tiles-frame, link_at-end,
}

-- The bounds of the heap: the blocks start behind a word of padding, the last word is the epilogue,
-- and not more than 2 ^ 24 bytes are in use, so that every size has a free list.
pub record Framed (h : Heap) : Type 0 where
  pub start_aligned : h.mem_start_brk % 8 ≡ 0
  pub brk_above : h.mem_start_brk + 8 ≤ h.mem_brk
  pub epilogue : h.word (h.mem_brk - 4) ≡ 1
  pub small : h.mem_brk ≤ h.mem_start_brk + 2 ^ 24
  pub counted : length h.heap ≡ n_lists

-- The header of the first block, and the epilogue.
abbrev pub first : Heap → ℕ
first h = h.mem_start_brk + 4

abbrev pub last : Heap → ℕ
last h = h.mem_brk - 4

-- A heap with a hole from `m` to `n` between the blocks `xs` and `ys`: the free lists hold exactly
-- the free blocks outside the hole, and their heads are blocks that are never freed.
pub record Holed (h : Heap) (xss : List (List ℕ)) (xs : List Tile) (m n : ℕ) (ys : List Tile)
    : Type 0 where
  pub framed : Framed h
  pub low : Tiles h.word (first h) xs m
  pub high : Tiles h.word n ys (last h)
  pub room : m + 16 ≤ n
  pub top_aligned : n % 8 ≡ 4
  pub lists : FreeLists h h.heap xss
  pub apart : distinct (nodes h.heap xss) ≡ true
  pub heads : (q : ℕ) → has q h.heap ≡ true → (used_at q (first h) xs || used_at q n ys) ≡ true
  pub blocks : (q : ℕ) → has q (all_blocks xss) ≡ (free_at q (first h) xs || free_at q n ys)

-- A heap without a hole.
pub record Whole (h : Heap) (xss : List (List ℕ)) (ts : List Tile) : Type 0 where
  pub framed : Framed h
  pub tiles : Tiles h.word (first h) ts (last h)
  pub lists : FreeLists h h.heap xss
  pub apart : distinct (nodes h.heap xss) ≡ true
  pub heads : (q : ℕ) → has q h.heap ≡ true → used_at q (first h) ts ≡ true
  pub blocks : (q : ℕ) → has q (all_blocks xss) ≡ free_at q (first h) ts

-- A node is a head or a block of a list.
pub nodes-split :
    (h : Heap) (q : ℕ) (ps : List ℕ) (xss : List (List ℕ))
    → FreeLists h ps xss
    → has q (nodes ps xss) ≡ true
    → (has q ps || has q (all_blocks xss)) ≡ true
nodes-split h q [] xss f k = absurd (ground arith)
nodes-split h q (p ∷ ps) [] f k = absurd f
nodes-split h q (p ∷ ps) (xs ∷ xss) (n, c, d, i, f) k = ground (
  arith,
  has-append q xs (nodes ps xss),
  has-append q xs (all_blocks xss),
  nodes-split h q ps xss f,
)

pub link_ne : (x y a : ℕ) (ts : List Tile) → link_at x a ts ≡ false → link_at y a ts ≡ true → x ≢ y
link_ne x y a ts e f c = absurd (ground (arith, subst (λ z. link_at z a ts ≡ false) c e))

module _ {h : Heap} {xss : List (List ℕ)} {xs ys : List Tile} {m n : ℕ}
    (o : Holed h xss xs m n ys) where
  -- Every node is a block outside the hole.
  pub node-tile :
      (q : ℕ) → has q (nodes h.heap xss) ≡ true → (tile_at q (first h) xs || tile_at q n ys) ≡ true
  node-tile q k = ground (arith, nodes-split h q h.heap xss o.lists k, o.heads q, o.blocks q)

  -- A word outside the links of the blocks is no link of a node.
  pub not_link-Unlinked :
      (x : ℕ)
      → (x < m → link_at x (first h) xs ≡ false)
      → (n ≤ x → link_at x n ys ≡ false)
      → Unlinked x (nodes h.heap xss)
  not_link-Unlinked x a b q k = elim (Bool-cases (tile_at q (first h) xs)) [
    | inl e ↦
        let (u, v) = link_at-tile q (first h) xs e in
        let (l, r) = tile_at-between h.word q (first h) m xs o.low e in
        (
          λ c. link_ne x (q - 8) (first h) xs (a (omega arith)) u c,
          λ c. link_ne x (q - 4) (first h) xs (a (omega arith)) v c,
        )
    | inr e ↦
        let i : tile_at q n ys ≡ true = ground (arith, node-tile q k) in
        let (u, v) = link_at-tile q n ys i in
        let (l, r) = tile_at-between h.word q n (last h) ys o.high i in
        (
          λ c. link_ne x (q - 8) n ys (b (omega arith)) u c,
          λ c. link_ne x (q - 4) n ys (b (omega arith)) v c,
        )
  ]

  -- The tiles and the epilogue are out of the reach of what changes the links of the nodes.
  module _ (v : ℕ → ℕ) (same : (x : ℕ) → Unlinked x (nodes h.heap xss) → v x ≡ h.word x) where
    pub low-kept : Tiles v (first h) xs m
    low-kept =
        Tiles-frame h.word v (first h) m xs
          (λ x i j r. same x (not_link-Unlinked x (λ z. r) (λ z. absurd (omega (arith, o.room)))))
          o.low

    pub high-kept : Tiles v n ys (last h)
    high-kept =
        Tiles-frame h.word v n (last h) ys
          (λ x i j r. same x (not_link-Unlinked x (λ z. absurd (omega (arith, o.room))) (λ z. r)))
          o.high

    pub epilogue-kept : v (last h) ≡ 1
    epilogue-kept =
        same (last h) (
          not_link-Unlinked (last h)
            (λ z. absurd (omega (arith, o.room, Tiles-le h.word n (last h) ys o.high)))
            (λ z. link_at-end h.word n (last h) ys o.high))
        ∙ o.framed.epilogue
