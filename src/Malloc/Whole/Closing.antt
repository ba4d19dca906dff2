-- ===== src/Malloc/Whole/Closing.antt =====
-- The hole of a heap of malloc/lab/mm.c is marked as a block, allocated or free.
use csapp_labs.Base.{
  ℕ, ◌+◌, ◌-◌, ◌%◌, ◌≤◌, ◌<◌, ◌≡◌, ◌≢◌, refl, ◌∙◌, Bool, true, List, arith, Bool-cases, inl, inr,
  some, ◌⊎◌,
}
use csapp_labs.Base.Member.{has}
use csapp_labs.Malloc.Memlib.{Heap}
use csapp_labs.Malloc.Mm.{mark}
use csapp_labs.Malloc.Mm.Boundary.{marked, mark-marked}
use csapp_labs.Malloc.Words.{pack}
use csapp_labs.Malloc.Chain.All.{nodes, FreeLists-frame}
use csapp_labs.Malloc.Tiles.{Tile, tile_at, Tiles-le, Tiles-aligned, tile_at-between, Tiles-frame}
use csapp_labs.Malloc.Whole.{Holed, first, last, node-tile}
use csapp_labs.Malloc.Whole.Opening.{Framed-words}

module _ {h : Heap} {xss : List (List ℕ)} {xs ys : List Tile} {m n : ℕ}
    (o : Holed h xss xs m n ys) where
  pub above : first h ≤ m
  above = Tiles-le h.word (first h) m xs o.low

  pub below : n ≤ last h
  below = Tiles-le h.word n (last h) ys o.high

  pub low_aligned : m % 8 ≡ 4
  low_aligned = Tiles-aligned h.word (first h) m xs (omega (arith, o.framed.start_aligned)) o.low

  -- The links of a node lie outside the hole.
  pub node-outside :
      (q : ℕ) → has q (nodes h.heap xss) ≡ true → (12 ≤ q) × ((q + 4 ≤ m) ⊎ (n + 12 ≤ q))
  node-outside q k = elim (Bool-cases (tile_at q (first h) xs)) [
    | inl e ↦ let (a, b) = tile_at-between h.word q (first h) m xs o.low e in (omega arith, inl b)
    | inr e ↦
        let (a, b) =
          tile_at-between h.word q n (last h) ys o.high (ground (arith, node-tile o q k)) in
        (omega arith, inr a)
  ]

  -- Words inside the hole may change.
  pub inside :
      (v : ℕ → ℕ)
      → ((x : ℕ) → (x < m) ⊎ (n ≤ x) → v x ≡ h.word x)
      → Holed (record h { word = v }) xss xs m n ys
  inside v s = record {
    framed = Framed-words h v o.framed (s (last h) (inr below) ∙ o.framed.epilogue);
    low = Tiles-frame h.word v (first h) m xs (λ x i j r. s x (inl j)) o.low;
    high = Tiles-frame h.word v n (last h) ys (λ x i j r. s x (inr i)) o.high;
    room = o.room;
    top_aligned = o.top_aligned;
    lists =
        FreeLists-frame h (record h { word = v }) h.heap xss
          (record { start = refl; brk = refl; most = refl; lists = refl })
          (λ q k. elim (node-outside q k).1 [
            | inl e ↦ (s (q - 8) (inl (omega arith)), s (q - 4) (inl (omega arith)))
            | inr e ↦ (s (q - 8) (inr (omega arith)), s (q - 4) (inr (omega arith)))
          ])
          o.lists;
    apart = o.apart;
    heads = o.heads;
    blocks = o.blocks;
  }

  module _ (alloc : Bool) where
    -- The hole with the tags of a block.
    abbrev pub closed : Heap
    closed = marked h (m + 12) (n - m) alloc

    pub mark-hole : mark (m + 12) (n - m) alloc h ≡ some (tt, closed)
    mark-hole =
        let b = o.framed.brk_above in
        mark-marked h (m + 12) (n - m) alloc (omega (arith, low_aligned, o.top_aligned, o.room))
          (ground (arith, above, below, o.room)) (ground (arith, above, below, o.room))

    pub closed-header : closed.word m ≡ pack (n - m) alloc
    closed-header = ground (arith, o.room)

    pub closed-footer : closed.word (n - 4) ≡ pack (n - m) alloc
    closed-footer = ground (arith, o.room)

    pub closed-other : (x : ℕ) → x ≢ m → x ≢ n - 4 → closed.word x ≡ h.word x
    closed-other x a b = ground (arith, o.room)

    pub Holed-closed : Holed closed xss xs m n ys
    Holed-closed = inside closed.word (λ x k. elim k [
      | inl e ↦ closed-other x (λ c. omega arith) (λ c. omega (arith, o.room))
      | inr e ↦ closed-other x (λ c. omega (arith, o.room)) (λ c. omega (arith, o.room))
    ])
