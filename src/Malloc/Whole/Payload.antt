-- ===== src/Malloc/Whole/Payload.antt =====
-- What the blocks that malloc/lab/mm.c has handed out hold.
use csapp_labs.Base.{
  ℕ, ◌+◌, ◌-◌, ◌≤◌, ◌<◌, ◌≡◌, refl, sym, ap, ◌∙◌, Bool, true, false, not, ◌&&◌, ◌||◌, List, [], ◌∷◌,
  ◌++◌, arith, Bool-cases, inl, inr, if◌then◌else◌, ◌⊎◌, leb,
}
use mathlib.Core.Path.{subst}
use csapp_labs.Base.Member.{has}
use csapp_labs.Malloc.Memlib.{Heap}
use csapp_labs.Malloc.Chain.All.{nodes, Unlinked}
use csapp_labs.Malloc.Tiles.{
  Tile, Tiles, Tiles-le, Tiles-split_as, free_at, tile_at, tile_at-between,
}
use csapp_labs.Malloc.Whole.{Whole, first, last, nodes-split}
use csapp_labs.Malloc.Whole.Coalesce.{free_tile, merge, merge_next}
use csapp_labs.Malloc.Whole.Merging.{Merged}

-- `x` lies between the header and the footer of an allocated block that is no head of a list.
abbrev pub payload_at : List ℕ → ℕ → ℕ → List Tile → Bool
payload_at ps x a [] = false
payload_at ps x a (t ∷ ts) =
    (t.used && not (has (a + 12) ps) && leb (a + 4) x && leb (x + 8) (a + t.size))
    || payload_at ps x (a + t.size) ts

module _ (ps : List ℕ) (x : ℕ) where
  pub payload_at-between :
      (w : ℕ → ℕ) (a e : ℕ) (ts : List Tile)
      → Tiles w a ts e
      → payload_at ps x a ts ≡ true
      → (a + 4 ≤ x) × (x + 8 ≤ e)
  payload_at-between w a e [] k i = absurd (ground arith)
  payload_at-between w a e (t ∷ ts) (h, f, b, n, k) i =
      let l = Tiles-le w (a + t.size) e ts k in
      elim (Bool-cases (payload_at ps x (a + t.size) ts)) [
        | inl j ↦ let r = payload_at-between w (a + t.size) e ts k j in (omega arith, omega arith)
        | inr j ↦ (ground arith, ground arith)
      ]

  pub payload_at-append :
      (w : ℕ → ℕ) (a m : ℕ) (xs ys : List Tile)
      → Tiles w a xs m
      → payload_at ps x a (xs ++ ys) ≡ (payload_at ps x a xs || payload_at ps x m ys)
  payload_at-append w a m [] ys k = rw k refl
  payload_at-append w a m (t ∷ xs) ys (h, f, b, n, k) =
      ground (arith, payload_at-append w (a + t.size) m xs ys k)

  -- A block with a link there is allocated, and no head.
  payload_at-link :
      (w : ℕ → ℕ) (q a e : ℕ) (ts : List Tile)
      → Tiles w a ts e
      → payload_at ps x a ts ≡ true
      → tile_at q a ts ≡ true
      → (x ≡ q - 8) ⊎ (x ≡ q - 4)
      → (free_at q a ts || has q ps) ≡ false
  payload_at-link w q a e [] k i j l = absurd (ground arith)
  payload_at-link w q a e (t ∷ ts) (h, f, b, n, k) i j l =
      let low = payload_at-between w (a + t.size) e ts k in
      let inside = tile_at-between w q (a + t.size) e ts k in
      elim (Bool-cases (tile_at q (a + t.size) ts)) [
        | inl c ↦
            let (r, s) = inside c in
            let here : payload_at ps x (a + t.size) ts ≡ true = elim l [
              | inl d ↦ ground arith
              | inr d ↦ ground arith
            ] in
            let rest = payload_at-link w q (a + t.size) e ts k here c l in ground arith
        | inr c ↦
            let q-at : q ≡ a + 12 = ground arith in
            let near : x ≤ a + 8 = elim l [ inl d ↦ omega arith | inr d ↦ omega arith ] in
            let plain : (t.used && not (has (a + 12) ps)) ≡ true = ground arith in
            rw q-at (ground arith)
      ]

-- The links of the lists lie outside.
pub payload_at-Unlinked :
    (h : Heap) (xss : List (List ℕ)) (ts : List Tile) (x : ℕ)
    → Whole h xss ts
    → payload_at h.heap x (first h) ts ≡ true
    → Unlinked x (nodes h.heap xss)
payload_at-Unlinked h xss ts x w i q k =
    let split = nodes-split h q h.heap xss w.lists k in
    let tile : tile_at q (first h) ts ≡ true = ground (arith, w.heads q, w.blocks q) in
    let no : (x ≡ q - 8) ⊎ (x ≡ q - 4) → ⊥ = λ l. absurd (
      ground (
        arith,
        payload_at-link h.heap x h.word q (first h) (last h) ts w.tiles i tile l,
        w.blocks q,
      )) in
    (λ c. no (inl c), λ c. no (inr c))

module _ (ps : List ℕ) (x : ℕ) where
  pub payload-merge_next :
      (a s : ℕ) (ys : List Tile) → payload_at ps x a (merge_next s ys) ≡ payload_at ps x (a + s) ys
  payload-merge_next a s [] = refl
  payload-merge_next a s (y ∷ ys) =
      let with_test : Bool → Bool =
        λ b. payload_at ps x a (if b then free_tile s ∷ y ∷ ys else free_tile (s + y.size) ∷ ys) in
      elim (Bool-cases y.used) [
        | inl e ↦ ap with_test e ∙ refl
        | inr e ↦
            let sum : a + (s + y.size) ≡ a + s + y.size = omega arith in
            ap with_test e ∙ ap (λ z. payload_at ps x z ys) sum ∙ ground arith
      ]

  -- The blocks that stay allocated when the block `t` is freed.
  pub payload-merge :
      (a : ℕ) (pre t : Tile) (ys : List Tile)
      → payload_at ps x a (merge pre t.size ys) ≡ true
      → payload_at ps x a (pre ∷ t ∷ ys) ≡ true
  payload-merge a pre t ys i =
      let with_test : Bool → Bool = λ b.
        payload_at ps x a
          (if b then pre ∷ merge_next t.size ys else merge_next (t.size + pre.size) ys) in
      elim (Bool-cases pre.used) [
        | inl e ↦
            let j = subst (λ b. with_test b ≡ true) e i in
            ground (arith, payload-merge_next (a + pre.size) t.size ys)
        | inr e ↦
            let j = subst (λ b. with_test b ≡ true) e i in
            let sum : a + (t.size + pre.size) ≡ a + pre.size + t.size = omega arith in
            let rest : payload_at ps x (a + pre.size + t.size) ys ≡ true =
              subst (λ z. payload_at ps x z ys ≡ true) sum
                (sym (payload-merge_next a (t.size + pre.size) ys) ∙ j) in
            ground arith
      ]

-- The block that has been merged is none of them.
pub Merged-outside :
    (h : Heap) (xss : List (List ℕ)) (g : Heap) (yss : List (List ℕ)) (zs ws : List Tile)
    (i j x : ℕ)
    → Merged h xss g yss zs i j ws
    → payload_at h.heap x (first h) (zs ++ (free_tile (j - i) ∷ ws)) ≡ true
    → (x < i) ⊎ (j ≤ x)
Merged-outside h xss g yss zs ws i j x r k =
    let start : first g ≡ first h = ap (λ a. a + 4) r.bounds.start in
    let front = subst (λ a. Tiles g.word a zs i) start r.front in
    let all =
      subst (λ a. Tiles g.word a (zs ++ (free_tile (j - i) ∷ ws)) (last g)) start r.whole.tiles in
    let (_, back) =
      Tiles-split_as g.word g.word (first h) i (last g) zs (free_tile (j - i) ∷ ws) front all in
    elim (Bool-cases (payload_at h.heap x (first h) zs)) [
      | inl e ↦ inl (omega (arith, payload_at-between h.heap x g.word (first h) i zs front e))
      | inr e ↦
          let f : payload_at h.heap x (i + (j - i)) ws ≡ true = ground (
            arith,
            payload_at-append h.heap x g.word (first h) i zs (free_tile (j - i) ∷ ws) front,
          ) in
          inr (omega (arith, payload_at-between h.heap x g.word (i + (j - i)) (last g) ws back.4 f))
    ]

-- The words of the blocks that are still allocated have not changed.
pub Merged-payload :
    (h : Heap) (xss : List (List ℕ)) (ts : List Tile) (g : Heap) (yss : List (List ℕ))
    (zs ws : List Tile) (i j x : ℕ)
    → Whole h xss ts
    → Merged h xss g yss zs i j ws
    → payload_at h.heap x (first h) (zs ++ (free_tile (j - i) ∷ ws)) ≡ true
    → payload_at h.heap x (first h) ts ≡ true
    → g.word x ≡ h.word x
Merged-payload h xss ts g yss zs ws i j x w r k l =
    r.spares x (payload_at-Unlinked h xss ts x w l) (Merged-outside h xss g yss zs ws i j x r k)
