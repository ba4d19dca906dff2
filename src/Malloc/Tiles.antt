-- ===== src/Malloc/Tiles.antt =====
-- The blocks of malloc/lab/mm.c as tiles of the heap: a header and a footer with the size of the
-- block and the bit that says whether it is allocated.
use csapp_labs.Base.{
  ℕ, ◌+◌, ◌-◌, ◌%◌, ◌≤◌, ◌<◌, ◌≡◌, refl, sym, ◌∙◌, Bool, true, false, not, ◌&&◌, ◌||◌, List, [],
  ◌∷◌, ◌++◌, ◌==◌, arith, Bool-cases, inl, inr,
}
use mathlib.Core.Path.{subst}
use csapp_labs.Malloc.Words.{pack}

pub record Tile : Type 0 where
  pub size : ℕ
  pub used : Bool

-- The word of a header and of a footer.
abbrev pub tag : Tile → ℕ
tag t = pack t.size t.used

-- From the address `a` to the address `e` the memory is the blocks `ts`.
abbrev pub Tiles : (ℕ → ℕ) → ℕ → List Tile → ℕ → Type 0
Tiles w a [] e = a ≡ e
Tiles w a (t ∷ ts) e =
    (w a ≡ tag t)
    × (w (a + t.size - 4) ≡ tag t)
    × (16 ≤ t.size)
    × (t.size % 8 ≡ 0)
    × Tiles w (a + t.size) ts e

-- `q` is the pointer of a free block, of an allocated one, or of either.
abbrev pub free_at : ℕ → ℕ → List Tile → Bool
free_at q a [] = false
free_at q a (t ∷ ts) = ((q == a + 12) && not t.used) || free_at q (a + t.size) ts

abbrev pub used_at : ℕ → ℕ → List Tile → Bool
used_at q a [] = false
used_at q a (t ∷ ts) = ((q == a + 12) && t.used) || used_at q (a + t.size) ts

abbrev pub tile_at : ℕ → ℕ → List Tile → Bool
tile_at q a ts = free_at q a ts || used_at q a ts

-- `x` is the address of the word PRED or SUCC of a block.
abbrev pub link_at : ℕ → ℕ → List Tile → Bool
link_at x a [] = false
link_at x a (t ∷ ts) = ((x == a + 4) || (x == a + 8)) || link_at x (a + t.size) ts

pub Tiles-le : (w : ℕ → ℕ) (a e : ℕ) (ts : List Tile) → Tiles w a ts e → a ≤ e
Tiles-le w a e [] k = omega arith
Tiles-le w a e (t ∷ ts) (h, f, b, m, k) = omega (arith, Tiles-le w (a + t.size) e ts k)

pub Tiles-aligned : (w : ℕ → ℕ) (a e : ℕ) (ts : List Tile) → a % 8 ≡ 4 → Tiles w a ts e → e % 8 ≡ 4
Tiles-aligned w a e [] m k = omega arith
Tiles-aligned w a e (t ∷ ts) m (h, f, b, n, k) = Tiles-aligned w (a + t.size) e ts (omega arith) k

pub Tiles-join :
    (w : ℕ → ℕ) (a m e : ℕ) (xs ys : List Tile)
    → Tiles w a xs m
    → Tiles w m ys e
    → Tiles w a (xs ++ ys) e
Tiles-join w a m e [] ys k l = subst (λ x. Tiles w x ys e) (sym k) l
Tiles-join w a m e (t ∷ xs) ys (h, f, b, n, k) l =
    (h, f, b, n, Tiles-join w (a + t.size) m e xs ys k l)

pub Tiles-split :
    (w : ℕ → ℕ) (a e : ℕ) (xs ys : List Tile)
    → Tiles w a (xs ++ ys) e
    → (m : ℕ) × Tiles w a xs m × Tiles w m ys e
Tiles-split w a e [] ys k = (a, refl, k)
Tiles-split w a e (t ∷ xs) ys (h, f, b, n, k) =
    let (m, i, j) = Tiles-split w (a + t.size) e xs ys k in (m, (h, f, b, n, i), j)

-- Where a block and its links lie.
pub tile_at-between :
    (w : ℕ → ℕ) (q a e : ℕ) (ts : List Tile)
    → Tiles w a ts e
    → tile_at q a ts ≡ true
    → (a + 12 ≤ q) × (q + 4 ≤ e)
tile_at-between w q a e [] k i = absurd (ground arith)
tile_at-between w q a e (t ∷ ts) (h, f, b, n, k) i =
    let l = Tiles-le w (a + t.size) e ts k in
    elim (Bool-cases (tile_at q (a + t.size) ts)) [
      | inl j ↦ let r = tile_at-between w q (a + t.size) e ts k j in (omega arith, omega arith)
      | inr j ↦ (ground arith, ground arith)
    ]

pub tile_at-aligned :
    (w : ℕ → ℕ) (q a e : ℕ) (ts : List Tile)
    → a % 8 ≡ 4
    → Tiles w a ts e
    → tile_at q a ts ≡ true
    → q % 8 ≡ 0
tile_at-aligned w q a e [] m k i = absurd (ground arith)
tile_at-aligned w q a e (t ∷ ts) m (h, f, b, n, k) i =
    elim (Bool-cases (tile_at q (a + t.size) ts)) [
      | inl j ↦ tile_at-aligned w q (a + t.size) e ts (omega arith) k j
      | inr j ↦ ground arith
    ]

link_at-below :
    (w : ℕ → ℕ) (x a e : ℕ) (ts : List Tile) → Tiles w a ts e → x < a + 4 → link_at x a ts ≡ false
link_at-below w x a e [] k m = refl
link_at-below w x a e (t ∷ ts) (h, f, b, n, k) m =
    ground (arith, link_at-below w x (a + t.size) e ts k)

pub link_at-tile :
    (q a : ℕ) (ts : List Tile)
    → tile_at q a ts ≡ true
    → (link_at (q - 8) a ts ≡ true) × (link_at (q - 4) a ts ≡ true)
link_at-tile q a [] i = absurd (ground arith)
link_at-tile q a (t ∷ ts) i = elim (Bool-cases (tile_at q (a + t.size) ts)) [
  | inl j ↦ let r = link_at-tile q (a + t.size) ts j in (ground arith, ground arith)
  | inr j ↦ (ground arith, ground arith)
]

-- Behind the blocks there is no link.
pub link_at-end : (w : ℕ → ℕ) (a e : ℕ) (ts : List Tile) → Tiles w a ts e → link_at e a ts ≡ false
link_at-end w a e [] k = refl
link_at-end w a e (t ∷ ts) (h, f, b, n, k) =
    let l = Tiles-le w (a + t.size) e ts k in ground (arith, link_at-end w (a + t.size) e ts k)

-- Only the words of the blocks count, and their links do not.
pub Tiles-frame :
    (w v : ℕ → ℕ) (a e : ℕ) (ts : List Tile)
    → ((x : ℕ) → a ≤ x → x < e → link_at x a ts ≡ false → v x ≡ w x)
    → Tiles w a ts e
    → Tiles v a ts e
Tiles-frame w v a e [] s k = k
Tiles-frame w v a e (t ∷ ts) s (h, f, b, n, k) =
    let l = Tiles-le w (a + t.size) e ts k in
    (
      s a (omega arith) (omega arith) (ground (arith, link_at-below w a (a + t.size) e ts k)) ∙ h,
      s (a + t.size - 4) (omega arith) (omega arith)
            (ground (arith, link_at-below w (a + t.size - 4) (a + t.size) e ts k))
          ∙ f,
      b,
      n,
      Tiles-frame w v (a + t.size) e ts (λ x i j r. s x (omega arith) j (ground arith)) k,
    )

module _ (w : ℕ → ℕ) (q : ℕ) (ys : List Tile) where
  pub free_at-append :
      (a m : ℕ) (xs : List Tile)
      → Tiles w a xs m
      → free_at q a (xs ++ ys) ≡ (free_at q a xs || free_at q m ys)
  free_at-append a m [] k = rw k refl
  free_at-append a m (t ∷ xs) (h, f, b, n, k) = ground (arith, free_at-append (a + t.size) m xs k)

  pub used_at-append :
      (a m : ℕ) (xs : List Tile)
      → Tiles w a xs m
      → used_at q a (xs ++ ys) ≡ (used_at q a xs || used_at q m ys)
  used_at-append a m [] k = rw k refl
  used_at-append a m (t ∷ xs) (h, f, b, n, k) = ground (arith, used_at-append (a + t.size) m xs k)

-- Where tiles end depends on their sizes only.
Tiles-end : (w v : ℕ → ℕ) (a m n : ℕ) (xs : List Tile) → Tiles w a xs m → Tiles v a xs n → n ≡ m
Tiles-end w v a m n [] k l = sym l ∙ k
Tiles-end w v a m n (t ∷ xs) (h, f, b, c, k) (h', f', b', c', l) =
    Tiles-end w v (a + t.size) m n xs k l

-- Tiles split where they split before.
pub Tiles-split_as :
    (w v : ℕ → ℕ) (a m e : ℕ) (xs ys : List Tile)
    → Tiles w a xs m
    → Tiles v a (xs ++ ys) e
    → Tiles v a xs m × Tiles v m ys e
Tiles-split_as w v a m e xs ys k l =
    let (n, i, j) = Tiles-split v a e xs ys l in
    let s = Tiles-end w v a m n xs k i in
    (subst (λ x. Tiles v a xs x) s i, subst (λ x. Tiles v x ys e) s j)
