-- ===== src/Malloc/Whole/Fit.antt =====
-- The block that `find_fit` of malloc/lab/mm.c comes to, among the blocks of the heap.
use csapp_labs.Base.{
  ℕ, ◌+◌, ◌≡◌, refl, ap, true, false, not, ◌&&◌, List, [], ◌∷◌, ◌++◌, ◌==◌, arith, Bool-cases, inl,
  inr, some, ◌⊎◌, leb,
}
use csapp_labs.Base.Member.{has, has-append}
use csapp_labs.Malloc.Memlib.{Heap}
use csapp_labs.Malloc.Mm.{find_fit}
use csapp_labs.Malloc.Words.{max_size}
use csapp_labs.Malloc.Chain.Find.{
  FreeLists, all_blocks, fits, first_fit, first_fit-Found, search_lists, find_lists-search_lists,
}
use csapp_labs.Malloc.Tiles.{Tile, Tiles, free_at}

-- A block that the search comes to is in a list and large enough.
pub search_lists-hit :
    (h : Heap) (size i : ℕ) (xss : List (List ℕ))
    → (search_lists h size i xss ≡ 0)
      ⊎ ((has (search_lists h size i xss) (all_blocks xss) ≡ true)
          × (fits h size (search_lists h size i xss) ≡ true))
search_lists-hit h size i [] = inl refl
search_lists-hit h size i (xs ∷ xss) =
    let r = first_fit h size xs in
    let s = search_lists h size (i + 1) xss in
    elim (Bool-cases (leb size (max_size i) && not (r == 0))) [
      | inl e ↦ rw e (elim (first_fit-Found h size xs) [
        | inl f ↦ inr (ground (arith, has-append r xs (all_blocks xss)), f.1)
        | inr f ↦ inl f.0
      ])
      | inr e ↦ rw e (elim (search_lists-hit h size (i + 1) xss) [
        | inl f ↦ inl f
        | inr f ↦ inr (ground (arith, has-append s xs (all_blocks xss)), f.1)
      ])
    ]

pub find_fit-search :
    (h : Heap) (size : ℕ) (xss : List (List ℕ))
    → FreeLists h h.heap xss
    → find_fit size h ≡ some (search_lists h size 0 xss, h)
unfolding find_fit
find_fit-search h size xss f = find_lists-search_lists h size 0 h.heap xss f

-- A free block splits the blocks.
pub free_at-split :
    (w : ℕ → ℕ) (q a e : ℕ) (ts : List Tile)
    → Tiles w a ts e
    → free_at q a ts ≡ true
    → (xs : List Tile) × (t : Tile) × (ys : List Tile) × (m : ℕ) × (ts ≡ xs ++ (t ∷ ys))
      × Tiles w a xs m
      × (q ≡ m + 12)
      × (t.used ≡ false)
free_at-split w q a e [] k f = absurd (ground arith)
free_at-split w q a e (t ∷ ts) (h, g, b, n, k) f = elim (Bool-cases ((q == a + 12) && not t.used)) [
  | inl c ↦ ([], t, ts, a, refl, refl, ground arith, ground arith)
  | inr c ↦
      let (xs, s, ys, m, eq, low, at, free) =
        free_at-split w q (a + t.size) e ts k (ground arith) in
      (t ∷ xs, s, ys, m, ap (λ l. t ∷ l) eq, (h, g, b, n, low), at, free)
]
