-- ===== src/Malloc/Whole/Pairs.antt =====
-- The free neighbours among the blocks of malloc/lab/mm.c.
use csapp_labs.Base.{
  ℕ, ◌+◌, ◌≡◌, refl, ap, ◌∙◌, Bool, true, false, not, ◌&&◌, List, [], ◌∷◌, ◌++◌, if◌then◌else◌,
  arith, Bool-cases, inl, inr,
}
use csapp_labs.Malloc.Tiles.{Tile}
use csapp_labs.Malloc.Whole.Coalesce.{free_tile, merge, merge_next}

-- How many blocks are free and behind a free block; `free` says whether the block before is.
abbrev pub free_pairs : Bool → List Tile → ℕ
free_pairs free [] = 0
free_pairs free (t ∷ ts) = (if free && not t.used then 1 else 0) + free_pairs (not t.used) ts

merge_next-pairs :
    (b : Bool) (s : ℕ) (ys : List Tile)
    → free_pairs b (merge_next s ys) ≡ (if b then 1 else 0) + free_pairs false ys
merge_next-pairs true s [] = refl
merge_next-pairs false s [] = refl
merge_next-pairs b s (y ∷ ys) =
    let with_test : Bool → ℕ =
      λ c. free_pairs b (if c then free_tile s ∷ y ∷ ys else free_tile (s + y.size) ∷ ys) in
    elim (Bool-cases y.used) [
      | inl e ↦ ap with_test e ∙ ground arith
      | inr e ↦ ap with_test e ∙ ground arith
    ]

merge-pairs :
    (b : Bool) (pre t : Tile) (ys : List Tile)
    → t.used ≡ true
    → free_pairs b (merge pre t.size ys) ≡ free_pairs b (pre ∷ t ∷ ys)
merge-pairs b pre t ys u =
    let with_test : Bool → ℕ = λ c.
      free_pairs b (if c then pre ∷ merge_next t.size ys else merge_next (t.size + pre.size) ys) in
    elim (Bool-cases pre.used) [
      | inl e ↦ ap with_test e ∙ ground (arith, merge_next-pairs (not pre.used) t.size ys)
      | inr e ↦ ap with_test e ∙ merge_next-pairs b (t.size + pre.size) ys ∙ ground arith
    ]

-- A block that is freed becomes no free neighbour of another.
pub free_pairs-merge :
    (b : Bool) (xs : List Tile) (pre t : Tile) (ys : List Tile)
    → t.used ≡ true
    → free_pairs b (xs ++ merge pre t.size ys) ≡ free_pairs b (xs ++ (pre ∷ t ∷ ys))
free_pairs-merge b [] pre t ys u = merge-pairs b pre t ys u
free_pairs-merge b (x ∷ xs) pre t ys u =
    ap (λ n. (if b && not x.used then 1 else 0) + n) (free_pairs-merge (not x.used) xs pre t ys u)
