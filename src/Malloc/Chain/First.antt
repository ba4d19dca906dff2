-- ===== src/Malloc/Chain/First.antt =====
-- Which block `find_fit` of malloc/lab/mm.c returns.
use csapp_labs.Base.{
  ℕ, ◌+◌, ◌≡◌, refl, ap, sym, true, false, some, List, [], ◌∷◌, ◌++◌, ◌==◌, leb, arith, Bool-cases,
  inl, inr, ◌⊎◌, if◌then◌else◌, ==_iff,
}
use mathlib.Core.Path.{subst}
use csapp_labs.Base.Member.{has}
use csapp_labs.Malloc.Memlib.{Heap}
use csapp_labs.Malloc.Mm.{find_fit}
use csapp_labs.Malloc.Words.{max_size}
use csapp_labs.Malloc.Chain.Find.{
  fits, first_fit, search_lists, FreeLists, find_lists-search_lists, all_blocks, all_below_class,
  below_class-fits, Chain-has_zero,
}

-- `r` is the first of the blocks `bs` that is large enough: none before it is. Or it is 0, and none
-- of them is.
abbrev pub First : Heap → ℕ → List ℕ → ℕ → Type 0
First h size bs r =
    ((xs : List ℕ) × (ys : List ℕ) × (bs ≡ xs ++ (r ∷ ys))
      × (fits h size r ≡ true)
      × ((b : ℕ) → has b xs ≡ true → fits h size b ≡ false))
    ⊎ ((r ≡ 0) × ((b : ℕ) → has b bs ≡ true → fits h size b ≡ false))

module _ (h : Heap) (size : ℕ) where
  fits-cons :
      (x b : ℕ) (xs : List ℕ)
      → fits h size x ≡ false
      → ((c : ℕ) → has c xs ≡ true → fits h size c ≡ false)
      → has b (x ∷ xs) ≡ true
      → fits h size b ≡ false
  fits-cons x b xs e k m = elim (Bool-cases (b == x)) [
    | inl s ↦ let same : b ≡ x = (==_iff b x).0 s in rw same e
    | inr s ↦ k b (ground arith)
  ]

  first_fit-First : (bs : List ℕ) → First h size bs (first_fit h size bs)
  first_fit-First [] = inr (refl, λ b k. absurd (ground arith))
  first_fit-First (x ∷ bs) = elim (Bool-cases (fits h size x)) [
    | inl e ↦ rw e (inl ([], bs, refl, e, λ b k. absurd (ground arith)))
    | inr e ↦ rw e (elim (first_fit-First bs) [
      | inl (xs, ys, at, fit, before) ↦
          inl (x ∷ xs, ys, ap (λ l. x ∷ l) at, fit, λ b k. fits-cons x b xs e before k)
      | inr (z, all) ↦ inr (z, λ b k. fits-cons x b bs e all k)
    ])
  ]

  first_fit-none :
      (xs : List ℕ) → ((b : ℕ) → has b xs ≡ true → fits h size b ≡ false) → first_fit h size xs ≡ 0
  first_fit-none [] k = refl
  first_fit-none (x ∷ xs) k =
      rw (k x (ground (arith, ==_iff x x))) (first_fit-none xs (λ b m. k b (ground arith)))

  first_fit-append :
      (xs ys : List ℕ)
      → has 0 xs ≡ false
      → first_fit h size (xs ++ ys)
        ≡ (if first_fit h size xs == 0 then first_fit h size ys else first_fit h size xs)
  first_fit-append [] ys n = refl
  first_fit-append (x ∷ xs) ys n = elim (Bool-cases (fits h size x)) [
    | inl e ↦ let z : (x == 0) ≡ false = ground arith in rw (e, z) refl
    | inr e ↦ rw e (first_fit-append xs ys (ground arith))
  ]

  search_lists-first_fit :
      (i : ℕ) (ps : List ℕ) (xss : List (List ℕ))
      → FreeLists h ps xss
      → all_below_class h i xss ≡ true
      → search_lists h size i xss ≡ first_fit h size (all_blocks xss)
  search_lists-first_fit i [] [] f u = refl
  search_lists-first_fit i [] (xs ∷ xss) f u = absurd f
  search_lists-first_fit i (p ∷ ps) [] f u = absurd f
  search_lists-first_fit i (p ∷ ps) (xs ∷ xss) f u =
      let rest = search_lists-first_fit (i + 1) ps xss f.4 (ground arith) in
      let both = first_fit-append xs (all_blocks xss) (Chain-has_zero h p xs f.1) in
      elim (Bool-cases (leb size (max_size i))) [
        | inl e ↦
            rw (e, both, rest)
              (elim (Bool-cases (first_fit h size xs == 0)) [
                | inl z ↦ rw z refl
                | inr z ↦ rw z refl
              ])
        | inr e ↦
            let none_fits =
              first_fit-none xs (λ b k. below_class-fits h size i b xs (ground arith) e k) in
            rw (e, both, none_fits) rest
      ]

-- `find_fit` ends, reads the heap and does not change it. When every block of the i-th list has at
-- most the size 2 ^ i, it returns the first block that is large enough, in the order of the lists and
-- in the order of the blocks in each; or NULL, and no free block is large enough.
pub find_fit-First :
    (h : Heap) (size : ℕ) (xss : List (List ℕ))
    → FreeLists h h.heap xss
    → all_below_class h 0 xss ≡ true
    → (r : ℕ) × (find_fit size h ≡ some (r, h)) × First h size (all_blocks xss) r
unfolding find_fit
find_fit-First h size xss f u = (
  search_lists h size 0 xss,
  find_lists-search_lists h size 0 h.heap xss f,
  subst (First h size (all_blocks xss)) (sym (search_lists-first_fit h size 0 h.heap xss f u))
      (first_fit-First h size (all_blocks xss)),
)
