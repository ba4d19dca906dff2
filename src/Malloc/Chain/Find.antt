-- ===== src/Malloc/Chain/Find.antt =====
-- `find_fit` of malloc/lab/mm.c searches the free lists.
use csapp_labs.Base.{
  ℕ, zero, suc, ◌+◌, ◌≤◌, ◌<◌, ◌≡◌, refl, Bool, true, false, not, ◌&&◌, List, [], ◌∷◌, ◌++◌, ◌==◌,
  leb, if◌then◌else◌, arith, ◌⊎◌, inl, inr, some, ==-ne, ==_iff, sym, Bool-cases, length,
}
use mathlib.Core.Path.{subst}
use csapp_labs.Malloc.Memlib.{Heap, in_heap, load-then, bind-some}
use csapp_labs.Malloc.Words.{succ, hdrp, size_of, max_size}
use csapp_labs.Malloc.Mm.{find_list, find_lists, find_fit, get_size, get_size-in_heap}
use csapp_labs.Base.Member.{has, distinct, has-append, ne_of_has}
use csapp_labs.Malloc.Chain.{IsNode, Chain, in_heap-succ}

-- A list without an element.
without : ℕ → List ℕ → List ℕ
without n [] = []
without n (x ∷ xs) = if n == x then without n xs else x ∷ without n xs

abbrev all_below : ℕ → List ℕ → Bool
all_below n [] = true
all_below n (x ∷ xs) = not (leb n x) && all_below n xs

length-without_absent : (n : ℕ) (xs : List ℕ) → has n xs ≡ false → length (without n xs) ≡ length xs
unfolding without
length-without_absent n [] h = refl
length-without_absent n (x ∷ xs) h = ground (arith, length-without_absent n xs)

length-without : (n : ℕ) (xs : List ℕ) → distinct xs ≡ true → length xs ≤ length (without n xs) + 1
unfolding without
length-without n [] d = omega arith
length-without n (x ∷ xs) d =
    ground (arith, length-without n xs, length-without_absent n xs, ==_iff n x)

has-without : (q n : ℕ) (xs : List ℕ) → has q xs ≡ false → has q (without n xs) ≡ false
unfolding without
has-without q n [] h = refl
has-without q n (x ∷ xs) h = ground (arith, has-without q n xs)

distinct-without : (n : ℕ) (xs : List ℕ) → distinct xs ≡ true → distinct (without n xs) ≡ true
unfolding without
distinct-without n [] d = refl
distinct-without n (x ∷ xs) d = ground (arith, distinct-without n xs, has-without x n xs)

all_below-without :
    (n : ℕ) (xs : List ℕ) → all_below (suc n) xs ≡ true → all_below n (without n xs) ≡ true
unfolding without
all_below-without n [] h = refl
all_below-without n (x ∷ xs) h = ground (arith, all_below-without n xs)

-- Distinct numbers below `n` are at most `n`.
length_distinct : (n : ℕ) (xs : List ℕ) → all_below n xs ≡ true → distinct xs ≡ true → length xs ≤ n
length_distinct zero [] h d = omega arith
length_distinct zero (x ∷ xs) h d = absurd (ground arith)
length_distinct (suc n) xs h d = omega (
  arith,
  length-without n xs d,
  length_distinct n (without n xs) (all_below-without n xs h) (distinct-without n xs d),
)

Chain-below : (h : Heap) (p : ℕ) (xs : List ℕ) → Chain h p xs → all_below (suc h.mem_brk) xs ≡ true
Chain-below h p [] c = refl
Chain-below h p (x ∷ xs) c = ground (arith, Chain-below h x xs)

-- The block `b` is large enough.
abbrev pub fits : Heap → ℕ → ℕ → Bool
fits h size b = leb size (size_of (h.word (hdrp b)))

-- The first block of a list that is large enough, 0 if there is none.
abbrev pub first_fit : Heap → ℕ → List ℕ → ℕ
first_fit h size [] = 0
first_fit h size (b ∷ bs) = if fits h size b then b else first_fit h size bs

abbrev pub headers_in_heap : Heap → List ℕ → Bool
headers_in_heap h [] = true
headers_in_heap h (b ∷ bs) = in_heap h (hdrp b) && headers_in_heap h bs

abbrev or_zero : List ℕ → ℕ
or_zero [] = 0
or_zero (b ∷ bs) = b

Chain-succ : (h : Heap) (p : ℕ) (xs : List ℕ) → Chain h p xs → h.word (succ p) ≡ or_zero xs
Chain-succ h p [] c = c
Chain-succ h p (x ∷ xs) c = c.0

find_list-first_fit :
    (h : Heap) (size k p : ℕ) (xs : List ℕ)
    → length xs < k
    → headers_in_heap h xs ≡ true
    → Chain h p xs
    → find_list k size (or_zero xs) h ≡ some (first_fit h size xs, h)
unfolding find_list
find_list-first_fit h size zero p xs f i c = absurd (omega arith)
find_list-first_fit h size (suc k) p [] f i c = refl
find_list-first_fit h size (suc k) p (x ∷ xs) f i c = rw (==-ne x 0 (ground arith)) (
    bind-some (get_size (hdrp x)) _ h h (size_of (h.word (hdrp x)))
      (get_size-in_heap h (hdrp x) (ground arith))
      (elim (Bool-cases (fits h size x)) [
        | inl e ↦ rw e refl
        | inr e ↦ rw e (
            load-then h (succ x) _ (in_heap-succ h x c.2) (
              rw (Chain-succ h x xs c.3)
                (find_list-first_fit h size k x xs (omega arith) (ground arith) c.3)))
      ]))

-- The free lists: a head and its blocks for each, the blocks of a list distinct and with their
-- headers inside the heap.
abbrev pub FreeLists : Heap → List ℕ → List (List ℕ) → Type 0
FreeLists h [] [] = Unit
FreeLists h [] (xs ∷ xss) = ⊥
FreeLists h (p ∷ ps) [] = ⊥
FreeLists h (p ∷ ps) (xs ∷ xss) =
    IsNode h p
    × Chain h p xs
    × (distinct xs ≡ true)
    × (headers_in_heap h xs ≡ true)
    × FreeLists h ps xss

-- The first block that is large enough, in the lists from the `i`-th on whose sizes allow it.
abbrev pub search_lists : Heap → ℕ → ℕ → List (List ℕ) → ℕ
search_lists h size i [] = 0
search_lists h size i (xs ∷ xss) =
    if leb size (max_size i) && not (first_fit h size xs == 0)
    then first_fit h size xs
    else search_lists h size (i + 1) xss

pub find_lists-search_lists :
    (h : Heap) (size i : ℕ) (ps : List ℕ) (xss : List (List ℕ))
    → FreeLists h ps xss
    → find_lists (h.mem_brk + 2) size i ps h ≡ some (search_lists h size i xss, h)
unfolding find_lists
find_lists-search_lists h size i [] [] f = refl
find_lists-search_lists h size i [] (xs ∷ xss) f = absurd f
find_lists-search_lists h size i (p ∷ ps) [] f = absurd f
find_lists-search_lists h size i (p ∷ ps) (xs ∷ xss) f =
    let rest = find_lists-search_lists h size (i + 1) ps xss f.4 in
    let short = length_distinct (suc h.mem_brk) xs (Chain-below h p xs f.1) f.2 in
    elim (Bool-cases (leb size (max_size i))) [
      | inl e ↦ rw e (
          load-then h (succ p) _ (in_heap-succ h p f.0) (
            rw (Chain-succ h p xs f.1) (
              bind-some (find_list (h.mem_brk + 2) size (or_zero xs)) _ h h (first_fit h size xs)
                (find_list-first_fit h size (h.mem_brk + 2) p xs (omega arith) f.3 f.1)
                (elim (Bool-cases (first_fit h size xs == 0)) [
                  | inl z ↦ rw z rest
                  | inr z ↦ rw z refl
                ]))))
      | inr e ↦ rw e rest
    ]

abbrev pub all_blocks : List (List ℕ) → List ℕ
all_blocks [] = []
all_blocks (xs ∷ xss) = xs ++ all_blocks xss

-- Every block of the `i`-th list has at most the size 2 ^ i.
abbrev pub below_class : Heap → ℕ → List ℕ → Bool
below_class h i [] = true
below_class h i (b ∷ bs) = leb (size_of (h.word (hdrp b))) (max_size i) && below_class h i bs

abbrev pub all_below_class : Heap → ℕ → List (List ℕ) → Bool
all_below_class h i [] = true
all_below_class h i (xs ∷ xss) = below_class h i xs && all_below_class h (i + 1) xss

-- A search over the blocks `bs` that came to `r`: a block among them that is large enough, or 0 and
-- none of them is.
abbrev pub Found : Heap → ℕ → List ℕ → ℕ → Type 0
Found h size bs r =
    ((has r bs ≡ true) × (fits h size r ≡ true))
    ⊎ ((r ≡ 0) × ((b : ℕ) → has b bs ≡ true → fits h size b ≡ false))

module _ (h : Heap) (size r : ℕ) where
  Found-here : (xs : List ℕ) → fits h size r ≡ true → Found h size (r ∷ xs) r
  Found-here xs e = inl (ground arith, e)

  Found-there :
      (x : ℕ) (xs : List ℕ) → fits h size x ≡ false → Found h size xs r → Found h size (x ∷ xs) r
  Found-there x xs e (inl f) = inl (ground arith, f.1)
  Found-there x xs e (inr f) = inr (
    f.0,
    λ b k. elim (Bool-cases (b == x)) [
      | inl s ↦ let same : b ≡ x = (==_iff b x).0 s in rw same e
      | inr s ↦ f.1 b (ground arith)
    ],
  )

  -- The first list holds the block that is found, or no block that is large enough.
  Found-left : (xs ys : List ℕ) → has r xs ≡ true → fits h size r ≡ true → Found h size (xs ++ ys) r
  Found-left xs ys k e = inl (ground (arith, has-append r xs ys), e)

  Found-right :
      (xs ys : List ℕ)
      → ((b : ℕ) → has b xs ≡ true → fits h size b ≡ false)
      → Found h size ys r
      → Found h size (xs ++ ys) r
  Found-right xs ys e (inl f) = inl (ground (arith, has-append r xs ys), f.1)
  Found-right xs ys e (inr f) = inr (
    f.0,
    λ b k. elim (Bool-cases (has b xs)) [
      | inl s ↦ e b s
      | inr s ↦ f.1 b (ground (arith, has-append b xs ys))
    ],
  )

pub first_fit-Found : (h : Heap) (size : ℕ) (xs : List ℕ) → Found h size xs (first_fit h size xs)
first_fit-Found h size [] = inr (refl, λ b k. absurd (ground arith))
first_fit-Found h size (x ∷ xs) = elim (Bool-cases (fits h size x)) [
  | inl e ↦
      let at : first_fit h size (x ∷ xs) ≡ x = rw e refl in
      subst (Found h size (x ∷ xs)) (sym at) (Found-here h size x xs e)
  | inr e ↦
      let at : first_fit h size (x ∷ xs) ≡ first_fit h size xs = rw e refl in
      subst (Found h size (x ∷ xs)) (sym at)
        (Found-there h size (first_fit h size xs) x xs e (first_fit-Found h size xs))
]

pub Chain-has_zero : (h : Heap) (p : ℕ) (xs : List ℕ) → Chain h p xs → has 0 xs ≡ false
Chain-has_zero h p [] c = refl
Chain-has_zero h p (x ∷ xs) c = ground (arith, Chain-has_zero h x xs)

-- A list whose sizes are all below the class is too small for a size above it.
pub below_class-fits :
    (h : Heap) (size i b : ℕ) (xs : List ℕ)
    → below_class h i xs ≡ true
    → leb size (max_size i) ≡ false
    → has b xs ≡ true
    → fits h size b ≡ false
below_class-fits h size i b [] u e k = absurd (ground arith)
below_class-fits h size i b (x ∷ xs) u e k = elim (Bool-cases (b == x)) [
  | inl s ↦ let same : b ≡ x = (==_iff b x).0 s in rw same (ground arith)
  | inr s ↦ below_class-fits h size i b xs (ground arith) e (ground arith)
]

search_lists-Found :
    (h : Heap) (size i : ℕ) (ps : List ℕ) (xss : List (List ℕ))
    → FreeLists h ps xss
    → all_below_class h i xss ≡ true
    → Found h size (all_blocks xss) (search_lists h size i xss)
search_lists-Found h size i [] [] f u = inr (refl, λ b k. absurd (ground arith))
search_lists-Found h size i [] (xs ∷ xss) f u = absurd f
search_lists-Found h size i (p ∷ ps) [] f u = absurd f
search_lists-Found h size i (p ∷ ps) (xs ∷ xss) f u =
    let rest = search_lists-Found h size (i + 1) ps xss f.4 (ground arith) in
    elim (Bool-cases (leb size (max_size i))) [
      | inr e ↦ rw e (
          Found-right h size _ xs (all_blocks xss)
            (λ b k. below_class-fits h size i b xs (ground arith) e k) rest)
      | inl e ↦ rw e (elim (Bool-cases (first_fit h size xs == 0)) [
        | inr z ↦ rw z (elim (first_fit-Found h size xs) [
          | inl g ↦ Found-left h size _ xs (all_blocks xss) g.0 g.1
          | inr g ↦ absurd (ground arith)
        ])
        | inl z ↦ rw z (elim (first_fit-Found h size xs) [
          | inl g ↦ absurd (
              ne_of_has 0 (first_fit h size xs) xs (Chain-has_zero h p xs f.1) g.0
                (sym ((==_iff (first_fit h size xs) 0).0 z)))
          | inr g ↦ Found-right h size _ xs (all_blocks xss) g.1 rest
        ])
      ])
    ]

-- `find_fit` ends, reads the heap and does not change it. When every block of the i-th list has at
-- most the size 2 ^ i, it returns a free block that is large enough, or NULL and no free block is.
find_fit-Found :
    (h : Heap) (size : ℕ) (xss : List (List ℕ))
    → FreeLists h h.heap xss
    → all_below_class h 0 xss ≡ true
    → (r : ℕ) × (find_fit size h ≡ some (r, h)) × Found h size (all_blocks xss) r
unfolding find_fit
find_fit-Found h size xss f u = (
  search_lists h size 0 xss,
  find_lists-search_lists h size 0 h.heap xss f,
  search_lists-Found h size 0 h.heap xss f u,
)
