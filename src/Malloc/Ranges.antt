-- ===== src/Malloc/Ranges.antt =====
-- The list of payloads of malloc/lab/mdriver.c, with which it checks what the allocator returns.
use csapp_labs.Base.{
  ℕ, zero, suc, ◌+◌, ◌-◌, ◌%◌, ◌^◌, ◌≤◌, ◌<◌, ◌≡◌, ◌≢◌, refl, ap, sym, ==-self, ==-ne, Bool, true,
  false, ◌&&◌, ◌||◌, not, Option, none, some, List, [], ◌∷◌, ◌++◌, ltb, leb, ◌==◌, if◌then◌else◌,
  arith,
}
use csapp_labs.Malloc.Memlib.{Heap, mem_heap_lo, mem_heap_hi}

-- `range_t`, without the link.
pub record Range : Type 0 where
  pub lo : ℕ
  pub hi : ℕ

-- IS_ALIGNED
abbrev pub is_aligned : ℕ → Bool
is_aligned p = p % 8 == 0

-- The loop of `add_range`: whether a payload overlaps, by its ends.
abbrev pub overlaps : ℕ → ℕ → List Range → Bool
overlaps lo hi [] = false
overlaps lo hi (p ∷ ps) =
    ((leb p.lo lo && leb lo p.hi) || (leb p.lo hi && leb hi p.hi)) || overlaps lo hi ps

-- `add_range(ranges, lo, size)`: what it returns, and the list. `none` is the failed assertion.
unfoldable pub add_range : Heap → List Range → ℕ → ℕ → Option (Bool × List Range)
add_range h ranges lo zero = none
add_range h ranges lo (suc n) =
    let hi = (lo + n) % 2 ^ 32 in
    if not (is_aligned lo)
    then some (false, ranges)
    else if (ltb lo (mem_heap_lo h) || ltb (mem_heap_hi h) lo)
        || (ltb hi (mem_heap_lo h) || ltb (mem_heap_hi h) hi)
    then some (false, ranges)
    else if overlaps lo hi ranges
    then some (false, ranges)
    else some (true, record { lo = lo; hi = hi } ∷ ranges)

-- `remove_range(ranges, lo)`
unfoldable pub remove_range : List Range → ℕ → List Range
remove_range [] lo = []
remove_range (p ∷ ps) lo = if p.lo == lo then ps else p ∷ remove_range ps lo

unfoldable pub clear_ranges : List Range → List Range
clear_ranges [] = []
clear_ranges (p ∷ ps) = clear_ranges ps

abbrev pub nonempty : List Range → Bool
nonempty [] = true
nonempty (p ∷ ps) = leb p.lo p.hi && nonempty ps

-- Two payloads without a common byte, and one strictly inside the other.
abbrev pub separate : Range → Range → Bool
separate p q = ltb p.hi q.lo || ltb q.hi p.lo

abbrev pub inside : Range → Range → Bool
inside p q = ltb q.lo p.lo && ltb p.hi q.hi

abbrev pub all_separate_or_inside : List Range → Range → Bool
all_separate_or_inside [] q = true
all_separate_or_inside (p ∷ ps) q = (separate p q || inside p q) && all_separate_or_inside ps q

abbrev pub accepts : Heap → List Range → Range → Bool
accepts h ranges q =
    ((is_aligned q.lo && leb h.mem_start_brk q.lo) && ltb q.hi h.mem_brk)
    && all_separate_or_inside ranges q

overlaps-all_separate :
    (ranges : List Range) (q : Range)
    → q.lo ≤ q.hi
    → nonempty ranges ≡ true
    → not (overlaps q.lo q.hi ranges) ≡ all_separate_or_inside ranges q
overlaps-all_separate [] q m n = refl
overlaps-all_separate (p ∷ ps) q m n = ground (arith, overlaps-all_separate ps q)

-- The payload of `size` bytes at `lo`.
abbrev pub payload : ℕ → ℕ → Range
payload lo size = record { lo = lo; hi = lo + size - 1 }

outside :
    (h : Heap) (lo hi : ℕ)
    → lo ≤ hi
    → 0 < h.mem_brk
    → ((ltb lo (mem_heap_lo h) || ltb (mem_heap_hi h) lo)
        || (ltb hi (mem_heap_lo h) || ltb (mem_heap_hi h) hi))
      ≡ not (leb h.mem_start_brk lo && ltb hi h.mem_brk)
outside h lo hi m b = ground arith

abbrev answer : {A : Type 0} → Bool → A → Option (Bool × A)
answer b x = some (b, x)

choose :
    {A : Type 0} (aligned low high overlap : Bool) (x y : A)
    → (if not aligned
        then answer false x
        else if not (low && high)
        then answer false x
        else if overlap
        then answer false x
        else answer true y)
      ≡ answer
          (((aligned && low) && high) && not overlap)
          (if ((aligned && low) && high) && not overlap then y else x)
choose false low high overlap x y = refl
choose true false high overlap x y = refl
choose true true false overlap x y = refl
choose true true true false x y = refl
choose true true true true x y = refl

-- `add_range` adds the payload exactly when it is aligned, lies inside the heap, and each payload of
-- the list has no byte in common with it or lies strictly inside it; otherwise it returns 0 and keeps
-- the list. So it takes a payload that overlaps an older one which it contains.
pub add_range-accepts :
    (h : Heap) (ranges : List Range) (lo size : ℕ)
    → 0 < size
    → lo + size ≤ 2 ^ 32
    → 0 < h.mem_brk
    → nonempty ranges ≡ true
    → add_range h ranges lo size
      ≡ some (
        accepts h ranges (payload lo size),
        if accepts h ranges (payload lo size) then payload lo size ∷ ranges else ranges,
      )
unfolding add_range
add_range-accepts h ranges lo zero s w b n = absurd (omega arith)
add_range-accepts h ranges lo (suc k) s w b n =
    let q = payload lo (suc k) in
    let top : (lo + k) % 2 ^ 32 ≡ q.hi = omega arith in
    rw
      (top, outside h lo q.hi (omega arith) b, sym (overlaps-all_separate ranges q (omega arith) n))
      (choose (is_aligned lo) (leb h.mem_start_brk lo) (ltb q.hi h.mem_brk)
        (overlaps lo q.hi ranges) ranges (q ∷ ranges))

abbrev pub all_separate : Range → List Range → Bool
all_separate q [] = true
all_separate q (p ∷ ps) = separate q p && all_separate q ps

abbrev pub disjoint : List Range → Bool
disjoint [] = true
disjoint (p ∷ ps) = all_separate p ps && disjoint ps

all_separate-at :
    (q p : Range) (xs ys : List Range)
    → all_separate q (xs ++ (p ∷ ys)) ≡ true
    → separate q p ≡ true
all_separate-at q p [] ys h = ground arith
all_separate-at q p (x ∷ xs) ys h = all_separate-at q p xs ys (ground arith)

nonempty-at : (p : Range) (xs ys : List Range) → nonempty (xs ++ (p ∷ ys)) ≡ true → p.lo ≤ p.hi
nonempty-at p [] ys h = ground arith
nonempty-at p (x ∷ xs) ys h = nonempty-at p xs ys (ground arith)

ends :
    (x p : Range) (xs ys : List Range)
    → nonempty (x ∷ (xs ++ (p ∷ ys))) ≡ true
    → separate x p ≡ true
    → x.lo ≢ p.lo
ends x p xs ys n s = ground (arith, nonempty-at p xs ys)

-- `remove_range` at the start of a payload of a disjoint list takes out this payload and no other.
remove_range_lem :
    (xs ys : List Range) (p : Range)
    → nonempty (xs ++ (p ∷ ys)) ≡ true
    → disjoint (xs ++ (p ∷ ys)) ≡ true
    → remove_range (xs ++ (p ∷ ys)) p.lo ≡ xs ++ ys
unfolding remove_range
remove_range_lem [] ys p n d = rw (==-self p.lo) refl
remove_range_lem (x ∷ xs) ys p n d =
    let e = ends x p xs ys n (all_separate-at x p xs ys (ground arith)) in
    rw (==-ne x.lo p.lo e) (ap (◌∷◌ x) (remove_range_lem xs ys p (ground arith) (ground arith)))
