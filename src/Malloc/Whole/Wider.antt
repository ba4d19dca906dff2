-- ===== src/Malloc/Whole/Wider.antt =====
-- The break of a heap of malloc/lab/mm.c is moved up.
use csapp_labs.Base.{
  ℕ, ◌+◌, ◌^◌, ◌<◌, ◌≡◌, refl, true, false, List, [], ◌∷◌, arith, some, none, ltb, leb,
}
use csapp_labs.Malloc.Memlib.{Heap, as_int, mem_sbrk}
use csapp_labs.Malloc.Chain.{IsNode, Chain}
use csapp_labs.Malloc.Chain.Find.{FreeLists, headers_in_heap}

-- The heap when the break has been moved up.
abbrev pub wider : Heap → ℕ → Heap
wider h size = record h { mem_brk = h.mem_brk + size }

IsNode-wider : (h : Heap) (size q : ℕ) → IsNode h q → IsNode (wider h size) q
IsNode-wider h size q n = record {
  aligned = n.aligned;
  above = n.above;
  below = omega (arith, n.below);
}

Chain-wider : (h : Heap) (size p : ℕ) (xs : List ℕ) → Chain h p xs → Chain (wider h size) p xs
Chain-wider h size p [] c = c
Chain-wider h size p (x ∷ xs) (a, b, n, c) =
    (a, b, IsNode-wider h size x n, Chain-wider h size x xs c)

headers-wider :
    (h : Heap) (size : ℕ) (xs : List ℕ)
    → headers_in_heap h xs ≡ true
    → headers_in_heap (wider h size) xs ≡ true
headers-wider h size [] i = refl
headers-wider h size (x ∷ xs) i = ground (arith, headers-wider h size xs)

pub FreeLists-wider :
    (h : Heap) (size : ℕ) (ps : List ℕ) (xss : List (List ℕ))
    → FreeLists h ps xss
    → FreeLists (wider h size) ps xss
FreeLists-wider h size [] [] f = tt
FreeLists-wider h size [] (xs ∷ xss) f = f
FreeLists-wider h size (p ∷ ps) [] f = f
FreeLists-wider h size (p ∷ ps) (xs ∷ xss) (n, c, d, i, f) = (
  IsNode-wider h size p n,
  Chain-wider h size p xs c,
  d,
  headers-wider h size xs i,
  FreeLists-wider h size ps xss f,
)

pub mem_sbrk-fits :
    (h : Heap) (size : ℕ)
    → size < 2 ^ 31
    → leb (h.mem_brk + size) h.mem_max_addr ≡ true
    → mem_sbrk (as_int size) h ≡ some (some h.mem_brk, wider h size)
unfolding mem_sbrk
mem_sbrk-fits h size s f =
    let a : ltb size (2 ^ 31) ≡ true = ground arith in
    let b : ltb h.mem_max_addr (h.mem_brk + size) ≡ false = ground arith in rw a (rw b refl)

pub mem_sbrk-full :
    (h : Heap) (size : ℕ)
    → size < 2 ^ 31
    → leb (h.mem_brk + size) h.mem_max_addr ≡ false
    → mem_sbrk (as_int size) h ≡ some (none, h)
unfolding mem_sbrk
mem_sbrk-full h size s f =
    let a : ltb size (2 ^ 31) ≡ true = ground arith in
    let b : ltb h.mem_max_addr (h.mem_brk + size) ≡ true = ground arith in rw a (rw b refl)
