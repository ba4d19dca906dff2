-- ===== src/Malloc/Chain/All.antt =====
-- All the free lists of malloc/lab/mm.c at once: what a change of one of them leaves of the others.
pub mod Take
pub mod Put
use csapp_labs.Base.{
  ℕ, zero, suc, ◌+◌, ◌-◌, ◌≤◌, ◌<◌, ◌≡◌, ◌≢◌, refl, sym, Bool, true, false, not, ◌&&◌, ◌||◌, List,
  [], ◌∷◌, ◌++◌, ◌==◌, arith, Bool-cases, inl, inr, ==_iff, ==-self,
}
use mathlib.Core.Path.{subst}
use csapp_labs.Base.Member.{has, distinct, has-append, ne_of_has}
use csapp_labs.Malloc.Memlib.{Heap, in_heap}
use csapp_labs.Malloc.Words.{pred, succ, hdrp}
use csapp_labs.Malloc.Chain.{IsNode, Chain, frame, Chain-IsNode}
use csapp_labs.Malloc.Chain.Find.{FreeLists, headers_in_heap, all_blocks}

-- The heads and the blocks of the lists.
abbrev pub nodes : List ℕ → List (List ℕ) → List ℕ
nodes [] xss = []
nodes (p ∷ ps) [] = []
nodes (p ∷ ps) (xs ∷ xss) = (p ∷ xs) ++ nodes ps xss

-- `x` is no link of a node.
abbrev pub Unlinked : ℕ → List ℕ → Type 0
Unlinked x ns = (q : ℕ) → has q ns ≡ true → (x ≢ pred q) × (x ≢ succ q)

-- Two heaps with the same bounds.
pub record SameBounds (h g : Heap) : Type 0 where
  pub start : g.mem_start_brk ≡ h.mem_start_brk
  pub brk : g.mem_brk ≡ h.mem_brk
  pub most : g.mem_max_addr ≡ h.mem_max_addr
  pub lists : g.heap ≡ h.heap

pub FreeLists-IsNode :
    (h : Heap) (q : ℕ) (ps : List ℕ) (xss : List (List ℕ))
    → FreeLists h ps xss
    → has q (nodes ps xss) ≡ true
    → IsNode h q
FreeLists-IsNode h q [] xss f k = absurd (ground arith)
FreeLists-IsNode h q (p ∷ ps) [] f k = absurd f
FreeLists-IsNode h q (p ∷ ps) (xs ∷ xss) (n, c, d, i, f) k = elim (Bool-cases (q == p)) [
  | inl e ↦ let same : q ≡ p = (==_iff q p).0 e in subst (IsNode h) (sym same) n
  | inr e ↦ elim (Bool-cases (has q xs)) [
    | inl j ↦ Chain-IsNode h p q xs j c
    | inr j ↦ FreeLists-IsNode h q ps xss f (ground (arith, has-append q xs (nodes ps xss)))
  ]
]

pub blocks-nodes :
    (h : Heap) (q : ℕ) (ps : List ℕ) (xss : List (List ℕ))
    → FreeLists h ps xss
    → has q (all_blocks xss) ≡ true
    → has q (nodes ps xss) ≡ true
blocks-nodes h q [] [] f k = k
blocks-nodes h q [] (xs ∷ xss) f k = absurd f
blocks-nodes h q (p ∷ ps) [] f k = absurd f
blocks-nodes h q (p ∷ ps) (xs ∷ xss) f k = ground (
  arith,
  has-append q xs (all_blocks xss),
  has-append q xs (nodes ps xss),
  blocks-nodes h q ps xss f.4,
)

pub headers-bounds :
    (h g : Heap) (xs : List ℕ)
    → SameBounds h g
    → headers_in_heap h xs ≡ true
    → headers_in_heap g xs ≡ true
headers-bounds h g [] s i = refl
headers-bounds h g (x ∷ xs) s i = rw (s.start, s.brk) (ground (arith, headers-bounds h g xs s))

pub IsNode-bounds : (h g : Heap) (q : ℕ) → SameBounds h g → IsNode h q → IsNode g q
IsNode-bounds h g q s n = record {
  aligned = n.aligned;
  above = subst (λ x. x + 8 ≤ q) (sym s.start) n.above;
  below = subst (λ x. q ≤ x) (sym s.brk) n.below;
}

-- A change that spares the links of the nodes keeps the lists.
pub FreeLists-frame :
    (h g : Heap) (ps : List ℕ) (xss : List (List ℕ))
    → SameBounds h g
    → ((q : ℕ)
        → has q (nodes ps xss) ≡ true
        → (g.word (pred q) ≡ h.word (pred q)) × (g.word (succ q) ≡ h.word (succ q)))
    → FreeLists h ps xss
    → FreeLists g ps xss
FreeLists-frame h g [] [] s k f = tt
FreeLists-frame h g [] (xs ∷ xss) s k f = f
FreeLists-frame h g (p ∷ ps) [] s k f = f
FreeLists-frame h g (p ∷ ps) (xs ∷ xss) s k (n, c, d, i, f) = (
  IsNode-bounds h g p s n,
  frame h g p xs s.start s.brk (λ q j. (k q (ground (arith, has-append q xs (nodes ps xss)))).1)
      (λ q j. (k q (ground (arith, has-append q xs (nodes ps xss)))).0) c,
  d,
  headers-bounds h g xs s i,
  FreeLists-frame h g ps xss s (λ q j. k q (ground (arith, has-append q xs (nodes ps xss)))) f,
)

-- The parts of a list of distinct numbers have none in common, and are distinct.
pub distinct-append :
    (xs ys : List ℕ)
    → distinct (xs ++ ys) ≡ true
    → (distinct xs ≡ true) × (distinct ys ≡ true) × ((q : ℕ) → has q xs ≡ true → has q ys ≡ false)
distinct-append [] ys d = (refl, d, λ q k. absurd (ground arith))
distinct-append (x ∷ xs) ys d =
    let r = distinct-append xs ys (ground arith) in
    (
      ground (arith, has-append x xs ys),
      r.1,
      λ q k. elim (Bool-cases (q == x)) [
        | inl e ↦
            let same : q ≡ x = (==_iff q x).0 e in
            subst (λ z. has z ys ≡ false) (sym same) (ground (arith, has-append x xs ys))
        | inr e ↦ r.2 q (ground arith)
      ],
    )

pub distinct-join :
    (xs ys : List ℕ)
    → distinct xs ≡ true
    → distinct ys ≡ true
    → ((q : ℕ) → has q xs ≡ true → has q ys ≡ false)
    → distinct (xs ++ ys) ≡ true
distinct-join [] ys d e k = e
distinct-join (x ∷ xs) ys d e k =
    let r = distinct-join xs ys (ground arith) e (λ q j. k q (ground arith)) in
    let n = k x (ground (arith, ==-self x)) in ground (arith, has-append x xs ys)

ne_of_has_sym : (r q : ℕ) (ns : List ℕ) → has r ns ≡ true → has q ns ≡ false → r ≢ q
ne_of_has_sym r q ns j e = λ c. ne_of_has q r ns e j (sym c)

-- The links of a node are no links of others.
pub Unlinked-other :
    (h : Heap) (q : ℕ) (ns : List ℕ)
    → IsNode h q
    → ((n : ℕ) → has n ns ≡ true → IsNode h n)
    → has q ns ≡ false
    → Unlinked (pred q) ns × Unlinked (succ q) ns
Unlinked-other h q ns n k e = (
  λ r j.
      let m = k r j in
      let d : r ≢ q = ne_of_has_sym r q ns j e in (λ c. d (omega arith), λ c. omega arith),
  λ r j.
      let m = k r j in
      let d : r ≢ q = ne_of_has_sym r q ns j e in (λ c. omega arith, λ c. d (omega arith)),
)

pub absent :
    (q : ℕ) (xs ys : List ℕ)
    → ((r : ℕ) → has r xs ≡ true → has r ys ≡ false)
    → has q ys ≡ true
    → has q xs ≡ false
absent q xs ys k j = elim (Bool-cases (has q xs)) [
  | inl e ↦ absurd (ground (arith, k q e))
  | inr e ↦ e
]
