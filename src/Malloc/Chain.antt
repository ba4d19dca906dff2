-- ===== src/Malloc/Chain.antt =====
-- The free lists of malloc/lab/mm.c: doubly linked lists through the words PRED and SUCC of the
-- free blocks, each behind the head that `heap[i]` points to.
pub mod Remove
pub mod Add
pub mod Find
pub mod First
pub mod All
use csapp_labs.Base.{
  ℕ, zero, suc, ◌+◌, ◌-◌, ◌%◌, ◌≤◌, ◌<◌, ◌≡◌, refl, ◌≢◌, Bool, true, false, ◌||◌, List, [], ◌∷◌,
  ◌++◌, ◌==◌, if◌then◌else◌, arith, ◌⊎◌, inl, inr, ==_iff, Bool-cases,
}
use csapp_labs.Base.Member.{has, distinct, has-append, ne_of_has}
use csapp_labs.Malloc.Memlib.{Heap, in_heap, update}
use csapp_labs.Malloc.Words.{pred, succ}

-- A block's pointer: a multiple of 8, with its PRED and SUCC inside the heap.
pub record IsNode (h : Heap) (q : ℕ) : Type 0 where
  pub aligned : q % 8 ≡ 0
  pub above : h.mem_start_brk + 8 ≤ q
  pub below : q ≤ h.mem_brk

pub in_heap-pred : (h : Heap) (q : ℕ) → IsNode h q → in_heap h (pred q) ≡ true
in_heap-pred h q n = ground arith

pub in_heap-succ : (h : Heap) (q : ℕ) → IsNode h q → in_heap h (succ q) ≡ true
in_heap-succ h q n = ground arith

-- From the SUCC of `p` the blocks `xs` are linked, to and fro, up to NULL.
abbrev pub Chain : Heap → ℕ → List ℕ → Type 0
Chain h p [] = h.word (succ p) ≡ 0
Chain h p (q ∷ xs) = (h.word (succ p) ≡ q) × (h.word (pred q) ≡ p) × IsNode h q × Chain h q xs

-- A chain is kept by any change that spares the words of its own links.
pub frame :
    (h g : Heap) (p : ℕ) (xs : List ℕ)
    → g.mem_start_brk ≡ h.mem_start_brk
    → g.mem_brk ≡ h.mem_brk
    → ((q : ℕ) → has q (p ∷ xs) ≡ true → g.word (succ q) ≡ h.word (succ q))
    → ((q : ℕ) → has q xs ≡ true → g.word (pred q) ≡ h.word (pred q))
    → Chain h p xs
    → Chain g p xs
frame h g p [] lo hi s t c = ground (arith, s p)
frame h g p (q ∷ xs) lo hi s t c = (
  ground (arith, s p),
  ground (arith, t q),
  ground arith,
  frame h g q xs lo hi (λ r k. s r (ground arith)) (λ r k. t r (ground arith)) c.3,
)

-- The neighbours of a block in a chain: the one before it, and the one behind it or NULL.
pub record Neighbours (h : Heap) (p bp : ℕ) (xs ys : List ℕ) : Type 0 where
  pub before : has (h.word (pred bp)) (p ∷ xs) ≡ true
  pub before_node : IsNode h (h.word (pred bp))
  pub behind :
      (h.word (succ bp) ≡ 0) ⊎ ((has (h.word (succ bp)) ys ≡ true) × IsNode h (h.word (succ bp)))

pub Chain-Neighbours :
    (h : Heap) (p bp : ℕ) (xs ys : List ℕ)
    → IsNode h p
    → Chain h p (xs ++ (bp ∷ ys))
    → Neighbours h p bp xs ys × IsNode h bp
Chain-Neighbours h p bp [] [] n c = ground arith
Chain-Neighbours h p bp [] (y ∷ ys) n c = ground arith
Chain-Neighbours h p bp (x ∷ xs) ys n c =
    let rest = Chain-Neighbours h x bp xs ys c.2 c.3 in ground arith

pub Chain-IsNode : (h : Heap) (p q : ℕ) (xs : List ℕ) → has q xs ≡ true → Chain h p xs → IsNode h q
Chain-IsNode h p q [] k c = absurd (ground arith)
Chain-IsNode h p q (x ∷ xs) k c = elim (Bool-cases (q == x)) [
  | inl e ↦ let same : q ≡ x = (==_iff q x).0 e in rw same c.2
  | inr ne ↦ Chain-IsNode h x q xs (ground arith) c.3
]
