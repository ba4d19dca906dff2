-- ===== src/Malloc/Chain/Remove.antt =====
-- `heap_remove` of malloc/lab/mm.c takes one block out of its free list.
use csapp_labs.Base.{
  ℕ, ◌≡◌, refl, ◌≢◌, true, List, [], ◌∷◌, ◌++◌, ◌==◌, if◌then◌else◌, arith, ◌⊎◌, inl, inr, some,
  ==-ne, ◌∙◌, sym,
}
use csapp_labs.Malloc.Memlib.{Heap, update, stored, store-in_heap, load-then, store-then}
use csapp_labs.Malloc.Words.{pred, succ}
use csapp_labs.Malloc.Mm.{heap_remove}
use csapp_labs.Base.Member.{distinct, has-append, ne_of_has}
use csapp_labs.Malloc.Chain.{
  IsNode, Chain, frame, Chain-IsNode, Neighbours, Chain-Neighbours, in_heap-pred, in_heap-succ,
}

-- The words after the stores of `heap_remove(bp)`, `p` and `s` being the neighbours.
abbrev pub removed_word : (ℕ → ℕ) → ℕ → ℕ → ℕ → ℕ → ℕ
removed_word f p bp s =
    update
      (update (if s == 0 then update f (succ p) s else update (update f (succ p) s) (pred s) p)
        (pred bp) 0)
      (succ bp) 0

abbrev pub removed : Heap → ℕ → Heap
removed h bp = record h { word = removed_word h.word (h.word (pred bp)) bp (h.word (succ bp)) }

module _ (h : Heap) (bp : ℕ) (here : IsNode h bp) (before : IsNode h (h.word (pred bp)))
    (behind : (h.word (succ bp) ≡ 0) ⊎ IsNode h (h.word (succ bp))) where
  pub heap_remove-removed : heap_remove bp h ≡ some (tt, removed h bp)
  unfolding heap_remove
  heap_remove-removed =
      let before_bp = h.word (pred bp) in
      let behind_bp = h.word (succ bp) in
      let i = in_heap-pred h bp here in
      let j = in_heap-succ h bp here in
      load-then h (pred bp) _ i (
        load-then h (succ bp) _ j (
          rw (==-ne before_bp 0 (omega arith)) (
            store-then h (succ before_bp) behind_bp _ (in_heap-succ h before_bp before)
              (elim behind [
                | inl e ↦ rw e (
                    store-then (stored h (succ before_bp) 0) (pred bp) 0 _ i (
                      store-in_heap (stored (stored h (succ before_bp) 0) (pred bp) 0) (succ bp) 0
                        j))
                | inr n ↦ rw (==-ne behind_bp 0 (omega arith)) (
                    store-then (stored h (succ before_bp) behind_bp) (pred behind_bp) before_bp _
                      (in_heap-pred h behind_bp n)
                      (store-then
                        (stored (stored h (succ before_bp) behind_bp) (pred behind_bp) before_bp)
                        (pred bp) 0 _ i (store-in_heap _ (succ bp) 0 j)))
              ]))))

  -- What the removal leaves alone.
  removed-succ :
      (q : ℕ)
      → IsNode h q
      → q ≢ bp
      → q ≢ h.word (pred bp)
      → (removed h bp).word (succ q) ≡ h.word (succ q)
  removed-succ q n a b = ground arith

  removed-pred :
      (q : ℕ)
      → IsNode h q
      → q ≢ bp
      → q ≢ h.word (succ bp)
      → (removed h bp).word (pred q) ≡ h.word (pred q)
  removed-pred q n a b = ground arith

-- A block with its neighbours, from the neighbours that a chain gives it.
pub IsNode-behind :
    (h : Heap) (p bp : ℕ) (xs ys : List ℕ)
    → Neighbours h p bp xs ys
    → (h.word (succ bp) ≡ 0) ⊎ IsNode h (h.word (succ bp))
IsNode-behind h p bp xs ys n = elim n.behind [ inl e ↦ inl e | inr f ↦ inr f.1 ]

-- The block is the first one of the list.
Chain-removed_first :
    (h : Heap) (p bp : ℕ) (ys : List ℕ)
    → IsNode h p
    → distinct (p ∷ bp ∷ ys) ≡ true
    → Chain h p (bp ∷ ys)
    → Chain (removed h bp) p ys
Chain-removed_first h p bp [] n d c = ground arith
Chain-removed_first h p bp (y ∷ ys) n d c =
    let before : IsNode h (h.word (pred bp)) = rw c.1 n in
    let behind : (h.word (succ bp) ≡ 0) ⊎ IsNode h (h.word (succ bp)) = inr (rw c.3.0 c.3.2) in
    (
      ground arith,
      ground arith,
      ground arith,
      frame h (removed h bp) y ys refl refl
          (λ q k.
            removed-succ h bp c.2 before behind q (Chain-IsNode h bp q (y ∷ ys) k c.3)
              (λ e. ne_of_has bp q (y ∷ ys) (ground arith) k (sym e))
              (λ e. ne_of_has p q (y ∷ ys) (ground arith) k (sym (e ∙ c.1))))
          (λ q k.
            removed-pred h bp c.2 before behind q (Chain-IsNode h bp q (y ∷ ys) (ground arith) c.3)
              (λ e. ne_of_has bp q ys (ground arith) k (sym e))
              (λ e. ne_of_has y q ys (ground arith) k (sym (e ∙ c.3.0))))
          c.3.3,
    )

pub Chain-removed :
    (h : Heap) (p bp : ℕ) (xs ys : List ℕ)
    → IsNode h p
    → distinct (p ∷ (xs ++ (bp ∷ ys))) ≡ true
    → Chain h p (xs ++ (bp ∷ ys))
    → Chain (removed h bp) p (xs ++ ys)
Chain-removed h p bp [] ys n d c = Chain-removed_first h p bp ys n d c
Chain-removed h p bp (x ∷ xs) ys n d c =
    let (nb, here) = Chain-Neighbours h x bp xs ys c.2 c.3 in
    let behind = IsNode-behind h x bp xs ys nb in
    (
      removed-succ h bp here nb.before_node behind p n
            (ne_of_has p bp (x ∷ (xs ++ (bp ∷ ys))) (ground arith)
              (ground (arith, has-append bp xs (bp ∷ ys))))
            (ne_of_has p (h.word (pred bp)) (x ∷ xs) (ground (arith, has-append p xs (bp ∷ ys)))
              nb.before)
          ∙ c.0,
      removed-pred h bp here nb.before_node behind x c.2
            (ne_of_has x bp (xs ++ (bp ∷ ys)) (ground arith)
              (ground (arith, has-append bp xs (bp ∷ ys))))
            (elim nb.behind [
              | inl e ↦ λ f. absurd (omega arith)
              | inr f ↦
                  ne_of_has x (h.word (succ bp)) ys (ground (arith, has-append x xs (bp ∷ ys))) f.0
            ])
          ∙ c.1,
      ground arith,
      Chain-removed h x bp xs ys c.2 (ground arith) c.3,
    )

-- `heap_remove` of a block in a free list succeeds, links the blocks before and behind it, and
-- leaves every word alone but the links of the block and those of its neighbours: the list, from
-- its head `p`, has the same blocks in the same order, without this one.
heap_remove-Chain :
    (h : Heap) (p bp : ℕ) (xs ys : List ℕ)
    → IsNode h p
    → distinct (p ∷ (xs ++ (bp ∷ ys))) ≡ true
    → Chain h p (xs ++ (bp ∷ ys))
    → (g : Heap) × (heap_remove bp h ≡ some (tt, g))
      × Chain g p (xs ++ ys)
      × ((a : ℕ)
          → a ≢ pred bp
          → a ≢ succ bp
          → a ≢ succ (h.word (pred bp))
          → a ≢ pred (h.word (succ bp))
          → g.word a ≡ h.word a)
heap_remove-Chain h p bp xs ys n d c =
    let (nb, here) = Chain-Neighbours h p bp xs ys n c in
    (
      removed h bp,
      heap_remove-removed h bp here nb.before_node (IsNode-behind h p bp xs ys nb),
      Chain-removed h p bp xs ys n d c,
      λ a u v w x. ground arith,
    )
