-- ===== src/Malloc/Chain/Add.antt =====
-- `heap_add` of malloc/lab/mm.c puts a block in front of the free list of its size.
use csapp_labs.Base.{
  ℕ, ◌≡◌, refl, ◌≢◌, true, false, List, [], ◌∷◌, ◌==◌, if◌then◌else◌, arith, ◌⊎◌, inl, inr, some,
  ==-ne, ◌∙◌, sym, get_elem?,
}
use csapp_labs.Malloc.Memlib.{
  Heap, in_heap, update, stored, store-in_heap, load-then, store-then, bind-some,
}
use csapp_labs.Malloc.Words.{pred, succ, hdrp, size_of, size_class}
use csapp_labs.Malloc.Mm.{heap_add, get_size, get_size-in_heap, list_head, list_head-some}
use csapp_labs.Base.Member.{has, distinct, ne_of_has}
use csapp_labs.Malloc.Chain.{IsNode, Chain, frame, Chain-IsNode, in_heap-pred, in_heap-succ}

-- The words after the stores of `heap_add(bp)`, behind `p` and in front of `s`.
abbrev pub added_word : (ℕ → ℕ) → ℕ → ℕ → ℕ → ℕ → ℕ
added_word f p bp s =
    update
      (update (if s == 0 then update f (succ bp) s else update (update f (succ bp) s) (pred s) bp)
        (succ p) bp)
      (pred bp) p

abbrev pub added : Heap → ℕ → ℕ → Heap
added h p bp = record h { word = added_word h.word p bp (h.word (succ p)) }

module _ (h : Heap) (p bp : ℕ) (head : IsNode h p) (new : IsNode h bp)
    (behind : (h.word (succ p) ≡ 0) ⊎ IsNode h (h.word (succ p))) where
  pub link-added :
      (i : ℕ)
      → in_heap h (hdrp bp) ≡ true
      → size_class (size_of (h.word (hdrp bp))) ≡ some i
      → get_elem? h.heap i ≡ some p
      → heap_add bp h ≡ some (tt, added h p bp)
  unfolding heap_add
  link-added i header class slot =
      let s = h.word (succ p) in
      let ip = in_heap-succ h p head in
      let ib = in_heap-succ h bp new in
      let ibp = in_heap-pred h bp new in
      bind-some (get_size (hdrp bp)) _ h h (size_of (h.word (hdrp bp)))
        (get_size-in_heap h (hdrp bp) header)
        (rw (class) (
          bind-some (list_head i) _ h h p (list_head-some h i p slot) (
            load-then h (succ p) _ ip (
              store-then h (succ bp) s _ ib (elim behind [
                | inl e ↦ rw e (
                    store-then (stored h (succ bp) 0) (succ p) bp _ ip
                      (store-in_heap (stored (stored h (succ bp) 0) (succ p) bp) (pred bp) p ibp))
                | inr n ↦ rw (==-ne s 0 (omega arith)) (
                    store-then (stored h (succ bp) s) (pred s) bp _ (in_heap-pred h s n) (
                      store-then (stored (stored h (succ bp) s) (pred s) bp) (succ p) bp _ ip
                        (store-in_heap _ (pred bp) p ibp)))
              ])))))

  added-succ :
      (q : ℕ) → IsNode h q → q ≢ bp → q ≢ p → (added h p bp).word (succ q) ≡ h.word (succ q)
  added-succ q n a b = ground arith

  added-pred :
      (q : ℕ)
      → IsNode h q
      → q ≢ bp
      → q ≢ h.word (succ p)
      → (added h p bp).word (pred q) ≡ h.word (pred q)
  added-pred q n a b = ground arith

pub Chain-first :
    (h : Heap) (p : ℕ) (xs : List ℕ)
    → Chain h p xs
    → (h.word (succ p) ≡ 0) ⊎ IsNode h (h.word (succ p))
Chain-first h p [] c = inl c
Chain-first h p (x ∷ xs) c = inr (rw c.0 c.2)

pub Chain-added :
    (h : Heap) (p bp : ℕ) (xs : List ℕ)
    → IsNode h p
    → IsNode h bp
    → has bp (p ∷ xs) ≡ false
    → distinct (p ∷ xs) ≡ true
    → Chain h p xs
    → Chain (added h p bp) p (bp ∷ xs)
Chain-added h p bp [] n new fresh d c = ground arith
Chain-added h p bp (x ∷ xs) n new fresh d c =
    let behind : (h.word (succ p) ≡ 0) ⊎ IsNode h (h.word (succ p)) = inr (rw c.0 c.2) in
    (
      ground arith,
      ground arith,
      ground arith,
      (
        ground arith,
        ground arith,
        ground arith,
        frame h (added h p bp) x xs refl refl
            (λ q k.
              added-succ h p bp n new behind q (Chain-IsNode h p q (x ∷ xs) k c)
                (λ e. ne_of_has bp q (x ∷ xs) (ground arith) k (sym e))
                (λ e. ne_of_has p q (x ∷ xs) (ground arith) k (sym e)))
            (λ q k.
              added-pred h p bp n new behind q (Chain-IsNode h p q (x ∷ xs) (ground arith) c)
                (λ e. ne_of_has bp q (x ∷ xs) (ground arith) (ground arith) (sym e))
                (λ e. ne_of_has x q xs (ground arith) k (sym (e ∙ c.0))))
            c.3,
      ),
    )

-- `heap_add` of a block that is in no place of the free list of its size succeeds, puts it in front
-- of that list, and leaves every word alone but the links of the block, the SUCC of the list's head
-- `p` and the PRED of the block that was first.
heap_add-Chain :
    (h : Heap) (p bp i : ℕ) (xs : List ℕ)
    → IsNode h p
    → IsNode h bp
    → in_heap h (hdrp bp) ≡ true
    → size_class (size_of (h.word (hdrp bp))) ≡ some i
    → get_elem? h.heap i ≡ some p
    → has bp (p ∷ xs) ≡ false
    → distinct (p ∷ xs) ≡ true
    → Chain h p xs
    → (g : Heap) × (heap_add bp h ≡ some (tt, g))
      × Chain g p (bp ∷ xs)
      × ((a : ℕ)
          → a ≢ pred bp
          → a ≢ succ bp
          → a ≢ succ p
          → a ≢ pred (h.word (succ p))
          → g.word a ≡ h.word a)
heap_add-Chain h p bp i xs n new header class slot fresh d c = (
  added h p bp,
  link-added h p bp n new (Chain-first h p xs c) i header class slot,
  Chain-added h p bp xs n new fresh d c,
  λ a u v w x. ground arith,
)
