-- ===== src/Malloc/Whole/Begin.antt =====
-- The heap in `mm_init` of malloc/lab/mm.c: the heads of the free lists are allocated one by one.
use csapp_labs.Base.{
  ℕ, zero, suc, ◌+◌, ◌-◌, ◌*◌, ◌%◌, ◌≤◌, ◌<◌, ◌≡◌, refl, sym, ap, ◌∙◌, true, false, List, [], ◌∷◌,
  ◌++◌, ◌==◌, arith, Bool-cases, inl, inr, some, ltb, ==-self, length, length-append,
}
use csapp_labs.Base.Int.{pos}
use mathlib.Core.Path.{subst}
use csapp_labs.Base.Member.{has, has-append, distinct}
use csapp_labs.Malloc.Memlib.{Heap, mem_sbrk, in_heap, bind-some, stored, store-then}
use csapp_labs.Malloc.Mm.{add_list}
use csapp_labs.Malloc.Words.{succ}
use csapp_labs.Malloc.Chain.{IsNode}
use csapp_labs.Malloc.Chain.Find.{FreeLists, all_blocks}
use csapp_labs.Malloc.Chain.All.{nodes, distinct-join}
use csapp_labs.Malloc.Tiles.{
  Tile, Tiles, Tiles-join, Tiles-frame, free_at, used_at, tile_at-between, used_at-append,
}
use csapp_labs.Malloc.Whole.{first, last}
use csapp_labs.Malloc.Whole.Split.{used_tile}
use csapp_labs.Malloc.Whole.Wider.{wider}

-- Lists without blocks, and blocks of 16 bytes that are allocated.
abbrev pub empty_lists : List ℕ → List (List ℕ)
empty_lists [] = []
empty_lists (p ∷ ps) = [] ∷ empty_lists ps

abbrev pub heads : ℕ → List Tile
heads zero = []
heads (suc n) = used_tile 16 ∷ heads n

-- The heap in `mm_init`, with `n` blocks: all are allocated, and each after the first is the head
-- of a list.
pub record Begun (h : Heap) (n : ℕ) : Type 0 where
  pub start_aligned : h.mem_start_brk % 8 ≡ 0
  pub break : h.mem_brk ≡ h.mem_start_brk + 8 + 16 * n
  pub epilogue : h.word (last h) ≡ 1
  pub tiles : Tiles h.word (first h) (heads n) (last h)
  pub alone : (q : ℕ) → has q h.heap ≡ true → h.word (succ q) ≡ 0
  pub apart : distinct h.heap ≡ true
  pub each : (q : ℕ) → has q h.heap ≡ true → used_at q (first h) (heads n) ≡ true
  pub counted : length h.heap + 1 ≡ n

pub nodes_empty : (ps : List ℕ) → nodes ps (empty_lists ps) ≡ ps
nodes_empty [] = refl
nodes_empty (p ∷ ps) = ap (λ l. p ∷ l) (nodes_empty ps)

pub blocks_empty : (q : ℕ) (ps : List ℕ) → has q (all_blocks (empty_lists ps)) ≡ false
blocks_empty q [] = refl
blocks_empty q (p ∷ ps) = blocks_empty q ps

pub heads-free_at : (q a n : ℕ) → free_at q a (heads n) ≡ false
heads-free_at q a zero = refl
heads-free_at q a (suc n) = ground (arith, heads-free_at q (a + 16) n)

heads_suc : (n : ℕ) → heads (suc n) ≡ heads n ++ (used_tile 16 ∷ [])
heads_suc zero = refl
heads_suc (suc n) = ap (λ l. used_tile 16 ∷ l) (heads_suc n)

pub FreeLists-empty :
    (h : Heap) (ps : List ℕ)
    → ((q : ℕ) → has q ps ≡ true → IsNode h q × (h.word (succ q) ≡ 0))
    → FreeLists h ps (empty_lists ps)
FreeLists-empty h [] k = tt
FreeLists-empty h (p ∷ ps) k =
    let (n, e) = k p (ground (arith, ==-self p)) in
    (n, e, refl, refl, FreeLists-empty h ps (λ q j. k q (ground arith)))

-- The heap with one more head.
abbrev pub added_head : Heap → Heap
added_head h =
    let tmp = h.mem_brk - 4 in
    stored
      (stored (stored (stored (stored (wider h 16) tmp 17) (tmp + 4) 0) (tmp + 8) 0) (tmp + 12) 17)
      (tmp + 16) 1

module _ (h : Heap) (n : ℕ) (b : Begun h n) (space : h.mem_brk + 16 ≤ h.mem_max_addr) where
  sbrk-16 : mem_sbrk (pos 16) h ≡ some (some h.mem_brk, wider h 16)
  unfolding mem_sbrk
  sbrk-16 = let f : ltb h.mem_max_addr (h.mem_brk + 16) ≡ false = ground arith in rw f refl

  inside : (x : ℕ) → h.mem_brk - 4 ≤ x → x ≤ h.mem_brk + 12 → in_heap (wider h 16) x ≡ true
  inside x i j = let k = b.break in ground arith

  pub add_list-head : add_list h ≡ some (some (h.mem_brk - 4 + 8 + 4), added_head h)
  unfolding add_list
  add_list-head =
      let k = b.break in
      let tmp = h.mem_brk - 4 in
      let h1 = stored (wider h 16) tmp 17 in
      let h2 = stored h1 (tmp + 4) 0 in
      let h3 = stored h2 (tmp + 8) 0 in
      let h4 = stored h3 (tmp + 12) 17 in
      bind-some (mem_sbrk (pos 16)) _ h (wider h 16) (some h.mem_brk) sbrk-16 (
        store-then (wider h 16) tmp 17 _ (inside tmp (omega arith) (omega arith)) (
          store-then h1 (tmp + 4) 0 _ (inside (tmp + 4) (omega arith) (omega arith)) (
            store-then h2 (tmp + 8) 0 _ (inside (tmp + 8) (omega arith) (omega arith)) (
              store-then h3 (tmp + 12) 17 _ (inside (tmp + 12) (omega arith) (omega arith)) (
                store-then h4 (tmp + 16) 1 _ (inside (tmp + 16) (omega arith) (omega arith))
                  refl)))))

  spared : (x : ℕ) → x < last h → (added_head h).word x ≡ h.word x
  spared x l = let k = b.break in ground arith

  below_last : (q : ℕ) → has q h.heap ≡ true → q + 4 ≤ last h
  below_last q k =
      (tile_at-between h.word q (first h) (last h) (heads n) b.tiles (ground (arith, b.each q k))).1

  pub Begun-pushed :
      Begun (record (added_head h) { heap = h.heap ++ ((h.mem_brk - 4 + 8 + 4) ∷ []) }) (suc n)
  Begun-pushed =
      let k = b.break in
      let g = added_head h in
      let p = h.mem_brk - 4 + 8 + 4 in
      let low =
        Tiles-frame h.word g.word (first h) (last h) (heads n) (λ x i j r. spared x j) b.tiles in
      let new : Tiles g.word (last h) (used_tile 16 ∷ []) (last g) =
        (ground arith, ground arith, omega arith, refl, omega arith) in
      record {
        start_aligned = b.start_aligned;
        break = omega arith;
        epilogue = ground arith;
        tiles =
            subst (λ l. Tiles g.word (first h) l (last g)) (sym (heads_suc n))
              (Tiles-join g.word (first h) (last h) (last g) (heads n) (used_tile 16 ∷ []) low new);
        alone = λ q i. elim (Bool-cases (has q h.heap)) [
          | inl e ↦ spared (q - 4) (omega (arith, below_last q e)) ∙ b.alone q e
          | inr e ↦ let at : q ≡ p = ground (arith, has-append q h.heap (p ∷ [])) in ground arith
        ];
        apart = distinct-join h.heap (p ∷ []) b.apart refl (λ q e. elim (Bool-cases (q == p)) [
          | inl c ↦ absurd (ground (arith, below_last q e))
          | inr c ↦ ground arith
        ]);
        each = λ q i.
            subst (λ l. used_at q (first h) l ≡ true) (sym (heads_suc n))
              (ground (
                arith,
                has-append q h.heap (p ∷ []),
                b.each q,
                used_at-append h.word q (used_tile 16 ∷ []) (first h) (last h) (heads n) b.tiles,
              ));
        counted = omega (arith, length-append h.heap (p ∷ []), b.counted);
      }
