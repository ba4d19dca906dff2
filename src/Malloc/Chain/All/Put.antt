-- ===== src/Malloc/Chain/All/Put.antt =====
-- `heap_add` of malloc/lab/mm.c, among all the free lists.
use csapp_labs.Base.{
  ℕ, zero, suc, ◌≡◌, ◌≢◌, refl, sym, true, false, ◌||◌, List, [], ◌∷◌, ◌==◌, arith, ==-self, some,
  ◌⊎◌, get_elem?,
}
use mathlib.Core.Path.{subst}
use csapp_labs.Base.Member.{has, distinct, has-append, ne_of_has}
use csapp_labs.Malloc.Memlib.{Heap, in_heap}
use csapp_labs.Malloc.Words.{pred, succ, hdrp, size_class, size_of}
use csapp_labs.Malloc.Mm.{heap_add}
use csapp_labs.Malloc.Chain.{IsNode, Chain, frame}
use csapp_labs.Malloc.Chain.Find.{FreeLists, all_blocks}
use csapp_labs.Malloc.Chain.Add.{added, link-added, Chain-added, Chain-first}
use csapp_labs.Malloc.Chain.All.{
  nodes, Unlinked, SameBounds, FreeLists-IsNode, headers-bounds, IsNode-bounds, FreeLists-frame,
  distinct-append, distinct-join, Unlinked-other, absent,
}

-- The lists with one block more, behind the head `p`, and what has been left alone.
pub record Put (h : Heap) (bp p : ℕ) (ps : List ℕ) (xss yss : List (List ℕ)) : Type 0 where
  pub lists : FreeLists (added h p bp) ps yss
  pub apart : distinct (nodes ps yss) ≡ true
  pub within : (q : ℕ) → has q (nodes ps yss) ≡ ((q == bp) || has q (nodes ps xss))
  pub blocks : (q : ℕ) → has q (all_blocks yss) ≡ ((q == bp) || has q (all_blocks xss))
  pub spares :
      (x : ℕ)
      → Unlinked x (nodes ps xss)
      → x ≢ pred bp
      → x ≢ succ bp
      → (added h p bp).word x ≡ h.word x

module _ (h : Heap) (bp p : ℕ) (new : IsNode h bp) (header : in_heap h (hdrp bp) ≡ true) where
  bounds : SameBounds h (added h p bp)
  bounds = record { start = refl; brk = refl; most = refl; lists = refl }

  -- Only links of the nodes of its list and of the block are changed.
  added-Unlinked :
      (xs : List ℕ) (x : ℕ)
      → Chain h p xs
      → Unlinked x (p ∷ xs)
      → x ≢ pred bp
      → x ≢ succ bp
      → (added h p bp).word x ≡ h.word x
  added-Unlinked [] x c u a b = let v = u p (ground (arith, ==-self p)) in ground arith
  added-Unlinked (y ∷ ys) x c u a b =
      let v = u p (ground (arith, ==-self p)) in
      let w = u y (ground (arith, ==-self y)) in ground arith

  -- A node other than the block keeps its links, if it is not in that list.
  node-kept :
      (q : ℕ) (ns : List ℕ)
      → ((x : ℕ) → Unlinked x ns → x ≢ pred bp → x ≢ succ bp → (added h p bp).word x ≡ h.word x)
      → ((r : ℕ) → has r ns ≡ true → IsNode h r)
      → IsNode h q
      → has q ns ≡ false
      → q ≢ bp
      → ((added h p bp).word (pred q) ≡ h.word (pred q))
        × ((added h p bp).word (succ q) ≡ h.word (succ q))
  node-kept q ns s k m e d =
      let (u, v) = Unlinked-other h q ns m k e in
      (
        s (pred q) u (λ c. d (omega arith)) (λ c. omega arith),
        s (succ q) v (λ c. omega arith) (λ c. d (omega arith)),
      )

  Put-first :
      (ps xs : List ℕ) (xss : List (List ℕ))
      → FreeLists h (p ∷ ps) (xs ∷ xss)
      → distinct (nodes (p ∷ ps) (xs ∷ xss)) ≡ true
      → has bp (nodes (p ∷ ps) (xs ∷ xss)) ≡ false
      → Put h bp p (p ∷ ps) (xs ∷ xss) ((bp ∷ xs) ∷ xss)
  Put-first ps xs xss (n, c, d, i, f) e out =
      let rest = nodes ps xss in
      let (e1, e2, e3) = distinct-append (p ∷ xs) rest e in
      let other : has bp rest ≡ false = ground (arith, has-append bp xs rest) in
      let here : has bp (p ∷ xs) ≡ false = ground (arith, has-append bp xs rest) in
      let spare = added-Unlinked xs in
      record {
        lists = (
          IsNode-bounds h (added h p bp) p bounds n,
          Chain-added h p bp xs n new here e1 c,
          ground arith,
          headers-bounds h (added h p bp) (bp ∷ xs) bounds (ground arith),
          FreeLists-frame h (added h p bp) ps xss bounds
              (λ q k.
                node-kept q (p ∷ xs) (λ x u a b. added-Unlinked xs x c u a b)
                  (λ r j.
                    FreeLists-IsNode h r (p ∷ []) (xs ∷ []) (n, c, d, i, tt)
                      (ground (arith, has-append r xs [])))
                  (FreeLists-IsNode h q ps xss f k) (absent q (p ∷ xs) rest e3 k)
                  (λ s. ne_of_has bp q rest other k (sym s)))
              f,
        );
        apart =
            ground
              (arith, has-append p (bp ∷ xs) rest, has-append p xs rest, has-append bp xs rest);
        within = λ q. ground (arith, has-append q xs rest, has-append q (bp ∷ xs) rest);
        blocks = λ q. refl;
        spares = λ x u a b.
            added-Unlinked xs x c (λ q j. u q (ground (arith, has-append q xs rest))) a b;
      }

  Put-later :
      (p0 : ℕ) (ps xs : List ℕ) (xss yss : List (List ℕ))
      → FreeLists h (p0 ∷ ps) (xs ∷ xss)
      → distinct (nodes (p0 ∷ ps) (xs ∷ xss)) ≡ true
      → has bp (nodes (p0 ∷ ps) (xs ∷ xss)) ≡ false
      → Put h bp p ps xss yss
      → Put h bp p (p0 ∷ ps) (xs ∷ xss) (xs ∷ yss)
  Put-later p0 ps xs xss yss (n, c, d, i, f) e out t =
      let rest = nodes ps xss in
      let (e1, e2, e3) = distinct-append (p0 ∷ xs) rest e in
      let here : has bp (p0 ∷ xs) ≡ false = ground (arith, has-append bp xs rest) in
      let kept : (q : ℕ)
          → has q (p0 ∷ xs) ≡ true
          → ((added h p bp).word (pred q) ≡ h.word (pred q))
            × ((added h p bp).word (succ q) ≡ h.word (succ q)) =
        λ q k.
          node-kept q rest t.spares (λ r j. FreeLists-IsNode h r ps xss f j)
            (FreeLists-IsNode h q (p0 ∷ []) (xs ∷ []) (n, c, d, i, tt)
              (ground (arith, has-append q xs [])))
            (e3 q k) (λ s. ne_of_has bp q (p0 ∷ xs) here k (sym s)) in
      record {
        lists = (
          IsNode-bounds h (added h p bp) p0 bounds n,
          frame h (added h p bp) p0 xs refl refl (λ q k. (kept q k).1)
              (λ q k. (kept q (ground arith)).0) c,
          d,
          headers-bounds h (added h p bp) xs bounds i,
          t.lists,
        );
        apart = distinct-join (p0 ∷ xs) (nodes ps yss) e1 t.apart (λ q k.
            let d : q ≢ bp = λ s. ne_of_has bp q (p0 ∷ xs) here k (sym s) in
            ground (arith, t.within q, e3 q k));
        within =
            λ q. ground (arith, has-append q xs rest, has-append q xs (nodes ps yss), t.within q);
        blocks = λ q.
            ground (
              arith,
              has-append q xs (all_blocks xss),
              has-append q xs (all_blocks yss),
              t.blocks q,
            );
        spares = λ x u a b. t.spares x (λ q j. u q (ground (arith, has-append q xs rest))) a b;
      }

  Put-all :
      (i : ℕ) (ps : List ℕ) (xss : List (List ℕ))
      → FreeLists h ps xss
      → distinct (nodes ps xss) ≡ true
      → has bp (nodes ps xss) ≡ false
      → get_elem? ps i ≡ some p
      → (yss : List (List ℕ)) × Put h bp p ps xss yss
  Put-all i [] xss f d k s = absurd (ground arith)
  Put-all i (p0 ∷ ps) [] f d k s = absurd f
  Put-all zero (p0 ∷ ps) (xs ∷ xss) f d k s =
      let e : p0 ≡ p = ground arith in
      (
        (bp ∷ xs) ∷ xss,
        subst (λ z. Put h bp p (z ∷ ps) (xs ∷ xss) ((bp ∷ xs) ∷ xss)) (sym e)
            (Put-first ps xs xss (subst (λ z. FreeLists h (z ∷ ps) (xs ∷ xss)) e f)
              (subst (λ z. distinct (nodes (z ∷ ps) (xs ∷ xss)) ≡ true) e d)
              (subst (λ z. has bp (nodes (z ∷ ps) (xs ∷ xss)) ≡ false) e k)),
      )
  Put-all (suc i) (p0 ∷ ps) (xs ∷ xss) f d k s =
      let (yss, t) =
        Put-all i ps xss f.4 (distinct-append (p0 ∷ xs) (nodes ps xss) d).1
          (ground (arith, has-append bp xs (nodes ps xss))) s in
      (xs ∷ yss, Put-later p0 ps xs xss yss f d k t)

-- The head of a list, and what it links to.
head-lem :
    (h : Heap) (p i : ℕ) (ps : List ℕ) (xss : List (List ℕ))
    → FreeLists h ps xss
    → get_elem? ps i ≡ some p
    → IsNode h p × ((h.word (succ p) ≡ 0) ⊎ IsNode h (h.word (succ p)))
head-lem h p i [] xss f s = absurd (ground arith)
head-lem h p i (p0 ∷ ps) [] f s = absurd f
head-lem h p zero (p0 ∷ ps) (xs ∷ xss) (n, c, d, j, f) s =
    let e : p0 ≡ p = ground arith in
    subst (λ z. IsNode h z × ((h.word (succ z) ≡ 0) ⊎ IsNode h (h.word (succ z)))) e
      (n, Chain-first h p0 xs c)
head-lem h p (suc i) (p0 ∷ ps) (xs ∷ xss) f s = head-lem h p i ps xss f.4 s

-- `heap_add` of a block that is no node puts it into the list of its size class, and leaves the words
-- alone that are no links of the nodes or of the block.
pub heap_add-Put :
    (h : Heap) (bp i p : ℕ) (xss : List (List ℕ))
    → IsNode h bp
    → in_heap h (hdrp bp) ≡ true
    → size_class (size_of (h.word (hdrp bp))) ≡ some i
    → get_elem? h.heap i ≡ some p
    → FreeLists h h.heap xss
    → distinct (nodes h.heap xss) ≡ true
    → has bp (nodes h.heap xss) ≡ false
    → (yss : List (List ℕ)) × (heap_add bp h ≡ some (tt, added h p bp)) × Put h bp p h.heap xss yss
heap_add-Put h bp i p xss new header class slot f d k =
    let (n, behind) = head-lem h p i h.heap xss f slot in
    let (yss, t) = Put-all h bp p new header i h.heap xss f d k slot in
    (yss, link-added h p bp n new behind i header class slot, t)
