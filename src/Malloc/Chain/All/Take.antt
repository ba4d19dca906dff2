-- ===== src/Malloc/Chain/All/Take.antt =====
-- `heap_remove` of malloc/lab/mm.c, among all the free lists.
use csapp_labs.Base.{
  ℕ, ◌≡◌, refl, sym, true, false, not, ◌&&◌, List, [], ◌∷◌, ◌++◌, ◌==◌, arith, Bool-cases, inl, inr,
  ==_iff, some,
}
use mathlib.Core.Path.{subst}
use csapp_labs.Base.Member.{has, distinct, has-append, distinct-without}
use csapp_labs.Malloc.Memlib.{Heap}
use csapp_labs.Malloc.Words.{pred, succ}
use csapp_labs.Malloc.Mm.{heap_remove}
use csapp_labs.Malloc.Chain.{frame, Neighbours, Chain-Neighbours}
use csapp_labs.Malloc.Chain.Find.{FreeLists, headers_in_heap, all_blocks}
use csapp_labs.Malloc.Chain.Remove.{removed, Chain-removed, heap_remove-removed, IsNode-behind}
use csapp_labs.Malloc.Chain.All.{
  nodes, Unlinked, SameBounds, FreeLists-IsNode, headers-bounds, IsNode-bounds, FreeLists-frame,
  distinct-append, distinct-join, Unlinked-other, blocks-nodes, absent,
}

-- A list around one of its elements.
split_at :
    (q : ℕ) (xs : List ℕ) → has q xs ≡ true → (ys : List ℕ) × (zs : List ℕ) × (xs ≡ ys ++ (q ∷ zs))
split_at q [] k = absurd (ground arith)
split_at q (x ∷ xs) k = elim (Bool-cases (q == x)) [
  | inl e ↦ let same : q ≡ x = (==_iff q x).0 e in ([], xs, rw same refl)
  | inr e ↦ let (ys, zs, r) = split_at q xs (ground arith) in (x ∷ ys, zs, rw r refl)
]

module _ (h : Heap) (bp : ℕ) where
  -- Only links of the nodes of its list are changed.
  removed-Unlinked :
      (p : ℕ) (xs ys : List ℕ) (x : ℕ)
      → Neighbours h p bp xs ys
      → Unlinked x (p ∷ (xs ++ (bp ∷ ys)))
      → (removed h bp).word x ≡ h.word x
  removed-Unlinked p xs ys x n u =
      let a = u bp (ground (arith, has-append bp xs (bp ∷ ys))) in
      let b =
        u (h.word (pred bp))
          (ground (arith, n.before, has-append (h.word (pred bp)) xs (bp ∷ ys))) in
      elim n.behind [
        | inl e ↦ ground arith
        | inr f ↦
            let c =
              u (h.word (succ bp)) (ground (arith, has-append (h.word (succ bp)) xs (bp ∷ ys))) in
            ground arith
      ]

  has-removed :
      (q : ℕ) (xs ys : List ℕ)
      → distinct (xs ++ (bp ∷ ys)) ≡ true
      → has q (xs ++ ys) ≡ (has q (xs ++ (bp ∷ ys)) && not (q == bp))
  has-removed q xs ys d = elim (Bool-cases (q == bp)) [
    | inl e ↦
        let same : q ≡ bp = (==_iff q bp).0 e in
        subst (λ z. has z (xs ++ ys) ≡ (has z (xs ++ (bp ∷ ys)) && not (z == bp))) (sym same)
          (ground (arith, distinct-without xs bp ys d))
    | inr e ↦ ground (arith, has-append q xs ys, has-append q xs (bp ∷ ys))
  ]

  headers-removed :
      (xs ys : List ℕ)
      → headers_in_heap h (xs ++ (bp ∷ ys)) ≡ true
      → headers_in_heap h (xs ++ ys) ≡ true
  headers-removed [] ys i = ground arith
  headers-removed (x ∷ xs) ys i = ground (arith, headers-removed xs ys)

has_same : (q r : ℕ) (xs : List ℕ) → has r xs ≡ false → ((q == r) && has q xs) ≡ false
has_same q r xs e = elim (Bool-cases (q == r)) [
  | inl s ↦ let same : q ≡ r = (==_iff q r).0 s in rw (s, same) e
  | inr s ↦ rw s refl
]

-- The lists without a block, and what has been left alone.
pub record Taken (h : Heap) (bp : ℕ) (ps : List ℕ) (xss yss : List (List ℕ)) : Type 0 where
  pub runs : heap_remove bp h ≡ some (tt, removed h bp)
  pub lists : FreeLists (removed h bp) ps yss
  pub apart : distinct (nodes ps yss) ≡ true
  pub within : (q : ℕ) → has q (nodes ps yss) ≡ true → has q (nodes ps xss) ≡ true
  pub blocks : (q : ℕ) → has q (all_blocks yss) ≡ (has q (all_blocks xss) && not (q == bp))
  pub spares : (x : ℕ) → Unlinked x (nodes ps xss) → (removed h bp).word x ≡ h.word x

module _ (h : Heap) (bp : ℕ) where
  bounds : SameBounds h (removed h bp)
  bounds = record { start = refl; brk = refl; most = refl; lists = refl }

  -- The block is in the first list.
  take-first :
      (p : ℕ) (ps xs ys : List ℕ) (xss : List (List ℕ))
      → FreeLists h (p ∷ ps) ((xs ++ (bp ∷ ys)) ∷ xss)
      → distinct (nodes (p ∷ ps) ((xs ++ (bp ∷ ys)) ∷ xss)) ≡ true
      → Taken h bp (p ∷ ps) ((xs ++ (bp ∷ ys)) ∷ xss) ((xs ++ ys) ∷ xss)
  take-first p ps xs ys xss (n, c, d, i, f) e =
      let all = xs ++ (bp ∷ ys) in
      let rest = nodes ps xss in
      let (e1, e2, e3) = distinct-append (p ∷ all) rest e in
      let (nb, here) = Chain-Neighbours h p bp xs ys n c in
      let (d1, d2) = distinct-without xs bp ys d in
      let less : (q : ℕ) → has q (p ∷ (xs ++ ys)) ≡ true → has q (p ∷ all) ≡ true =
        λ q k. ground (arith, has-removed h bp q xs ys d) in
      let gone : has bp rest ≡ false = e3 bp (ground (arith, has-append bp xs (bp ∷ ys))) in
      let kept : (q : ℕ)
          → has q rest ≡ true
          → ((removed h bp).word (pred q) ≡ h.word (pred q))
            × ((removed h bp).word (succ q) ≡ h.word (succ q)) =
        λ q k.
          let m = FreeLists-IsNode h q ps xss f k in
          let (u, v) =
            Unlinked-other h q (p ∷ all) m
              (λ r j.
                FreeLists-IsNode h r (p ∷ []) (all ∷ []) (n, c, d, i, tt)
                  (ground (arith, has-append r all [])))
              (absent q (p ∷ all) rest e3 k) in
          (
            removed-Unlinked h bp p xs ys (pred q) nb u,
            removed-Unlinked h bp p xs ys (succ q) nb v,
          ) in
      record {
        runs = heap_remove-removed h bp here nb.before_node (IsNode-behind h p bp xs ys nb);
        lists = (
          IsNode-bounds h (removed h bp) p bounds n,
          Chain-removed h p bp xs ys n e1 c,
          d1,
          headers-bounds h (removed h bp) (xs ++ ys) bounds (headers-removed h bp xs ys i),
          FreeLists-frame h (removed h bp) ps xss bounds kept f,
        );
        apart =
            distinct-join (p ∷ (xs ++ ys)) rest (distinct-without (p ∷ xs) bp ys e1).0 e2
              (λ q k. e3 q (less q k));
        within = λ q k. ground (arith, has-append q all rest, has-append q (xs ++ ys) rest, less q);
        blocks = λ q. ground (
          arith,
          has-append q all (all_blocks xss),
          has-append q (xs ++ ys) (all_blocks xss),
          has-removed h bp q xs ys d,
          blocks-nodes h bp ps xss f,
          ==_iff q bp,
        );
        spares = λ x u.
            removed-Unlinked h bp p xs ys x nb (λ q j. u q (ground (arith, has-append q all rest)));
      }

  -- The block is in another list.
  take-later :
      (p : ℕ) (ps xs : List ℕ) (xss yss : List (List ℕ))
      → FreeLists h (p ∷ ps) (xs ∷ xss)
      → distinct (nodes (p ∷ ps) (xs ∷ xss)) ≡ true
      → has bp xs ≡ false
      → Taken h bp ps xss yss
      → Taken h bp (p ∷ ps) (xs ∷ xss) (xs ∷ yss)
  take-later p ps xs xss yss (n, c, d, i, f) e out t =
      let rest = nodes ps xss in
      let (e1, e2, e3) = distinct-append (p ∷ xs) rest e in
      let kept : (q : ℕ)
          → has q (p ∷ xs) ≡ true
          → ((removed h bp).word (pred q) ≡ h.word (pred q))
            × ((removed h bp).word (succ q) ≡ h.word (succ q)) =
        λ q k.
          let m =
            FreeLists-IsNode h q (p ∷ []) (xs ∷ []) (n, c, d, i, tt)
              (ground (arith, has-append q xs [])) in
          let (u, v) =
            Unlinked-other h q rest m (λ r j. FreeLists-IsNode h r ps xss f j) (e3 q k) in
          (t.spares (pred q) u, t.spares (succ q) v) in
      record {
        runs = t.runs;
        lists = (
          IsNode-bounds h (removed h bp) p bounds n,
          frame h (removed h bp) p xs refl refl (λ q k. (kept q k).1)
              (λ q k. (kept q (ground arith)).0) c,
          d,
          headers-bounds h (removed h bp) xs bounds i,
          t.lists,
        );
        apart = distinct-join (p ∷ xs) (nodes ps yss) e1 t.apart (λ q k.
            absent q (nodes ps yss) (p ∷ xs) (λ r j. absent r (p ∷ xs) rest e3 (t.within r j)) k);
        within =
            λ q k. ground (arith, has-append q xs rest, has-append q xs (nodes ps yss), t.within q);
        blocks = λ q. ground (
          arith,
          has-append q xs (all_blocks xss),
          has-append q xs (all_blocks yss),
          t.blocks q,
          has_same q bp xs out,
        );
        spares = λ x u. t.spares x (λ q j. u q (ground (arith, has-append q xs rest)));
      }

  -- `heap_remove` of a block of the lists takes it out of them, and leaves the words alone that are no
  -- links of the nodes.
  pub heap_remove-Taken :
      (ps : List ℕ) (xss : List (List ℕ))
      → FreeLists h ps xss
      → distinct (nodes ps xss) ≡ true
      → has bp (all_blocks xss) ≡ true
      → (yss : List (List ℕ)) × Taken h bp ps xss yss
  heap_remove-Taken [] [] f d k = absurd (ground arith)
  heap_remove-Taken [] (xs ∷ xss) f d k = absurd f
  heap_remove-Taken (p ∷ ps) [] f d k = absurd f
  heap_remove-Taken (p ∷ ps) (xs ∷ xss) f d k = elim (Bool-cases (has bp xs)) [
    | inl e ↦
        let (ys, zs, r) = split_at bp xs e in
        (
          (ys ++ zs) ∷ xss,
          subst (λ l. Taken h bp (p ∷ ps) (l ∷ xss) ((ys ++ zs) ∷ xss)) (sym r)
              (take-first p ps ys zs xss (subst (λ l. FreeLists h (p ∷ ps) (l ∷ xss)) r f)
                (subst (λ l. distinct (nodes (p ∷ ps) (l ∷ xss)) ≡ true) r d)),
        )
    | inr e ↦
        let (yss, t) =
          heap_remove-Taken ps xss f.4 (distinct-append (p ∷ xs) (nodes ps xss) d).1
            (ground (arith, has-append bp xs (all_blocks xss))) in
        (xs ∷ yss, take-later p ps xs xss yss f d e t)
  ]
