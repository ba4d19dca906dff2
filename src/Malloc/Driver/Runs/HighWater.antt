-- ===== src/Malloc/Driver/Runs/HighWater.antt =====
-- What `eval_mm_util` of malloc/lab/mdriver.c counts.
use csapp_labs.Base.{
  ℕ, ◌+◌, ◌-◌, ◌%◌, ◌^◌, ◌≤◌, ◌<◌, ◌≡◌, refl, sym, Bool, true, false, Option, none, some, List, [],
  ◌∷◌, ltb, ◌==◌, if◌then◌else◌, arith, lt→ltb,
}
use Prim.Native.Nat.{max}
use mathlib.Core.Path.{subst}
use csapp_labs.Base.State.{Cmd, fault, ◌>>=◌, ◌>>◌}
use csapp_labs.Malloc.Memlib.{Heap, update, mem_heapsize, mem_reset_brk}
use csapp_labs.Malloc.Mm.{mm_init, mm_malloc, mm_realloc, mm_free}
use csapp_labs.Malloc.Driver.{
  TraceOp, alloc, realloc, free, Run, call, block, set_block, size_of_block, set_size_of_block,
}
use csapp_labs.Malloc.Driver.Valid.{reset}
use csapp_labs.Malloc.Driver.Runs.{max_int, util_ops, eval_mm_util}
use csapp_labs.Malloc.Driver.Runs.Live.{
  Live, total, without, is_live, high_water, proper, Agrees, Agrees-without, without-gone,
  total-without, proper-fits, proper-bound, proper-rest, Agrees-stored, fresh,
}

max_int-max : (a b : ℕ) → a < 2 ^ 31 → b < 2 ^ 31 → max_int a b ≡ max a b
max_int-max a b m n = rw (lt→ltb a (2 ^ 31) m, lt→ltb b (2 ^ 31) n) (ground arith)

-- A command whose value, when it returns one, is `m`.
abbrev Gives : ℕ → Option (ℕ × Run Heap) → Type 0
Gives m none = Unit
Gives m (some (a, r)) = a ≡ m

called :
    {A : Type 0} (m : ℕ) (o : Option (A × Heap)) (f : A → Cmd (Run Heap) ℕ) (r : Run Heap)
    → ((a : A) (h : Heap) → Gives m (f a (record r { pkg = h })))
    → Gives m
        (((λ q. elim o [ none ↦ none | some (a, s) ↦ some (a, record q { pkg = s }) ]) >>= f) r)
called m none f r k = tt
called m (some (a, h)) f r k = k a h

call-Gives :
    {A : Type 0} (m : ℕ) (c : Cmd Heap A) (f : A → Cmd (Run Heap) ℕ) (r : Run Heap)
    → ((a : A) (h : Heap) → Gives m (f a (record r { pkg = h })))
    → Gives m ((call c >>= f) r)
call-Gives m c f r k = called m (c r.pkg) f r k

-- A place of an array.
guarded :
    {A : Type 0} (m : ℕ) (b : Bool) (a : A) (s : Run Heap) (f : A → Cmd (Run Heap) ℕ)
    → Gives m (f a s)
    → Gives m (((λ _. if b then some (a, s) else none) >>= f) s)
guarded m true a s f k = k
guarded m false a s f k = tt

unless_null :
    (m : ℕ) (b : Bool) (c : Cmd (Run Heap) ℕ) (r : Run Heap)
    → Gives m (c r)
    → Gives m ((if b then fault else c) r)
unless_null m true c r k = tt
unless_null m false c r k = k

block-Gives :
    (m i : ℕ) (f : ℕ → Cmd (Run Heap) ℕ) (r : Run Heap)
    → Gives m (f (r.blocks i) r)
    → Gives m ((block i >>= f) r)
block-Gives m i f r k = guarded m (ltb i r.num_ids) (r.blocks i) r f k

size-Gives :
    (m i : ℕ) (f : ℕ → Cmd (Run Heap) ℕ) (r : Run Heap)
    → Gives m (f (r.block_sizes i) r)
    → Gives m ((size_of_block i >>= f) r)
size-Gives m i f r k = guarded m (ltb i r.num_ids) (r.block_sizes i) r f k

-- A block and its size are stored.
abbrev stored_block : Run Heap → ℕ → ℕ → ℕ → Run Heap
stored_block r i p n = record r {
  blocks = update r.blocks i p;
  block_sizes = update r.block_sizes i n;
}

store-Gives :
    (m i p n : ℕ) (c : Cmd (Run Heap) ℕ) (r : Run Heap)
    → Gives m (c (stored_block r i p n))
    → Gives m ((do set_block i p; set_size_of_block i n; c) r)
store-Gives m i p n c r k =
    let r' = record r { blocks = update r.blocks i p } in
    guarded m (ltb i r.num_ids) tt r' (λ _. set_size_of_block i n >> c)
      (guarded m (ltb i r.num_ids) tt (stored_block r i p n) (λ _. c) k)

counted :
    (ops : List TraceOp) (here most word m : ℕ) (r : Run Heap)
    → word ≡ here
    → here < 2 ^ 31
    → most < 2 ^ 31
    → Gives m (util_ops here (max here most) ops r)
    → Gives m (util_ops word (max_int word most) ops r)
counted ops here most word m r e b c k =
    subst (λ x. Gives m (util_ops x (max_int x most) ops r)) (sym e)
      (subst (λ y. Gives m (util_ops here y ops r)) (sym (max_int-max here most b c)) k)

-- The loop, from a state that holds the sizes of the blocks.
util_ops-Gives :
    (ops : List TraceOp) (l : Live) (most : ℕ) (r : Run Heap)
    → Agrees r.block_sizes l
    → total l ≤ most
    → most < 2 ^ 31
    → proper l ops ≡ true
    → Gives (high_water most l ops) (util_ops (total l) most ops r)
unfolding util_ops
util_ops-Gives [] l most r a m b p = refl
util_ops-Gives (alloc i n ∷ ops) l most r a m b p =
    let op = alloc i n in
    let w = high_water most l (op ∷ ops) in
    let s = proper-bound op l ops p in
    call-Gives w (mm_malloc n) _ r (λ x h.
      let r' = stored_block (record r { pkg = h }) i x n in
      unless_null w (x == 0) _ _ (
        store-Gives w i x n _ _ (
          counted ops (n + total l) most _ w r' (omega arith) s b (
            util_ops-Gives ops ((i, n) ∷ l) (max (n + total l) most) r'
              (Agrees-stored r.block_sizes i n l (fresh (is_live i l) (proper-fits op l ops p)) a)
              (omega arith) (omega arith) (proper-rest op l ops p)))))
util_ops-Gives (realloc i n ∷ ops) l most r a m b p =
    let op = realloc i n in
    let w = high_water most l (op ∷ ops) in
    let s = proper-bound op l ops p in
    let old = total-without r.block_sizes i l a (proper-fits op l ops p) in
    size-Gives w i _ r (
      block-Gives w i _ r (
        call-Gives w (mm_realloc (r.blocks i) n) _ r (λ x h.
          let r' = stored_block (record r { pkg = h }) i x n in
          unless_null w (x == 0) _ _ (
            store-Gives w i x n _ _ (
              counted ops (n + total (without i l)) most _ w r' (omega arith) s b (
                util_ops-Gives ops ((i, n) ∷ without i l) (max (n + total (without i l)) most) r'
                  (Agrees-stored r.block_sizes i n (without i l) (without-gone r.block_sizes i l a)
                    (Agrees-without r.block_sizes i l a))
                  (omega arith) (omega arith) (proper-rest op l ops p)))))))
util_ops-Gives (free i ∷ ops) l most r a m b p =
    let op = free i in
    let w = high_water most l (op ∷ ops) in
    let old = total-without r.block_sizes i l a (proper-fits op l ops p) in
    let rest = without i l in
    let e : (total l + (2 ^ 32 - r.block_sizes i)) % 2 ^ 32 ≡ total rest = omega arith in
    let q : max (total rest) most ≡ most = omega arith in
    size-Gives w i _ r (
      block-Gives w i _ r (
        call-Gives w (mm_free (r.blocks i)) _ r (λ x h.
          let r' = record r { pkg = h } in
          subst (λ z. Gives w (util_ops z most ops r')) (sym e)
            (subst (λ y. Gives (high_water y rest ops) (util_ops (total rest) most ops r')) (sym q)
              (util_ops-Gives ops rest most r' (Agrees-without r.block_sizes i l a) (omega arith) b
                (proper-rest op l ops p))))))

-- The two numbers of `eval_mm_util`.
abbrev GivesRatio : ℕ → Option ((ℕ × ℕ) × Run Heap) → Type 0
GivesRatio m none = Unit
GivesRatio m (some ((a, n), r)) = (a ≡ m) × (n ≡ mem_heapsize r.pkg)

abbrev ratio : ℕ → Cmd (Run Heap) (ℕ × ℕ)
ratio most r = some ((most, mem_heapsize r.pkg), r)

ratio-Gives :
    (m : ℕ) (o : Option (ℕ × Run Heap)) (s : Run Heap)
    → Gives m o
    → GivesRatio m (((λ _. o) >>= ratio) s)
ratio-Gives m none s k = tt
ratio-Gives m (some (a, r)) s k = (k, refl)

started :
    (m : ℕ) (o : Option (Bool × Heap)) (c : Cmd (Run Heap) (ℕ × ℕ)) (r : Run Heap)
    → ((h : Heap) → GivesRatio m (c (record r { pkg = h })))
    → GivesRatio m (
        ((λ q. elim o [ none ↦ none | some (a, s) ↦ some (a, record q { pkg = s }) ]) >>= λ ok.
        if ok then c else fault)
          r)
started m none c r k = tt
started m (some (true, h)) c r k = k h
started m (some (false, h)) c r k = tt

eval_mm_util-Gives :
    (ops : List TraceOp) (r : Run Heap)
    → proper [] ops ≡ true
    → GivesRatio (high_water 0 [] ops) (eval_mm_util ops r)
unfolding eval_mm_util reset
eval_mm_util-Gives ops r p =
    let w = high_water 0 [] ops in
    let q = record r { pkg = mem_reset_brk r.pkg } in
    started w (mm_init (mem_reset_brk r.pkg)) (util_ops 0 0 ops >>= ratio) q (λ h.
      let r' = record r { pkg = h } in
      ratio-Gives w (util_ops 0 0 ops r') r'
        (util_ops-Gives ops [] 0 r' tt (omega arith) (omega arith) p))

-- A trace allocates only blocks that are free, and resizes and frees only blocks that are allocated,
-- and the sizes of the allocated blocks always add up to less than 2 ^ 31. When `eval_mm_util` returns
-- on it, whatever mm.c has done, the first number is the largest sum that the requests reach, and the
-- second one the size of the heap at the end.
pub eval_mm_util-high_water :
    (ops : List TraceOp) (r r' : Run Heap) (most size : ℕ)
    → proper [] ops ≡ true
    → eval_mm_util ops r ≡ some ((most, size), r')
    → (most ≡ high_water 0 [] ops) × (size ≡ mem_heapsize r'.pkg)
eval_mm_util-high_water ops r r' most size p e =
    subst (GivesRatio (high_water 0 [] ops)) e (eval_mm_util-Gives ops r p)
