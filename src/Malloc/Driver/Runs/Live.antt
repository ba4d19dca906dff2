-- ===== src/Malloc/Driver/Runs/Live.antt =====
-- The blocks that a trace of malloc/lab/mdriver.c has allocated, and the sum of their sizes.
use csapp_labs.Base.{
  ℕ, ◌+◌, ◌^◌, ◌<◌, ◌≡◌, refl, sym, ap, ◌∙◌, Bool, true, false, ◌&&◌, ◌||◌, not, List, [], ◌∷◌, ltb,
  ◌==◌, if◌then◌else◌, arith, ==-self, ==-ne, Bool-cases, inl, inr,
}
use Prim.Native.Nat.{max}
use mathlib.Core.Path.{subst}
use native.Mathlib.Decide.{ℕ_discrete}
use csapp_labs.Malloc.Memlib.{update}
use csapp_labs.Malloc.Driver.{TraceOp, alloc, realloc, free}

-- The blocks that are allocated: an index and a size.
abbrev pub Live : Type 0
Live = List (ℕ × ℕ)

abbrev pub total : Live → ℕ
total [] = 0
total ((i, n) ∷ l) = n + total l

abbrev pub without : ℕ → Live → Live
without i [] = []
without i ((j, n) ∷ l) = if j == i then l else (j, n) ∷ without i l

abbrev pub is_live : ℕ → Live → Bool
is_live i [] = false
is_live i ((j, n) ∷ l) = (j == i) || is_live i l

abbrev pub apply : TraceOp → Live → Live
apply (alloc i n) l = (i, n) ∷ l
apply (realloc i n) l = (i, n) ∷ without i l
apply (free i) l = without i l

-- The largest total, `most` included, that the requests reach.
abbrev pub high_water : ℕ → Live → List TraceOp → ℕ
high_water most l [] = most
high_water most l (op ∷ ops) = high_water (max (total (apply op l)) most) (apply op l) ops

-- A request names a block that is free to be allocated, or one that is allocated.
abbrev pub fits_request : TraceOp → Live → Bool
fits_request (alloc i n) l = not (is_live i l)
fits_request (realloc i n) l = is_live i l
fits_request (free i) l = is_live i l

-- Every request is of this kind, and the totals are numbers of an `int`.
abbrev pub proper : Live → List TraceOp → Bool
proper l [] = true
proper l (op ∷ ops) =
    (fits_request op l && ltb (total (apply op l)) (2 ^ 31)) && proper (apply op l) ops

-- `block_sizes` holds the sizes of the blocks, which have different indices.
abbrev pub Agrees : (ℕ → ℕ) → Live → Type 0
Agrees f [] = Unit
Agrees f ((i, n) ∷ l) = (f i ≡ n) × (is_live i l ≡ false) × Agrees f l

not_head : (i j n : ℕ) (l : Live) → is_live i ((j, n) ∷ l) ≡ false → (j == i) ≡ false
not_head i j n l e = ground arith

not_tail : (i j n : ℕ) (l : Live) → is_live i ((j, n) ∷ l) ≡ false → is_live i l ≡ false
not_tail i j n l e = ground arith

Agrees-update :
    (f : ℕ → ℕ) (i n : ℕ) (l : Live) → is_live i l ≡ false → Agrees f l → Agrees (update f i n) l
Agrees-update f i n [] e a = tt
Agrees-update f i n ((j, m) ∷ l) e (h, d, a) =
    (rw (not_head i j m l e) h, d, Agrees-update f i n l (not_tail i j m l e) a)

is_live-without : (i j : ℕ) (l : Live) → is_live j l ≡ false → is_live j (without i l) ≡ false
is_live-without i j [] e = refl
is_live-without i j ((k, m) ∷ l) e = ground (arith, is_live-without i j l)

pub Agrees-without : (f : ℕ → ℕ) (i : ℕ) (l : Live) → Agrees f l → Agrees f (without i l)
Agrees-without f i [] a = tt
Agrees-without f i ((j, m) ∷ l) (h, d, a) = elim (Bool-cases (j == i)) [
  | inl e ↦ rw e a
  | inr e ↦ rw e (h, is_live-without i j l d, Agrees-without f i l a)
]

pub without-gone : (f : ℕ → ℕ) (i : ℕ) (l : Live) → Agrees f l → is_live i (without i l) ≡ false
without-gone f i [] a = refl
without-gone f i ((j, m) ∷ l) (h, d, a) = elim (ℕ_discrete j i) [
  | yes e ↦ rw (e, ==-self i) (subst (λ k. is_live k l ≡ false) e d)
  | no n ↦ rw (==-ne j i n, ==-ne j i n) (without-gone f i l a)
]

pub total-without :
    (f : ℕ → ℕ) (i : ℕ) (l : Live)
    → Agrees f l
    → is_live i l ≡ true
    → f i + total (without i l) ≡ total l
total-without f i [] a e = absurd (ground arith)
total-without f i ((j, m) ∷ l) (h, d, a) e = elim (ℕ_discrete j i) [
  | yes q ↦ rw (q, ==-self i) (ap (λ k. k + total l) (ap f (sym q) ∙ h))
  | no n ↦ let r = total-without f i l a (ground arith) in rw (==-ne j i n) (omega arith)
]

-- The conditions on the first request, and on the others.
pub proper-fits :
    (op : TraceOp) (l : Live) (ops : List TraceOp)
    → proper l (op ∷ ops) ≡ true
    → fits_request op l ≡ true
proper-fits op l ops p = ground arith

pub proper-bound :
    (op : TraceOp) (l : Live) (ops : List TraceOp)
    → proper l (op ∷ ops) ≡ true
    → total (apply op l) < 2 ^ 31
proper-bound op l ops p = ground arith

pub proper-rest :
    (op : TraceOp) (l : Live) (ops : List TraceOp)
    → proper l (op ∷ ops) ≡ true
    → proper (apply op l) ops ≡ true
proper-rest op l ops p = ground arith

pub Agrees-stored :
    (f : ℕ → ℕ) (i n : ℕ) (l : Live)
    → is_live i l ≡ false
    → Agrees f l
    → Agrees (update f i n) ((i, n) ∷ l)
Agrees-stored f i n l e a = (rw (==-self i) refl, e, Agrees-update f i n l e a)

pub fresh : (b : Bool) → not b ≡ true → b ≡ false
fresh false e = refl
fresh true e = sym e
