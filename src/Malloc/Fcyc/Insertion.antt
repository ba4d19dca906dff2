-- ===== src/Malloc/Fcyc/Insertion.antt =====
-- The insertion sort of `add_sample` of malloc/lab/fcyc.c.
use csapp_labs.Base.{
  ℕ, zero, suc, ◌≤◌, ◌<◌, ◌≡◌, refl, false, ltb, min, arith, Bool-cases, inl, inr, ltb→lt, ==-self,
  ==-ne, ◌∙◌,
}
use native.Mathlib.Decide.{ℕ_discrete}
use csapp_labs.Malloc.Memlib.{update}
use csapp_labs.Malloc.Fcyc.{swap, sift}

-- The first `n` values are in order.
abbrev pub Ascending : (ℕ → ℕ) → ℕ → Type 0
Ascending v n = (i : ℕ) → suc i < n → v i ≤ v (suc i)

module _ (v : ℕ → ℕ) (pos : ℕ) where
  swapped-low : swap v pos (suc pos) pos ≡ v (suc pos)
  swapped-low = rw (==-ne pos (suc pos) (omega arith), ==-self pos) refl

  swapped-high : swap v pos (suc pos) (suc pos) ≡ v pos
  swapped-high = rw (==-self (suc pos)) refl

  swapped-below : (i : ℕ) → i < pos → swap v pos (suc pos) i ≡ v i
  swapped-below i m = rw (==-ne i (suc pos) (omega arith), ==-ne i pos (omega arith)) refl

  swapped-above : (i : ℕ) → suc pos < i → swap v pos (suc pos) i ≡ v i
  swapped-above i m = rw (==-ne i (suc pos) (omega arith), ==-ne i pos (omega arith)) refl

  swapped-Ascending : Ascending v (suc pos) → Ascending (swap v pos (suc pos)) pos
  swapped-Ascending a i m =
      rw (swapped-below i (omega arith), swapped-below (suc i) m) (a i (omega arith))

-- The values above the place are not touched.
sift-above : (pos : ℕ) (v : ℕ → ℕ) (i : ℕ) → pos < i → sift pos v i ≡ v i
unfolding sift
sift-above zero v i m = refl
sift-above (suc pos) v i m = elim (Bool-cases (ltb (v (suc pos)) (v pos))) [
  | inl e ↦ rw e (sift-above pos (swap v pos (suc pos)) i (omega arith) ∙ swapped-above v pos i m)
  | inr e ↦ rw e refl
]

-- Both are below a bound of the values that they exchange.
swapped-bound :
    (v : ℕ → ℕ) (pos b : ℕ)
    → ((i : ℕ) → i ≤ suc pos → v i ≤ b)
    → (i : ℕ) → i ≤ pos
    → swap v pos (suc pos) i ≤ b
swapped-bound v pos b k i m = elim (ℕ_discrete i pos) [
  | yes e ↦ rw (e, swapped-low v pos) (k (suc pos) (omega arith))
  | no n ↦ rw (swapped-below v pos i (omega arith)) (k i (omega arith))
]

-- A bound of all the values remains one.
sift-bound :
    (pos : ℕ) (v : ℕ → ℕ) (b : ℕ)
    → ((i : ℕ) → i ≤ pos → v i ≤ b)
    → (i : ℕ) → i ≤ pos
    → sift pos v i ≤ b
unfolding sift
sift-bound zero v b k i m = k i m
sift-bound (suc pos) v b k i m = elim (Bool-cases (ltb (v (suc pos)) (v pos))) [
  | inl e ↦ elim (ℕ_discrete i (suc pos)) [
    | yes q ↦
        rw (e, q, sift-above pos (swap v pos (suc pos)) (suc pos) (omega arith), swapped-high v pos)
          (k pos (omega arith))
    | no n ↦
        rw e (sift-bound pos (swap v pos (suc pos)) b (swapped-bound v pos b k) i (omega arith))
  ]
  | inr e ↦ rw e (k i m)
]

pub Ascending-bound : (v : ℕ → ℕ) (n i : ℕ) → Ascending v (suc n) → i ≤ n → v i ≤ v n
Ascending-bound v zero i a m = let e : i ≡ 0 = omega arith in rw e (omega arith)
Ascending-bound v (suc n) i a m = elim (ℕ_discrete i (suc n)) [
  | yes e ↦ rw e (omega arith)
  | no d ↦
      omega
        (arith, a n (omega arith), Ascending-bound v n i (λ j k. a j (omega arith)) (omega arith))
]

pub not_ltb : (a b : ℕ) → ltb a b ≡ false → b ≤ a
not_ltb a b e = ground arith

-- When the new value is the smallest, the last old one is a bound.
new-bound :
    (v : ℕ → ℕ) (pos : ℕ)
    → Ascending v (suc pos)
    → v (suc pos) < v pos
    → (i : ℕ) → i ≤ suc pos
    → v i ≤ v pos
new-bound v pos a e i m = elim (ℕ_discrete i (suc pos)) [
  | yes q ↦ rw q (omega arith)
  | no n ↦ Ascending-bound v pos i a (omega arith)
]

first-swapped :
    (v : ℕ → ℕ) (pos : ℕ)
    → v (suc pos) < v pos
    → min (swap v pos (suc pos) 0) (swap v pos (suc pos) pos) ≡ min (v 0) (v (suc pos))
first-swapped v zero e = rw (swapped-low v 0) (omega arith)
first-swapped v (suc pos) e =
    rw (swapped-low v (suc pos), swapped-below v (suc pos) 0 (omega arith)) refl

-- The insertion puts one more value in order.
sift-Ascending : (pos : ℕ) (v : ℕ → ℕ) → Ascending v pos → Ascending (sift pos v) (suc pos)
unfolding sift
sift-Ascending zero v a i m = absurd (omega arith)
sift-Ascending (suc pos) v a i m = elim (Bool-cases (ltb (v (suc pos)) (v pos))) [
  | inl e ↦
      let w = swap v pos (suc pos) in
      elim (ℕ_discrete i pos) [
        | yes q ↦
            rw (e, q, sift-above pos w (suc pos) (omega arith), swapped-high v pos)
              (sift-bound pos w (v pos)
                (swapped-bound v pos (v pos) (new-bound v pos a (ltb→lt (v (suc pos)) (v pos) e)))
                pos (omega arith))
        | no n ↦ rw e (sift-Ascending pos w (swapped-Ascending v pos a) i (omega arith))
      ]
  | inr e ↦ elim (ℕ_discrete i pos) [
    | yes q ↦ rw (e, q) (not_ltb (v (suc pos)) (v pos) e)
    | no n ↦ rw e (a i (omega arith))
  ]
]

-- The first value after the insertion is the smaller one of the old first value and the new value.
sift-first : (pos : ℕ) (v : ℕ → ℕ) → Ascending v pos → sift pos v 0 ≡ min (v 0) (v pos)
unfolding sift
sift-first zero v a = omega arith
sift-first (suc pos) v a = elim (Bool-cases (ltb (v (suc pos)) (v pos))) [
  | inl e ↦ rw e (
      sift-first pos (swap v pos (suc pos)) (swapped-Ascending v pos a)
      ∙ first-swapped v pos (ltb→lt (v (suc pos)) (v pos) e))
  | inr e ↦
      rw e (omega (arith, Ascending-bound v pos 0 a (omega arith), not_ltb (v (suc pos)) (v pos) e))
]

updated-Ascending : (v : ℕ → ℕ) (pos x : ℕ) → Ascending v pos → Ascending (update v pos x) pos
updated-Ascending v pos x a i m =
    rw (==-ne i pos (omega arith), ==-ne (suc i) pos (omega arith)) (a i m)

pub inserted-first :
    (v : ℕ → ℕ) (pos x : ℕ)
    → Ascending v pos
    → (pos ≡ 0 → x ≤ v 0)
    → sift pos (update v pos x) 0 ≡ min (v 0) x
unfolding sift
inserted-first v zero x a k = omega (arith, k refl)
inserted-first v (suc pos) x a k =
    sift-first (suc pos) (update v (suc pos) x) (updated-Ascending v (suc pos) x a)
    ∙ rw (==-self (suc pos), ==-ne 0 (suc pos) (omega arith)) refl

pub inserted-Ascending :
    (v : ℕ → ℕ) (pos x : ℕ) → Ascending v pos → Ascending (sift pos (update v pos x)) (suc pos)
inserted-Ascending v pos x a = sift-Ascending pos (update v pos x) (updated-Ascending v pos x a)
