-- ===== src/Malloc/Fcyc/Best.antt =====
-- What `add_sample` and `fcyc` of malloc/lab/fcyc.c keep.
use csapp_labs.Base.{
  ℕ, zero, suc, ◌-◌, ◌≤◌, ◌<◌, ◌≡◌, refl, false, Option, some, ltb, min, arith, Bool-cases, inl,
  inr, ltb→lt, lt→ltb, ap, ==-ne, ◌∙◌,
}
use mathlib.Core.Path.{subst}
use csapp_labs.Malloc.Memlib.{update}
use csapp_labs.Malloc.Fcyc.{Fcyc, sift, add_sample}
use csapp_labs.Malloc.Fcyc.Insertion.{
  Ascending, Ascending-bound, not_ltb, inserted-first, inserted-Ascending,
}

-- The smallest one of the readings 0 to `n`.
abbrev pub lowest : (ℕ → ℕ) → ℕ → ℕ
lowest cycles zero = cycles 0
lowest cycles (suc n) = min (lowest cycles n) (cycles (suc n))

-- After the readings 0 to `n`, the values are in order and the first one is the smallest reading.
pub record Best (s : Fcyc) (cycles : ℕ → ℕ) (n : ℕ) : Type 0 where
  pub counted : s.samplecount ≡ suc n
  pub some_places : 0 < s.kbest
  pub steps : 4 ≤ s.cache_block
  pub ascending : Ascending s.values (min (suc n) s.kbest)
  pub first : s.values 0 ≡ lowest cycles n

pub ltb_ge : (a b : ℕ) → b ≤ a → ltb a b ≡ false
ltb_ge a b m = ground arith

-- The result of `add_sample` in its three branches.
pub more_places :
    (s : Fcyc) (x : ℕ)
    → s.samplecount < s.kbest
    → add_sample x s
      ≡ some (record s {
        values = sift s.samplecount (update s.values s.samplecount x);
        samplecount = suc s.samplecount;
      })
unfolding add_sample
more_places s x m = rw (lt→ltb s.samplecount s.kbest m) refl

replaced :
    (s : Fcyc) (x : ℕ)
    → 0 < s.kbest
    → s.kbest ≤ s.samplecount
    → x < s.values (s.kbest - 1)
    → add_sample x s
      ≡ some (record s {
        values = sift (s.kbest - 1) (update s.values (s.kbest - 1) x);
        samplecount = suc s.samplecount;
      })
unfolding add_sample
replaced s x p m k =
    rw
      (
        ltb_ge s.samplecount s.kbest m,
        ==-ne s.kbest 0 (omega arith),
        lt→ltb x (s.values (s.kbest - 1)) k,
      )
      refl

dropped :
    (s : Fcyc) (x : ℕ)
    → 0 < s.kbest
    → s.kbest ≤ s.samplecount
    → s.values (s.kbest - 1) ≤ x
    → add_sample x s ≡ some (record s { samplecount = suc s.samplecount })
unfolding add_sample
dropped s x p m k =
    rw
      (
        ltb_ge s.samplecount s.kbest m,
        ==-ne s.kbest 0 (omega arith),
        ltb_ge x (s.values (s.kbest - 1)) k,
      )
      refl

full-Ascending :
    (s : Fcyc) (cycles : ℕ → ℕ) (n : ℕ)
    → Best s cycles n
    → s.kbest ≤ suc n
    → Ascending s.values s.kbest
full-Ascending s cycles n b m i k = b.ascending i (omega (arith, b.some_places))

-- A next sample that keeps this.
abbrev pub Next : Fcyc → (ℕ → ℕ) → ℕ → Option Fcyc → Type 0
Next s cycles n o =
    (s' : Fcyc) × (o ≡ some s') × Best s' cycles (suc n) × (s'.maxsamples ≡ s.maxsamples)

module _ (s : Fcyc) (cycles : ℕ → ℕ) (n : ℕ) (b : Best s cycles n) where
  counted-Ascending : s.samplecount < s.kbest → Ascending s.values s.samplecount
  counted-Ascending m j l = b.ascending j (omega (arith, b.counted))

  more-Next : s.samplecount < s.kbest → Next s cycles n (add_sample (cycles (suc n)) s)
  more-Next m =
      let x = cycles (suc n) in
      (
        record s {
          values = sift s.samplecount (update s.values s.samplecount x);
          samplecount = suc s.samplecount;
        },
        more_places s x m,
        record {
          counted = ap suc b.counted;
          some_places = b.some_places;
          steps = b.steps;
          ascending = λ i k.
              inserted-Ascending s.values s.samplecount x (counted-Ascending m) i
                (omega (arith, b.counted));
          first =
              inserted-first s.values s.samplecount x (counted-Ascending m)
                (λ z. absurd (omega (arith, b.counted)))
              ∙ ap (λ y. min y x) b.first;
        },
        refl,
      )

  replaced-Next :
      s.kbest ≤ s.samplecount
      → cycles (suc n) < s.values (s.kbest - 1)
      → Next s cycles n (add_sample (cycles (suc n)) s)
  replaced-Next m k =
      let x = cycles (suc n) in
      let last = s.kbest - 1 in
      let a : Ascending s.values last =
        λ i l. full-Ascending s cycles n b (omega (arith, b.counted)) i (omega arith) in
      (
        record s { values = sift last (update s.values last x); samplecount = suc s.samplecount },
        replaced s x b.some_places m k,
        record {
          counted = ap suc b.counted;
          some_places = b.some_places;
          steps = b.steps;
          ascending = λ i l.
              inserted-Ascending s.values last x a i (omega (arith, b.counted, b.some_places));
          first =
              inserted-first s.values last x a
                (λ z. let k' = subst (λ i. x < s.values i) z k in omega arith)
              ∙ ap (λ y. min y x) b.first;
        },
        refl,
      )

  dropped-Next :
      s.kbest ≤ s.samplecount
      → s.values (s.kbest - 1) ≤ cycles (suc n)
      → Next s cycles n (add_sample (cycles (suc n)) s)
  dropped-Next m k =
      let a = full-Ascending s cycles n b (omega (arith, b.counted)) in
      let last = s.kbest - 1 in
      let low =
        Ascending-bound s.values last 0 (λ i l. a i (omega (arith, b.some_places))) (omega arith) in
      (
        record s { samplecount = suc s.samplecount },
        dropped s (cycles (suc n)) b.some_places m k,
        record {
          counted = ap suc b.counted;
          some_places = b.some_places;
          steps = b.steps;
          ascending = λ i l. a i (omega (arith, b.counted));
          first = omega (arith, low, b.first);
        },
        refl,
      )

  -- `add_sample` never fails then, and keeps this.
  pub add_sample-Next : Next s cycles n (add_sample (cycles (suc n)) s)
  add_sample-Next = elim (Bool-cases (ltb s.samplecount s.kbest)) [
    | inl e ↦ more-Next (ltb→lt s.samplecount s.kbest e)
    | inr e ↦ elim (Bool-cases (ltb (cycles (suc n)) (s.values (s.kbest - 1)))) [
      | inl f ↦
          replaced-Next (not_ltb s.samplecount s.kbest e)
            (ltb→lt (cycles (suc n)) (s.values (s.kbest - 1)) f)
      | inr f ↦
          dropped-Next (not_ltb s.samplecount s.kbest e)
            (not_ltb (cycles (suc n)) (s.values (s.kbest - 1)) f)
    ]
  ]
