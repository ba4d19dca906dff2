-- ===== src/Malloc/Fcyc/Tests.antt =====
-- The sampler run on concrete times.
use csapp_labs.Base.{ℕ, ◌≡◌, refl, Bool, true, false, Option, none, some, arith, get_or, [], ◌∷◌}
use csapp_labs.Malloc.Fcyc.{
  Fcyc, defaults, fcyc, samples, add_sample, sift, measure, has_converged, clear, init_sampler,
}
use csapp_labs.Malloc.Fcyc.Best.{lowest}
use csapp_labs.Malloc.Fcyc.Loop.{fcyc-lowest, readings, Ended}

-- The settings of fsecs.c.
abbrev settings : Fcyc
settings = record defaults { maxsamples = 20; clear_cache = true; compensate = true }

abbrev clock : ℕ → ℕ
clock i = get_or (1300 ∷ 1005 ∷ 1200 ∷ 1000 ∷ 1003 ∷ []) i 2000

-- The times 1000, 1003 and 1005 agree.
measured : Option (ℕ × Fcyc) → ℕ × ℕ × Bool
measured none = (0, 0, false)
measured (some (t, s)) = (t, s.samplecount, unfold has_converged in has_converged s)

three_agree : measured (fcyc clock (λ i. 0) settings) ≡ (1000, 5, true)
unfolding measured fcyc samples measure add_sample sift has_converged clear init_sampler
three_agree = refl

fcyc-lowest_example :
    (s' : Fcyc) × (n : ℕ) × (fcyc clock (λ i. 0) settings
      ≡ some (lowest (readings settings clock (λ i. 0)) n, s'))
    × Ended s' 20 (readings settings clock (λ i. 0)) n
fcyc-lowest_example = fcyc-lowest settings clock (λ i. 0) (omega arith) (omega arith)
