-- ===== src/Malloc/Fcyc/Loop.antt =====
-- The loop of `fcyc` of malloc/lab/fcyc.c ends, with the smallest time that it has measured.
use csapp_labs.Base.{
  ℕ, zero, suc, ◌+◌, ◌-◌, ◌≤◌, ◌<◌, ◌≡◌, refl, ap, sym, ◌∙◌, Bool, true, false, ◌&&◌, ◌⊎◌, not,
  Option, none, some, ◌/◌, ltb, if◌then◌else◌, arith, Bool-cases, inl, inr, lt→ltb, ltb→lt,
}
use mathlib.Core.Path.{subst}
use csapp_labs.Malloc.Memlib.{update}
use csapp_labs.Malloc.Fcyc.{
  Fcyc, init_sampler, sift, add_sample, has_converged, walk, with_buffer, clear, measure, samples,
  fcyc,
}
use csapp_labs.Malloc.Fcyc.Best.{Best, Next, lowest, add_sample-Next, more_places, ltb_ge}
use csapp_labs.Malloc.Fcyc.Insertion.{not_ltb}

-- With a step of at least one word, the walk over the buffer ends.
walk-end :
    (k incr cend cptr : ℕ)
    → 0 < incr
    → cend ≤ cptr + k
    → (c : ℕ) × (walk (suc k) incr cend cptr ≡ some c)
unfolding walk
walk-end zero incr cend cptr s m = (cptr, rw (ltb_ge cptr cend (omega arith)) refl)
walk-end (suc k) incr cend cptr s m = elim (Bool-cases (ltb cptr cend)) [
  | inl e ↦ let (c, q) = walk-end k incr cend (cptr + incr) s (omega arith) in (c, rw e q)
  | inr e ↦ (cptr, rw e refl)
]

clear-with_buffer : (s : Fcyc) → 4 ≤ s.cache_block → clear s ≡ some (with_buffer s)
unfolding clear
clear-with_buffer s b =
    let (c, e) =
      walk-end (s.cache_bytes / 4) (s.cache_block / 4) (s.cache_bytes / 4) 0 (omega arith)
        (omega arith) in
    rw (clear, e) refl

-- The variables when the time is measured.
abbrev prepared : Fcyc → Fcyc
prepared s = if s.clear_cache then with_buffer s else s

chosen :
    (cyc : ℕ) (b : Bool) (s r : Fcyc) (o : Option Fcyc)
    → o ≡ some r
    → (if b then elim o [ none ↦ none | some s' ↦ add_sample cyc s' ] else add_sample cyc s)
      ≡ add_sample cyc (if b then r else s)
chosen cyc true s r o e = rw e refl
chosen cyc false s r o e = refl

measure-prepared :
    (cyc : ℕ) (s : Fcyc) → 4 ≤ s.cache_block → measure cyc s ≡ add_sample cyc (prepared s)
unfolding measure
measure-prepared cyc s b =
    chosen cyc s.clear_cache s (with_buffer s) (clear s) (clear-with_buffer s b)

-- Preparing the cache touches no variable of the sampler.
abbrev SameSampler : Fcyc → Fcyc → Type 0
SameSampler s r =
    (r.kbest ≡ s.kbest)
    × (r.maxsamples ≡ s.maxsamples)
    × (r.values ≡ s.values)
    × (r.samplecount ≡ s.samplecount)
    × (r.cache_block ≡ s.cache_block)

same-if : (s r : Fcyc) (b : Bool) → SameSampler s r → SameSampler s (if b then r else s)
same-if s r true e = e
same-if s r false e = (refl, refl, refl, refl, refl)

prepared-SameSampler : (s : Fcyc) → SameSampler s (prepared s)
prepared-SameSampler s = same-if s (with_buffer s) s.clear_cache (refl, refl, refl, refl, refl)

Best-SameSampler :
    (s r : Fcyc) (cycles : ℕ → ℕ) (n : ℕ) → SameSampler s r → Best s cycles n → Best r cycles n
Best-SameSampler s r cycles n (k, m, v, c, q) b = record {
  counted = c ∙ b.counted;
  some_places = subst (λ x. 0 < x) (sym k) b.some_places;
  steps = subst (λ x. 4 ≤ x) (sym q) b.steps;
  ascending = rw (v, k) b.ascending;
  first = rw v b.first;
}

measure-Next :
    (s : Fcyc) (cycles : ℕ → ℕ) (n : ℕ)
    → Best s cycles n
    → Next s cycles n (measure (cycles (suc n)) s)
measure-Next s cycles n b =
    let e = prepared-SameSampler s in
    let (_, m', _, _, _) = e in
    let (s', q, b', m) =
      add_sample-Next (prepared s) cycles n (Best-SameSampler s (prepared s) cycles n e b) in
    (s', measure-prepared (cycles (suc n)) s b.steps ∙ q, b', m ∙ m')

-- The loop has ended after the readings 0 to `n`, since the best values agree or there are enough
-- samples.
pub record Ended (s : Fcyc) (most : ℕ) (cycles : ℕ → ℕ) (n : ℕ) : Type 0 where
  pub best : Best s cycles n
  pub bounded : n ≤ most - 1
  pub stopped : (has_converged s ≡ true) ⊎ (most ≤ suc n)

abbrev pub Outcome : ℕ → (ℕ → ℕ) → Option Fcyc → Type 0
Outcome most cycles o = (s : Fcyc) × (n : ℕ) × (o ≡ some s) × Ended s most cycles n

-- The end of a turn.
abbrev after : ℕ → (ℕ → ℕ) → Fcyc → Option Fcyc
after k cycles s =
    if not (has_converged s) && ltb s.samplecount s.maxsamples then samples k cycles s else some s

samples-measure :
    (k : ℕ) (cycles : ℕ → ℕ) (s s' : Fcyc)
    → measure (cycles s.samplecount) s ≡ some s'
    → samples (suc k) cycles s ≡ after k cycles s'
unfolding samples
samples-measure k cycles s s' e = rw (e, samples) refl

ended :
    (k : ℕ) (cycles : ℕ → ℕ) (s : Fcyc)
    → (has_converged s ≡ true) ⊎ (s.maxsamples ≤ s.samplecount)
    → after k cycles s ≡ some s
ended k cycles s (inl e) = rw e refl
ended k cycles s (inr m) = elim (Bool-cases (has_converged s)) [
  | inl e ↦ rw e refl
  | inr e ↦ rw (e, ltb_ge s.samplecount s.maxsamples m) refl
]

goes_on :
    (k : ℕ) (cycles : ℕ → ℕ) (s : Fcyc)
    → has_converged s ≡ false
    → s.samplecount < s.maxsamples
    → after k cycles s ≡ samples k cycles s
goes_on k cycles s e m = rw (e, lt→ltb s.samplecount s.maxsamples m) refl

turn-or-end :
    (s : Fcyc)
    → ((has_converged s ≡ true) ⊎ (s.maxsamples ≤ s.samplecount))
      ⊎ ((has_converged s ≡ false) × (s.samplecount < s.maxsamples))
turn-or-end s = elim (Bool-cases (has_converged s)) [
  | inl e ↦ inl (inl e)
  | inr e ↦ elim (Bool-cases (ltb s.samplecount s.maxsamples)) [
    | inl l ↦ inr (e, ltb→lt s.samplecount s.maxsamples l)
    | inr l ↦ inl (inr (not_ltb s.samplecount s.maxsamples l))
  ]
]

map_stop :
    (s : Fcyc) (most n : ℕ) {cycles : ℕ → ℕ}
    → Best s cycles n
    → s.maxsamples ≡ most
    → (has_converged s ≡ true) ⊎ (s.maxsamples ≤ s.samplecount)
    → (has_converged s ≡ true) ⊎ (most ≤ suc n)
map_stop s most n b e (inl c) = inl c
map_stop s most n b e (inr l) = inr (omega (arith, b.counted))

-- With enough fuel for the turns that are left, the loop ends.
after-Outcome :
    (k most : ℕ) (s : Fcyc) (cycles : ℕ → ℕ) (n : ℕ)
    → Best s cycles n
    → s.maxsamples ≡ most
    → n ≤ most - 1
    → most ≤ k + suc n
    → Outcome most cycles (after k cycles s)
after-Outcome zero most s cycles n b e m f =
    let h : (has_converged s ≡ true) ⊎ (s.maxsamples ≤ s.samplecount) =
      inr (omega (arith, b.counted)) in
    (s, n, ended zero cycles s h, record { best = b; bounded = m; stopped = inr (omega arith) })
after-Outcome (suc k) most s cycles n b e m f = elim (turn-or-end s) [
  | inl h ↦ (
    s,
    n,
    ended (suc k) cycles s h,
    record { best = b; bounded = m; stopped = map_stop s most n b e h },
  )
  | inr (c, l) ↦
      let (s', q, b', mx) = measure-Next s cycles n b in
      let q' = subst (λ i. measure (cycles i) s ≡ some s') (sym b.counted) q in
      subst (Outcome most cycles)
        (sym (goes_on (suc k) cycles s c l ∙ samples-measure k cycles s s' q'))
        (after-Outcome k most s' cycles (suc n) b' (mx ∙ e) (omega (arith, b.counted))
          (omega arith))
]

-- The first turn.
first-Best :
    (s : Fcyc) (cycles : ℕ → ℕ)
    → 0 < s.kbest
    → s.samplecount ≡ 0
    → 4 ≤ s.cache_block
    → (s' : Fcyc) × (add_sample (cycles 0) s ≡ some s')
      × Best s' cycles 0
      × (s'.maxsamples ≡ s.maxsamples)
unfolding sift
first-Best s cycles p c b = (
  record s {
    values = sift s.samplecount (update s.values s.samplecount (cycles 0));
    samplecount = suc s.samplecount;
  },
  more_places s (cycles 0) (omega arith),
  record {
    counted = ap suc c;
    some_places = p;
    steps = b;
    ascending = λ i m. absurd (omega arith);
    first = rw c refl;
  },
  refl,
)

first_turn :
    (s : Fcyc) (cycles : ℕ → ℕ)
    → 0 < s.kbest
    → 4 ≤ s.cache_block
    → (s' : Fcyc) × (measure (cycles 0) (init_sampler s) ≡ some s')
      × Best s' cycles 0
      × (s'.maxsamples ≡ s.maxsamples)
unfolding init_sampler
first_turn s cycles p w =
    let r = init_sampler s in
    let (k, m, v, c, q) = prepared-SameSampler r in
    let (s', e, b, m') =
      first-Best (prepared r) cycles (subst (λ x. 0 < x) (sym k) p) c
        (subst (λ x. 4 ≤ x) (sym q) w) in
    (s', measure-prepared (cycles 0) r w ∙ e, b, m' ∙ m)

-- The readings that `fcyc` uses.
abbrev pub readings : Fcyc → (ℕ → ℕ) → (ℕ → ℕ) → ℕ → ℕ
readings s compensated plain = if s.compensate then compensated else plain

fcyc-samples :
    (s s' : Fcyc) (compensated plain : ℕ → ℕ)
    → samples (suc s.maxsamples) (readings s compensated plain) (init_sampler s) ≡ some s'
    → fcyc compensated plain s ≡ some (s'.values 0, s')
unfolding fcyc
fcyc-samples s s' compensated plain e = rw (fcyc, e) refl

-- With at least one place for a value and blocks of at least 4 bytes, `fcyc` ends on every clock, after one or more samples and at
-- most as many as the limit allows. Its result is the smallest sample; the values are in order; and it
-- has stopped since the best values agree or the limit is reached.
pub fcyc-lowest :
    (s : Fcyc) (compensated plain : ℕ → ℕ)
    → 0 < s.kbest
    → 4 ≤ s.cache_block
    → (s' : Fcyc) × (n : ℕ) × (fcyc compensated plain s
        ≡ some (lowest (readings s compensated plain) n, s'))
      × Ended s' s.maxsamples (readings s compensated plain) n
unfolding init_sampler
fcyc-lowest s compensated plain p w =
    let cycles = readings s compensated plain in
    let (s1, q, b, m) = first_turn s cycles p w in
    let (s', n, e, h) =
      after-Outcome s.maxsamples s.maxsamples s1 cycles 0 b m (omega arith) (omega arith) in
    let r =
      fcyc-samples s s' compensated plain
        (samples-measure s.maxsamples cycles (init_sampler s) s1 q ∙ e) in
    (s', n, r ∙ ap (λ x. some (x, s')) h.best.first, h)
