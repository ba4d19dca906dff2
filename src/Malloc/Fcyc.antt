-- ===== src/Malloc/Fcyc.antt =====
-- malloc/lab/fcyc.c, which measures a function until its K best times agree. A time is a count of
-- cycles; the clock is a parameter.
pub mod Insertion
pub mod Best
pub mod Loop
mod Tests
use csapp_labs.Base.{
  ℕ, zero, suc, ◌+◌, ◌-◌, ◌*◌, ◌/◌, ◌^◌, ◌≡◌, Bool, true, false, ◌&&◌, not, Option, none, some, ltb,
  leb, ◌==◌, if◌then◌else◌,
}
use csapp_labs.Malloc.Memlib.{update}

-- The variables of fcyc.c; `epsilon` is the quotient `eps / per`. `values` has `kbest` places, and
-- `cache_buf` the size of the buffer that is allocated.
pub record Fcyc : Type 0 where
  pub kbest : ℕ
  pub maxsamples : ℕ
  pub eps : ℕ
  pub per : ℕ
  pub compensate : Bool
  pub clear_cache : Bool
  pub cache_bytes : ℕ
  pub cache_block : ℕ
  pub cache_buf : Option ℕ
  pub values : ℕ → ℕ
  pub samplecount : ℕ

abbrev pub defaults : Fcyc
defaults = record {
  kbest = 3;
  maxsamples = 20;
  eps = 1;
  per = 100;
  compensate = false;
  clear_cache = false;
  cache_bytes = 2 ^ 19;
  cache_block = 32;
  cache_buf = none;
  values = λ i. 0;
  samplecount = 0;
}

unfoldable pub init_sampler : Fcyc → Fcyc
init_sampler s = record s { values = λ i. 0; samplecount = 0 }

abbrev pub swap : (ℕ → ℕ) → ℕ → ℕ → ℕ → ℕ
swap v i j = update (update v i (v j)) j (v i)

-- The insertion sort at the end of `add_sample`, from the place `pos` down.
unfoldable pub sift : ℕ → (ℕ → ℕ) → ℕ → ℕ
sift zero v = v
sift (suc pos) v = if ltb (v (suc pos)) (v pos) then sift pos (swap v pos (suc pos)) else v

-- `add_sample(val)`. With `kbest` at 0, the source reads in front of the array: `none`.
unfoldable pub add_sample : ℕ → Fcyc → Option Fcyc
unfolding sift
add_sample val s =
    if ltb s.samplecount s.kbest
    then some (record s {
      values = sift s.samplecount (update s.values s.samplecount val);
      samplecount = suc s.samplecount;
    })
    else if s.kbest == 0
    then none
    else if ltb val (s.values (s.kbest - 1))
    then some (record s {
      values = sift (s.kbest - 1) (update s.values (s.kbest - 1) val);
      samplecount = suc s.samplecount;
    })
    else some (record s { samplecount = suc s.samplecount })

-- `(1 + epsilon)*values[0] >= values[kbest-1]`, multiplied by `per`
unfoldable pub has_converged : Fcyc → Bool
has_converged s =
    leb s.kbest s.samplecount && leb (s.per * s.values (s.kbest - 1)) ((s.per + s.eps) * s.values 0)

-- The loop of `clear` over the words of the buffer, with fuel, in steps of `incr` words.
unfoldable pub walk : ℕ → (incr cend cptr : ℕ) → Option ℕ
walk zero incr cend cptr = none
walk (suc k) incr cend cptr =
    let rest = walk k incr cend (cptr + incr) in if ltb cptr cend then rest else some cptr

-- The buffer is allocated if there is none.
abbrev pub with_buffer : Fcyc → Fcyc
with_buffer s = record s {
  cache_buf = elim s.cache_buf [ none ↦ some s.cache_bytes | some n ↦ some n ];
}

-- `clear()`. What it reads is not used. With blocks of less than an `int`, its loop does not end.
unfoldable pub clear : Fcyc → Option Fcyc
unfolding walk
clear s = elim (walk (suc (s.cache_bytes / 4)) (s.cache_block / 4) (s.cache_bytes / 4) 0) [
  | none ↦ none
  | some cptr ↦ some (with_buffer s)
]

-- One turn of the loop of `fcyc`, when the clock reads `cyc`.
unfoldable pub measure : ℕ → Fcyc → Option Fcyc
unfolding add_sample clear
measure cyc s =
    if s.clear_cache
    then elim (clear s) [ none ↦ none | some s' ↦ add_sample cyc s' ]
    else add_sample cyc s

-- The loop, with fuel; the clock reads `cycles n` in the turn `n`.
unfoldable pub samples : ℕ → (ℕ → ℕ) → Fcyc → Option Fcyc
unfolding measure has_converged
samples zero cycles s = none
samples (suc k) cycles s = elim (measure (cycles s.samplecount) s) [
  | none ↦ none
  | some s' ↦
      let rest = samples k cycles s' in
      if not (has_converged s') && ltb s'.samplecount s'.maxsamples then rest else some s'
]

-- `fcyc(f, argp)`, for the readings of the counter with compensation and without it: the result, and
-- the variables.
unfoldable pub fcyc : (compensated plain : ℕ → ℕ) → Fcyc → Option (ℕ × Fcyc)
unfolding samples init_sampler
fcyc compensated plain s =
    elim (samples (suc s.maxsamples) (if s.compensate then compensated else plain)
      (init_sampler s)) [ none ↦ none | some s' ↦ some (s'.values 0, s') ]

unfoldable pub set_fcyc_clear_cache : Bool → Fcyc → Fcyc
set_fcyc_clear_cache clear s = record s { clear_cache = clear }

unfoldable pub set_fcyc_cache_size : ℕ → Fcyc → Fcyc
set_fcyc_cache_size bytes s =
    if bytes == s.cache_bytes then s else record s { cache_bytes = bytes; cache_buf = none }

unfoldable pub set_fcyc_cache_block : ℕ → Fcyc → Fcyc
set_fcyc_cache_block bytes s = record s { cache_block = bytes }

unfoldable pub set_fcyc_compensate : Bool → Fcyc → Fcyc
set_fcyc_compensate compensate_arg s = record s { compensate = compensate_arg }

unfoldable pub set_fcyc_k : ℕ → Fcyc → Fcyc
set_fcyc_k k s = record s { kbest = k }

unfoldable pub set_fcyc_maxsamples : ℕ → Fcyc → Fcyc
set_fcyc_maxsamples maxsamples_arg s = record s { maxsamples = maxsamples_arg }

-- `epsilon_arg` is the quotient `eps / per`.
unfoldable pub set_fcyc_epsilon : ℕ → ℕ → Fcyc → Fcyc
set_fcyc_epsilon eps per s = record s { eps = eps; per = per }
