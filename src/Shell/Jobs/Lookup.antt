-- ===== src/Shell/Jobs/Lookup.antt =====
-- The job list of job.c as a finite map from process ids to jobs.
use csapp_labs.Base.{
  ℕ, ◌≡◌, refl, ◌≢◌, Bool, true, false, not, ◌&&◌, ◌||◌, Option, none, some, List, [], ◌∷◌,
  if◌then◌else◌, arith, Option-cases, Bool-cases, inl, inr, ◌↔◌,
}
use csapp_labs.Base.Int.{ℤ, pos, ◌==ℤ◌, ltb_ℤ, ==ℤ_comm, ==ℤ_iff}
use csapp_labs.Shell.Jobs.{
  JobState, Job, Shell, Text, is_free, fill_slot, clear_slot, new_job, addjob, deletejob, find_job,
  has_pid, getjobpid, jid_of, pid2jid,
}
use csapp_labs.Shell.Jobs.Valid.{taken, distinct_pids, IsValid}

-- Every slot holds a job.
abbrev pub is_full : List Job → Bool
is_full [] = true
is_full (j ∷ js) = not (is_free j) && is_full js

module _ (new : Job) (q : ℤ) (positive : ltb_ℤ q (pos 1) ≡ false) where
  find_job-fill_slot :
      (js js' : List Job)
      → fill_slot new js ≡ some js'
      → taken new.pid js ≡ false
      → find_job (has_pid q) js' ≡ (if q ==ℤ new.pid then some new else find_job (has_pid q) js)
  unfolding fill_slot find_job
  find_job-fill_slot [] js' e h = ground arith
  find_job-fill_slot (j ∷ js) js' e h = elim (Option-cases (fill_slot new js)) [
    | inl n ↦ ground (arith, ==ℤ_comm q new.pid, ==ℤ_iff j.pid (pos 0))
    | inr (r, n) ↦ ground (
      arith,
      find_job-fill_slot js r n,
      ==ℤ_comm q new.pid,
      ==ℤ_iff q new.pid,
      ==ℤ_iff j.pid (pos 0),
    )
  ]

fill_slot-none : (new : Job) (js : List Job) → fill_slot new js ≡ none → is_full js ≡ true
unfolding fill_slot
fill_slot-none new [] h = refl
fill_slot-none new (j ∷ js) h = elim (Option-cases (fill_slot new js)) [
  | inl n ↦ ground (arith, fill_slot-none new js n)
  | inr (r, n) ↦ ground arith
]

fill_slot_full : (new : Job) (js : List Job) → is_full js ≡ true → fill_slot new js ≡ none
unfolding fill_slot
fill_slot_full new [] h = refl
fill_slot_full new (j ∷ js) h = ground (arith, fill_slot_full new js)

-- When `addjob` returns an id, every process id looks up as before, but for the new one, which
-- finds the new job.
pub getjobpid-addjob :
    (s : Shell) (pid : ℤ) (state : JobState) (c : Text) (q : ℤ)
    → taken pid s.jobs ≡ false
    → (addjob s pid state c).1 ≢ 0
    → getjobpid (addjob s pid state c).0.jobs q
      ≡ (if q ==ℤ pid then some (new_job s pid state c) else getjobpid s.jobs q)
unfolding addjob getjobpid
getjobpid-addjob s pid state c q new ok =
    elim (Option-cases (fill_slot (new_job s pid state c) s.jobs)) [
      | inl n ↦ ground arith
      | inr (js, n) ↦ ground (
        arith,
        λ (p : ltb_ℤ q (pos 1) ≡ false).
            find_job-fill_slot (new_job s pid state c) q p s.jobs js n new,
        ==ℤ_iff q pid,
      )
    ]

-- `addjob` returns 0 exactly when the process id is below 1 or the list is full, and then it
-- leaves the jobs and the next id as they were.
pub addjob-zero :
    {s : Shell} (pid : ℤ) (state : JobState) (c : Text)
    → IsValid s
    → (((addjob s pid state c).1 ≡ 0) ↔ ((ltb_ℤ pid (pos 1) || is_full s.jobs) ≡ true))
      × ((addjob s pid state c).1 ≡ 0
          → ((addjob s pid state c).0.jobs ≡ s.jobs)
            × ((addjob s pid state c).0.nextjid ≡ s.nextjid))
unfolding addjob
addjob-zero {s} pid state c v = elim (Option-cases (fill_slot (new_job s pid state c) s.jobs)) [
  | inl n ↦ ground (arith, fill_slot-none (new_job s pid state c) s.jobs n)
  | inr (js, n) ↦ ground (arith, fill_slot_full (new_job s pid state c) s.jobs)
]

module _ (q : ℤ) (positive : ltb_ℤ q (pos 1) ≡ false) where
  find_job-none : (js : List Job) → taken q js ≡ false → find_job (has_pid q) js ≡ none
  unfolding find_job
  find_job-none [] h = refl
  find_job-none (j ∷ js) h = ground (arith, find_job-none js)

  find_job-clear_slot :
      (pid : ℤ) (js js' : List Job)
      → clear_slot pid js ≡ some js'
      → ltb_ℤ pid (pos 1) ≡ false
      → distinct_pids js ≡ true
      → find_job (has_pid q) js' ≡ (if q ==ℤ pid then none else find_job (has_pid q) js)
  unfolding clear_slot find_job
  find_job-clear_slot pid [] js' e p h = ground arith
  find_job-clear_slot pid (j ∷ js) js' e p h = elim (Option-cases (clear_slot pid js)) [
    | inl n ↦ ground (
      arith,
      find_job-none js,
      ==ℤ_iff j.pid pid,
      ==ℤ_iff q pid,
      ==ℤ_iff j.pid (pos 0),
      ==ℤ_comm (pos 0) q,
    )
    | inr (r, n) ↦ ground (
      arith,
      find_job-clear_slot pid js r n,
      find_job-none js,
      ==ℤ_iff j.pid pid,
      ==ℤ_iff q pid,
      ==ℤ_iff j.pid (pos 0),
      ==ℤ_comm (pos 0) q,
    )
  ]

clear_slot-none : (pid : ℤ) (js : List Job) → clear_slot pid js ≡ none → taken pid js ≡ false
unfolding clear_slot
clear_slot-none pid [] h = refl
clear_slot-none pid (j ∷ js) h = elim (Option-cases (clear_slot pid js)) [
  | inl n ↦ ground (arith, clear_slot-none pid js n)
  | inr (r, n) ↦ ground arith
]

-- After `deletejob` the process id finds nothing, and every other one finds what it did before.
pub getjobpid-deletejob :
    {s : Shell} (pid q : ℤ)
    → IsValid s
    → getjobpid (deletejob s pid).0.jobs q ≡ (if q ==ℤ pid then none else getjobpid s.jobs q)
unfolding deletejob getjobpid
getjobpid-deletejob {s} pid q v = elim (Bool-cases (ltb_ℤ q (pos 1))) [
  | inl low ↦ ground arith
  | inr high ↦ elim (Option-cases (clear_slot pid s.jobs)) [
    | inl n ↦
        ground (arith, clear_slot-none pid s.jobs n, find_job-none q high s.jobs, ==ℤ_iff q pid)
    | inr (js, n) ↦ ground (arith, find_job-clear_slot q high pid s.jobs js n, ==ℤ_iff q pid)
  ]
]

jid_of-find_job :
    (pid : ℤ) (js : List Job)
    → jid_of pid js ≡ elim (find_job (has_pid pid) js) [ none ↦ 0 | some j ↦ j.jid ]
unfolding jid_of find_job
jid_of-find_job pid [] = refl
jid_of-find_job pid (j ∷ js) = ground (arith, jid_of-find_job pid js)

-- The job id of a job that `getjobpid` finds, and 0 where it finds none.
abbrev pub jid_or_zero : Option Job → ℕ
jid_or_zero none = 0
jid_or_zero (some j) = j.jid

-- `pid2jid` is the id of the job that `getjobpid` finds, and 0 where that finds none.
pub pid2jid-getjobpid : (js : List Job) (pid : ℤ) → pid2jid js pid ≡ jid_or_zero (getjobpid js pid)
unfolding pid2jid getjobpid
pid2jid-getjobpid js pid = ground (arith, jid_of-find_job pid js)
