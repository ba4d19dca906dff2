-- ===== src/Shell/Jobs/Valid.antt =====
-- The invariant of the job list, and that the routines of job.c keep it.
use csapp_labs.Base.{
  ◌<◌, ◌≡◌, Bool, true, false, not, ◌&&◌, ◌||◌, some, List, [], ◌∷◌, ◌==◌, if◌then◌else◌, length,
  arith, Option-cases, inl, inr,
}
use csapp_labs.Base.Int.{ℤ, pos, ◌==ℤ◌, ltb_ℤ, ==ℤ_comm}
use csapp_labs.Shell.Jobs.{
  JobState, undef, Job, Shell, Text, max_jobs, is_free, fill_slot, clear_slot, new_job, addjob,
  deletejob,
}

abbrev pub taken : ℤ → List Job → Bool
taken pid [] = false
taken pid (j ∷ js) = (j.pid ==ℤ pid) || taken pid js

-- No two slots in use have one process id.
abbrev pub distinct_pids : List Job → Bool
distinct_pids [] = true
distinct_pids (j ∷ js) = (is_free j || not (taken j.pid js)) && distinct_pids js

abbrev pub is_undef : JobState → Bool
is_undef undef = true
is_undef _ = false

-- A slot is clear, or holds a process id and a job id above 0 and a state.
abbrev pub slot_ok : Job → Bool
slot_ok j =
    if is_free j
    then (j.jid == 0) && is_undef j.state
    else not (ltb_ℤ j.pid (pos 1)) && (not (j.jid == 0) && not (is_undef j.state))

abbrev pub all_slots_ok : List Job → Bool
all_slots_ok [] = true
all_slots_ok (j ∷ js) = slot_ok j && all_slots_ok js

pub record IsValid (s : Shell) : Type 0 where
  pub slots : length s.jobs ≡ max_jobs
  pub distinct : distinct_pids s.jobs ≡ true
  pub ok_slots : all_slots_ok s.jobs ≡ true
  pub next_pos : 0 < s.nextjid

module _ (new : Job) where
  pub taken-fill_slot :
      (pid : ℤ) (js js' : List Job)
      → fill_slot new js ≡ some js'
      → taken pid js ≡ false
      → (new.pid ==ℤ pid) ≡ false
      → taken pid js' ≡ false
  unfolding fill_slot
  taken-fill_slot pid [] js' e h k = ground arith
  taken-fill_slot pid (j ∷ js) js' e h k = elim (Option-cases (fill_slot new js)) [
    | inl n ↦ ground arith
    | inr (r, n) ↦ ground (arith, taken-fill_slot pid js r n)
  ]

  length-fill_slot : (js js' : List Job) → fill_slot new js ≡ some js' → length js' ≡ length js
  unfolding fill_slot
  length-fill_slot [] js' e = ground arith
  length-fill_slot (j ∷ js) js' e = elim (Option-cases (fill_slot new js)) [
    | inl n ↦ ground arith
    | inr (r, n) ↦ ground (arith, length-fill_slot js r n)
  ]

  all_slots_ok-fill_slot :
      (js js' : List Job)
      → fill_slot new js ≡ some js'
      → slot_ok new ≡ true
      → all_slots_ok js ≡ true
      → all_slots_ok js' ≡ true
  unfolding fill_slot
  all_slots_ok-fill_slot [] js' e k h = ground arith
  all_slots_ok-fill_slot (j ∷ js) js' e k h = elim (Option-cases (fill_slot new js)) [
    | inl n ↦ ground arith
    | inr (r, n) ↦ ground (arith, all_slots_ok-fill_slot js r n)
  ]

  distinct_pids-fill_slot :
      (js js' : List Job)
      → fill_slot new js ≡ some js'
      → taken new.pid js ≡ false
      → distinct_pids js ≡ true
      → distinct_pids js' ≡ true
  unfolding fill_slot
  distinct_pids-fill_slot [] js' e k h = ground arith
  distinct_pids-fill_slot (j ∷ js) js' e k h = elim (Option-cases (fill_slot new js)) [
    | inl n ↦ ground arith
    | inr (r, n) ↦ ground (
      arith,
      distinct_pids-fill_slot js r n,
      taken-fill_slot j.pid js r n,
      ==ℤ_comm new.pid j.pid,
    )
  ]

-- `addjob` keeps the invariant, whether or not it finds a slot, if the process id is not listed
-- and the state is not UNDEF.
pub addjob-IsValid :
    {s : Shell} (pid : ℤ) (state : JobState) (c : Text)
    → IsValid s
    → taken pid s.jobs ≡ false
    → is_undef state ≡ false
    → IsValid (addjob s pid state c).0
unfolding addjob
addjob-IsValid {s} pid state c v new live =
    elim (Option-cases (fill_slot (new_job s pid state c) s.jobs)) [
      | inl n ↦ ground arith
      | inr (js, n) ↦ ground (
        arith,
        length-fill_slot (new_job s pid state c) s.jobs js n,
        all_slots_ok-fill_slot (new_job s pid state c) s.jobs js n,
        distinct_pids-fill_slot (new_job s pid state c) s.jobs js n,
      )
    ]

taken-clear_slot :
    (p pid : ℤ) (js js' : List Job)
    → clear_slot p js ≡ some js'
    → taken pid js ≡ false
    → (pos 0 ==ℤ pid) ≡ false
    → taken pid js' ≡ false
unfolding clear_slot
taken-clear_slot p pid [] js' e h k = ground arith
taken-clear_slot p pid (j ∷ js) js' e h k = elim (Option-cases (clear_slot p js)) [
  | inl n ↦ ground arith
  | inr (r, n) ↦ ground (arith, taken-clear_slot p pid js r n)
]

module _ (pid : ℤ) where
  length-clear_slot : (js js' : List Job) → clear_slot pid js ≡ some js' → length js' ≡ length js
  unfolding clear_slot
  length-clear_slot [] js' e = ground arith
  length-clear_slot (j ∷ js) js' e = elim (Option-cases (clear_slot pid js)) [
    | inl n ↦ ground arith
    | inr (r, n) ↦ ground (arith, length-clear_slot js r n)
  ]

  all_slots_ok-clear_slot :
      (js js' : List Job)
      → clear_slot pid js ≡ some js'
      → all_slots_ok js ≡ true
      → all_slots_ok js' ≡ true
  unfolding clear_slot
  all_slots_ok-clear_slot [] js' e h = ground arith
  all_slots_ok-clear_slot (j ∷ js) js' e h = elim (Option-cases (clear_slot pid js)) [
    | inl n ↦ ground arith
    | inr (r, n) ↦ ground (arith, all_slots_ok-clear_slot js r n)
  ]

  distinct_pids-clear_slot :
      (js js' : List Job)
      → clear_slot pid js ≡ some js'
      → distinct_pids js ≡ true
      → distinct_pids js' ≡ true
  unfolding clear_slot
  distinct_pids-clear_slot [] js' e h = ground arith
  distinct_pids-clear_slot (j ∷ js) js' e h = elim (Option-cases (clear_slot pid js)) [
    | inl n ↦ ground arith
    | inr (r, n) ↦ ground (
      arith,
      distinct_pids-clear_slot js r n,
      taken-clear_slot pid j.pid js r n,
      ==ℤ_comm (pos 0) j.pid,
    )
  ]

-- `deletejob` keeps the invariant, whether or not the process id is listed.
pub deletejob-IsValid : {s : Shell} (pid : ℤ) → IsValid s → IsValid (deletejob s pid).0
unfolding deletejob
deletejob-IsValid {s} pid v = elim (Option-cases (clear_slot pid s.jobs)) [
  | inl n ↦ ground arith
  | inr (js, n) ↦ ground (
    arith,
    length-clear_slot pid s.jobs js n,
    all_slots_ok-clear_slot pid s.jobs js n,
    distinct_pids-clear_slot pid s.jobs js n,
  )
]
