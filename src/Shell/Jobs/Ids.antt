-- ===== src/Shell/Jobs/Ids.antt =====
-- How job.c hands out job ids: when they stay distinct, and when they do not.
use csapp_labs.Base.{
  ℕ, suc, ◌+◌, ◌≤◌, ◌<◌, ◌≡◌, refl, ◌≢◌, Bool, true, false, not, ◌&&◌, ◌||◌, some, List, [], ◌∷◌,
  ◌==◌, ltb, if◌then◌else◌, arith, Option-cases, inl, inr,
}
use csapp_labs.Base.Int.{ℤ}
use csapp_labs.Shell.Jobs.{
  JobState, Job, Shell, Text, is_free, fill_slot, clear_slot, new_job, addjob, deletejob, maxjid,
  maxjid_from, max_jobs,
}

-- Every job id in the list is below `n`.
abbrev pub jids_below : ℕ → List Job → Bool
jids_below n [] = true
jids_below n (j ∷ js) = ltb j.jid n && jids_below n js

-- A slot in use has the job id.
abbrev pub jid_used : ℕ → List Job → Bool
jid_used n [] = false
jid_used n (j ∷ js) = (not (is_free j) && (j.jid == n)) || jid_used n js

abbrev pub distinct_jids : List Job → Bool
distinct_jids [] = true
distinct_jids (j ∷ js) = (is_free j || not (jid_used j.jid js)) && distinct_jids js

-- How many slots in use have the job id.
abbrev pub count_jid : ℕ → List Job → ℕ
count_jid n [] = 0
count_jid n (j ∷ js) = (if not (is_free j) && (j.jid == n) then 1 else 0) + count_jid n js

jids_below_mono :
    (m n : ℕ) (js : List Job) → m ≤ n → jids_below m js ≡ true → jids_below n js ≡ true
jids_below_mono m n [] h k = refl
jids_below_mono m n (j ∷ js) h k = ground (arith, jids_below_mono m n js)

maxjid_from-below :
    (m : ℕ) (js : List Job) → (m ≤ maxjid_from m js) × (jids_below (maxjid_from m js + 1) js ≡ true)
unfolding maxjid_from
maxjid_from-below m [] = ground arith
maxjid_from-below m (j ∷ js) =
    ground (arith, maxjid_from-below (if ltb m j.jid then j.jid else m) js)

-- Whenever `deletejob` deletes a job, the next id lies above all that remain.
deletejob-jids_below :
    (s : Shell) (pid : ℤ)
    → (deletejob s pid).1 ≡ true
    → jids_below (deletejob s pid).0.nextjid (deletejob s pid).0.jobs ≡ true
unfolding deletejob maxjid
deletejob-jids_below s pid h = elim (Option-cases (clear_slot pid s.jobs)) [
  | inl n ↦ ground arith
  | inr (js, n) ↦ ground (arith, maxjid_from-below 0 js)
]

jid_used_below : (n : ℕ) (js : List Job) → jids_below n js ≡ true → jid_used n js ≡ false
jid_used_below n [] h = refl
jid_used_below n (j ∷ js) h = ground (arith, jid_used_below n js)

module _ (new : Job) where
  jids_below-fill_slot :
      (n : ℕ) (js js' : List Job)
      → fill_slot new js ≡ some js'
      → new.jid < n
      → jids_below n js ≡ true
      → jids_below n js' ≡ true
  unfolding fill_slot
  jids_below-fill_slot n [] js' e h k = ground arith
  jids_below-fill_slot n (j ∷ js) js' e h k = elim (Option-cases (fill_slot new js)) [
    | inl miss ↦ ground arith
    | inr (r, done) ↦ ground (arith, jids_below-fill_slot n js r done)
  ]

  jid_used-fill_slot :
      (n : ℕ) (js js' : List Job)
      → fill_slot new js ≡ some js'
      → new.jid ≢ n
      → jid_used n js ≡ false
      → jid_used n js' ≡ false
  unfolding fill_slot
  jid_used-fill_slot n [] js' e h k = ground arith
  jid_used-fill_slot n (j ∷ js) js' e h k = elim (Option-cases (fill_slot new js)) [
    | inl miss ↦ ground arith
    | inr (r, done) ↦ ground (arith, jid_used-fill_slot n js r done)
  ]

  distinct_jids-fill_slot :
      (js js' : List Job)
      → fill_slot new js ≡ some js'
      → jid_used new.jid js ≡ false
      → distinct_jids js ≡ true
      → distinct_jids js' ≡ true
  unfolding fill_slot
  distinct_jids-fill_slot [] js' e h k = ground arith
  distinct_jids-fill_slot (j ∷ js) js' e h k = elim (Option-cases (fill_slot new js)) [
    | inl miss ↦ ground arith
    | inr (r, done) ↦
        ground (arith, distinct_jids-fill_slot js r done, jid_used-fill_slot j.jid js r done)
  ]

  count_jid-fill_slot :
      (n : ℕ) (js js' : List Job)
      → fill_slot new js ≡ some js'
      → is_free new ≡ false
      → count_jid n js' ≡ count_jid n js + (if new.jid == n then 1 else 0)
  unfolding fill_slot
  count_jid-fill_slot n [] js' e h = ground arith
  count_jid-fill_slot n (j ∷ js) js' e h = elim (Option-cases (fill_slot new js)) [
    | inl miss ↦ ground arith
    | inr (r, done) ↦ ground (arith, count_jid-fill_slot n js r done)
  ]

-- While the next id lies above all ids in use, `addjob` keeps the ids distinct; and if the next id
-- is below MAXJOBS, it still lies above them afterwards.
addjob-distinct_jids :
    (s : Shell) (pid : ℤ) (state : JobState) (c : Text)
    → jids_below s.nextjid s.jobs ≡ true
    → distinct_jids s.jobs ≡ true
    → (distinct_jids (addjob s pid state c).0.jobs ≡ true)
      × (s.nextjid < max_jobs
          → jids_below (addjob s pid state c).0.nextjid (addjob s pid state c).0.jobs ≡ true)
unfolding addjob
addjob-distinct_jids s pid state c below d =
    elim (Option-cases (fill_slot (new_job s pid state c) s.jobs)) [
      | inl n ↦ ground arith
      | inr (js, n) ↦ ground (
        arith,
        distinct_jids-fill_slot (new_job s pid state c) s.jobs js n,
        jid_used_below s.nextjid s.jobs,
        jids_below_mono s.nextjid (s.nextjid + 1) s.jobs,
        jids_below-fill_slot (new_job s pid state c) (s.nextjid + 1) s.jobs js n,
      )
    ]

-- When the next id has reached MAXJOBS, two jobs that are both added give the second one the id 1,
-- beside every job that has that id already.
addjob-repeats_jid :
    (s : Shell) (p q : ℤ) (state : JobState) (c : Text)
    → max_jobs ≤ s.nextjid
    → (addjob s p state c).1 ≢ 0
    → (addjob (addjob s p state c).0 q state c).1 ≢ 0
    → ((addjob (addjob s p state c).0 q state c).1 ≡ 1)
      × (count_jid 1 (addjob (addjob s p state c).0 q state c).0.jobs ≡ suc (count_jid 1 s.jobs))
unfolding addjob
addjob-repeats_jid s p q state c high first second =
    elim (Option-cases (fill_slot (new_job s p state c) s.jobs)) [
      | inl n ↦ ground arith
      | inr (js, n) ↦
          elim (Option-cases
            (fill_slot (record { pid = q; jid = 1; state = state; cmdline = c }) js)) [
              | inl m ↦ ground arith
              | inr (ks, m) ↦ ground (
                arith,
                count_jid-fill_slot (new_job s p state c) 1 s.jobs js n,
                count_jid-fill_slot (record { pid = q; jid = 1; state = state; cmdline = c }) 1 js
                    ks m,
              )
            ]
    ]
