-- ===== src/Shell/Signals/Reaping.antt =====
-- What `sigchld_handler` of shell/lab/sighandler.c leaves of the job list.
use csapp_labs.Base.{
  ◌≡◌, refl, Bool, true, false, none, List, [], ◌∷◌, ◌&&◌, ◌||◌, arith, Option-cases, Bool-cases,
  inl, inr, ◌⊎◌,
}
use csapp_labs.Base.Int.{ℤ, ◌==ℤ◌, ==ℤ_iff}
use csapp_labs.Shell.Jobs.{
  Job, JobState, st, Shell, getjobpid, has_pid, find_job, print, job_terminated,
}
use csapp_labs.Shell.Jobs.Valid.{IsValid, deletejob-IsValid}
use csapp_labs.Shell.Jobs.Lookup.{getjobpid-deletejob}
use csapp_labs.Shell.Signals.{
  Status, stopped, exited, signaled, continued, unknown, Run, running, ended, fault, update_job,
  set_state, reap_one, sigchld_handler,
}
use csapp_labs.Shell.Signals.Waiting.{update_job-IsValid, getjobpid_positive}

reap_one-IsValid :
    (pid : ℤ) (status : Status) (s t : Shell)
    → reap_one pid status s ≡ running t
    → IsValid s
    → IsValid t
unfolding reap_one
reap_one-IsValid pid (stopped n) s t e v = elim (Option-cases (getjobpid s.jobs pid)) [
  | inl m ↦ ground arith
  | inr (j, m) ↦
      ground (arith, update_job-IsValid s pid st (getjobpid_positive s.jobs pid j m) refl v)
]
reap_one-IsValid pid exited s t e v = ground (arith, deletejob-IsValid {s = s} pid v)
reap_one-IsValid pid (signaled n) s t e v = elim (Option-cases (getjobpid s.jobs pid)) [
  | inl m ↦ ground arith
  | inr (j, m) ↦
      let kept : IsValid (print (job_terminated j.jid j.pid n) s) = ground arith in
      ground (arith, deletejob-IsValid pid kept)
]
reap_one-IsValid pid continued s t e v = ground arith
reap_one-IsValid pid unknown s t e v = ground arith

Run-cases :
    (r : Run) → ((t : Shell) × (r ≡ running t)) ⊎ (((t : Shell) × (r ≡ ended t)) ⊎ (r ≡ fault))
Run-cases (running t) = inl (t, refl)
Run-cases (ended t) = inr (inl (t, refl))
Run-cases fault = inr (inr refl)

-- A run that returns has reaped its first child, and then the others.
sigchld_handler-cons :
    (pid : ℤ) (status : Status) (ws : List (ℤ × Status)) (s t : Shell)
    → sigchld_handler ((pid, status) ∷ ws) s ≡ running t
    → (u : Shell) × (reap_one pid status s ≡ running u) × (sigchld_handler ws u ≡ running t)
unfolding sigchld_handler
sigchld_handler-cons pid status ws s t e = elim (Run-cases (reap_one pid status s)) [
  | inl (u, m) ↦ (u, m, ground arith)
  | inr (inl (u, m)) ↦ absurd (ground arith)
  | inr (inr m) ↦ absurd (ground arith)
]

-- Whatever children a run of the SIGCHLD handler reaps, if it returns, the invariant holds again.
pub sigchld_handler-IsValid :
    (ws : List (ℤ × Status)) (s t : Shell)
    → sigchld_handler ws s ≡ running t
    → IsValid s
    → IsValid t
unfolding sigchld_handler
sigchld_handler-IsValid [] s t e v = ground arith
sigchld_handler-IsValid ((pid, status) ∷ ws) s t e v =
    let (u, one, rest) = sigchld_handler-cons pid status ws s t e in
    sigchld_handler-IsValid ws u t rest (reap_one-IsValid pid status s u one v)

find_job-update_job :
    (q : ℤ) (p : Job → Bool) (state : JobState) (js : List Job)
    → find_job (has_pid q) js ≡ none
    → find_job (has_pid q) (update_job p (set_state state) js) ≡ none
unfolding find_job update_job
find_job-update_job q p state [] h = refl
find_job-update_job q p state (j ∷ js) h = ground (arith, find_job-update_job q p state js)

getjobpid-update_job :
    (q : ℤ) (p : Job → Bool) (state : JobState) (js : List Job)
    → getjobpid js q ≡ none
    → getjobpid (update_job p (set_state state) js) q ≡ none
unfolding getjobpid
getjobpid-update_job q p state js h = ground (arith, find_job-update_job q p state js)

-- No child that is reaped brings a job into the list.
reap_one-absent :
    (pid : ℤ) (status : Status) (s t : Shell) (q : ℤ)
    → reap_one pid status s ≡ running t
    → IsValid s
    → getjobpid s.jobs q ≡ none
    → getjobpid t.jobs q ≡ none
unfolding reap_one
reap_one-absent pid (stopped n) s t q e v h = elim (Option-cases (getjobpid s.jobs pid)) [
  | inl m ↦ ground arith
  | inr (j, m) ↦ ground (arith, getjobpid-update_job q (has_pid pid) st s.jobs)
]
reap_one-absent pid exited s t q e v h = ground (arith, getjobpid-deletejob {s = s} pid q v)
reap_one-absent pid (signaled n) s t q e v h = elim (Option-cases (getjobpid s.jobs pid)) [
  | inl m ↦ ground arith
  | inr (j, m) ↦
      let kept : IsValid (print (job_terminated j.jid j.pid n) s) = ground arith in
      ground (arith, getjobpid-deletejob pid q kept)
]
reap_one-absent pid continued s t q e v h = ground arith
reap_one-absent pid unknown s t q e v h = ground arith

sigchld_handler-absent :
    (ws : List (ℤ × Status)) (s t : Shell) (q : ℤ)
    → sigchld_handler ws s ≡ running t
    → IsValid s
    → getjobpid s.jobs q ≡ none
    → getjobpid t.jobs q ≡ none
unfolding sigchld_handler
sigchld_handler-absent [] s t q e v h = ground arith
sigchld_handler-absent ((pid, status) ∷ ws) s t q e v h =
    let (u, one, rest) = sigchld_handler-cons pid status ws s t e in
    sigchld_handler-absent ws u t q rest (reap_one-IsValid pid status s u one v)
      (reap_one-absent pid status s u q one v h)

abbrev pub is_end : Status → Bool
is_end exited = true
is_end (signaled n) = true
is_end _ = false

-- The reports include the end of the process, by exit or by a signal.
abbrev pub reports_end : ℤ → List (ℤ × Status) → Bool
reports_end q [] = false
reports_end q ((pid, status) ∷ ws) = ((pid ==ℤ q) && is_end status) || reports_end q ws

reap_one-end :
    (pid : ℤ) (status : Status) (s t : Shell)
    → reap_one pid status s ≡ running t
    → IsValid s
    → is_end status ≡ true
    → getjobpid t.jobs pid ≡ none
unfolding reap_one
reap_one-end pid (stopped n) s t e v h = ground arith
reap_one-end pid exited s t e v h =
    ground (arith, getjobpid-deletejob {s = s} pid pid v, ==ℤ_iff pid pid)
reap_one-end pid (signaled n) s t e v h = elim (Option-cases (getjobpid s.jobs pid)) [
  | inl m ↦ ground arith
  | inr (j, m) ↦
      let kept : IsValid (print (job_terminated j.jid j.pid n) s) = ground arith in
      ground (arith, getjobpid-deletejob pid pid kept, ==ℤ_iff pid pid)
]
reap_one-end pid continued s t e v h = ground arith
reap_one-end pid unknown s t e v h = ground arith

-- After a run of the SIGCHLD handler that returns, no process whose end it was told of is listed.
pub sigchld_handler-reports_end :
    (ws : List (ℤ × Status)) (s t : Shell) (q : ℤ)
    → sigchld_handler ws s ≡ running t
    → IsValid s
    → reports_end q ws ≡ true
    → getjobpid t.jobs q ≡ none
unfolding sigchld_handler
sigchld_handler-reports_end [] s t q e v h = absurd (ground arith)
sigchld_handler-reports_end ((pid, status) ∷ ws) s t q e v h =
    let (u, one, rest) = sigchld_handler-cons pid status ws s t e in
    let valid = reap_one-IsValid pid status s u one v in
    elim (Bool-cases (reports_end q ws)) [
      | inl later ↦ sigchld_handler-reports_end ws u t q rest valid later
      | inr here ↦
          let same : pid ≡ q = ground (arith, ==ℤ_iff pid q) in
          let last : is_end status ≡ true = ground arith in
          sigchld_handler-absent ws u t q rest valid
            (rw (← same) (reap_one-end pid status s u one v last))
    ]
