-- ===== src/Shell/Commands/Fg.antt =====
-- What the commands `bg` and `fg` do to the job list (`do_bgfg` of shell/lab/tsh.c).
use csapp_labs.Base.{ℕ, ◌≡◌, refl, false, some, List, [], ◌∷◌, ◌++◌, ◌==◌, arith, if◌then◌else◌}
use csapp_labs.Base.Int.{ℤ, ◌==ℤ◌, ==ℤ_iff}
use csapp_labs.Shell.Jobs.{
  Text, Job, JobState, fg, bg, Shell, sigcont, has_pid, find_job, getjobpid, fgpid, print,
  background,
}
use csapp_labs.Shell.Jobs.Valid.{IsValid}
use csapp_labs.Shell.Atoi.{atoi}
use csapp_labs.Shell.Signals.{Event, returned, waitfg, update_job, set_state}
use csapp_labs.Shell.Signals.Waiting.{update_job-IsValid, getjobpid_positive}
use csapp_labs.Shell.Commands.{fg_text, bg_text, do_bgfg}

find_job-update_job :
    (pid q : ℤ) (state : JobState) (js : List Job) (j : Job)
    → find_job (has_pid pid) js ≡ some j
    → find_job (has_pid q) (update_job (has_pid pid) (set_state state) js)
      ≡ (if q ==ℤ pid then some (set_state state j) else find_job (has_pid q) js)
unfolding find_job update_job
find_job-update_job pid q state [] j h = ground arith
find_job-update_job pid q state (k ∷ js) j h =
    ground (
      arith,
      find_job-update_job pid q state js j,
      ==ℤ_iff k.pid pid,
      ==ℤ_iff q pid,
      ==ℤ_iff k.pid q,
    )

find_job_pid :
    (pid : ℤ) (js : List Job) (j : Job) → find_job (has_pid pid) js ≡ some j → j.pid ≡ pid
unfolding find_job
find_job_pid pid [] j h = ground arith
find_job_pid pid (k ∷ js) j h = ground (arith, find_job_pid pid js j, ==ℤ_iff k.pid pid)

module _ (s : Shell) (c : ℕ) (a : Text) (r : List Text) (pid : ℤ) (j : Job) (es : List Event)
    (by_pid : (c == b'%') ≡ false) (id : atoi (c ∷ a) ≡ pid)
    (listed : getjobpid s.jobs pid ≡ some j) where
  -- `bg` with the process id of a listed job returns with that job in state BG, every other one as
  -- it was, SIGCONT sent to its process group, and the invariant kept.
  do_bgfg-bg :
      (q : ℤ)
      → IsValid s
      → (t : Shell) × (do_bgfg bg_text ((c ∷ a) ∷ r) s es ≡ returned t es)
        × (getjobpid t.jobs q ≡ (if q ==ℤ pid then some (set_state bg j) else getjobpid s.jobs q))
        × (t.sent ≡ s.sent ++ ((pid, sigcont) ∷ []))
        × IsValid t
  unfolding do_bgfg
  do_bgfg-bg q v = (
    print (background j.jid j.pid j.cmdline) (record s {
      jobs = update_job (has_pid pid) (set_state bg) s.jobs;
      sent = s.sent ++ ((pid, sigcont) ∷ []);
    }),
    ground (arith, find_job_pid pid s.jobs j),
    ground (arith, find_job-update_job pid q bg s.jobs j, ==ℤ_iff q pid),
    refl,
    ground (arith, update_job-IsValid s pid bg (getjobpid_positive s.jobs pid j listed) refl v),
  )

  -- `fg` with the process id of a listed job sends SIGCONT to it and sets the state of the first
  -- slot to FG, whether or not the job is in that slot: a job in another slot stays as it was, and
  -- the process that is then waited for is that of the first slot.
  pub do_bgfg-fg :
      (first : Job) (rest : List Job)
      → s.jobs ≡ first ∷ rest
      → (t : Shell) × (do_bgfg fg_text ((c ∷ a) ∷ r) s es ≡ waitfg t es)
        × (getjobpid t.jobs pid ≡ some (if first.pid ==ℤ pid then set_state fg j else j))
        × (t.sent ≡ s.sent ++ ((pid, sigcont) ∷ []))
        × (fgpid t.jobs ≡ first.pid)
  unfolding do_bgfg
  do_bgfg-fg first rest e = (
    record s { jobs = set_state fg first ∷ rest; sent = s.sent ++ ((pid, sigcont) ∷ []) },
    ground (arith, find_job_pid pid s.jobs j),
    ground (arith, ==ℤ_iff first.pid pid),
    refl,
    refl,
  )
