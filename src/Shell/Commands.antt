-- ===== src/Shell/Commands.antt =====
-- shell/lab/tsh.c: `builtin_cmd`, `do_bgfg` and `eval`.
pub mod Fg
pub mod Blank
pub mod Launch
use csapp_labs.Base.{
  ℕ, suc, ◌+◌, ◌≡◌, Bool, true, false, ◌&&◌, ◌||◌, not, Option, none, some, List, [], ◌∷◌, ◌++◌,
  ◌==◌, if◌then◌else◌, length,
}
use csapp_labs.Base.Text.{text_eq}
use csapp_labs.Base.Int.{ℤ, pos, ltb_ℤ, ◌==ℤ◌}
use csapp_labs.Shell.Jobs.{
  Text, Job, JobState, fg, bg, Shell, sigcont, print, kill, needs_argument, bad_argument,
  no_such_job, no_such_process, background, has_pid, getjobpid, getjobjid, addjob, pid2jid,
  listjobs,
}
use csapp_labs.Shell.Atoi.{atoi}
use csapp_labs.Shell.Parse.{parseline}
use csapp_labs.Shell.Signals.{
  Event, Wait, returned, exits, segfault, out_of_fuel, waitfg, update_job, set_state,
}

abbrev pub quit_text : Text
quit_text = b'q' ∷ b'u' ∷ b'i' ∷ b't' ∷ []

abbrev pub jobs_text : Text
jobs_text = b'j' ∷ b'o' ∷ b'b' ∷ b's' ∷ []

abbrev pub bg_text : Text
bg_text = b'b' ∷ b'g' ∷ []

abbrev pub fg_text : Text
fg_text = b'f' ∷ b'g' ∷ []

abbrev pub amp_text : Text
amp_text = b'&' ∷ []

-- `jobs->state = FG`: the state of the first slot.
unfoldable pub set_first_state : JobState → List Job → List Job
set_first_state state [] = []
set_first_state state (j ∷ js) = set_state state j ∷ js

-- `do_bgfg` once it has found the job that passes the test `p`: `p` is the test of the lookup, so
-- that a write through the pointer goes to the slot that it found.
unfoldable pub resume : (Job → Bool) → Job → Text → Shell → List Event → Wait
unfolding waitfg set_first_state update_job
resume p job cmd s es =
    let s1 = kill job.pid sigcont s in
    if text_eq cmd fg_text
    then waitfg (record s1 { jobs = set_first_state fg s1.jobs }) es
    else returned
        (print (background job.jid job.pid job.cmdline)
          (record s1 { jobs = update_job p (set_state bg) s1.jobs }))
        es

-- `do_bgfg` behind its test for a missing argument, `is_job` telling a job id from a process id.
unfoldable pub find_and_resume : Bool → ℤ → Text → Text → Shell → List Event → Wait
unfolding resume getjobjid getjobpid
find_and_resume is_job id cmd arg s es =
    if ltb_ℤ id (pos 0)
    then returned (print (bad_argument cmd) s) es
    else if is_job
    then elim (getjobjid s.jobs id) [
      | none ↦ returned (print (no_such_job arg) s) es
      | some j ↦ resume (λ k. pos k.jid ==ℤ id) j cmd s es
    ]
    else elim (getjobpid s.jobs id) [
      | none ↦ returned (print (no_such_process arg) s) es
      | some j ↦ resume (has_pid id) j cmd s es
    ]

-- `do_bgfg(argv)` for the command `cmd` with the arguments behind it.
unfoldable pub do_bgfg : Text → List Text → Shell → List Event → Wait
unfolding find_and_resume
do_bgfg cmd [] s es = returned (print (needs_argument cmd) s) es
do_bgfg cmd ([] ∷ r) s es = returned (print (needs_argument cmd) s) es
do_bgfg cmd ((c ∷ a) ∷ r) s es =
    if c == b'%'
    then find_and_resume true (atoi a) cmd (c ∷ a) s es
    else find_and_resume false (atoi (c ∷ a)) cmd (c ∷ a) s es

-- What `builtin_cmd` does: it is not built in (0), or it has been run.
pub data Builtin : Type 0 where
  not_builtin : Builtin
  did : Wait → Builtin

-- `builtin_cmd(argv)`. On an empty `argv` its first `strcmp` reads through NULL.
unfoldable pub builtin_cmd : List Text → Shell → List Event → Builtin
unfolding do_bgfg listjobs
builtin_cmd [] s es = did segfault
builtin_cmd (cmd ∷ r) s es =
    if text_eq cmd quit_text
    then did (exits s)
    else if text_eq cmd jobs_text
    then did (returned (listjobs s) es)
    else if text_eq cmd bg_text || text_eq cmd fg_text
    then did (do_bgfg cmd r s es)
    else if text_eq cmd amp_text || text_eq cmd []
    then did (returned s es)
    else not_builtin

-- `eval` behind `builtin_cmd`, in the parent: `fork` has returned `pid`.
unfoldable pub launch : Bool → ℤ → Text → Shell → List Event → Wait
unfolding addjob waitfg pid2jid
launch in_background pid cmdline s es =
    let s1 = (addjob s pid (if in_background then bg else fg) cmdline).0 in
    if in_background
    then returned (print (background (pid2jid s1.jobs pid) pid cmdline) s1) es
    else waitfg s1 es

-- `eval(cmdline)` in the shell, `pid` being what `fork` returns if it is called. The child, and
-- its `execve`, are another process. A write behind `args` counts as a fault.
unfoldable pub eval : ℤ → Text → Shell → List Event → Wait
unfolding parseline builtin_cmd launch
eval pid cmdline s es = elim (parseline cmdline) [
  | none ↦ segfault
  | some (in_background, argv) ↦ elim (builtin_cmd argv s es) [
    | not_builtin ↦ launch in_background pid cmdline s es
    | did w ↦ w
  ]
]
