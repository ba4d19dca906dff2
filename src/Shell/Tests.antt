-- ===== src/Shell/Tests.antt =====
-- The shell at concrete lines, jobs and signals.
use csapp_labs.Base.{
  ℕ, ◌≤◌, ◌≡◌, refl, ◌≢◌, true, false, none, some, List, [], ◌∷◌, arith, length, replicate,
}
use csapp_labs.Base.Int.{ℤ, pos, negsuc, ltb_ℤ}
use csapp_labs.Shell.Jobs.{
  Text, Job, fg, bg, st, Shell, clearjob, new_job, addjob, deletejob, getjobpid, fgpid, background,
  print, sigcont, initjobs, job_terminated, sigint,
}
use csapp_labs.Shell.Jobs.Valid.{IsValid, addjob-IsValid, deletejob-IsValid}
use csapp_labs.Shell.Jobs.Lookup.{getjobpid-addjob, getjobpid-deletejob}
use csapp_labs.Shell.Atoi.{atoi, atoi-value}
use csapp_labs.Shell.Parse.{parseline, space}
use csapp_labs.Shell.Parse.RoundTrip.{parseline-write_line, plain, quoted}
use csapp_labs.Shell.Signals.{
  Event, chld, int, quit, stopped, exited, signaled, running, fault, sigchld_handler, returned,
  blocked, out_of_fuel, waitfg, racing, Status,
}
use csapp_labs.Shell.Signals.Waiting.{waitfg_lem, any_racing}
use csapp_labs.Shell.Signals.Reaping.{sigchld_handler-IsValid, sigchld_handler-reports_end}
use csapp_labs.Shell.Commands.{eval, builtin_cmd, do_bgfg, fg_text, launch}
use csapp_labs.Shell.Commands.Fg.{do_bgfg-fg}
use csapp_labs.Shell.Commands.Launch.{eval-background, eval-full, launch-no_fg}

abbrev empty_shell : Shell
empty_shell = initjobs (record { jobs = []; nextjid = 1; verbose = false; out = []; sent = [] })

abbrev sleeper : Job
sleeper = record { pid = pos 100; jid = 1; state = bg; cmdline = b's' ∷ [] }

abbrev editor : Job
editor = record { pid = pos 200; jid = 2; state = st; cmdline = b'e' ∷ [] }

abbrev two_jobs : Shell
two_jobs = record empty_shell { jobs = sleeper ∷ editor ∷ replicate 14 clearjob; nextjid = 3 }

two_jobs-IsValid : IsValid two_jobs
two_jobs-IsValid = record { slots = refl; distinct = refl; ok_slots = refl; next_pos = omega arith }

two_jobs_added :
    ((addjob (addjob empty_shell (pos 100) bg (b's' ∷ [])).0 (pos 200) st (b'e' ∷ [])).0) ≡ two_jobs
unfolding addjob
two_jobs_added = refl

addjob-IsValid_example : IsValid (addjob two_jobs (pos 300) fg []).0
addjob-IsValid_example = addjob-IsValid {s = two_jobs} (pos 300) fg [] two_jobs-IsValid refl refl

deletejob-IsValid_example : IsValid (deletejob two_jobs (pos 100)).0
deletejob-IsValid_example = deletejob-IsValid {s = two_jobs} (pos 100) two_jobs-IsValid

getjobpid-addjob_example :
    getjobpid (addjob two_jobs (pos 300) fg []).0.jobs (pos 300)
    ≡ some (new_job two_jobs (pos 300) fg [])
getjobpid-addjob_example =
    getjobpid-addjob two_jobs (pos 300) fg [] (pos 300) refl (unfold addjob in λ e. cc)

getjobpid-deletejob_example :
    getjobpid (deletejob two_jobs (pos 100)).0.jobs (pos 200) ≡ some editor
unfolding getjobpid
getjobpid-deletejob_example =
    getjobpid-deletejob {s = two_jobs} (pos 100) (pos 200) two_jobs-IsValid

-- The same jobs, when the id of the last one added was 15.
abbrev late : Shell
late = record two_jobs { nextjid = 16 }

atoi-value_example :
    (atoi (b'4' ∷ b'2' ∷ []) ≡ pos 42) × (atoi (b'-' ∷ b'4' ∷ b'2' ∷ []) ≡ negsuc 41)
atoi-value_example = atoi-value b'4' (b'2' ∷ []) refl

atoi_rejects : (atoi (b'4' ∷ b'x' ∷ []) ≡ negsuc 0) × (atoi (replicate 11 b'9') ≡ negsuc 1)
unfolding atoi
atoi_rejects = (refl, refl)

-- "ls 'a b' &" and a newline
parseline-write_line_example :
    parseline (b'l' ∷ b's' ∷ space ∷ 39 ∷ b'a' ∷ space ∷ b'b' ∷ 39 ∷ space ∷ space ∷ b'&' ∷ 10 ∷ [])
    ≡ some (true, (b'l' ∷ b's' ∷ []) ∷ (b'a' ∷ space ∷ b'b' ∷ []) ∷ [])
parseline-write_line_example =
    parseline-write_line 10 1 (plain (b'&' ∷ []))
      ((0, plain (b'l' ∷ b's' ∷ [])) ∷ (0, quoted (b'a' ∷ space ∷ b'b' ∷ [])) ∷ []) refl

-- A foreground job with pid 300.
abbrev busy : Shell
busy = record two_jobs {
  jobs = sleeper ∷ editor ∷ new_job two_jobs (pos 300) fg (b'v' ∷ []) ∷ replicate 13 clearjob;
  nextjid = 4;
}

busy-IsValid : IsValid busy
busy-IsValid = record { slots = refl; distinct = refl; ok_slots = refl; next_pos = omega arith }

-- What the handler leaves when that job is killed by SIGINT.
abbrev reaped : Shell
reaped = record two_jobs { nextjid = 3; out = job_terminated 3 (pos 300) 2 ∷ [] }

killed : sigchld_handler ((pos 300, signaled 2) ∷ []) busy ≡ running reaped
unfolding sigchld_handler
killed = refl

sigchld_handler-IsValid_example : IsValid reaped
sigchld_handler-IsValid_example =
    sigchld_handler-IsValid ((pos 300, signaled 2) ∷ []) busy reaped killed busy-IsValid

sigchld_handler-reports_end_example : getjobpid reaped.jobs (pos 300) ≡ none
sigchld_handler-reports_end_example =
    sigchld_handler-reports_end ((pos 300, signaled 2) ∷ []) busy reaped (pos 300) killed
      busy-IsValid refl

-- ctrl-c: the handler of SIGINT forwards the signal and waits in turn.
interrupted :
    waitfg busy (int true ∷ chld ((pos 300, signaled 2) ∷ []) ∷ quit ∷ [])
    ≡ returned (record reaped { sent = (pos 300, sigint) ∷ [] }) (quit ∷ [])
unfolding waitfg
interrupted = refl

waitfg_lem_example :
    (waitfg busy (int true ∷ []) ≢ out_of_fuel)
    × ((t : Shell) (r : List Event)
        → waitfg busy (int true ∷ []) ≡ returned t r
        → (ltb_ℤ (pos 0) (fgpid t.jobs) ≡ false) × (length r ≤ 1))
    × ((t : Shell)
        → waitfg busy (int true ∷ []) ≡ blocked t
        → any_racing (int true ∷ []) ≡ false
        → ltb_ℤ (pos 0) (fgpid t.jobs) ≡ true)
    × ((t : Shell) (ws : List (ℤ × Status))
        → ltb_ℤ (pos 0) (fgpid busy.jobs) ≡ true
        → sigchld_handler ws busy ≡ running t
        → waitfg busy (racing (chld ws) ∷ []) ≡ blocked t)
waitfg_lem_example = waitfg_lem busy (int true ∷ [])

-- The process has ended, no job is in the foreground, and `waitfg` waits for ever.
missed :
    (t : Shell) × (waitfg busy (racing (chld ((pos 300, exited) ∷ [])) ∷ []) ≡ blocked t)
    × (ltb_ℤ (pos 0) (fgpid t.jobs) ≡ false)
unfolding waitfg
missed = (record two_jobs { nextjid = 3 }, refl, refl)

listed_editor : getjobpid two_jobs.jobs (pos 200) ≡ some editor
unfolding getjobpid
listed_editor = refl

atoi_200 : atoi (b'2' ∷ b'0' ∷ b'0' ∷ []) ≡ pos 200
unfolding atoi
atoi_200 = refl

-- The editor stays stopped, and the shell waits for the sleeper.
do_bgfg-fg_example :
    (t : Shell) × (do_bgfg fg_text ((b'2' ∷ b'0' ∷ b'0' ∷ []) ∷ []) two_jobs [] ≡ waitfg t [])
    × (getjobpid t.jobs (pos 200) ≡ some editor)
    × (t.sent ≡ (pos 200, sigcont) ∷ [])
    × (fgpid t.jobs ≡ pos 100)
do_bgfg-fg_example =
    do_bgfg-fg two_jobs b'2' (b'0' ∷ b'0' ∷ []) [] (pos 200) editor [] refl atoi_200 listed_editor
      sleeper (editor ∷ replicate 14 clearjob) refl

-- "s &" and a newline
abbrev in_background : Text
in_background = b's' ∷ space ∷ b'&' ∷ 10 ∷ []

eval-background_example :
    (eval (pos 300) in_background two_jobs []
      ≡ returned
          (print
            (background 3 (pos 300) in_background)
            (addjob two_jobs (pos 300) bg in_background).0)
          [])
    × (getjobpid (addjob two_jobs (pos 300) bg in_background).0.jobs (pos 300)
        ≡ some (new_job two_jobs (pos 300) bg in_background))
eval-background_example =
    eval-background two_jobs (pos 300) in_background ((b's' ∷ []) ∷ []) [] two_jobs-IsValid refl
      refl refl (unfold parseline in refl) (unfold builtin_cmd in refl)

job_of : ℕ → Job
job_of n = record { pid = pos n; jid = n; state = bg; cmdline = [] }

abbrev full_list : List Job
full_list =
    unfold job_of in
    job_of 1
    ∷ job_of 2
    ∷ job_of 3
    ∷ job_of 4
    ∷ job_of 5
    ∷ job_of 6
    ∷ job_of 7
    ∷ job_of 8
    ∷ job_of 9
    ∷ job_of 10
    ∷ job_of 11
    ∷ job_of 12
    ∷ job_of 13
    ∷ job_of 14
    ∷ job_of 15
    ∷ job_of 16
    ∷ []

abbrev full_shell : Shell
full_shell = record two_jobs { jobs = full_list; nextjid = 1 }

full_shell-IsValid : IsValid full_shell
unfolding job_of
full_shell-IsValid = record {
  slots = refl;
  distinct = refl;
  ok_slots = refl;
  next_pos = omega arith;
}

eval-full_example :
    (t : Shell) × (eval (pos 300) in_background full_shell [] ≡ returned t [])
    × (sigchld_handler ((pos 300, stopped 20) ∷ []) t ≡ fault)
    × (sigchld_handler ((pos 300, signaled 20) ∷ []) t ≡ fault)
unfolding job_of
eval-full_example =
    eval-full full_shell (pos 300) in_background ((b's' ∷ []) ∷ []) [] 20 [] full_shell-IsValid
      (unfold getjobpid in refl) refl (unfold parseline in refl) (unfold builtin_cmd in refl)

-- A foreground command that ends by itself.
launch-no_fg_example : ltb_ℤ (pos 0) (fgpid (record two_jobs { nextjid = 3 }).jobs) ≡ false
launch-no_fg_example =
    launch-no_fg false two_jobs (record two_jobs { nextjid = 3 }) (pos 300) (b'v' ∷ [])
      (chld ((pos 300, exited) ∷ []) ∷ []) [] two_jobs-IsValid (unfold fgpid in refl)
      (unfold launch in refl)
