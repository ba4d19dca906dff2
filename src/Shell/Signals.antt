-- ===== src/Shell/Signals.antt =====
-- shell/lab/sighandler.c and `waitfg` of tsh.c: the signal handlers, and waiting for the foreground.
-- What the kernel does enters as a list of events: the signals that reach the shell, in order,
-- each with what the handler's system calls return.
pub mod Waiting
pub mod Reaping
use csapp_labs.Base.{
  ℕ, zero, suc, ◌≡◌, Bool, true, false, Option, none, some, List, [], ◌∷◌, ◌++◌, if◌then◌else◌, ◌+◌,
  length,
}
use csapp_labs.Base.Int.{ℤ, pos, ◌==ℤ◌, ltb_ℤ}
use csapp_labs.Shell.Jobs.{
  Job, JobState, st, Shell, Signal, sigint, sigtstp, print, kill, job_stopped, job_terminated,
  sigquit_received, has_pid, getjobpid, deletejob, fgpid,
}

-- A status of `waitpid`, as the macros WIFSTOPPED, WIFEXITED, WIFSIGNALED and WIFCONTINUED read it,
-- with WSTOPSIG or WTERMSIG.
pub data Status : Type 0 where
  stopped : ℕ → Status
  exited : Status
  signaled : ℕ → Status
  continued : Status
  unknown : Status

-- A call that ended: by returning, by `exit`, or by a read through NULL.
pub data Run : Type 0 where
  running : Shell → Run
  ended : Shell → Run
  fault : Run

-- Writes through the pointer that a lookup returned: to the first job that passes the test.
unfoldable pub update_job : (Job → Bool) → (Job → Job) → List Job → List Job
update_job p f [] = []
update_job p f (j ∷ js) = if p j then f j ∷ js else j ∷ update_job p f js

abbrev pub set_state : JobState → Job → Job
set_state state j = record j { state = state }

-- The body of the loop of `sigchld_handler`, for what `waitpid` returned.
reap_one : ℤ → Status → Shell → Run
unfolding update_job getjobpid deletejob
reap_one pid (stopped n) s = elim (getjobpid s.jobs pid) [
  | none ↦ fault
  | some j ↦ running (
      print (job_stopped j.jid j.pid n)
        (record s { jobs = update_job (has_pid pid) (set_state st) s.jobs }))
]
reap_one pid exited s = running (deletejob s pid).0
reap_one pid (signaled n) s = elim (getjobpid s.jobs pid) [
  | none ↦ fault
  | some j ↦ running (deletejob (print (job_terminated j.jid j.pid n) s) pid).0
]
reap_one pid continued s = running s
reap_one pid unknown s = ended s

-- `sigchld_handler`, the list being what its calls of `waitpid` return until there is nothing
-- more to reap.
unfoldable pub sigchld_handler : List (ℤ × Status) → Shell → Run
unfolding reap_one
sigchld_handler [] s = running s
sigchld_handler ((pid, status) ∷ ws) s = elim (reap_one pid status s) [
  | running t ↦ sigchld_handler ws t
  | ended t ↦ ended t
  | fault ↦ fault
]

-- A signal that reaches the shell; for SIGINT and SIGTSTP, whether the handler's `kill` succeeds. A
-- signal is `racing` if it arrives between the test of `waitfg` and its `sigsuspend`.
pub data Event : Type 0 where
  chld : List (ℤ × Status) → Event
  int tstp : Bool → Event
  quit : Event
  racing : Event → Event

-- What a handler has done when it returns, exits, faults or begins to wait.
pub data Handled : Type 0 where
  resumed : Shell → Handled
  waiting : Shell → Handled
  halted : Shell → Handled
  crashed : Handled

-- `sigint_handler` and `sigtstp_handler` up to their `waitfg`.
unfoldable pub forward : Signal → Bool → Shell → Handled
unfolding fgpid
forward sig ok s =
    if fgpid s.jobs ==ℤ pos 0
    then resumed s
    else if ok
    then waiting (kill (fgpid s.jobs) sig s)
    else halted (kill (fgpid s.jobs) sig s)

abbrev handled_run : Run → Handled
handled_run (running s) = resumed s
handled_run (ended s) = halted s
handled_run fault = crashed

unfoldable pub deliver : Event → Shell → Handled
unfolding sigchld_handler forward
deliver (chld ws) s = handled_run (sigchld_handler ws s)
deliver (int ok) s = forward sigint ok s
deliver (tstp ok) s = forward sigtstp ok s
deliver quit s = halted (print sigquit_received s)
deliver (racing e) s = deliver e s

-- How `waitfg` ends: it returns with the events that are still to come, or waits for ever once no
-- event is left, or the process ends.
pub data Wait : Type 0 where
  returned : Shell → List Event → Wait
  blocked : Shell → Wait
  exits : Shell → Wait
  segfault : Wait
  out_of_fuel : Wait

-- The outer `waitfg` goes on after a handler's own has returned.
abbrev pub and_then : Wait → (Shell → List Event → Wait) → Wait
and_then (returned s es) k = k s es
and_then (blocked s) k = blocked s
and_then (exits s) k = exits s
and_then segfault k = segfault
and_then out_of_fuel k = out_of_fuel

-- Behind a handler: go on, or first wait inside the handler and then go on with what is left.
abbrev pub on_handled :
    Handled → (inner : Shell → Wait) → (go_on : Shell → List Event → Wait) → List Event → Wait
on_handled (resumed s) inner go_on es = go_on s es
on_handled (waiting s) inner go_on es = and_then (inner s) go_on
on_handled (halted s) inner go_on es = exits s
on_handled crashed inner go_on es = segfault

-- Where `waitfg` is: before the test of its loop, or behind it, on the way into `sigsuspend`.
pub data Point : Type 0 where
  testing : Point
  suspending : Point

-- Where it goes on when the handler of a signal has returned: only a signal that arrives in
-- `sigsuspend` wakes it.
abbrev pub next_point : Event → Point
next_point (chld ws) = testing
next_point (int ok) = testing
next_point (tstp ok) = testing
next_point quit = testing
next_point (racing e) = suspending

abbrev pub waits : Point → Shell → Bool
waits testing s = ltb_ℤ (pos 0) (fgpid s.jobs)
waits suspending s = true

-- `waitfg`: while there is a foreground job, `sigsuspend` runs the handler of the next signal; the
-- handlers of SIGINT and SIGTSTP call `waitfg` themselves. The pid that it is given is not used.
unfoldable pub wait_loop : ℕ → Point → Shell → List Event → Wait
unfolding deliver fgpid
wait_loop zero p s es = out_of_fuel
wait_loop (suc k) p s [] = if waits p s then blocked s else returned s []
wait_loop (suc k) p s (e ∷ es) = elim (waits p s) [
  | false ↦ returned s (e ∷ es)
  | true ↦ on_handled (deliver e s) (λ t. wait_loop k testing t es) (wait_loop k (next_point e)) es
]

-- `waitfg`, with as much fuel as there are events to come, and one more (`Waiting.waitfg_lem`).
unfoldable pub waitfg : Shell → List Event → Wait
unfolding wait_loop
waitfg s es = wait_loop (length es + 1) testing s es
