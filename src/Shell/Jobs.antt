-- ===== src/Shell/Jobs.antt =====
-- shell/lab/job.c: the job list and its routines.
pub mod Valid
pub mod Lookup
pub mod Ids
use csapp_labs.Base.{
  ℕ, suc, ◌+◌, ◌≡◌, Bool, true, false, Option, none, some, List, [], ◌∷◌, ◌++◌, ltb, ◌==◌,
  if◌then◌else◌, replicate,
}
pub use csapp_labs.Base.Text.{Text}
use csapp_labs.Base.Int.{ℤ, pos, ◌==ℤ◌, ltb_ℤ}

-- UNDEF, FG, BG and ST of defs.h
pub data JobState : Type 0 where
  undef fg bg st : JobState

-- `struct job_t`. A job's id is never negative.
pub record Job : Type 0 where
  pub pid : ℤ
  pub jid : ℕ
  pub state : JobState
  pub cmdline : Text

-- What the shell prints, one constructor for each format string.
pub data Message : Type 0 where
  added : ℕ → ℤ → Text → Message
  too_many_jobs : Message
  listed : Job → Message
  background : ℕ → ℤ → Text → Message
  needs_argument : Text → Message
  bad_argument : Text → Message
  no_such_job : Text → Message
  no_such_process : Text → Message
  job_stopped : ℕ → ℤ → ℕ → Message
  job_terminated : ℕ → ℤ → ℕ → Message
  sigquit_received : Message

-- The signals that the shell sends with `kill`.
pub data Signal : Type 0 where
  sigcont sigint sigtstp : Signal

-- The globals: `jobs`, `nextjid` and `verbose`; what has been printed so far, and the process
-- groups that have been sent a signal, each by the id of its leader.
pub record Shell : Type 0 where
  pub jobs : List Job
  pub nextjid : ℕ
  pub verbose : Bool
  pub out : List Message
  pub sent : List (ℤ × Signal)

abbrev pub max_jobs : ℕ
max_jobs = 16

abbrev pub print : Message → Shell → Shell
print m s = record s { out = s.out ++ (m ∷ []) }

abbrev pub kill : ℤ → Signal → Shell → Shell
kill pid sig s = record s { sent = s.sent ++ ((pid, sig) ∷ []) }

-- The job that `clearjob` leaves in a slot.
abbrev pub clearjob : Job
clearjob = record { pid = pos 0; jid = 0; state = undef; cmdline = [] }

abbrev pub initjobs : Shell → Shell
initjobs s = record s { jobs = replicate max_jobs clearjob }

-- The loop of `maxjid`, `max` being the largest id so far.
maxjid_from : ℕ → List Job → ℕ
maxjid_from max [] = max
maxjid_from max (j ∷ js) = maxjid_from (if ltb max j.jid then j.jid else max) js

unfoldable pub maxjid : List Job → ℕ
unfolding maxjid_from
maxjid = maxjid_from 0

-- `jobs[i].pid == 0`
abbrev pub is_free : Job → Bool
is_free j = j.pid ==ℤ pos 0

-- The loop of `addjob`: the job goes to the first free slot.
unfoldable pub fill_slot : Job → List Job → Option (List Job)
fill_slot new [] = none
fill_slot new (j ∷ js) =
    if is_free j
    then some (new ∷ js)
    else elim (fill_slot new js) [ none ↦ none | some js' ↦ some (j ∷ js') ]

-- `nextjid++`, and back to 1 above MAXJOBS
abbrev pub bump : ℕ → ℕ
bump n = if ltb max_jobs (n + 1) then 1 else n + 1

abbrev pub report_added : Job → Shell → Shell
report_added j s = if s.verbose then print (added j.jid j.pid j.cmdline) s else s

abbrev pub new_job : Shell → ℤ → JobState → Text → Job
new_job s pid state cmdline = record {
  pid = pid;
  jid = s.nextjid;
  state = state;
  cmdline = cmdline;
}

-- The new shell and the job's id, 0 if no job was added.
unfoldable pub addjob : Shell → ℤ → JobState → Text → Shell × ℕ
unfolding fill_slot
addjob s pid state cmdline =
    if ltb_ℤ pid (pos 1) then (s, 0) else elim (fill_slot (new_job s pid state cmdline) s.jobs) [
      | none ↦ (print too_many_jobs s, 0)
      | some js ↦ (
        report_added (new_job s pid state cmdline)
            (record s { jobs = js; nextjid = bump s.nextjid }),
        s.nextjid,
      )
    ]

-- The loop of `deletejob`: the first slot with the process id is cleared.
unfoldable pub clear_slot : ℤ → List Job → Option (List Job)
clear_slot pid [] = none
clear_slot pid (j ∷ js) =
    if j.pid ==ℤ pid
    then some (clearjob ∷ js)
    else elim (clear_slot pid js) [ none ↦ none | some js' ↦ some (j ∷ js') ]

unfoldable pub deletejob : Shell → ℤ → Shell × Bool
unfolding clear_slot maxjid
deletejob s pid = if ltb_ℤ pid (pos 1) then (s, false) else elim (clear_slot pid s.jobs) [
  | none ↦ (s, false)
  | some js ↦ (record s { jobs = js; nextjid = maxjid js + 1 }, true)
]

abbrev pub is_fg : JobState → Bool
is_fg fg = true
is_fg _ = false

unfoldable pub fgpid : List Job → ℤ
fgpid [] = pos 0
fgpid (j ∷ js) = if is_fg j.state then j.pid else fgpid js

-- The first job that passes the test, as the lookup loops find it.
unfoldable pub find_job : (Job → Bool) → List Job → Option Job
find_job p [] = none
find_job p (j ∷ js) = if p j then some j else find_job p js

abbrev pub has_pid : ℤ → Job → Bool
has_pid pid j = j.pid ==ℤ pid

-- `struct job_t *` as the job that it points to, `none` for NULL.
unfoldable pub getjobpid : List Job → ℤ → Option Job
unfolding find_job
getjobpid js pid = if ltb_ℤ pid (pos 1) then none else find_job (has_pid pid) js

unfoldable pub getjobjid : List Job → ℤ → Option Job
unfolding find_job
getjobjid js jid = if ltb_ℤ jid (pos 1) then none else find_job (λ j. pos j.jid ==ℤ jid) js

-- The loop of `pid2jid`.
jid_of : ℤ → List Job → ℕ
jid_of pid [] = 0
jid_of pid (j ∷ js) = if j.pid ==ℤ pid then j.jid else jid_of pid js

unfoldable pub pid2jid : List Job → ℤ → ℕ
unfolding jid_of
pid2jid js pid = if ltb_ℤ pid (pos 1) then 0 else jid_of pid js

-- The lines that `listjobs` prints, one for each slot in use.
list_lines : List Job → List Message
list_lines [] = []
list_lines (j ∷ js) = if is_free j then list_lines js else listed j ∷ list_lines js

unfoldable pub listjobs : Shell → Shell
unfolding list_lines
listjobs s = record s { out = s.out ++ list_lines s.jobs }
