-- ===== src/Shell/Commands/Launch.antt =====
-- What `eval` of shell/lab/tsh.c does with a command that is not built in.
use csapp_labs.Base.{
  ℕ, ◌≡◌, refl, ◌≢◌, Bool, true, false, none, some, List, [], ◌∷◌, ◌&&◌, not, arith, Option-cases,
  inl, inr,
}
use csapp_labs.Base.Int.{ℤ, pos, ltb_ℤ, ==ℤ_iff}
use csapp_labs.Shell.Jobs.{
  Text, Job, JobState, fg, bg, is_fg, Shell, print, background, new_job, addjob, getjobpid, pid2jid,
  fgpid, fill_slot,
}
use csapp_labs.Shell.Jobs.Valid.{IsValid, taken, all_slots_ok}
use csapp_labs.Shell.Jobs.Lookup.{is_full, addjob-zero, getjobpid-addjob, pid2jid-getjobpid}
use csapp_labs.Shell.Parse.{parseline}
use csapp_labs.Shell.Signals.{Status, stopped, signaled, fault, sigchld_handler, Event, returned}
use csapp_labs.Shell.Signals.Waiting.{waitfg_lem}
use csapp_labs.Shell.Commands.{builtin_cmd, not_builtin, launch, eval}

addjob-ne-zero :
    (s : Shell) (pid : ℤ) (state : JobState) (c : Text)
    → IsValid s
    → ltb_ℤ pid (pos 1) ≡ false
    → is_full s.jobs ≡ false
    → (addjob s pid state c).1 ≢ 0
addjob-ne-zero s pid state c v p room e = ground (arith, (addjob-zero {s = s} pid state c v).0.0 e)

addjob_id :
    (s : Shell) (pid : ℤ) (state : JobState) (c : Text)
    → (addjob s pid state c).1 ≢ 0
    → (addjob s pid state c).1 ≡ s.nextjid
unfolding addjob
addjob_id s pid state c h = ground arith

getjobpid-addjob_self :
    (s : Shell) (pid : ℤ) (state : JobState) (c : Text)
    → IsValid s
    → ltb_ℤ pid (pos 1) ≡ false
    → taken pid s.jobs ≡ false
    → is_full s.jobs ≡ false
    → getjobpid (addjob s pid state c).0.jobs pid ≡ some (new_job s pid state c)
getjobpid-addjob_self s pid state c v p new room = ground (
  arith,
  getjobpid-addjob s pid state c pid new (addjob-ne-zero s pid state c v p room),
  ==ℤ_iff pid pid,
)

-- A background command that is not built in, on a valid list with room: `eval` returns at once with
-- the job listed in state BG under the next job id, and its last message shows that id.
pub eval-background :
    (s : Shell) (pid : ℤ) (c : Text) (argv : List Text) (es : List Event)
    → IsValid s
    → ltb_ℤ pid (pos 1) ≡ false
    → taken pid s.jobs ≡ false
    → is_full s.jobs ≡ false
    → parseline c ≡ some (true, argv)
    → builtin_cmd argv s es ≡ not_builtin
    → (eval pid c s es ≡ returned (print (background s.nextjid pid c) (addjob s pid bg c).0) es)
      × (getjobpid (addjob s pid bg c).0.jobs pid ≡ some (new_job s pid bg c))
unfolding eval launch
eval-background s pid c argv es v p new room e b = ground (
  arith,
  getjobpid-addjob_self s pid bg c v p new room,
  pid2jid-getjobpid (addjob s pid bg c).0.jobs pid,
)

-- A background command on a full list is started all the same, and is not listed. When its process
-- then stops or is killed by a signal, the SIGCHLD handler reads through a null pointer.
pub eval-full :
    (s : Shell) (pid : ℤ) (c : Text) (argv : List Text) (es : List Event) (n : ℕ)
    (ws : List (ℤ × Status))
    → IsValid s
    → getjobpid s.jobs pid ≡ none
    → is_full s.jobs ≡ true
    → parseline c ≡ some (true, argv)
    → builtin_cmd argv s es ≡ not_builtin
    → (t : Shell) × (eval pid c s es ≡ returned t es)
      × (sigchld_handler ((pid, stopped n) ∷ ws) t ≡ fault)
      × (sigchld_handler ((pid, signaled n) ∷ ws) t ≡ fault)
unfolding eval launch sigchld_handler
eval-full s pid c argv es n ws v absent full e b =
    let same : (addjob s pid bg c).0.jobs ≡ s.jobs =
      ((addjob-zero {s = s} pid bg c v).1
        ((addjob-zero {s = s} pid bg c v).0.1 (ground arith))).0 in
    (
      print (background (pid2jid (addjob s pid bg c).0.jobs pid) pid c) (addjob s pid bg c).0,
      ground arith,
      ground arith,
      ground arith,
    )

-- No slot is in state FG.
abbrev pub no_fg : List Job → Bool
no_fg [] = true
no_fg (j ∷ js) = not (is_fg j.state) && no_fg js

no_fg-fgpid : (js : List Job) → no_fg js ≡ true → fgpid js ≡ pos 0
unfolding fgpid
no_fg-fgpid [] h = refl
no_fg-fgpid (j ∷ js) h = ground (arith, no_fg-fgpid js)

fgpid-no_fg :
    (js : List Job) → all_slots_ok js ≡ true → ltb_ℤ (pos 0) (fgpid js) ≡ false → no_fg js ≡ true
unfolding fgpid
fgpid-no_fg [] v h = refl
fgpid-no_fg (j ∷ js) v h = ground (arith, fgpid-no_fg js)

no_fg-fill_slot :
    (new : Job) (js js' : List Job)
    → fill_slot new js ≡ some js'
    → is_fg new.state ≡ false
    → no_fg js ≡ true
    → no_fg js' ≡ true
unfolding fill_slot
no_fg-fill_slot new [] js' e h k = ground arith
no_fg-fill_slot new (j ∷ js) js' e h k = elim (Option-cases (fill_slot new js)) [
  | inl n ↦ ground arith
  | inr (r, n) ↦ ground (arith, no_fg-fill_slot new js r n)
]

no_fg-addjob :
    (s : Shell) (pid : ℤ) (c : Text) → no_fg s.jobs ≡ true → no_fg (addjob s pid bg c).0.jobs ≡ true
unfolding addjob
no_fg-addjob s pid c h = elim (Option-cases (fill_slot (new_job s pid bg c) s.jobs)) [
  | inl n ↦ ground arith
  | inr (js, n) ↦ ground (arith, no_fg-fill_slot (new_job s pid bg c) s.jobs js n)
]

-- When `eval` returns from a command that it started, in the foreground or the background, there is
-- no foreground job, if there was none before and the list is valid.
pub launch-no_fg :
    (b : Bool) (s t : Shell) (pid : ℤ) (c : Text) (es r : List Event)
    → IsValid s
    → ltb_ℤ (pos 0) (fgpid s.jobs) ≡ false
    → launch b pid c s es ≡ returned t r
    → ltb_ℤ (pos 0) (fgpid t.jobs) ≡ false
unfolding launch
launch-no_fg true s t pid c es r v h e = ground (
  arith,
  fgpid-no_fg s.jobs v.ok_slots h,
  no_fg-addjob s pid c,
  no_fg-fgpid (addjob s pid bg c).0.jobs,
)
launch-no_fg false s t pid c es r v h e = ((waitfg_lem (addjob s pid fg c).0 es).1 t r e).0
