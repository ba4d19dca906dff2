-- ===== src/Shell/Signals/Waiting.antt =====
-- What holds after the handlers and after `waitfg`.
use csapp_labs.Base.{
  ℕ, zero, suc, ◌+◌, ◌≤◌, ◌<◌, ◌≡◌, refl, ◌≢◌, ap, Bool, true, false, not, ◌&&◌, ◌||◌, some, List,
  [], ◌∷◌, length, arith, Bool-cases, inl, inr,
}
use mathlib.Core.Path.{subst}
use csapp_labs.Base.Int.{ℤ, pos, ltb_ℤ, ==ℤ_iff}
use csapp_labs.Shell.Jobs.{Job, JobState, Shell, fgpid, getjobpid, has_pid}
use csapp_labs.Shell.Jobs.Valid.{IsValid, taken, distinct_pids, all_slots_ok, is_undef}
use csapp_labs.Shell.Signals.{
  update_job, set_state, Event, chld, int, tstp, quit, racing, Status, running, sigchld_handler,
  Point, testing, suspending, next_point, waits, Handled, resumed, waiting, halted, crashed,
  deliver, Wait, returned, blocked, exits, segfault, out_of_fuel, and_then, on_handled, wait_loop,
  waitfg,
}

-- A signal among them arrives between the test and `sigsuspend`.
abbrev pub is_racing : Event → Bool
is_racing (chld ws) = false
is_racing (int ok) = false
is_racing (tstp ok) = false
is_racing quit = false
is_racing (racing e) = true

abbrev pub any_racing : List Event → Bool
any_racing [] = false
any_racing (e ∷ es) = is_racing e || any_racing es

abbrev is_testing : Point → Bool
is_testing testing = true
is_testing suspending = false

is_testing-next_point : (e : Event) → is_racing e ≡ false → is_testing (next_point e) ≡ true
is_testing-next_point (chld ws) h = refl
is_testing-next_point (int ok) h = refl
is_testing-next_point (tstp ok) h = refl
is_testing-next_point quit h = refl
is_testing-next_point (racing e) h = absurd (ground arith)

-- What a call of `waitfg` with the events `n` long may come to: a return has no foreground job, or
-- stands behind a test, and consumed only some of the events. If no signal is racing (`calm`), none is
-- in what is left, and only a foreground job is waited for.
abbrev Sound : ℕ → Bool → Wait → Type 0
Sound n calm (returned s es) =
    (ltb_ℤ (pos 0) (fgpid s.jobs) ≡ false) × (length es ≤ n) × (calm ≡ true → any_racing es ≡ false)
Sound n calm (blocked s) = calm ≡ true → ltb_ℤ (pos 0) (fgpid s.jobs) ≡ true
Sound n calm (exits s) = Unit
Sound n calm segfault = Unit
Sound n calm out_of_fuel = ⊥

Sound-mono : (m n : ℕ) (c : Bool) (w : Wait) → m ≤ n → Sound m c w → Sound n c w
Sound-mono m n c (returned s es) h k = (k.0, omega arith, k.2)
Sound-mono m n c (blocked s) h k = k
Sound-mono m n c (exits s) h k = tt
Sound-mono m n c segfault h k = tt
Sound-mono m n c out_of_fuel h k = k

Sound-and_then :
    (n : ℕ) (c : Bool) (w : Wait) (k : Shell → List Event → Wait)
    → Sound n c w
    → ((s : Shell) (es : List Event)
        → length es ≤ n
        → (c ≡ true → any_racing es ≡ false)
        → Sound n c (k s es))
    → Sound n c (and_then w k)
Sound-and_then n c (returned s es) k a f = f s es a.1 a.2
Sound-and_then n c (blocked s) k a f = a
Sound-and_then n c (exits s) k a f = tt
Sound-and_then n c segfault k a f = tt
Sound-and_then n c out_of_fuel k a f = a

Sound-on_handled :
    (n : ℕ) (c : Bool) (d : Handled) (inner : Shell → Wait) (go_on : Shell → List Event → Wait)
    (es : List Event)
    → length es ≤ n
    → (c ≡ true → any_racing es ≡ false)
    → ((s : Shell) → Sound n c (inner s))
    → ((s : Shell) (es : List Event)
        → length es ≤ n
        → (c ≡ true → any_racing es ≡ false)
        → Sound n c (go_on s es))
    → Sound n c (on_handled d inner go_on es)
Sound-on_handled n c (resumed s) inner go_on es l r f g = g s es l r
Sound-on_handled n c (waiting s) inner go_on es l r f g = Sound-and_then n c (inner s) go_on (f s) g
Sound-on_handled n c (halted s) inner go_on es l r f g = tt
Sound-on_handled n c crashed inner go_on es l r f g = tt

waits-stop : (p : Point) (s : Shell) → waits p s ≡ false → ltb_ℤ (pos 0) (fgpid s.jobs) ≡ false
waits-stop testing s b = b
waits-stop suspending s b = absurd (ground arith)

wait_loop-Sound :
    (k : ℕ) (c : Bool) (p : Point) (s : Shell) (es : List Event)
    → length es < k
    → (c ≡ true → (is_testing p && not (any_racing es)) ≡ true)
    → Sound (length es) c (wait_loop k p s es)
unfolding wait_loop
wait_loop-Sound zero c p s es h q = absurd (omega arith)
wait_loop-Sound (suc k) c testing s [] h q = elim (Bool-cases (ltb_ℤ (pos 0) (fgpid s.jobs))) [
  | inl e ↦ rw e (λ i. e)
  | inr e ↦ rw e (e, omega arith, λ i. refl)
]
wait_loop-Sound (suc k) c suspending s [] h q = λ i. absurd (ground (arith, q i))
wait_loop-Sound (suc k) c p s (e ∷ es) h q = elim (Bool-cases (waits p s)) [
  | inl b ↦
      rw (b, wait_loop)
        (Sound-mono (length es) (suc (length es)) c _ (omega arith) (
          Sound-on_handled (length es) c (deliver e s) (λ t. wait_loop k testing t es)
            (wait_loop k (next_point e)) es (omega arith) (λ i. ground (arith, q i))
            (λ t. wait_loop-Sound k c testing t es (omega arith) (λ i. ground (arith, q i)))
            (λ t r small d. Sound-mono (length r) (length es) c _ small (
              wait_loop-Sound k c (next_point e) t r (omega arith)
                (λ i. ground (arith, q i, d i, is_testing-next_point e))))))
  | inr b ↦ rw (b, wait_loop) (waits-stop p s b, omega arith, λ i. ground (arith, q i))
]

wait_loop-racing :
    (s t : Shell) (ws : List (ℤ × Status))
    → ltb_ℤ (pos 0) (fgpid s.jobs) ≡ true
    → sigchld_handler ws s ≡ running t
    → wait_loop 2 testing s (racing (chld ws) ∷ []) ≡ blocked t
unfolding wait_loop
wait_loop-racing s t ws b r = ground arith

-- `waitfg` comes to an end once the events do. When it returns, there is no foreground job, and the
-- events that are left are no more than it was given. When it waits for ever, and none of the signals
-- arrives between its test and `sigsuspend`, there is a foreground job. But if there is one at first,
-- and a SIGCHLD whose handler returns arrives there, and no signal after it, then `waitfg` waits for
-- ever, whatever jobs the handler has taken out of the list.
pub waitfg_lem :
    (s : Shell) (es : List Event)
    → (waitfg s es ≢ out_of_fuel)
      × ((t : Shell) (r : List Event)
          → waitfg s es ≡ returned t r
          → (ltb_ℤ (pos 0) (fgpid t.jobs) ≡ false) × (length r ≤ length es))
      × ((t : Shell)
          → waitfg s es ≡ blocked t
          → any_racing es ≡ false
          → ltb_ℤ (pos 0) (fgpid t.jobs) ≡ true)
      × ((t : Shell) (ws : List (ℤ × Status))
          → ltb_ℤ (pos 0) (fgpid s.jobs) ≡ true
          → sigchld_handler ws s ≡ running t
          → waitfg s (racing (chld ws) ∷ []) ≡ blocked t)
unfolding waitfg
waitfg_lem s es =
    let calm = not (any_racing es) in
    let sound = wait_loop-Sound (length es + 1) calm testing s es (omega arith) (λ i. i) in
    (
      λ e. subst (Sound (length es) calm) e sound,
      λ t r e. let (a, b, _) = subst (Sound (length es) calm) e sound in (a, b),
      λ t e n. subst (Sound (length es) calm) e sound (ap not n),
      λ t ws b r. wait_loop-racing s t ws b r,
    )

module _ (p : Job → Bool) where
  length-update_job : (f : Job → Job) (js : List Job) → length (update_job p f js) ≡ length js
  unfolding update_job
  length-update_job f [] = refl
  length-update_job f (j ∷ js) = ground (arith, length-update_job f js)

  taken-update_job :
      (state : JobState) (pid : ℤ) (js : List Job)
      → taken pid (update_job p (set_state state) js) ≡ taken pid js
  unfolding update_job
  taken-update_job state pid [] = refl
  taken-update_job state pid (j ∷ js) = ground (arith, taken-update_job state pid js)

  distinct_pids-update_job :
      (state : JobState) (js : List Job)
      → distinct_pids (update_job p (set_state state) js) ≡ distinct_pids js
  unfolding update_job
  distinct_pids-update_job state [] = refl
  distinct_pids-update_job state (j ∷ js) =
      ground (arith, distinct_pids-update_job state js, taken-update_job state j.pid js)

-- A write of a state other than UNDEF to a slot that a process id above 0 finds.
all_slots_ok-update_job :
    (pid : ℤ) (state : JobState) (js : List Job)
    → ltb_ℤ pid (pos 1) ≡ false
    → is_undef state ≡ false
    → all_slots_ok js ≡ true
    → all_slots_ok (update_job (has_pid pid) (set_state state) js) ≡ true
unfolding update_job
all_slots_ok-update_job pid state [] h u k = refl
all_slots_ok-update_job pid state (j ∷ js) h u k =
    ground (arith, all_slots_ok-update_job pid state js, ==ℤ_iff j.pid pid, ==ℤ_iff j.pid (pos 0))

pub getjobpid_positive :
    (js : List Job) (pid : ℤ) (j : Job) → getjobpid js pid ≡ some j → ltb_ℤ pid (pos 1) ≡ false
unfolding getjobpid
getjobpid_positive js pid j h = ground arith

-- Setting the state of a listed job keeps the invariant.
pub update_job-IsValid :
    (s : Shell) (pid : ℤ) (state : JobState)
    → ltb_ℤ pid (pos 1) ≡ false
    → is_undef state ≡ false
    → IsValid s
    → IsValid (record s { jobs = update_job (has_pid pid) (set_state state) s.jobs })
update_job-IsValid s pid state h u v = record {
  slots = rw (length-update_job (has_pid pid)) v.slots;
  distinct = rw (distinct_pids-update_job (has_pid pid) state s.jobs) v.distinct;
  ok_slots = all_slots_ok-update_job pid state s.jobs h u v.ok_slots;
  next_pos = v.next_pos;
}
