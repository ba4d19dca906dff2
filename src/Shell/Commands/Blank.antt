-- ===== src/Shell/Commands/Blank.antt =====
-- Lines on which `eval` of shell/lab/tsh.c reads through a null pointer.
use csapp_labs.Base.{ℕ, zero, suc, ◌≡◌, refl, true, some, List, [], ◌∷◌, arith}
use csapp_labs.Base.Int.{ℤ}
use csapp_labs.Shell.Jobs.{Text, Shell}
use csapp_labs.Shell.Parse.{parseline, blank_last, skip_spaces, space}
use csapp_labs.Shell.Parse.RoundTrip.{gap, plain, write_line, parseline-write_line, free_of}
use csapp_labs.Shell.Signals.{Event, segfault}
use csapp_labs.Shell.Commands.{eval}

skip_spaces-blank : (n e : ℕ) → skip_spaces (blank_last (gap n (e ∷ []))) ≡ []
unfolding skip_spaces blank_last
skip_spaces-blank zero e = refl
skip_spaces-blank (suc zero) e = refl
skip_spaces-blank (suc (suc n)) e = skip_spaces-blank (suc n) e

parseline-blank : (n e : ℕ) → parseline (gap n (e ∷ [])) ≡ some (true, [])
unfolding parseline
parseline-blank n e = ground (arith, skip_spaces-blank n e)

-- A line of spaces alone, with a newline (or any byte) at its end, has no argument, and `eval`
-- reads through the null pointer at the start of `argv`.
eval-blank :
    (n e : ℕ) (pid : ℤ) (s : Shell) (es : List Event) → eval pid (gap n (e ∷ [])) s es ≡ segfault
unfolding eval
eval-blank n e pid s es = ground (arith, parseline-blank n e)

-- So does a line whose one word begins with `&`.
eval-amp :
    (n e : ℕ) (a : Text) (pid : ℤ) (s : Shell) (es : List Event)
    → free_of space a ≡ true
    → eval pid (write_line e ((n, plain (b'&' ∷ a)) ∷ [])) s es ≡ segfault
unfolding eval
eval-amp n e a pid s es h =
    ground (arith, parseline-write_line e n (plain (b'&' ∷ a)) [] (ground arith))
