-- ===== src/Shell/Parse.antt =====
-- shell/lab/tsh.c: `parseline`.
pub mod RoundTrip
use csapp_labs.Base.{
  ℕ, zero, suc, ◌+◌, ◌≡◌, Bool, true, false, ◌&&◌, Option, none, some, List, [], ◌∷◌, ◌++◌, ◌==◌,
  if◌then◌else◌, length,
}
use csapp_labs.Shell.Jobs.{Text}

abbrev pub space : ℕ
space = b' '

abbrev pub quote : ℕ
quote = 39

-- `while (*buf && (*buf == ' ')) buf++`
unfoldable pub skip_spaces : Text → Text
skip_spaces [] = []
skip_spaces (c ∷ s) = if c == space then skip_spaces s else c ∷ s

-- `delim = strchr(buf, d)`, `*delim = '\0'` and `buf = delim + 1`: the text before the first `d` and
-- the text behind it.
unfoldable pub split_at : ℕ → Text → Option (Text × Text)
split_at d [] = none
split_at d (c ∷ s) =
    if c == d
    then some ([], s)
    else elim (split_at d s) [ none ↦ none | some (a, r) ↦ some (c ∷ a, r) ]

-- The argument at the front of the buffer: up to the closing quote, or to the next space.
unfoldable pub next_arg : Text → Option (Text × Text)
unfolding split_at
next_arg [] = none
next_arg (c ∷ s) = if c == quote then split_at quote s else split_at space (c ∷ s)

-- MAXARGS, the places of `args`
abbrev pub max_args : ℕ
max_args = 128

-- The loop that builds `argv`, and the NULL behind it, for the places that are left; `none` is a
-- write behind the last place.
unfoldable pub args_loop : ℕ → Text → Option (List Text)
unfolding next_arg skip_spaces
args_loop zero buf = none
args_loop (suc places) buf = elim (next_arg buf) [
  | none ↦ some []
  | some (a, r) ↦ elim (args_loop places (skip_spaces r)) [
    | none ↦ none
    | some as_ ↦ some (a ∷ as_)
  ]
]

-- `buf[strlen(buf) - 1] = ' '`, for a line that is not empty.
unfoldable pub blank_last : Text → Text
blank_last [] = []
blank_last (c ∷ []) = space ∷ []
blank_last (c ∷ d ∷ s) = c ∷ blank_last (d ∷ s)

-- `*argv[argc - 1] == '&'`, and `argv` without its last element if so.
abbrev pub starts_with_amp : Text → Bool
starts_with_amp [] = false
starts_with_amp (c ∷ s) = c == b'&'

unfoldable pub background : List Text → Bool × List Text
background [] = (false, [])
background (a ∷ []) = if starts_with_amp a then (true, []) else (false, a ∷ [])
background (a ∷ b ∷ r) = ((background (b ∷ r)).0, a ∷ (background (b ∷ r)).1)

-- What `parseline` does when `argv` has `places` places: whether the job runs in the background, and
-- `argv`.
unfoldable pub parse_into : ℕ → Text → Option (Bool × List Text)
unfolding args_loop blank_last background
parse_into places cmdline = elim (args_loop places (skip_spaces (blank_last cmdline))) [
  | none ↦ none
  | some [] ↦ some (true, [])
  | some (a ∷ r) ↦ some (background (a ∷ r))
]

-- `parseline(cmdline, args)`
unfoldable pub parseline : Text → Option (Bool × List Text)
unfolding parse_into
parseline cmdline = parse_into max_args cmdline
