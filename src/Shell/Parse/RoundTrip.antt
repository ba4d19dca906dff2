-- ===== src/Shell/Parse/RoundTrip.antt =====
-- `parseline` reads back a line that is written from its arguments, if `argv` has room for them.
use csapp_labs.Base.{
  ℕ, zero, suc, ◌+◌, ◌≤◌, ◌<◌, ◌≡◌, refl, ◌≢◌, ap, ◌∙◌, Bool, true, false, not, ◌&&◌, none, some,
  List, [], ◌∷◌, ◌++◌, ◌==◌, if◌then◌else◌, length, arith, Option-cases, Bool-cases, ltb, inl, inr,
  append_assoc, length-append,
}
use csapp_labs.Shell.Jobs.{Text}
use csapp_labs.Shell.Parse.{
  space, quote, skip_spaces, split_at, next_arg, args_loop, blank_last, background, parse_into,
  parseline, max_args, starts_with_amp,
}

pub length-skip_spaces : (s : Text) → length (skip_spaces s) ≤ length s
unfolding skip_spaces
length-skip_spaces [] = omega arith
length-skip_spaces (c ∷ s) = ground (arith, length-skip_spaces s)

length-split_at : (d : ℕ) (s a r : Text) → split_at d s ≡ some (a, r) → length r < length s
unfolding split_at
length-split_at d [] a r h = ground arith
length-split_at d (c ∷ s) a r h = elim (Option-cases (split_at d s)) [
  | inl n ↦ ground arith
  | inr ((b, t), n) ↦ ground (arith, length-split_at d s b t n)
]

length-next_arg : (s a r : Text) → next_arg s ≡ some (a, r) → length r < length s
unfolding next_arg
length-next_arg [] a r h = ground arith
length-next_arg (c ∷ s) a r h =
    ground (arith, length-split_at quote s a r, length-split_at space (c ∷ s) a r)

args_loop-ne-none : (k : ℕ) (s : Text) → length s < k → args_loop k s ≢ none
unfolding args_loop
args_loop-ne-none zero s h = absurd (omega arith)
args_loop-ne-none (suc k) s h = elim (Option-cases (next_arg s)) [
  | inl n ↦ ground arith
  | inr ((a, r), n) ↦
      ground
        (arith, length-next_arg s a r n, length-skip_spaces r, args_loop-ne-none k (skip_spaces r))
]

length-blank_last : (s : Text) → length (blank_last s) ≡ length s
unfolding blank_last
length-blank_last [] = refl
length-blank_last (c ∷ []) = refl
length-blank_last (c ∷ d ∷ s) = ap suc (length-blank_last (d ∷ s))

-- A line with fewer bytes than `argv` has places has a result.
parse_into-ne-none : (k : ℕ) (s : Text) → length s < k → parse_into k s ≢ none
unfolding parse_into
parse_into-ne-none k s f = elim (Option-cases (args_loop k (skip_spaces (blank_last s)))) [
  | inl n ↦ ground (
    arith,
    args_loop-ne-none k (skip_spaces (blank_last s)),
    length-skip_spaces (blank_last s),
    length-blank_last s,
  )
  | inr (l, n) ↦ ground arith
]

-- A word of a command line: as it stands, or between single quotes.
pub data Word : Type 0 where
  plain : Text → Word
  quoted : Text → Word

abbrev pub contents : Word → Text
contents (plain a) = a
contents (quoted a) = a

abbrev pub free_of : ℕ → Text → Bool
free_of d [] = true
free_of d (c ∷ s) = not (c == d) && free_of d s

-- A plain word is not empty, has no space and does not begin with a quote; a quoted word has no
-- quote inside.
abbrev pub word_ok : Word → Bool
word_ok (plain []) = false
word_ok (plain (c ∷ a)) = not (c == quote) && free_of space (c ∷ a)
word_ok (quoted a) = free_of quote a

abbrev pub words_ok : List (ℕ × Word) → Bool
words_ok [] = true
words_ok ((n, w) ∷ ws) = word_ok w && words_ok ws

abbrev pub gap : ℕ → Text → Text
gap zero s = s
gap (suc n) s = space ∷ gap n s

-- A word in front of a text.
abbrev pub write_word : Word → Text → Text
write_word (plain a) s = a ++ s
write_word (quoted a) s = quote ∷ (a ++ (quote ∷ s))

-- The words, each behind `n` spaces, with a space between two and `e` at the end.
abbrev pub write_line : ℕ → List (ℕ × Word) → Text
write_line e [] = []
write_line e ((n, w) ∷ []) = gap n (write_word w (e ∷ []))
write_line e ((n, w) ∷ x ∷ ws) = gap n (write_word w (space ∷ write_line e (x ∷ ws)))

abbrev pub all_contents : List (ℕ × Word) → List Text
all_contents [] = []
all_contents ((n, w) ∷ ws) = contents w ∷ all_contents ws

pub skip_spaces-gap : (n : ℕ) (s : Text) → skip_spaces (gap n s) ≡ skip_spaces s
unfolding skip_spaces
skip_spaces-gap zero s = refl
skip_spaces-gap (suc n) s = skip_spaces-gap n s

split_at-append :
    (d : ℕ) (a s : Text) → free_of d a ≡ true → split_at d (a ++ (d ∷ s)) ≡ some (a, s)
unfolding split_at
split_at-append d [] s h = ground arith
split_at-append d (c ∷ a) s h = ground (arith, split_at-append d a s)

-- What is left behind a word, up to leading spaces.
next_arg-write_word :
    (w : Word) (s : Text)
    → word_ok w ≡ true
    → (r : Text) × (next_arg (skip_spaces (write_word w (space ∷ s))) ≡ some (contents w, r))
      × (skip_spaces r ≡ skip_spaces s)
unfolding next_arg skip_spaces
next_arg-write_word (plain []) s h = ground arith
next_arg-write_word (plain (c ∷ a)) s h = (s, ground (arith, split_at-append space (c ∷ a) s), refl)
next_arg-write_word (quoted a) s h =
    (space ∷ s, ground (arith, split_at-append quote a (space ∷ s)), refl)

args_loop-write_line :
    (ws : List (ℕ × Word)) (k : ℕ)
    → words_ok ws ≡ true
    → length ws < k
    → args_loop k (skip_spaces (write_line space ws)) ≡ some (all_contents ws)
unfolding args_loop
args_loop-write_line ws zero h f = absurd (omega arith)
args_loop-write_line [] (suc k) h f = refl
args_loop-write_line ((n, w) ∷ []) (suc k) h f = rw skip_spaces-gap (
    ground (
      arith,
      next_arg-write_word w [] (ground arith),
      args_loop-write_line [] k refl (omega arith),
    ))
args_loop-write_line ((n, w) ∷ x ∷ ws) (suc k) h f = rw skip_spaces-gap (
    ground (
      arith,
      next_arg-write_word w (write_line space (x ∷ ws)) (ground arith),
      args_loop-write_line (x ∷ ws) k (ground arith) (omega arith),
    ))

-- One word more than there are places before the last one is written behind `argv`.
args_loop-overflow :
    (ws : List (ℕ × Word)) (k : ℕ)
    → words_ok ws ≡ true
    → k ≤ length ws
    → args_loop k (skip_spaces (write_line space ws)) ≡ none
unfolding args_loop
args_loop-overflow ws zero h f = refl
args_loop-overflow [] (suc k) h f = absurd (omega arith)
args_loop-overflow ((n, w) ∷ []) (suc k) h f = rw skip_spaces-gap (
    ground
      (arith, next_arg-write_word w [] (ground arith), args_loop-overflow [] k refl (omega arith)))
args_loop-overflow ((n, w) ∷ x ∷ ws) (suc k) h f = rw skip_spaces-gap (
    ground (
      arith,
      next_arg-write_word w (write_line space (x ∷ ws)) (ground arith),
      args_loop-overflow (x ∷ ws) k (ground arith) (omega arith),
    ))

blank_last-append : (s : Text) (e : ℕ) → blank_last (s ++ (e ∷ [])) ≡ s ++ (space ∷ [])
unfolding blank_last
blank_last-append [] e = refl
blank_last-append (c ∷ []) e = refl
blank_last-append (c ∷ d ∷ s) e = ap (◌∷◌ c) (blank_last-append (d ∷ s) e)

-- The line without its last byte.
front : List (ℕ × Word) → Text
front [] = []
front ((n, w) ∷ []) = gap n (write_word w [])
front ((n, w) ∷ x ∷ ws) = gap n (write_word w (space ∷ front (x ∷ ws)))

gap-append : (n : ℕ) (s t : Text) → gap n s ++ t ≡ gap n (s ++ t)
gap-append zero s t = refl
gap-append (suc n) s t = ap (◌∷◌ space) (gap-append n s t)

write_word-append : (w : Word) (s t : Text) → write_word w s ++ t ≡ write_word w (s ++ t)
write_word-append (plain a) s t = append_assoc a s t
write_word-append (quoted a) s t = ap (◌∷◌ quote) (append_assoc a (quote ∷ s) t)

write_line-front :
    (e n : ℕ) (w : Word) (ws : List (ℕ × Word))
    → write_line e ((n, w) ∷ ws) ≡ front ((n, w) ∷ ws) ++ (e ∷ [])
unfolding front
write_line-front e n w [] = rw (gap-append, write_word-append)
write_line-front e n w ((m, x) ∷ ws) = rw (gap-append, write_word-append, write_line-front e m x ws)

pub blank_last-write_line :
    (e n : ℕ) (w : Word) (ws : List (ℕ × Word))
    → blank_last (write_line e ((n, w) ∷ ws)) ≡ write_line space ((n, w) ∷ ws)
blank_last-write_line e n w ws =
    rw (write_line-front e n w ws, write_line-front space n w ws) (blank_last-append _ e)

background-append :
    (l : List Text) (a : Text)
    → background (l ++ (a ∷ [])) ≡ (if starts_with_amp a then (true, l) else (false, l ++ (a ∷ [])))
unfolding background
background-append [] a = refl
background-append (b ∷ []) a = ground (arith, background-append [] a)
background-append (b ∷ c ∷ l) a = ground (arith, background-append (c ∷ l) a)

all_contents-append :
    (ws vs : List (ℕ × Word)) → all_contents (ws ++ vs) ≡ all_contents ws ++ all_contents vs
all_contents-append [] vs = refl
all_contents-append ((n, w) ∷ ws) vs = ap (◌∷◌ (contents w)) (all_contents-append ws vs)

parse_into-words :
    (k e n : ℕ) (w : Word) (ws : List (ℕ × Word))
    → words_ok ((n, w) ∷ ws) ≡ true
    → parse_into k (write_line e ((n, w) ∷ ws))
      ≡ (if ltb (length ws + 1) k then some (background (all_contents ((n, w) ∷ ws))) else none)
unfolding parse_into
parse_into-words k e n w ws h = elim (Bool-cases (ltb (length ws + 1) k)) [
  | inl f ↦ rw f (
      ground (
        arith,
        blank_last-write_line e n w ws,
        args_loop-write_line ((n, w) ∷ ws) k h (ground arith),
      ))
  | inr f ↦ rw f (
      ground (
        arith,
        blank_last-write_line e n w ws,
        args_loop-overflow ((n, w) ∷ ws) k h (ground arith),
      ))
]

parse_into-write_line :
    (k e n : ℕ) (w : Word) (ws : List (ℕ × Word))
    → words_ok (ws ++ ((n, w) ∷ [])) ≡ true
    → parse_into k (write_line e (ws ++ ((n, w) ∷ []))) ≡ (
        if ltb (length ws + 1) k
        then some (
            if starts_with_amp (contents w)
            then (true, all_contents ws)
            else (false, all_contents ws ++ (contents w ∷ [])))
        else none)
parse_into-write_line k e n w [] h =
    parse_into-words k e n w [] h
    ∙ ap (λ r. if ltb 1 k then some r else none) (background-append [] (contents w))
parse_into-write_line k e n w ((m, x) ∷ ws) h =
    let more : length (ws ++ ((n, w) ∷ [])) ≡ length ws + 1 = length-append ws ((n, w) ∷ []) in
    let back : background (all_contents ((m, x) ∷ (ws ++ ((n, w) ∷ [])))) ≡ (
        if starts_with_amp (contents w)
        then (true, all_contents ((m, x) ∷ ws))
        else (false, all_contents ((m, x) ∷ ws) ++ (contents w ∷ []))) =
      rw (all_contents-append ws ((n, w) ∷ []))
        (background-append (contents x ∷ all_contents ws) (contents w)) in
    let same : suc (length ws) + 1 ≡ length ws + 1 + 1 = omega arith in
    parse_into-words k e m x (ws ++ ((n, w) ∷ [])) h ∙ rw (more, back, same) refl

-- A line of words, with any number of spaces before each and ended by a newline (or any byte),
-- parses to the words, if they are fewer than the MAXARGS places of `argv`; and if the last one
-- begins with `&`, to a background job of the others. With MAXARGS words or more, `parseline` writes
-- behind the last place.
pub parseline-write_line :
    (e n : ℕ) (w : Word) (ws : List (ℕ × Word))
    → words_ok (ws ++ ((n, w) ∷ [])) ≡ true
    → parseline (write_line e (ws ++ ((n, w) ∷ []))) ≡ (
        if ltb (length ws + 1) max_args
        then some (
            if starts_with_amp (contents w)
            then (true, all_contents ws)
            else (false, all_contents ws ++ (contents w ∷ [])))
        else none)
unfolding parseline
parseline-write_line e n w ws h = parse_into-write_line max_args e n w ws h
