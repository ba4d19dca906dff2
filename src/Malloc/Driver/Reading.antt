-- ===== src/Malloc/Driver/Reading.antt =====
-- `read_trace` of malloc/lab/mdriver.c: commands that read the text of the file.
pub mod RoundTrip
use csapp_labs.Base.{
  ℕ, zero, suc, ◌+◌, ◌-◌, ◌%◌, ◌^◌, ◌≡◌, Bool, true, false, ◌&&◌, Option, none, some, List, [], ◌∷◌,
  ◌++◌, ◌==◌, ltb, if◌then◌else◌, length, min,
}
use csapp_labs.Base.Text.{Text}
use csapp_labs.Base.State.{Cmd, pure, fault, ◌>>=◌, ◌>>◌}
use csapp_labs.Base.Strings.{skip_space, scan_word}
use csapp_labs.Base.Decimal.{is_digit, read_digits}
use csapp_labs.Malloc.Driver.{TraceOp, alloc, realloc, free, Trace}

-- A conversion without a sign: whether a number was read, and the value of the variable, which was
-- `v`. The value stops at the largest one, `most`.
unfoldable pub scan_digits : ℕ → ℕ → Cmd Text (Bool × ℕ)
unfolding read_digits
scan_digits most v [] = some ((false, v), [])
scan_digits most v (c ∷ s) =
    let (n, r) = read_digits 0 (c ∷ s) in
    if is_digit c then some ((true, min n most), r) else some ((false, v), c ∷ s)

-- `fscanf(f, "%u", &v)` or `"%d"`. A minus sign is outside the model, and fails.
unfoldable pub scan_number : ℕ → ℕ → Cmd Text (Bool × ℕ)
unfolding skip_space scan_digits
scan_number most v s = elim (skip_space s) [
  | [] ↦ some ((false, v), [])
  | c ∷ t ↦
      if c == b'-'
      then none
      else if c == b'+'
      then scan_digits most v t
      else scan_digits most v (c ∷ t)
]

abbrev pub int_max : ℕ
int_max = 2 ^ 31 - 1

abbrev pub uint_max : ℕ
uint_max = 2 ^ 32 - 1

-- `fscanf(f, "%u %u", &index, &size)`
unfoldable pub scan_pair : ℕ → ℕ → Cmd Text (ℕ × ℕ)
unfolding scan_number
scan_pair index size = do
  (ok, i) ← scan_number uint_max index
  if ok then (do (ok', n) ← scan_number uint_max size; pure (i, n)) else pure (i, size)

abbrev pub skip_d : Cmd Text (Unit {0})
skip_d [] = some (tt, [])
skip_d (c ∷ s) = if c == b'd' then some (tt, s) else some (tt, c ∷ s)

-- `fscanf(f, "%ud", &index)`: a `d` right behind the number is read too.
unfoldable pub scan_index : ℕ → Cmd Text ℕ
unfolding scan_number
scan_index index = do (ok, i) ← scan_number uint_max index; (if ok then skip_d else pure tt); pure i

abbrev pub max_of : ℕ → ℕ → ℕ
max_of index most = if ltb most index then index else most

-- The `while` loop, with fuel: the requests, and the largest index of a block that is allocated.
-- `none` is a bogus type character.
unfoldable pub read_ops : ℕ → (index size max_index : ℕ) → Cmd Text (List TraceOp × ℕ)
unfolding scan_word scan_pair scan_index
read_ops zero index size max_index s = none
read_ops (suc k) index size max_index s = elim (scan_word s) [
  | none ↦ some (([], max_index), [])
  | some ([], r) ↦ none
  | some (c ∷ w, r) ↦
      (if c == b'a'
          then (do
            (i, n) ← scan_pair index size
            (ops, m) ← read_ops k i n (max_of i max_index)
            pure (alloc i n ∷ ops, m))
          else if c == b'r'
          then (do
            (i, n) ← scan_pair index size
            (ops, m) ← read_ops k i n (max_of i max_index)
            pure (realloc i n ∷ ops, m))
          else if c == b'f'
          then (do
            i ← scan_index index
            (ops, m) ← read_ops k i size max_index
            pure (free i ∷ ops, m))
          else fault)
        r
]

abbrev pub assert : Bool → Cmd Text (Unit {0})
assert b = if b then pure tt else fault

-- The body of `read_trace`. `old` is what the allocated record holds, and `size` what the variable
-- `size` does, before they are set; `k` is the fuel. An array that is too short for the requests is
-- overrun before the last assertion stops the program.
unfoldable pub read_file : ℕ → Trace → ℕ → Cmd Text Trace
unfolding scan_number read_ops
read_file k old size = do
  (ok, sugg) ← scan_number int_max old.sugg_heapsize
  (ok, ids) ← scan_number int_max old.num_ids
  (ok, count) ← scan_number int_max old.num_ops
  (ok, weight) ← scan_number int_max old.weight
  (ops, max_index) ← read_ops k 0 size 0
  assert (max_index == (ids + 2 ^ 32 - 1) % 2 ^ 32)
  assert (count == length ops)
  pure (record { sugg_heapsize = sugg; num_ids = ids; num_ops = count; weight = weight; ops = ops })

-- `read_trace(tracedir, filename)`, for the text of the file.
unfoldable pub read_trace : Trace → ℕ → Text → Option (Trace × Text)
unfolding read_file
read_trace old size s = read_file (suc (length s)) old size s
