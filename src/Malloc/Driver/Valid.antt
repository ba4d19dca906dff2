-- ===== src/Malloc/Driver/Valid.antt =====
-- `eval_mm_valid` of malloc/lab/mdriver.c, which runs a trace on mm.c and checks every payload.
pub mod Checked
use csapp_labs.Base.{
  ℕ, zero, suc, ◌+◌, ◌-◌, ◌%◌, ◌^◌, ◌≡◌, Bool, true, false, Option, none, some, List, [], ◌∷◌, ltb,
  ◌==◌, if◌then◌else◌, min,
}
use csapp_labs.Base.State.{Cmd, pure, ◌>>=◌, ◌>>◌}
use csapp_labs.Malloc.Memlib.{Heap, M, mem_reset_brk}
use csapp_labs.Malloc.Mm.{mm_init, mm_malloc, mm_realloc, mm_free}
use csapp_labs.Malloc.Ranges.{Range, add_range, remove_range, clear_ranges}
use csapp_labs.Malloc.Driver.{
  TraceOp, alloc, realloc, free, Run, call, block, set_block, size_of_block, set_size_of_block,
}
use csapp_labs.Malloc.Driver.Bytes.{memset, same_bytes}

abbrev pub stored : Run Heap → Option (Bool × List Range) → Option (Bool × Run Heap)
stored r none = none
stored r (some (ok, ranges)) = some (ok, record r { ranges = ranges })

-- The calls of `add_range` and `remove_range` in a run. A size that is negative as an `int` fails
-- the assertion of `add_range` like 0.
unfoldable pub add_payload : ℕ → ℕ → Cmd (Run Heap) Bool
add_payload lo size r =
    if ltb size (2 ^ 31) then stored r (add_range r.pkg r.ranges lo size) else none

unfoldable pub remove_payload : ℕ → Cmd (Run Heap) (Unit {0})
remove_payload lo r = some (tt, record r { ranges = remove_range r.ranges lo })

-- The number of bytes that a moved block keeps: its old size, which is none as a negative `int`, or
-- its new one if that is smaller.
abbrev pub kept : ℕ → ℕ → ℕ
kept old size = if ltb old (2 ^ 31) then min old size else 0

-- `memset(p, index & 0xFF, size)`, and the block and its size are stored: the end of two branches.
unfoldable pub mark_block : ℕ → ℕ → ℕ → Cmd (Run Heap) (Unit {0})
unfolding memset
mark_block index p size = do
  call (memset p (index % 256) size)
  set_block index p
  set_size_of_block index size

-- The body of the loop: false where the source returns 0.
unfoldable pub valid_op : TraceOp → Cmd (Run Heap) Bool
unfolding mm_malloc mm_realloc mm_free add_payload remove_payload same_bytes mark_block
valid_op (alloc index size) = do
  p ← call (mm_malloc size)
  if p == 0 then pure false else do
    ok ← add_payload p size
    if ok then (do mark_block index p size; pure true) else pure false
valid_op (realloc index size) = do
  old ← block index
  new ← call (mm_realloc old size)
  if new == 0 then pure false else do
    remove_payload old
    ok ← add_payload new size
    if ok
        then (do
          old_size ← size_of_block index
          same ← call (same_bytes new index (kept old_size size))
          if same then (do mark_block index new size; pure true) else pure false)
        else pure false
valid_op (free index) = do p ← block index; remove_payload p; call (mm_free p); pure true

unfoldable pub valid_ops : List TraceOp → Cmd (Run Heap) Bool
unfolding valid_op
valid_ops [] = pure true
valid_ops (op ∷ ops) = do ok ← valid_op op; if ok then valid_ops ops else pure false

unfoldable pub reset : Cmd (Run Heap) (Unit {0})
unfolding mem_reset_brk
reset r = some (tt, record r { pkg = mem_reset_brk r.pkg })

unfoldable pub forget_ranges : Cmd (Run Heap) (Unit {0})
unfolding clear_ranges
forget_ranges r = some (tt, record r { ranges = clear_ranges r.ranges })

-- `eval_mm_valid(trace, tracenum, ranges)`
unfoldable pub eval_mm_valid : List TraceOp → Cmd (Run Heap) Bool
unfolding reset forget_ranges mm_init valid_ops
eval_mm_valid ops = do
  reset
  forget_ranges
  ok ← call mm_init
  if ok then valid_ops ops else pure false
