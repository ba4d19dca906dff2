-- ===== src/Malloc/Driver/Runs.antt =====
-- The runs of malloc/lab/mdriver.c that do not check the payloads: the space that mm.c needs, and the
-- runs that are timed or only have to end, on any package.
pub mod Live
pub mod HighWater
use csapp_labs.Base.{ℕ, ◌+◌, ◌-◌, ◌%◌, ◌^◌, Bool, true, some, List, [], ◌∷◌, ◌==◌, if◌then◌else◌}
use csapp_labs.Base.Int.{ltb_ℤ}
use csapp_labs.Base.State.{Cmd, pure, fault, ◌>>=◌, ◌>>◌}
use csapp_labs.Malloc.Memlib.{Heap, as_int, mem_heapsize}
use csapp_labs.Malloc.Mm.{mm_init, mm_malloc, mm_realloc, mm_free}
use csapp_labs.Malloc.Driver.{
  TraceOp, alloc, realloc, free, Allocator, mm, Run, call, block, set_block, size_of_block,
  set_size_of_block,
}
use csapp_labs.Malloc.Driver.Valid.{reset}

-- `(a > b) ? a : b` for two `int`s, which are kept as words.
abbrev pub max_int : ℕ → ℕ → ℕ
max_int a b = if ltb_ℤ (as_int b) (as_int a) then a else b

-- The loop of `eval_mm_util`, for `total_size` and `max_total_size`: the last value of the latter.
unfoldable pub util_ops : ℕ → ℕ → List TraceOp → Cmd (Run Heap) ℕ
unfolding mm_malloc mm_realloc mm_free
util_ops total most [] = pure most
util_ops total most (alloc index size ∷ ops) = do
  p ← call (mm_malloc size)
  if p == 0 then fault else do
    set_block index p
    set_size_of_block index size
    let total' = (total + size) % 2 ^ 32
    util_ops total' (max_int total' most) ops
util_ops total most (realloc index size ∷ ops) = do
  old_size ← size_of_block index
  old ← block index
  new ← call (mm_realloc old size)
  if new == 0 then fault else do
    set_block index new
    set_size_of_block index size
    let total' = (total + (size + (2 ^ 32 - old_size))) % 2 ^ 32
    util_ops total' (max_int total' most) ops
util_ops total most (free index ∷ ops) = do
  size ← size_of_block index
  p ← block index
  call (mm_free p)
  util_ops ((total + (2 ^ 32 - size)) % 2 ^ 32) most ops

-- `eval_mm_util(trace, tracenum, ranges)`: the two numbers of which it returns the quotient.
unfoldable pub eval_mm_util : List TraceOp → Cmd (Run Heap) (ℕ × ℕ)
unfolding reset mm_init util_ops
eval_mm_util ops = do
  reset
  ok ← call mm_init
  if ok then (do most ← util_ops 0 0 ops; λ r. some ((most, mem_heapsize r.pkg), r)) else fault

module _ (pkg : Allocator) where
  -- The loops of `eval_mm_speed` and `eval_libc_speed`. A request that fails ends the program.
  unfoldable pub speed_ops : List TraceOp → Cmd (Run pkg.State) (Unit {0})
  speed_ops [] = pure tt
  speed_ops (alloc index size ∷ ops) = do
    p ← call (pkg.malloc size)
    if p == 0 then fault else do set_block index p; speed_ops ops
  speed_ops (realloc index size ∷ ops) = do
    old ← block index
    new ← call (pkg.realloc old size)
    if new == 0 then fault else do set_block index new; speed_ops ops
  speed_ops (free index ∷ ops) = do p ← block index; call (pkg.free p); speed_ops ops

  -- `eval_libc_speed`, for the `malloc` of the C library.
  unfoldable pub eval_libc_speed : List TraceOp → Cmd (Run pkg.State) (Unit {0})
  unfolding speed_ops
  eval_libc_speed ops = speed_ops ops

  -- `eval_libc_valid(trace, tracenum)`
  unfoldable pub eval_libc_valid : List TraceOp → Cmd (Run pkg.State) Bool
  unfolding speed_ops
  eval_libc_valid ops = do speed_ops ops; pure true

-- `eval_mm_speed(ptr)`
unfoldable pub eval_mm_speed : List TraceOp → Cmd (Run Heap) (Unit {0})
unfolding reset mm_init speed_ops mm_malloc mm_realloc mm_free
eval_mm_speed ops = do reset; ok ← call mm_init; if ok then speed_ops mm ops else fault
