-- ===== src/Malloc/Driver/Tests.antt =====
-- The driver run on a concrete trace.
use csapp_labs.Base.{
  ℕ, ◌+◌, ◌*◌, ◌^◌, ◌≡◌, refl, Bool, true, false, Option, none, some, [], ◌∷◌, arith,
}
use csapp_labs.Base.State.{◌>>◌}
use csapp_labs.Malloc.Memlib.{mem_heapsize, Heap, load, store}
use csapp_labs.Malloc.Ranges.{add_range, remove_range}
use csapp_labs.Malloc.Driver.{alloc, realloc, free, Trace, Run}
use csapp_labs.Malloc.Driver.Reading.{read_trace}
use csapp_labs.Malloc.Driver.Reading.RoundTrip.{write_trace, read_trace-write_trace}
use csapp_labs.Malloc.Driver.Bytes.{memset, same_bytes, store_byte}
use csapp_labs.Malloc.Driver.Bytes.Marks.{filled, same_bytes-memset}
use csapp_labs.Malloc.Driver.Valid.{eval_mm_valid}
use csapp_labs.Malloc.Driver.Valid.Checked.{checked, eval_mm_valid-checked}
use csapp_labs.Malloc.Driver.Runs.Live.{high_water}
use csapp_labs.Malloc.Driver.Runs.HighWater.{eval_mm_util-high_water}
use csapp_labs.Malloc.Driver.Runs.{eval_mm_util}

abbrev trace : Trace
trace = record {
  sugg_heapsize = 200;
  num_ids = 2;
  num_ops = 4;
  weight = 1;
  ops = alloc 0 40 ∷ alloc 1 24 ∷ realloc 0 60 ∷ free 1 ∷ [];
}

abbrev blank : Trace
blank = record { sugg_heapsize = 0; num_ids = 0; num_ops = 0; weight = 0; ops = [] }

read_trace-write_trace_example : read_trace blank 0 (write_trace trace) ≡ some (trace, [])
read_trace-write_trace_example =
    read_trace-write_trace blank trace 0 (omega arith) (omega arith) (omega arith) (omega arith)
      refl refl refl

abbrev heap : Heap
heap = record {
  mem_start_brk = 4096;
  mem_brk = 4096;
  mem_max_addr = 4096 + 20 * 2 ^ 20;
  word = λ a. 0;
  heap_start = 0;
  heap = [];
}

abbrev start : Run Heap
start = record { pkg = heap; ranges = []; num_ids = 2; blocks = λ i. 0; block_sizes = λ i. 0 }

result : {A : Type 0} → Option (A × Run Heap) → Option A
result none = none
result (some (a, r)) = some a

passes : result (eval_mm_valid trace.ops start) ≡ some true
unfolding result eval_mm_valid store load add_range store_byte remove_range
passes = refl

space : result (eval_mm_util trace.ops start) ≡ some (84, 576)
unfolding result eval_mm_util store load
space = refl

last : Option (Bool × Run Heap) → Run Heap
last none = start
last (some (ok, r)) = r

returns : eval_mm_valid trace.ops start ≡ some (true, last (eval_mm_valid trace.ops start))
unfolding last eval_mm_valid store load add_range store_byte remove_range
returns = refl

eval_mm_valid-checked_example : checked (last (eval_mm_valid trace.ops start)).ranges ≡ true
eval_mm_valid-checked_example =
    eval_mm_valid-checked trace.ops start (last (eval_mm_valid trace.ops start)) true returns

-- Block 200 is marked with the byte 200.
same_bytes-memset_example :
    (memset 4096 200 3 >> same_bytes 4096 200 3) (record heap { mem_brk = 4200 })
    ≡ some (false, filled (record heap { mem_brk = 4200 }) 4096 200 3)
same_bytes-memset_example =
    same_bytes-memset (record heap { mem_brk = 4200 }) 4096 200 3 (omega arith) (omega arith)
      (omega arith)

last_of_two : Option ((ℕ × ℕ) × Run Heap) → Run Heap
last_of_two none = start
last_of_two (some (p, r)) = r

measures :
    eval_mm_util trace.ops start ≡ some ((84, 576), last_of_two (eval_mm_util trace.ops start))
unfolding last_of_two eval_mm_util store load
measures = refl

eval_mm_util-high_water_example :
    (84 ≡ high_water 0 [] trace.ops)
    × (576 ≡ mem_heapsize (last_of_two (eval_mm_util trace.ops start)).pkg)
eval_mm_util-high_water_example =
    eval_mm_util-high_water trace.ops start (last_of_two (eval_mm_util trace.ops start)) 84 576 refl
      measures
