-- ===== src/Malloc/Driver.antt =====
-- malloc/lab/mdriver.c: traces of requests, and the allocators that they are run on.
pub mod Reading
pub mod Bytes
pub mod Valid
pub mod Runs
mod Tests
use csapp_labs.Base.{ℕ, ◌≡◌, Bool, none, some, List, ltb, if◌then◌else◌}
use csapp_labs.Base.State.{Cmd}
use csapp_labs.Malloc.Memlib.{Heap, update}
use csapp_labs.Malloc.Ranges.{Range}
use csapp_labs.Malloc.Mm.{mm_malloc, mm_realloc, mm_free}

-- `traceop_t`; the size of a FREE request is not set.
pub data TraceOp : Type 0 where
  alloc : (index size : ℕ) → TraceOp
  realloc : (index size : ℕ) → TraceOp
  free : (index : ℕ) → TraceOp

-- `trace_t`, without the arrays that a run fills in.
pub record Trace : Type 0 where
  pub sugg_heapsize : ℕ
  pub num_ids : ℕ
  pub num_ops : ℕ
  pub weight : ℕ
  pub ops : List TraceOp

-- A package of `malloc`, `realloc` and `free`, over its own state; a call can fail to return.
pub record Allocator : Type 1 where
  pub State : Type 0
  pub malloc : ℕ → Cmd State ℕ
  pub realloc : ℕ → ℕ → Cmd State ℕ
  pub free : ℕ → Cmd State (Unit {0})

-- The package of mm.c.
abbrev pub mm : Allocator
mm = record { State = Heap; malloc = mm_malloc; realloc = mm_realloc; free = mm_free }

-- What the run of a trace changes: the state of the package, the list of payloads, and the arrays
-- `blocks` and `block_sizes` of `num_ids` places.
pub record Run (S : Type 0) : Type 0 where
  pub pkg : S
  pub ranges : List Range
  pub num_ids : ℕ
  pub blocks : ℕ → ℕ
  pub block_sizes : ℕ → ℕ

-- A call of the package.
abbrev pub call : {S A : Type 0} → Cmd S A → Cmd (Run S) A
call m r = elim (m r.pkg) [ none ↦ none | some (a, s) ↦ some (a, record r { pkg = s }) ]

-- The places of the arrays. An index out of bounds fails.
abbrev pub block : {S : Type 0} → ℕ → Cmd (Run S) ℕ
block index r = if ltb index r.num_ids then some (r.blocks index, r) else none

abbrev pub set_block : {S : Type 0} → ℕ → ℕ → Cmd (Run S) (Unit {0})
set_block index p r =
    if ltb index r.num_ids then some (tt, record r { blocks = update r.blocks index p }) else none

abbrev pub size_of_block : {S : Type 0} → ℕ → Cmd (Run S) ℕ
size_of_block index r = if ltb index r.num_ids then some (r.block_sizes index, r) else none

abbrev pub set_size_of_block : {S : Type 0} → ℕ → ℕ → Cmd (Run S) (Unit {0})
set_size_of_block index size r =
    if ltb index r.num_ids
    then some (tt, record r { block_sizes = update r.block_sizes index size })
    else none
