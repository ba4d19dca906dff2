-- ===== src/Malloc/Memlib.antt =====
-- malloc/lab/memlib.c: the simulated memory, and the commands that read and write it.
pub mod Bounds
use csapp_labs.Base.{
  ℕ, suc, ◌+◌, ◌-◌, ◌*◌, ◌^◌, ◌≡◌, Bool, true, false, ◌&&◌, Option, none, some, List, [], ltb, leb,
  ◌==◌, if◌then◌else◌,
}
use csapp_labs.Base.State.{Cmd}
pub use csapp_labs.Base.State.{pure, fault, ◌>>=◌, ◌>>◌, bind-some}
use csapp_labs.Base.Int.{ℤ, pos, negsuc}

-- The variables of memlib.c and of mm.c, and the contents of the memory: `word a` is the 32-bit
-- word at address `a`. Every access of mm.c is to a word at a multiple of 4.
pub record Heap : Type 0 where
  pub mem_start_brk : ℕ
  pub mem_brk : ℕ
  pub mem_max_addr : ℕ
  pub word : ℕ → ℕ
  pub heap_start : ℕ
  pub heap : List ℕ

-- A command changes the memory and returns, or ends the program: `none` is a failed assertion, an
-- access outside the heap, or a loop that ran out of fuel.
abbrev pub M : Type 0 → Type 0
M A = Cmd Heap A

-- `malloc(MAX_HEAP)` has returned `base`.
abbrev pub max_heap : ℕ
max_heap = 20 * 2 ^ 20

unfoldable pub mem_init : ℕ → (ℕ → ℕ) → Heap
mem_init base word = record {
  mem_start_brk = base;
  mem_brk = base;
  mem_max_addr = base + max_heap;
  word = word;
  heap_start = 0;
  heap = [];
}

unfoldable pub mem_reset_brk : Heap → Heap
mem_reset_brk h = record h { mem_brk = h.mem_start_brk }

-- A `size_t` that is passed as an `int`.
abbrev pub as_int : ℕ → ℤ
as_int n = if ltb n (2 ^ 31) then pos n else negsuc (2 ^ 32 - n - 1)

-- `mem_sbrk(incr)`: the old break, or `none` for (void *)-1.
unfoldable pub mem_sbrk : ℤ → M (Option ℕ)
mem_sbrk (negsuc n) h = some (none, h)
mem_sbrk (pos n) h =
    if ltb h.mem_max_addr (h.mem_brk + n)
    then some (none, h)
    else some (some h.mem_brk, record h { mem_brk = h.mem_brk + n })

abbrev pub mem_heap_lo : Heap → ℕ
mem_heap_lo h = h.mem_start_brk

abbrev pub mem_heap_hi : Heap → ℕ
mem_heap_hi h = h.mem_brk - 1

abbrev pub mem_heapsize : Heap → ℕ
mem_heapsize h = h.mem_brk - h.mem_start_brk

-- The word at `p` lies between the start of the heap and the break.
abbrev pub in_heap : Heap → ℕ → Bool
in_heap h p = leb h.mem_start_brk p && leb (p + 4) h.mem_brk

abbrev pub update : (ℕ → ℕ) → ℕ → ℕ → ℕ → ℕ
update f p v a = if a == p then v else f a

-- `GET(p)` and `PUT(p, v)`. An address below 0 in the source is 0 here, which is in no heap either.
unfoldable pub load : ℕ → M ℕ
load p h = if in_heap h p then some (h.word p, h) else none

unfoldable pub store : ℕ → ℕ → M (Unit {0})
store p v h = if in_heap h p then some (tt, record h { word = update h.word p v }) else none

pub load-in_heap : (h : Heap) (p : ℕ) → in_heap h p ≡ true → load p h ≡ some (h.word p, h)
unfolding load
load-in_heap h p e = rw e

-- The heap after a store.
abbrev pub stored : Heap → ℕ → ℕ → Heap
stored h p v = record h { word = update h.word p v }

pub store-in_heap :
    (h : Heap) (p v : ℕ) → in_heap h p ≡ true → store p v h ≡ some (tt, stored h p v)
unfolding store
store-in_heap h p v e = rw e

pub load-then :
    {B : Type 0} (h : Heap) (p : ℕ) (f : ℕ → M B) {r : Option (B × Heap)}
    → in_heap h p ≡ true
    → f (h.word p) h ≡ r
    → (load p >>= f) h ≡ r
load-then h p f i k = bind-some (load p) f h h (h.word p) (load-in_heap h p i) k

pub store-then :
    {B : Type 0} (h : Heap) (p v : ℕ) (f : M B) {r : Option (B × Heap)}
    → in_heap h p ≡ true
    → f (stored h p v) ≡ r
    → (store p v >> f) h ≡ r
store-then h p v f i k =
    bind-some (store p v) (λ _. f) h (stored h p v) tt (store-in_heap h p v i) k
