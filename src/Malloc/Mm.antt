-- ===== src/Malloc/Mm.antt =====
-- malloc/lab/mm.c: the allocator, over the memory of Malloc/Memlib.antt. A pointer is its address,
-- and NULL is 0.
pub mod Boundary
use csapp_labs.Base.{
  ℕ, zero, suc, ◌+◌, ◌-◌, ◌*◌, ◌/◌, ◌%◌, ◌^◌, ◌≡◌, refl, Bool, true, false, ◌&&◌, Option, none,
  some, List, [], ◌∷◌, ◌++◌, ltb, leb, ◌==◌, if◌then◌else◌, get_elem?,
}
use csapp_labs.Base.Int.{ℤ, pos}
use csapp_labs.Malloc.Memlib.{
  Heap, M, pure, fault, ◌>>=◌, ◌>>◌, as_int, mem_sbrk, load, store, in_heap, load-then,
}
use csapp_labs.Malloc.Words.{
  wsize, dsize, n_lists, word_mod, align, pack, size_of, alloc_of, hdrp, pred, succ, ftrp, max_size,
  size_class, block_size,
}

-- `GET_SIZE(p)` and `GET_ALLOC(p)`
unfoldable pub get_size : ℕ → M ℕ
get_size p = do w ← load p; pure (size_of w)

unfoldable pub get_alloc : ℕ → M ℕ
get_alloc p = do w ← load p; pure (alloc_of w)

pub get_size-in_heap :
    (h : Heap) (p : ℕ) → in_heap h p ≡ true → get_size p h ≡ some (size_of (h.word p), h)
unfolding get_size
get_size-in_heap h p i = load-then h p _ i refl

-- A value of the whole state, and `heap[i]`.
unfoldable pub get_heap : M Heap
get_heap h = some (h, h)

unfoldable pub list_head : ℕ → M ℕ
list_head i h = elim (get_elem? h.heap i) [ none ↦ none | some p ↦ some (p, h) ]

pub list_head-some :
    (h : Heap) (i p : ℕ) → get_elem? h.heap i ≡ some p → list_head i h ≡ some (p, h)
unfolding list_head
list_head-some h i p e = rw (e, list_head)

abbrev pub or_fault : {A : Type 0} → Option A → M A
or_fault none = fault
or_fault (some a) = pure a

-- `PUT(HDRP(bp), PACK(size, alloc))` and `PUT(FTRP(bp), PACK(size, alloc))`; FTRP reads the header.
unfoldable pub mark : ℕ → ℕ → Bool → M (Unit {0})
unfolding get_size
mark bp size alloc = do
  store (hdrp bp) (pack size alloc)
  s ← get_size (hdrp bp)
  store (ftrp bp s) (pack size alloc)

-- One round of the loop of `mm_init`: the head of a free list, which is an allocated block of 16
-- bytes. `none` stands for -1.
unfoldable pub add_list : M (Option ℕ)
unfolding mem_sbrk
add_list = do
  r ← mem_sbrk (pos (4 * wsize))
  elim r [
    | none ↦ pure none
    | some brk ↦ do
      let tmp = brk - wsize
      store tmp (pack (4 * wsize) true)
      store (tmp + wsize) 0
      store (tmp + dsize) 0
      store (tmp + 3 * wsize) (pack (4 * wsize) true)
      store (tmp + 4 * wsize) (pack 0 true)
      pure (some (tmp + dsize + wsize))
  ]

unfoldable pub push_list : ℕ → M (Unit {0})
push_list p h = some (tt, record h { heap = h.heap ++ (p ∷ []) })

-- The loop of `mm_init`, for the rounds that are left; it returns whether all went well.
unfoldable pub add_lists : ℕ → M Bool
unfolding add_list push_list
add_lists zero = pure true
add_lists (suc n) = do
  r ← add_list
  elim r [ none ↦ pure false | some p ↦ do push_list p; add_lists n ]

unfoldable pub set_start : ℕ → M (Unit {0})
set_start p h = some (tt, record h { heap_start = p; heap = [] })

unfoldable pub mm_init : M Bool
unfolding mem_sbrk add_lists set_start
mm_init = do
  r ← mem_sbrk (pos (6 * wsize))
  elim r [
    | none ↦ pure false
    | some start ↦ do
      set_start start
      store start 0
      store (start + 1 * wsize) (pack (4 * wsize) true)
      store (start + 4 * wsize) (pack (4 * wsize) true)
      store (start + 5 * wsize) (pack 0 true)
      add_lists n_lists
  ]

-- The inner loop of `find_fit`, with fuel: the first block of a free list that is large enough, 0 if
-- there is none.
unfoldable pub find_list : ℕ → ℕ → ℕ → M ℕ
unfolding get_size
find_list zero size now = fault
find_list (suc k) size now = if now == 0 then pure 0 else do
  s ← get_size (hdrp now)
  if leb size s then pure now else do n ← load (succ now); find_list k size n

-- The outer loop, over the lists from the `i`-th on.
unfoldable pub find_lists : ℕ → ℕ → ℕ → List ℕ → M ℕ
unfolding find_list
find_lists k size i [] = pure 0
find_lists k size i (p ∷ ps) =
    if leb size (max_size i)
    then (do
      n ← load (succ p)
      r ← find_list k size n
      if r == 0 then find_lists k size (i + 1) ps else pure r)
    else find_lists k size (i + 1) ps

-- `find_fit(size)`; the blocks of a list are distinct addresses up to the break, so that
-- the fuel is enough (`find_fit-Found`).
unfoldable pub find_fit : ℕ → M ℕ
unfolding find_lists get_heap
find_fit size = do h ← get_heap; find_lists (h.mem_brk + 2) size 0 h.heap

unfoldable pub heap_remove : ℕ → M (Unit {0})
heap_remove bp = do
  p ← load (pred bp)
  s ← load (succ bp)
  if p == 0 then fault else do
    store (succ p) s
    (if s == 0 then pure tt else store (pred s) p)
    store (pred bp) 0
    store (succ bp) 0

unfoldable pub heap_add : ℕ → M (Unit {0})
unfolding get_size list_head size_class
heap_add bp = do
  size ← get_size (hdrp bp)
  i ← or_fault (size_class size)
  head ← list_head i
  nxt ← load (succ head)
  store (succ bp) nxt
  (if nxt == 0 then pure tt else store (pred nxt) bp)
  store (succ head) bp
  store (pred bp) head

-- The two branches of `coalesce`: the block before, if it is free, and the block behind it. Each
-- returns where the block now begins and its size.
unfoldable pub absorb_prev : ℕ → ℕ → ℕ → ℕ → M (ℕ × ℕ)
unfolding get_size heap_remove
absorb_prev bp pre prev_alloc size =
    if prev_alloc == 0
    then (do
      s ← get_size (hdrp pre)
      heap_remove pre
      back ← get_size (bp - 16)
      pure (bp - back, size + s))
    else pure (bp, size)

unfoldable pub absorb_next : ℕ → ℕ → ℕ → M ℕ
unfolding get_size heap_remove
absorb_next nxt next_alloc size =
    if next_alloc == 0
    then (do s ← get_size (hdrp nxt); heap_remove nxt; pure (size + s))
    else pure size

unfoldable pub coalesce : ℕ → M ℕ
unfolding get_size get_alloc absorb_prev absorb_next mark heap_add
coalesce bp = do
  back ← get_size (bp - 16)
  let pre = bp - back
  size ← get_size (hdrp bp)
  let nxt = bp + size
  pre_size ← get_size (hdrp pre)
  prev_alloc ← get_alloc (ftrp pre pre_size)
  next_alloc ← get_alloc (hdrp nxt)
  (bp', size') ← absorb_prev bp pre prev_alloc size
  size'' ← absorb_next nxt next_alloc size'
  mark bp' size'' false
  heap_add bp'
  pure bp'

-- `extend_heap(words)`, 0 if the memory is used up.
unfoldable pub extend_heap : ℕ → M ℕ
unfolding mem_sbrk mark get_size coalesce
extend_heap words = do
  let size = if words % 2 == 0 then words * wsize else (words + 1) * wsize
  r ← mem_sbrk (as_int size)
  elim r [
    | none ↦ pure 0
    | some brk ↦ do
      let bp = brk + dsize
      mark bp size false
      s ← get_size (hdrp bp)
      store (hdrp (bp + s)) (pack 0 true)
      coalesce bp
  ]

unfoldable pub place : ℕ → ℕ → M ℕ
unfolding get_size heap_remove mark coalesce
place bp asize = do
  size ← get_size (hdrp bp)
  heap_remove bp
  let rest = (size + word_mod - asize) % word_mod
  if leb (4 * wsize) rest
      then (do
        mark bp asize true
        s ← get_size (hdrp bp)
        mark (bp + s) rest false
        coalesce (bp + s) >> pure (bp - dsize))
      else (do mark bp size true; pure (bp - dsize))

unfoldable pub mm_malloc : ℕ → M ℕ
unfolding find_fit place extend_heap block_size
mm_malloc size = if size == 0 then pure 0 else do
  let asize = block_size size
  bp ← find_fit asize
  if bp == 0
      then (do new ← extend_heap (asize / wsize); if new == 0 then pure 0 else place new asize)
      else place bp asize

unfoldable pub mm_free : ℕ → M (Unit {0})
unfolding get_size mark coalesce
mm_free p = do
  let bp = p + dsize
  size ← get_size (hdrp bp)
  mark bp size false
  coalesce bp >> pure tt

-- `memcpy(to, from, 4 * n)`, a word at a time.
unfoldable pub copy_words : ℕ → ℕ → ℕ → M (Unit {0})
copy_words zero to from = pure tt
copy_words (suc n) to from = do w ← load from; store to w; copy_words n (to + wsize) (from + wsize)

-- The end of `mm_realloc`: a new block, a copy, and the old block freed.
unfoldable pub move_block : ℕ → ℕ → ℕ → M ℕ
unfolding mm_malloc mm_free copy_words
move_block p size old_size = do
  new ← mm_malloc size
  if new == 0 then pure 0 else do copy_words (old_size / wsize) new p; mm_free p; pure new

-- `mm_realloc` growing the last block of the heap by `d` bytes.
unfoldable pub grow_last : ℕ → ℕ → M ℕ
unfolding mem_sbrk get_size mark
grow_last p d = do
  let bp = p + dsize
  r ← mem_sbrk (as_int (align d))
  elim r [
    | none ↦ pure 0
    | some _ ↦ do
      old ← get_size (hdrp bp)
      mark bp (old + align d) true
      s ← get_size (hdrp bp)
      store (ftrp bp s + wsize) (pack 0 true)
      pure p
  ]

-- `mm_realloc` taking in the free block behind.
unfoldable pub take_next : ℕ → ℕ → M ℕ
unfolding get_size mark heap_remove
take_next p nxt = do
  let bp = p + dsize
  heap_remove nxt
  a ← get_size (hdrp bp)
  b ← get_size (hdrp nxt)
  mark bp (a + b) true
  pure p

unfoldable pub mm_realloc : ℕ → ℕ → M ℕ
unfolding mm_malloc mm_free get_size get_alloc move_block grow_last take_next
mm_realloc p size =
    if p == 0 then mm_malloc size else if size == 0 then (do mm_free p; pure 0) else do
      s ← get_size (hdrp (p + dsize))
      let old_size = (s + word_mod - dsize) % word_mod
      if leb size old_size then pure p else do
        let nxt = p + dsize + s
        next_size ← get_size (hdrp nxt)
        next_alloc ← get_alloc (hdrp nxt)
        if next_size == 0
            then grow_last p (size - old_size)
            else if (next_alloc == 0) && leb size (next_size + old_size)
            then take_next p nxt
            else move_block p size old_size
