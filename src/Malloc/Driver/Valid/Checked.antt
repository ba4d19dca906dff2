-- ===== src/Malloc/Driver/Valid/Checked.antt =====
-- What `eval_mm_valid` of malloc/lab/mdriver.c keeps true of the list of payloads.
use csapp_labs.Base.{
  ℕ, zero, suc, ◌+◌, ◌%◌, ◌^◌, ◌≡◌, refl, Bool, true, false, ◌&&◌, not, Option, none, some, List,
  [], ◌∷◌, ltb, ◌==◌, if◌then◌else◌, arith,
}
use mathlib.Core.Path.{subst}
use csapp_labs.Base.State.{Cmd, pure, ◌>>=◌, ◌>>◌}
use csapp_labs.Malloc.Memlib.{Heap, update, mem_reset_brk}
use csapp_labs.Malloc.Mm.{mm_init, mm_malloc, mm_realloc, mm_free}
use csapp_labs.Malloc.Ranges.{Range, is_aligned, overlaps, add_range, remove_range, clear_ranges}
use csapp_labs.Malloc.Driver.{
  TraceOp, alloc, realloc, free, Run, call, block, set_block, size_of_block, set_size_of_block,
}
use csapp_labs.Malloc.Driver.Bytes.{memset, same_bytes}
use csapp_labs.Malloc.Driver.Valid.{
  stored, add_payload, remove_payload, kept, mark_block, valid_op, valid_ops, eval_mm_valid, reset,
  forget_ranges,
}

-- Every payload of the list is aligned, and neither its first nor its last byte lies in an older one.
abbrev pub checked : List Range → Bool
checked [] = true
checked (q ∷ ps) = (is_aligned q.lo && not (overlaps q.lo q.hi ps)) && checked ps

-- A command after which this still holds.
abbrev pub AfterOk : {A : Type 0} → Option (A × Run Heap) → Type 0
AfterOk none = Unit
AfterOk (some (a, r)) = checked r.ranges ≡ true

pub record Keeps {A : Type 0} (m : Cmd (Run Heap) A) : Type 0 where
  pub after : (r : Run Heap) → checked r.ranges ≡ true → AfterOk (m r)

then_keeps :
    {A B : Type 0} (o : Option (A × Run Heap)) (f : A → Cmd (Run Heap) B)
    → AfterOk o
    → ((a : A) → Keeps (f a))
    → AfterOk (elim o [ none ↦ none | some (a, r) ↦ f a r ])
then_keeps none f h k = tt
then_keeps (some (a, r)) f h k = (k a).after r h

bind-Keeps :
    {A B : Type 0} (m : Cmd (Run Heap) A) (f : A → Cmd (Run Heap) B)
    → Keeps m
    → ((a : A) → Keeps (f a))
    → Keeps (m >>= f)
bind-Keeps m f h k = record { after = λ r c. then_keeps (m r) f (h.after r c) k }

pure-Keeps : {A : Type 0} (a : A) → Keeps (pure a)
pure-Keeps a = record { after = λ r c. c }

if-Keeps :
    {A : Type 0} (b : Bool) (m n : Cmd (Run Heap) A)
    → Keeps m
    → Keeps n
    → Keeps (if b then m else n)
if-Keeps true m n h k = h
if-Keeps false m n h k = k

called :
    {A : Type 0} (o : Option (A × Heap)) (r : Run Heap)
    → checked r.ranges ≡ true
    → AfterOk (elim o [ none ↦ none | some (a, s) ↦ some (a, record r { pkg = s }) ])
called none r c = tt
called (some (a, s)) r c = c

call-Keeps : {A : Type 0} (m : Cmd Heap A) → Keeps (call m)
call-Keeps m = record { after = λ r c. called (m r.pkg) r c }

guarded :
    {A : Type 0} (b : Bool) (o : Option (A × Run Heap))
    → AfterOk o
    → AfterOk (if b then o else none)
guarded true o h = h
guarded false o h = tt

block-Keeps : (index : ℕ) → Keeps (block index)
block-Keeps index = record {
  after = λ r c. guarded (ltb index r.num_ids) (some (r.blocks index, r)) c;
}

set_block-Keeps : (index p : ℕ) → Keeps (set_block index p)
set_block-Keeps index p = record {
  after = λ r c.
      guarded (ltb index r.num_ids) (some (tt, record r { blocks = update r.blocks index p })) c;
}

set_size_of_block-Keeps : (index n : ℕ) → Keeps (set_size_of_block index n)
set_size_of_block-Keeps index n = record {
  after = λ r c.
      guarded (ltb index r.num_ids)
        (some (tt, record r { block_sizes = update r.block_sizes index n })) c;
}

size_of_block-Keeps : (index : ℕ) → Keeps (size_of_block index)
size_of_block-Keeps index = record {
  after = λ r c. guarded (ltb index r.num_ids) (some (r.block_sizes index, r)) c;
}

overlaps-remove :
    (lo hi p : ℕ) (ps : List Range)
    → overlaps lo hi ps ≡ false
    → overlaps lo hi (remove_range ps p) ≡ false
unfolding remove_range
overlaps-remove lo hi p [] e = refl
overlaps-remove lo hi p (q ∷ ps) e = ground (arith, overlaps-remove lo hi p ps)

checked-remove : (p : ℕ) (ps : List Range) → checked ps ≡ true → checked (remove_range ps p) ≡ true
unfolding remove_range
checked-remove p [] e = refl
checked-remove p (q ∷ ps) e = ground (arith, checked-remove p ps, overlaps-remove q.lo q.hi p ps)

remove_payload-Keeps : (p : ℕ) → Keeps (remove_payload p)
unfolding remove_payload
remove_payload-Keeps p = record { after = λ r c. checked-remove p r.ranges c }

stored_Ok :
    (r : Run Heap) (aligned out over : Bool) (q : Range)
    → checked r.ranges ≡ true
    → (aligned ≡ true → over ≡ false → checked (q ∷ r.ranges) ≡ true)
    → AfterOk (
        stored r (
          if not aligned
          then some (false, r.ranges)
          else if out
          then some (false, r.ranges)
          else if over
          then some (false, r.ranges)
          else some (true, q ∷ r.ranges)))
stored_Ok r false out over q c k = c
stored_Ok r true true over q c k = c
stored_Ok r true false true q c k = c
stored_Ok r true false false q c k = k refl refl

added :
    (r : Run Heap) (lo n : ℕ)
    → checked r.ranges ≡ true
    → AfterOk (stored r (add_range r.pkg r.ranges lo n))
unfolding add_range
added r lo zero c = tt
added r lo (suc n) c =
    stored_Ok r (is_aligned lo) _ (overlaps lo ((lo + n) % 2 ^ 32) r.ranges)
      (record { lo = lo; hi = (lo + n) % 2 ^ 32 }) c (λ a o. rw (a, o, c) refl)

add_payload-Keeps : (lo n : ℕ) → Keeps (add_payload lo n)
unfolding add_payload
add_payload-Keeps lo n = record {
  after =
      λ r c. guarded (ltb n (2 ^ 31)) (stored r (add_range r.pkg r.ranges lo n)) (added r lo n c);
}

mark_block-Keeps : (index p n : ℕ) → Keeps (mark_block index p n)
unfolding mark_block
mark_block-Keeps index p n =
    bind-Keeps (call (memset p (index % 256) n))
      (λ _. set_block index p >> set_size_of_block index n) (call-Keeps (memset p (index % 256) n))
      (λ _.
        bind-Keeps (set_block index p) (λ _. set_size_of_block index n) (set_block-Keeps index p)
          (λ _. set_size_of_block-Keeps index n))

-- The end of the branches that take a payload.
marked-Keeps : (index p n : ℕ) → Keeps (do mark_block index p n; pure true)
marked-Keeps index p n =
    bind-Keeps (mark_block index p n) (λ _. pure true) (mark_block-Keeps index p n)
      (λ _. pure-Keeps true)

compared-Keeps :
    (index new size : ℕ)
    → Keeps (do
      old_size ← size_of_block index
      same ← call (same_bytes new index (kept old_size size))
      if same then (do mark_block index new size; pure true) else pure false)
compared-Keeps index new size = bind-Keeps _ _ (size_of_block-Keeps index) (λ old_size.
    bind-Keeps _ _ (call-Keeps (same_bytes new index (kept old_size size)))
      (λ same. if-Keeps same _ _ (marked-Keeps index new size) (pure-Keeps false)))

valid_op-Keeps : (op : TraceOp) → Keeps (valid_op op)
unfolding valid_op
valid_op-Keeps (alloc index size) = bind-Keeps _ _ (call-Keeps (mm_malloc size)) (λ p.
    if-Keeps (p == 0) _ _ (pure-Keeps false) (
      bind-Keeps _ _ (add_payload-Keeps p size)
        (λ ok. if-Keeps ok _ _ (marked-Keeps index p size) (pure-Keeps false))))
valid_op-Keeps (realloc index size) = bind-Keeps _ _ (block-Keeps index) (λ old.
    bind-Keeps _ _ (call-Keeps (mm_realloc old size)) (λ new.
      if-Keeps (new == 0) _ _ (pure-Keeps false) (
        bind-Keeps _ _ (remove_payload-Keeps old) (λ _.
          bind-Keeps _ _ (add_payload-Keeps new size)
            (λ ok. if-Keeps ok _ _ (compared-Keeps index new size) (pure-Keeps false))))))
valid_op-Keeps (free index) = bind-Keeps _ _ (block-Keeps index) (λ p.
    bind-Keeps _ _ (remove_payload-Keeps p)
      (λ _. bind-Keeps _ _ (call-Keeps (mm_free p)) (λ _. pure-Keeps true)))

valid_ops-Keeps : (ops : List TraceOp) → Keeps (valid_ops ops)
unfolding valid_ops
valid_ops-Keeps [] = pure-Keeps true
valid_ops-Keeps (op ∷ ops) =
    bind-Keeps _ _ (valid_op-Keeps op)
      (λ ok. if-Keeps ok _ _ (valid_ops-Keeps ops) (pure-Keeps false))

checked-clear : (ps : List Range) → checked (clear_ranges ps) ≡ true
unfolding clear_ranges
checked-clear [] = refl
checked-clear (p ∷ ps) = checked-clear ps

eval_mm_valid-after : (ops : List TraceOp) (r : Run Heap) → AfterOk (eval_mm_valid ops r)
unfolding eval_mm_valid reset forget_ranges
eval_mm_valid-after ops r =
    let k : Keeps (do ok ← call mm_init; if ok then valid_ops ops else pure false) =
      bind-Keeps _ _ (call-Keeps mm_init)
        (λ ok. if-Keeps ok _ _ (valid_ops-Keeps ops) (pure-Keeps false)) in
    k.after (record r { pkg = mem_reset_brk r.pkg; ranges = clear_ranges r.ranges })
      (checked-clear r.ranges)

-- Whatever mm.c returns, and whichever list a run starts with: when `eval_mm_valid` returns, with 1 or
-- with 0, each payload of its list is aligned, and neither its first nor its last byte lies in a
-- payload that was added before it.
pub eval_mm_valid-checked :
    (ops : List TraceOp) (r r' : Run Heap) (ok : Bool)
    → eval_mm_valid ops r ≡ some (ok, r')
    → checked r'.ranges ≡ true
eval_mm_valid-checked ops r r' ok e = subst AfterOk e (eval_mm_valid-after ops r)
