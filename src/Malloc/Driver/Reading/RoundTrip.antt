-- ===== src/Malloc/Driver/Reading/RoundTrip.antt =====
-- A trace that is written as text is read back.
use csapp_labs.Base.{
  ℕ, zero, suc, ◌+◌, ◌-◌, ◌%◌, ◌^◌, ◌<◌, ◌≤◌, ◌≡◌, refl, ap, ◌∙◌, sym, Bool, true, false, ◌&&◌,
  ◌||◌, some, List, [], ◌∷◌, ◌++◌, ◌==◌, leb, arith, length, length-append, min,
}
use csapp_labs.Base.Text.{Text}
use csapp_labs.Base.State.{bind-some}
use csapp_labs.Base.Strings.{skip_space}
use csapp_labs.Base.Decimal.{
  is_digit, read_digits, write_decimal, read_digits-write_decimal, write_decimal-first,
}
use csapp_labs.Malloc.Driver.{TraceOp, alloc, realloc, free, Trace}
use csapp_labs.Malloc.Driver.Reading.{
  scan_digits, scan_number, scan_pair, scan_index, read_ops, read_trace, max_of, int_max, uint_max,
}

abbrev is_gap : ℕ → Bool
is_gap c = (c == 32) || (c == 10)

skip_space-digit : (b : ℕ) (s : Text) → is_digit b ≡ true → skip_space (b ∷ s) ≡ b ∷ s
unfolding skip_space
skip_space-digit b s h = ground arith

skip_space-gap : (c : ℕ) (s : Text) → is_gap c ≡ true → skip_space (c ∷ s) ≡ skip_space s
unfolding skip_space
skip_space-gap c s h = ground arith

scan_digits-some :
    (most v n b : ℕ) (s r : Text)
    → n ≤ most
    → is_digit b ≡ true
    → read_digits 0 (b ∷ s) ≡ (n, r)
    → scan_digits most v (b ∷ s) ≡ some ((true, n), r)
unfolding scan_digits
scan_digits-some most v n b s r m g e =
    let small : min n most ≡ n = omega arith in rw (scan_digits, e, g, small) refl

scan_number-digit :
    (most v b : ℕ) (t s : Text)
    → skip_space t ≡ b ∷ s
    → is_digit b ≡ true
    → scan_number most v t ≡ scan_digits most v (b ∷ s)
unfolding scan_number
scan_number-digit most v b t s e g =
    let minus : (b == b'-') ≡ false = ground arith in
    let plus : (b == b'+') ≡ false = ground arith in rw (scan_number, e, minus, plus) refl

-- A number, behind what is skipped, and in front of a byte `d` that is no digit.
scan_number-skipped :
    (most v n d : ℕ) (t s : Text)
    → n ≤ most
    → is_digit d ≡ false
    → skip_space t ≡ skip_space (write_decimal n ++ (d ∷ s))
    → scan_number most v t ≡ some ((true, n), d ∷ s)
scan_number-skipped most v n d t s m e k =
    let (b, u, w, g) = write_decimal-first n in
    let read : read_digits 0 (b ∷ (u ++ (d ∷ s))) ≡ (n, d ∷ s) =
      ap (λ u. read_digits 0 (u ++ (d ∷ s))) (sym w) ∙ read_digits-write_decimal n d s e in
    let skip : skip_space t ≡ b ∷ (u ++ (d ∷ s)) =
      k ∙ ap (λ u. skip_space (u ++ (d ∷ s))) w ∙ skip_space-digit b (u ++ (d ∷ s)) g in
    scan_number-digit most v b t (u ++ (d ∷ s)) skip g
    ∙ scan_digits-some most v n b (u ++ (d ∷ s)) (d ∷ s) m g read

scan_number-write_decimal :
    (most v n c d : ℕ) (s : Text)
    → n ≤ most
    → is_gap c ≡ true
    → is_digit d ≡ false
    → scan_number most v (c ∷ (write_decimal n ++ (d ∷ s))) ≡ some ((true, n), d ∷ s)
scan_number-write_decimal most v n c d s m sp e =
    scan_number-skipped most v n d (c ∷ (write_decimal n ++ (d ∷ s))) s m e
      (skip_space-gap c (write_decimal n ++ (d ∷ s)) sp)

-- A request as a line, from its letter on, in front of the rest of the file.
abbrev pub write_op : TraceOp → Text → Text
write_op (alloc i n) s = b'a' ∷ 32 ∷ (write_decimal i ++ (32 ∷ (write_decimal n ++ (10 ∷ s))))
write_op (realloc i n) s = b'r' ∷ 32 ∷ (write_decimal i ++ (32 ∷ (write_decimal n ++ (10 ∷ s))))
write_op (free i) s = b'f' ∷ 32 ∷ (write_decimal i ++ (10 ∷ s))

abbrev pub write_ops : List TraceOp → Text
write_ops [] = []
write_ops (o ∷ os) = write_op o (write_ops os)

abbrev pub fits_op : TraceOp → Bool
fits_op (alloc i n) = leb i uint_max && leb n uint_max
fits_op (realloc i n) = leb i uint_max && leb n uint_max
fits_op (free i) = leb i uint_max

abbrev pub all_fit : List TraceOp → Bool
all_fit [] = true
all_fit (o ∷ os) = fits_op o && all_fit os

-- The largest index of a request that allocates, and `most`.
abbrev pub max_index : List TraceOp → ℕ → ℕ
max_index [] most = most
max_index (alloc i n ∷ os) most = max_index os (max_of i most)
max_index (realloc i n ∷ os) most = max_index os (max_of i most)
max_index (free i ∷ os) most = max_index os most

scan_pair-write :
    (index size i n : ℕ) (s : Text)
    → i ≤ uint_max
    → n ≤ uint_max
    → scan_pair index size (32 ∷ (write_decimal i ++ (32 ∷ (write_decimal n ++ (10 ∷ s)))))
      ≡ some ((i, n), 10 ∷ s)
unfolding scan_pair
scan_pair-write index size i n s h k =
    bind-some (scan_number uint_max index) _
      (32 ∷ (write_decimal i ++ (32 ∷ (write_decimal n ++ (10 ∷ s)))))
      (32 ∷ (write_decimal n ++ (10 ∷ s))) (true, i)
      (scan_number-write_decimal uint_max index i 32 32 (write_decimal n ++ (10 ∷ s)) h refl refl)
      (bind-some (scan_number uint_max size) _ (32 ∷ (write_decimal n ++ (10 ∷ s))) (10 ∷ s)
        (true, n) (scan_number-write_decimal uint_max size n 32 10 s k refl refl) refl)

scan_index-write :
    (index i : ℕ) (s : Text)
    → i ≤ uint_max
    → scan_index index (32 ∷ (write_decimal i ++ (10 ∷ s))) ≡ some (i, 10 ∷ s)
unfolding scan_index
scan_index-write index i s h =
    bind-some (scan_number uint_max index) _ (32 ∷ (write_decimal i ++ (10 ∷ s))) (10 ∷ s) (true, i)
      (scan_number-write_decimal uint_max index i 32 10 s h refl refl) refl

read_ops-write_ops :
    (k index size most : ℕ) (os : List TraceOp)
    → length os < k
    → all_fit os ≡ true
    → read_ops k index size most (10 ∷ write_ops os) ≡ some ((os, max_index os most), [])
unfolding read_ops
read_ops-write_ops zero index size most os h f = absurd (omega arith)
read_ops-write_ops (suc k) index size most [] h f = refl
read_ops-write_ops (suc k) index size most (alloc i n ∷ os) h f =
    bind-some (scan_pair index size) _
      (32 ∷ (write_decimal i ++ (32 ∷ (write_decimal n ++ (10 ∷ write_ops os)))))
      (10 ∷ write_ops os) (i, n)
      (scan_pair-write index size i n (write_ops os) (ground arith) (ground arith))
      (bind-some (read_ops k i n (max_of i most)) _ (10 ∷ write_ops os) []
        (os, max_index os (max_of i most))
        (read_ops-write_ops k i n (max_of i most) os (omega arith) (ground arith)) refl)
read_ops-write_ops (suc k) index size most (realloc i n ∷ os) h f =
    bind-some (scan_pair index size) _
      (32 ∷ (write_decimal i ++ (32 ∷ (write_decimal n ++ (10 ∷ write_ops os)))))
      (10 ∷ write_ops os) (i, n)
      (scan_pair-write index size i n (write_ops os) (ground arith) (ground arith))
      (bind-some (read_ops k i n (max_of i most)) _ (10 ∷ write_ops os) []
        (os, max_index os (max_of i most))
        (read_ops-write_ops k i n (max_of i most) os (omega arith) (ground arith)) refl)
read_ops-write_ops (suc k) index size most (free i ∷ os) h f =
    bind-some (scan_index index) _ (32 ∷ (write_decimal i ++ (10 ∷ write_ops os)))
      (10 ∷ write_ops os) i (scan_index-write index i (write_ops os) (ground arith))
      (bind-some (read_ops k i size most) _ (10 ∷ write_ops os) [] (os, max_index os most)
        (read_ops-write_ops k i size most os (omega arith) (ground arith)) refl)

-- A trace as a file: the four numbers of the header and the requests, a line each.
abbrev pub write_trace : Trace → Text
write_trace t =
    write_decimal t.sugg_heapsize
    ++ (10
        ∷ (write_decimal t.num_ids
            ++ (10
                ∷ (write_decimal t.num_ops
                    ++ (10 ∷ (write_decimal t.weight ++ (10 ∷ write_ops t.ops)))))))

length-le-op : (o : TraceOp) (s : Text) → length s + 1 ≤ length (write_op o s)
length-le-op (alloc i n) s = omega (
  arith,
  length-append (write_decimal i) (32 ∷ (write_decimal n ++ (10 ∷ s))),
  length-append (write_decimal n) (10 ∷ s),
)
length-le-op (realloc i n) s = omega (
  arith,
  length-append (write_decimal i) (32 ∷ (write_decimal n ++ (10 ∷ s))),
  length-append (write_decimal n) (10 ∷ s),
)
length-le-op (free i) s = omega (arith, length-append (write_decimal i) (10 ∷ s))

length-le-ops : (os : List TraceOp) → length os ≤ length (write_ops os)
length-le-ops [] = omega arith
length-le-ops (o ∷ os) = omega (arith, length-le-ops os, length-le-op o (write_ops os))

length-le-behind : (a b : Text) → length b ≤ length (a ++ (10 ∷ b))
length-le-behind a b = omega (arith, length-append a (10 ∷ b))

length-lt-trace : (t : Trace) → length t.ops < suc (length (write_trace t))
length-lt-trace t =
    let d = write_decimal t.weight ++ (10 ∷ write_ops t.ops) in
    let c = write_decimal t.num_ops ++ (10 ∷ d) in
    let b = write_decimal t.num_ids ++ (10 ∷ c) in
    omega (
      arith,
      length-le-ops t.ops,
      length-le-behind (write_decimal t.weight) (write_ops t.ops),
      length-le-behind (write_decimal t.num_ops) d,
      length-le-behind (write_decimal t.num_ids) c,
      length-le-behind (write_decimal t.sugg_heapsize) b,
    )

-- A trace that is written as text is read back by `read_trace`, to the end of the file, if its
-- numbers are in the ranges of `int` and `unsigned`, the number of requests is right, and the
-- largest index that is allocated is one less than the number of ids.
pub read_trace-write_trace :
    (old t : Trace) (size : ℕ)
    → t.sugg_heapsize ≤ int_max
    → t.num_ids ≤ int_max
    → t.num_ops ≤ int_max
    → t.weight ≤ int_max
    → all_fit t.ops ≡ true
    → t.num_ops ≡ length t.ops
    → t.num_ids ≡ max_index t.ops 0 + 1
    → read_trace old size (write_trace t) ≡ some (t, [])
unfolding read_trace
read_trace-write_trace old t size ha hb hc hd f count ids =
    let d = write_decimal t.weight ++ (10 ∷ write_ops t.ops) in
    let c = write_decimal t.num_ops ++ (10 ∷ d) in
    let b = write_decimal t.num_ids ++ (10 ∷ c) in
    let last : (max_index t.ops 0 == (t.num_ids + 2 ^ 32 - 1) % 2 ^ 32) ≡ true = ground arith in
    let all : (t.num_ops == length t.ops) ≡ true = ground arith in
    bind-some (scan_number int_max old.sugg_heapsize) _ (write_trace t) (10 ∷ b)
      (true, t.sugg_heapsize)
      (scan_number-skipped int_max old.sugg_heapsize t.sugg_heapsize 10 (write_trace t) b ha refl
        refl)
      (bind-some (scan_number int_max old.num_ids) _ (10 ∷ b) (10 ∷ c) (true, t.num_ids)
        (scan_number-write_decimal int_max old.num_ids t.num_ids 10 10 c hb refl refl)
        (bind-some (scan_number int_max old.num_ops) _ (10 ∷ c) (10 ∷ d) (true, t.num_ops)
          (scan_number-write_decimal int_max old.num_ops t.num_ops 10 10 d hc refl refl)
          (bind-some (scan_number int_max old.weight) _ (10 ∷ d) (10 ∷ write_ops t.ops)
            (true, t.weight)
            (scan_number-write_decimal int_max old.weight t.weight 10 10 (write_ops t.ops) hd refl
              refl)
            (bind-some (read_ops (suc (length (write_trace t))) 0 size 0) _ (10 ∷ write_ops t.ops)
              [] (t.ops, max_index t.ops 0)
              (read_ops-write_ops (suc (length (write_trace t))) 0 size 0 t.ops (length-lt-trace t)
                f)
              (rw (last, all) refl)))))
