-- ===== src/Proxy/Sbuf/Fifo.antt =====
-- The bounded buffer of proxy/lab/sbuf.c is a queue.
use native.Mathlib.Nat.{mod-lt, mod-eq_of_lt, mod-add-mod, mod-eq-sub-mod}
use csapp_labs.Base.{
  ℕ, zero, suc, ◌+◌, ◌-◌, ◌%◌, ◌^◌, ◌<◌, ◌≤◌, ◌≡◌, ◌≢◌, refl, sym, ap, ap₂, ◌∙◌, true, some, List,
  [], ◌∷◌, ◌++◌, ltb, length, length-append, arith, ==-ne, ==-self, Bool-cases, inl, inr,
}
use csapp_labs.Base.Int.{ℤ}
use csapp_labs.Base.State.{bind-some}
use csapp_labs.Proxy.Sbuf.{
  Sbuf, sbuf_insert, sbuf_remove, set_at, take_slot, take_item, lock, write_rear, read_front,
}
use mathlib.Core.List.{head-eq_of_cons-eq, tail-eq_of_cons-eq}

-- The `k` items behind the index `i`.
abbrev pub window : (ℕ → ℤ) → ℕ → ℕ → ℕ → List ℤ
window f n i zero = []
window f n i (suc k) = f ((i + 1) % n) ∷ window f n (i + 1) k

-- The buffer holds the items `xs`, the oldest first, and nobody holds the lock.
pub record IsQueue (s : Sbuf) (xs : List ℤ) : Type 0 where
  pub unlocked : s.mutex ≡ 1
  pub free : s.slots + length xs ≡ s.n
  pub stored : s.items ≡ length xs
  pub range : s.rear ≡ s.front + length xs
  pub contents : window s.buf s.n s.front (length xs) ≡ xs

shifted : (n r d : ℕ) → r < n → 0 < d → d < n → (r + d) % n ≢ r
shifted n r d b z m e = elim (Bool-cases (ltb (r + d) n)) [
  | inl l ↦ let same : (r + d) % n ≡ r + d = mod-eq_of_lt (ground arith) in absurd (omega arith)
  | inr g ↦
      let less : (r + d) % n ≡ (r + d - n) % n = mod-eq-sub-mod (ground arith) in
      let same : (r + d - n) % n ≡ r + d - n = mod-eq_of_lt (omega arith) in absurd (ground arith)
]

mod_ne : (n a d : ℕ) → 0 < d → d < n → (a + d) % n ≢ a % n
mod_ne n a d z m e = shifted n (a % n) d (mod-lt a (omega arith)) z m (mod-add-mod a n d ∙ e)

window-append :
    (f : ℕ → ℤ) (n i k : ℕ) → window f n i (suc k) ≡ window f n i k ++ (f ((i + suc k) % n) ∷ [])
window-append f n i zero = refl
window-append f n i (suc k) =
    ap (◌∷◌ (f ((i + 1) % n))) (
      window-append f n (i + 1) k
      ∙ ap (λ m. window f n (i + 1) k ++ (f (m % n) ∷ [])) (omega arith))

window-set :
    (f : ℕ → ℤ) (n i k j : ℕ) (v : ℤ)
    → i + k < j
    → j ≤ i + n
    → window (set_at f (j % n) v) n i k ≡ window f n i k
window-set f n i zero j v l m = refl
window-set f n i (suc k) j v l m =
    ap₂ ◌∷◌
      (rw
        (==-ne ((i + 1) % n) (j % n) (λ e.
          mod_ne n (i + 1) (j - (i + 1)) (omega arith) (omega arith)
            (ap (λ m. m % n) (omega arith) ∙ sym e)))
        refl)
      (window-set f n (i + 1) k j v (omega arith) (omega arith))

take_slot-some :
    (s : Sbuf) → s.slots ≢ 0 → take_slot s ≡ some (tt, record s { slots = s.slots - 1 })
take_slot-some s e = rw (==-ne s.slots 0 e) refl

take_item-some :
    (s : Sbuf) → s.items ≢ 0 → take_item s ≡ some (tt, record s { items = s.items - 1 })
take_item-some s e = rw (==-ne s.items 0 e) refl

lock-some : (s : Sbuf) → s.mutex ≡ 1 → lock s ≡ some (tt, record s { mutex = s.mutex - 1 })
lock-some s e = rw e refl

write_rear-some :
    (s : Sbuf) (item : ℤ)
    → s.rear + 1 < 2 ^ 31
    → write_rear item s
      ≡ some (tt, record s { rear = s.rear + 1; buf = set_at s.buf ((s.rear + 1) % s.n) item })
write_rear-some s item m = let e : ltb (s.rear + 1) (2 ^ 31) ≡ true = ground arith in rw e refl

read_front-some :
    (s : Sbuf)
    → s.front + 1 < 2 ^ 31
    → read_front s ≡ some (s.buf ((s.front + 1) % s.n), record s { front = s.front + 1 })
read_front-some s m = let e : ltb (s.front + 1) (2 ^ 31) ≡ true = ground arith in rw e refl

-- `sbuf_insert` on a buffer with room does not block, and puts the item behind all others, as long
-- as the index stays in the range of `int`.
pub sbuf_insert-IsQueue :
    (s : Sbuf) (xs : List ℤ) (item : ℤ)
    → IsQueue s xs
    → length xs < s.n
    → s.rear + 1 < 2 ^ 31
    → (t : Sbuf) × (sbuf_insert item s ≡ some (tt, t)) × IsQueue t (xs ++ (item ∷ [])) × (t.n ≡ s.n)
unfolding sbuf_insert
sbuf_insert-IsQueue s xs item q room int =
    let full : s.slots ≢ 0 = omega (arith, q.free) in
    let i = s.rear + 1 in
    let s1 = record s { slots = s.slots - 1 } in
    let s2 = record s1 { mutex = s.mutex - 1 } in
    let f = set_at s.buf (i % s.n) item in
    let len = length-append xs (item ∷ []) in
    let old =
      window-set s.buf s.n s.front (length xs) i item (omega (arith, q.range))
        (omega (arith, q.range)) in
    let next : s.front + suc (length xs) ≡ i = omega (arith, q.range) in
    let written : f (i % s.n) ≡ item = rw (==-self (i % s.n)) refl in
    let at : f ((s.front + suc (length xs)) % s.n) ≡ item = ap (λ m. f (m % s.n)) next ∙ written in
    let e : length (xs ++ (item ∷ [])) ≡ suc (length xs) = omega (arith, len) in
    (
      record s {
        slots = s.slots - 1;
        mutex = s.mutex - 1 + 1;
        rear = i;
        buf = f;
        items = s.items + 1;
      },
      bind-some take_slot _ s s1 tt (take_slot-some s full) (
          bind-some lock _ s1 s2 tt (lock-some s1 q.unlocked) (
            bind-some (write_rear item) _ s2 (record s2 { rear = i; buf = f }) tt
              (write_rear-some s2 item int) refl)),
      record {
        unlocked = omega (arith, q.unlocked);
        free = omega (arith, e, q.free);
        stored = omega (arith, e, q.stored);
        range = omega (arith, e, q.range);
        contents =
            ap (λ k. window f s.n s.front k) e
            ∙ window-append f s.n s.front (length xs)
            ∙ ap₂ (λ ys y. ys ++ (y ∷ [])) (old ∙ q.contents) at;
      },
      refl,
    )

-- `sbuf_remove` on a buffer that holds an item does not block, and returns the oldest one and takes
-- it out, as long as the index stays in the range of `int`.
pub sbuf_remove-IsQueue :
    (s : Sbuf) (x : ℤ) (xs : List ℤ)
    → IsQueue s (x ∷ xs)
    → s.front + 1 < 2 ^ 31
    → (t : Sbuf) × (sbuf_remove s ≡ some (x, t)) × IsQueue t xs × (t.n ≡ s.n)
unfolding sbuf_remove
sbuf_remove-IsQueue s x xs q int =
    let some_item : s.items ≢ 0 = omega (arith, q.stored) in
    let s1 = record s { items = s.items - 1 } in
    let s2 = record s1 { mutex = s.mutex - 1 } in
    (
      record s {
        items = s.items - 1;
        mutex = s.mutex - 1 + 1;
        front = s.front + 1;
        slots = s.slots + 1;
      },
      bind-some take_item _ s s1 tt (take_item-some s some_item) (
          bind-some lock _ s1 s2 tt (lock-some s1 q.unlocked) (
            bind-some read_front _ s2 (record s2 { front = s.front + 1 })
              (s.buf ((s.front + 1) % s.n)) (read_front-some s2 int)
              (ap
                (λ y. some (
                  y,
                  record s {
                    items = s.items - 1;
                    mutex = s.mutex - 1 + 1;
                    front = s.front + 1;
                    slots = s.slots + 1;
                  },
                ))
                (head-eq_of_cons-eq q.contents)))),
      record {
        unlocked = omega (arith, q.unlocked);
        free = omega (arith, q.free);
        stored = omega (arith, q.stored);
        range = omega (arith, q.range);
        contents = tail-eq_of_cons-eq q.contents;
      },
      refl,
    )
