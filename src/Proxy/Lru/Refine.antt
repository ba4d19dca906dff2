-- ===== src/Proxy/Lru/Refine.antt =====
-- `lru_get` and `lru_put` of proxy/lab/lru.c as operations on the list of nodes, one call at a time.
use csapp_labs.Base.{
  ℕ, ◌+◌, ◌-◌, ◌<◌, ◌≡◌, ◌≢◌, refl, true, false, some, List, [], ◌∷◌, ◌++◌, arith, length, ==-ne,
  append_assoc, sym, ap, ◌∙◌,
}
use csapp_labs.Base.State.{bind-some}
use csapp_labs.Base.Member.{has, distinct, has-append, distinct-with, distinct-without}
use csapp_labs.Base.Text.{Text, text_eq}
use csapp_labs.Proxy.Lru.{
  Lru, lru_find, lru_remove, push_back, lru_get, inc_reader, dec_reader, wait_mutex, post_mutex,
  wait_w, post_w, value_of,
}
use csapp_labs.Proxy.Lru.Links.{Linked, removed, pushed, frame, lru_remove-Linked, push_back-Linked}
use csapp_labs.Proxy.Lru.Search.{IsCache, find_key, has_key, lru_find-find_key}

remove_node :
    (s : Lru) (p x t : ℕ) (ys zs : List ℕ)
    → p ≢ 0
    → has 0 (p ∷ ys) ≡ false
    → distinct (p ∷ (ys ++ (x ∷ (zs ++ (t ∷ []))))) ≡ true
    → Linked s p (ys ++ (x ∷ (zs ++ (t ∷ []))))
    → (lru_remove x s ≡ some (tt, removed s x)) × Linked (removed s x) p (ys ++ (zs ++ (t ∷ [])))
remove_node s p x t ys [] n z d l = lru_remove-Linked s p x t ys [] n z d l
remove_node s p x t ys (z' ∷ zs) n z d l = lru_remove-Linked s p x z' ys (zs ++ (t ∷ [])) n z d l

pub lru_remove-IsCache :
    (s : Lru) (x : ℕ) (ys zs : List ℕ)
    → IsCache s (ys ++ (x ∷ zs))
    → (lru_remove x s ≡ some (tt, removed s x))
      × IsCache (removed s x) (ys ++ zs)
      × (has x (s.head ∷ ((ys ++ zs) ++ (s.tail ∷ []))) ≡ false)
lru_remove-IsCache s x ys zs c =
    let before = append_assoc ys (x ∷ zs) (s.tail ∷ []) in
    let behind = append_assoc ys zs (s.tail ∷ []) in
    let d : distinct (s.head ∷ (ys ++ (x ∷ (zs ++ (s.tail ∷ []))))) ≡ true =
      rw (sym before) c.apart in
    let r =
      remove_node s s.head x s.tail ys zs (ground arith) (ground (arith, has-append 0 ys (x ∷ zs)))
        d (rw (sym before) c.linked) in
    let w = distinct-without (s.head ∷ ys) x (zs ++ (s.tail ∷ [])) d in
    (
      r.0,
      record {
        linked = rw behind r.1;
        apart = rw behind w.0;
        non_null = ground (arith, has-append 0 ys (x ∷ zs), has-append 0 ys zs);
      },
      rw behind w.1,
    )

pub push_back-IsCache :
    (s : Lru) (x : ℕ) (xs : List ℕ)
    → IsCache s xs
    → x ≢ 0
    → has x (s.head ∷ (xs ++ (s.tail ∷ []))) ≡ false
    → (push_back x s ≡ some (tt, pushed s x)) × IsCache (pushed s x) (xs ++ (x ∷ []))
push_back-IsCache s x xs c n f =
    let r = push_back-Linked s s.head x xs n c.non_null f c.apart c.linked in
    (
      r.0,
      record {
        linked = rw (append_assoc xs (x ∷ []) (s.tail ∷ [])) r.1;
        apart =
            rw (append_assoc xs (x ∷ []) (s.tail ∷ []))
              (distinct-with (s.head ∷ xs) x (s.tail ∷ []) c.apart f);
        non_null = ground (arith, has-append 0 xs (x ∷ []), c.non_null);
      },
    )

-- The locks when nobody else holds one: one free place in `mutex` or more, `w` free, no reader.
pub record Idle (s : Lru) : Type 0 where
  pub mutex_free : s.mutex ≢ 0
  pub w_free : s.w ≡ 1
  pub no_reader : s.readcnt ≡ 0

abbrev pub SameLocks : Lru → Lru → Type 0
SameLocks s t = (t.mutex ≡ s.mutex) × (t.w ≡ s.w) × (t.readcnt ≡ s.readcnt)

abbrev reading : Lru → Lru
reading s = record s { mutex = s.mutex - 1 + 1; w = s.w - 1; readcnt = s.readcnt + 1 }

abbrev done_reading : Lru → Lru
done_reading s = record s { mutex = s.mutex - 1 + 1; w = s.w + 1; readcnt = s.readcnt - 1 }

abbrev fewer : Lru → Lru
fewer s = record s { mutex = s.mutex - 1 }

wait_mutex-fewer : (s : Lru) → s.mutex ≢ 0 → wait_mutex s ≡ some (tt, fewer s)
unfolding wait_mutex
wait_mutex-fewer s e = rw (==-ne s.mutex 0 e) refl

inc_reader-reading : (s : Lru) → Idle s → inc_reader s ≡ some (tt, reading s)
unfolding inc_reader wait_w post_mutex
inc_reader-reading s i =
    bind-some wait_mutex _ s (fewer s) tt (wait_mutex-fewer s i.mutex_free)
      (rw (i.no_reader, i.w_free) refl)

dec_reader-done_reading :
    (s : Lru) → s.mutex ≢ 0 → s.readcnt ≡ 1 → dec_reader s ≡ some (tt, done_reading s)
unfolding dec_reader post_w post_mutex
dec_reader-done_reading s m r =
    bind-some wait_mutex _ s (fewer s) tt (wait_mutex-fewer s m) (rw r refl)

pub find_key-here :
    (keys : ℕ → Text) (key : Text) (x : ℕ) (ys zs : List ℕ)
    → has_key keys key ys ≡ false
    → text_eq (keys x) key ≡ true
    → find_key keys key (ys ++ (x ∷ zs)) ≡ x
find_key-here keys key x [] zs n e = rw e refl
find_key-here keys key x (y ∷ ys) zs n e = ground (arith, find_key-here keys key x ys zs)

pub find_key-none :
    (keys : ℕ → Text) (key : Text) (xs : List ℕ)
    → has_key keys key xs ≡ false
    → find_key keys key xs ≡ 0
find_key-none keys key [] n = refl
find_key-none keys key (x ∷ xs) n = ground (arith, find_key-none keys key xs)

-- Moving a node of the cache to the end of the list.
pub move_back :
    (s : Lru) (x : ℕ) (ys zs : List ℕ)
    → IsCache s (ys ++ (x ∷ zs))
    → (lru_remove x s ≡ some (tt, removed s x))
      × (push_back x (removed s x) ≡ some (tt, pushed (removed s x) x))
      × IsCache (pushed (removed s x) x) ((ys ++ zs) ++ (x ∷ []))
      × (x ≢ 0)
move_back s x ys zs c =
    let r = lru_remove-IsCache s x ys zs c in
    let n : x ≢ 0 = ground (arith, has-append 0 ys (x ∷ zs), c.non_null) in
    let p = push_back-IsCache (removed s x) x (ys ++ zs) r.1 n r.2 in (r.0, p.0, p.1, n)

-- The list does not depend on the locks, the contents and the count.
pub IsCache-contents :
    (s t : Lru) (xs : List ℕ)
    → (t.next ≡ s.next) × (t.pre ≡ s.pre) × (t.head ≡ s.head) × (t.tail ≡ s.tail)
    → IsCache s xs
    → IsCache t xs
IsCache-contents s t xs (n, p, h, e) c = record {
  linked =
      rw (h, e)
        (frame s t s.head (xs ++ (s.tail ∷ [])) (λ q k. ap (λ f. f q) n) (λ q k. ap (λ f. f q) p)
          c.linked);
  apart = rw (h, e) c.apart;
  non_null = rw h c.non_null;
}

-- When no thread is inside, `lru_get` of a key that the node `x` is the first to have returns the
-- data of this node, and makes it the last of the list, which keeps the order of the others; keys,
-- data and size stay, and the locks are free again.
pub lru_get-hit :
    (s : Lru) (key : Text) (k x : ℕ) (ys zs : List ℕ)
    → Idle s
    → IsCache s (ys ++ (x ∷ zs))
    → has_key s.key key ys ≡ false
    → text_eq (s.key x) key ≡ true
    → length (ys ++ (x ∷ zs)) < k
    → (t : Lru) × (lru_get k key s ≡ some (s.value x, t))
      × IsCache t ((ys ++ zs) ++ (x ∷ []))
      × (t.key ≡ s.key)
      × (t.value ≡ s.value)
      × (t.size ≡ s.size)
      × SameLocks s t
unfolding lru_get value_of
lru_get-hit s key k x ys zs i c n e m =
    let s1 = reading s in
    let c1 : IsCache s1 (ys ++ (x ∷ zs)) =
      IsCache-contents s s1 (ys ++ (x ∷ zs)) (refl, refl, refl, refl) c in
    let (rem, push, cached, pos) = move_back s1 x ys zs c1 in
    let s2 = removed s1 x in
    let s3 = pushed s2 x in
    let t = done_reading s3 in
    let found : lru_find k key s1 ≡ some (x, s1) =
      lru_find-find_key s1 key k (ys ++ (x ∷ zs)) c1 m
      ∙ ap (λ q. some (q, s1)) (find_key-here s.key key x ys zs n e) in
    let dec = dec_reader-done_reading s3 (omega arith) (omega (arith, i.no_reader)) in
    (
      t,
      bind-some inc_reader _ s s1 tt (inc_reader-reading s i) (
          bind-some (lru_find k key) _ s1 s1 x found (
            rw (==-ne x 0 pos) (
              bind-some (lru_remove x) _ s1 s2 tt rem (
                bind-some (push_back x) _ s2 s3 tt push
                  (bind-some dec_reader _ s3 t tt dec refl))))),
      IsCache-contents s3 t ((ys ++ zs) ++ (x ∷ [])) (refl, refl, refl, refl) cached,
      refl,
      refl,
      refl,
      (omega (arith, i.mutex_free), omega (arith, i.w_free), omega (arith, i.no_reader)),
    )

with_locks :
    (s : Lru) (m w r : ℕ)
    → m ≡ s.mutex
    → w ≡ s.w
    → r ≡ s.readcnt
    → record s { mutex = m; w = w; readcnt = r } ≡ s
with_locks s m w r a b c = rw (a, b, c) refl

-- When no thread is inside, `lru_get` of a key that no node has returns NULL and changes nothing.
lru_get-miss :
    (s : Lru) (key : Text) (k : ℕ) (xs : List ℕ)
    → Idle s
    → IsCache s xs
    → has_key s.key key xs ≡ false
    → length xs < k
    → lru_get k key s ≡ some (0, s)
unfolding lru_get
lru_get-miss s key k xs i c n m =
    let s1 = reading s in
    let c1 : IsCache s1 xs = IsCache-contents s s1 xs (refl, refl, refl, refl) c in
    let found : lru_find k key s1 ≡ some (0, s1) =
      lru_find-find_key s1 key k xs c1 m ∙ ap (λ q. some (q, s1)) (find_key-none s.key key xs n) in
    let dec = dec_reader-done_reading s1 (omega arith) (omega (arith, i.no_reader)) in
    bind-some inc_reader _ s s1 tt (inc_reader-reading s i) (
      bind-some (lru_find k key) _ s1 s1 0 found (
        bind-some dec_reader _ s1 (done_reading s1) tt dec (
          ap (λ t. some (0, t))
            (with_locks s (s.mutex - 1 + 1 - 1 + 1) (s.w - 1 + 1) (s.readcnt + 1 - 1)
              (omega (arith, i.mutex_free)) (omega (arith, i.w_free))
              (omega (arith, i.no_reader))))))
