-- ===== src/Proxy/Lru.antt =====
-- proxy/lab/lru.c and lru.h: the cache of the proxy, as nodes at addresses.
pub mod Links
pub mod Search
pub mod Refine
pub mod Insert
mod Tests
use csapp_labs.Base.{
  ℕ, zero, suc, ◌+◌, ◌-◌, Bool, true, false, Option, none, some, List, [], ◌∷◌, ◌==◌, if◌then◌else◌,
}
use csapp_labs.Base.State.{Cmd, pure, fault, ◌>>=◌, ◌>>◌}
use csapp_labs.Base.Text.{Text, text_eq}

-- READER_SAME_TIME
abbrev pub reader_same_time : ℕ
reader_same_time = 10

-- `LRUCache` with its semaphores, and the fields of the nodes, each as a function of the node's
-- address; 0 is NULL. A `cacheData *` is its address.
pub record Lru : Type 0 where
  pub capacity : ℕ
  pub size : ℕ
  pub head : ℕ
  pub tail : ℕ
  pub readcnt : ℕ
  pub mutex : ℕ
  pub w : ℕ
  pub pre : ℕ → ℕ
  pub next : ℕ → ℕ
  pub key : ℕ → Text
  pub value : ℕ → ℕ

abbrev pub M : Type 0 → Type 0
M A = Cmd Lru A

abbrev pub put {ℓ} : {A : Type ℓ} → (ℕ → A) → ℕ → A → ℕ → A
put f n a m = if m == n then a else f m

-- `lru_init(capacity)`, for what `malloc` returned: the two sentinels, the contents of the memory,
-- and the value of `size`, which is not set.
unfoldable pub lru_init : ℕ → (head tail size : ℕ) → (ℕ → Text) → (ℕ → ℕ) → Lru
lru_init capacity head tail size key value = record {
  capacity = capacity;
  size = size;
  head = head;
  tail = tail;
  readcnt = 0;
  mutex = reader_same_time;
  w = 1;
  pre = put (put (λ n. 0) head 0) tail head;
  next = put (put (λ n. 0) head tail) tail 0;
  key = key;
  value = value;
}

-- `sem_wait` stops where the thread would block.
unfoldable pub wait_mutex : M (Unit {0})
wait_mutex s = if s.mutex == 0 then none else some (tt, record s { mutex = s.mutex - 1 })

unfoldable pub post_mutex : M (Unit {0})
post_mutex s = some (tt, record s { mutex = s.mutex + 1 })

unfoldable pub wait_w : M (Unit {0})
wait_w s = if s.w == 0 then none else some (tt, record s { w = s.w - 1 })

unfoldable pub post_w : M (Unit {0})
post_w s = some (tt, record s { w = s.w + 1 })

-- `list->next->pre = list->pre; list->pre->next = list->next`, failing on a write through NULL.
unfoldable pub lru_remove : ℕ → M (Unit {0})
lru_remove n s =
    let t = record s { pre = put s.pre (s.next n) (s.pre n) } in
    if s.next n == 0
    then none
    else if t.pre n == 0
    then none
    else some (tt, record t { next = put t.next (t.pre n) (t.next n) })

unfoldable pub push_back : ℕ → M (Unit {0})
push_back n s =
    let t = record s { next = put s.next (s.pre s.tail) n } in
    let u = record t { pre = put t.pre n (t.pre t.tail) } in
    let v = record u { next = put u.next n u.tail } in
    if s.pre s.tail == 0 then none else some (tt, record v { pre = put v.pre v.tail n })

-- The loop of `lru_find`, with fuel: the node with the key, or 0.
unfoldable pub find_from : ℕ → Text → ℕ → M ℕ
find_from zero key curr s = none
find_from (suc k) key curr s = elim (curr == s.tail) [
  | true ↦ some (0, s)
  | false ↦ elim (text_eq (s.key curr) key) [
    | true ↦ some (curr, s)
    | false ↦ find_from k key (s.next curr) s
  ]
]

unfoldable pub lru_find : ℕ → Text → M ℕ
unfolding find_from
lru_find k key s = find_from k key (s.next s.head) s

-- `lru->readcnt++` and the lock of the first reader.
unfoldable pub inc_reader : M (Unit {0})
unfolding wait_mutex wait_w post_mutex
inc_reader = do
  wait_mutex
  (λ s. (if s.readcnt + 1 == 1 then wait_w else pure tt) (record s { readcnt = s.readcnt + 1 }))
  post_mutex

unfoldable pub dec_reader : M (Unit {0})
unfolding wait_mutex post_w post_mutex
dec_reader = do
  wait_mutex
  (λ s. (if s.readcnt - 1 == 0 then post_w else pure tt) (record s { readcnt = s.readcnt - 1 }))
  post_mutex

-- `tar->data`
unfoldable pub value_of : ℕ → M ℕ
value_of n s = some (s.value n, s)

-- `lru_get(lru, key)` with `k` rounds of fuel for the search: the data, or 0.
unfoldable pub lru_get : ℕ → Text → M ℕ
unfolding inc_reader dec_reader lru_find lru_remove push_back value_of
lru_get k key = do
  inc_reader
  tar ← lru_find k key
  if tar == 0
      then (do dec_reader; pure 0)
      else (do lru_remove tar; push_back tar; dec_reader; value_of tar)

-- `lru_remove(lru->head->next)` on a full cache.
unfoldable pub evict : M (Unit {0})
unfolding lru_remove
evict s = (if s.capacity == s.size then lru_remove (s.next s.head) else pure tt) s

unfoldable pub set_value : ℕ → ℕ → M (Unit {0})
set_value n v s = some (tt, record s { value = put s.value n v })

unfoldable pub set_key : ℕ → Text → M (Unit {0})
set_key n key s = some (tt, record s { key = put s.key n key })

unfoldable pub inc_size : M (Unit {0})
inc_size s = some (tt, record s { size = s.size + 1 })

-- The branches of `lru_put`: the key is found at `tar`, or it is new.
unfoldable pub put_old : ℕ → ℕ → M (Unit {0})
unfolding lru_remove push_back set_value
put_old tar value = do lru_remove tar; set_value tar value; push_back tar

unfoldable pub put_new : ℕ → Text → ℕ → M (Unit {0})
unfolding push_back evict set_key set_value inc_size
put_new fresh key value = do
  evict
  set_key fresh key
  set_value fresh value
  push_back fresh
  inc_size

-- `lru_put(lru, key, value)`; `fresh` is the node that `malloc` returns.
unfoldable pub lru_put : ℕ → (fresh : ℕ) → Text → ℕ → M (Unit {0})
unfolding wait_w post_w lru_find put_old put_new
lru_put k fresh key value = do
  wait_w
  tar ← lru_find k key
  (if tar == 0 then put_new fresh key value else put_old tar value)
  post_w
