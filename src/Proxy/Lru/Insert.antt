-- ===== src/Proxy/Lru/Insert.antt =====
-- `lru_put` of proxy/lab/lru.c as an operation on the list of nodes, one call at a time.
use csapp_labs.Base.{
  ℕ, ◌+◌, ◌-◌, ◌<◌, ◌≡◌, ◌≢◌, refl, true, false, some, List, [], ◌∷◌, ◌++◌, ◌==◌, if◌then◌else◌,
  arith, length, ==-ne, Bool-cases, inl, inr, ap, ◌∙◌,
}
use csapp_labs.Base.State.{bind-some, ◌>>◌}
use csapp_labs.Base.Member.{has}
use csapp_labs.Base.Text.{Text, text_eq}
use csapp_labs.Proxy.Lru.{
  Lru, lru_find, lru_remove, push_back, lru_put, wait_w, post_w, evict, set_key, set_value,
  inc_size, put, put_new, put_old,
}
use csapp_labs.Proxy.Lru.Links.{removed, pushed}
use csapp_labs.Proxy.Lru.Search.{IsCache, find_key, has_key, lru_find-find_key}
use csapp_labs.Proxy.Lru.Refine.{
  lru_remove-IsCache, push_back-IsCache, move_back, IsCache-contents, find_key-none, find_key-here,
}

-- Inside `lru_put` the semaphore `w` is taken.
abbrev writing : Lru → Lru
writing s = record s { w = s.w - 1 }

abbrev filled : Lru → ℕ → Text → ℕ → Lru
filled s n key v = record s { key = put s.key n key; value = put s.value n v }

abbrev inserted : Lru → ℕ → Text → ℕ → Lru
inserted s n key v =
    let t = pushed (filled s n key v) n in record t { size = s.size + 1; w = s.w + 1 }

wait_w-writing : (s : Lru) → s.w ≢ 0 → wait_w s ≡ some (tt, writing s)
unfolding wait_w
wait_w-writing s e = rw (==-ne s.w 0 e) refl

-- `lru_put` of a new key, once a node is evicted or not.
put_new-inserted :
    (s u : Lru) (key : Text) (value fresh : ℕ) (ys : List ℕ)
    → fresh ≢ 0
    → evict s ≡ some (tt, u)
    → IsCache u ys
    → has fresh (u.head ∷ (ys ++ (u.tail ∷ []))) ≡ false
    → (put_new fresh key value s
        ≡ some (tt, record (pushed (filled u fresh key value) fresh) { size = u.size + 1 }))
      × IsCache (inserted u fresh key value) (ys ++ (fresh ∷ []))
unfolding put_new set_key set_value inc_size
put_new-inserted s u key value fresh ys n e c a =
    let v = filled u fresh key value in
    let p = push_back-IsCache v fresh ys (IsCache-contents u v ys (refl, refl, refl, refl) c) n a in
    (
      bind-some evict
          (λ _. set_key fresh key >> (set_value fresh value >> (push_back fresh >> inc_size))) s u
          tt e (bind-some (push_back fresh) (λ _. inc_size) v (pushed v fresh) tt p.0 refl),
      IsCache-contents (pushed v fresh) (inserted u fresh key value) (ys ++ (fresh ∷ []))
          (refl, refl, refl, refl) p.1,
    )

put_at :
    (s : Lru) (key : Text) (value k fresh tar : ℕ) (xs : List ℕ) {t : Lru}
    → s.w ≢ 0
    → IsCache s xs
    → length xs < k
    → find_key s.key key xs ≡ tar
    → (if tar == 0 then put_new fresh key value else put_old tar value) (writing s) ≡ some (tt, t)
    → lru_put k fresh key value s ≡ some (tt, record t { w = t.w + 1 })
unfolding lru_put post_w
put_at s key value k fresh tar xs {t} free c m f e =
    let s1 = writing s in
    let c1 : IsCache s1 xs = IsCache-contents s s1 xs (refl, refl, refl, refl) c in
    let found = lru_find-find_key s1 key k xs c1 m ∙ ap (λ q. some (q, s1)) f in
    bind-some wait_w _ s s1 tt (wait_w-writing s free) (
      bind-some (lru_find k key) _ s1 s1 tar found (
        bind-some (if tar == 0 then put_new fresh key value else put_old tar value) (λ _. post_w) s1
          t tt e refl))

-- `lru_put`, when `w` is free, of a key that the node `x` is the first to have replaces the data of
-- this node and makes it the last of the list, which keeps the order of the others; the keys and the
-- size stay, and `w` is free again.
pub lru_put-old :
    (s : Lru) (key : Text) (value k fresh x : ℕ) (ys zs : List ℕ)
    → s.w ≢ 0
    → IsCache s (ys ++ (x ∷ zs))
    → has_key s.key key ys ≡ false
    → text_eq (s.key x) key ≡ true
    → length (ys ++ (x ∷ zs)) < k
    → (t : Lru) × (lru_put k fresh key value s ≡ some (tt, t))
      × IsCache t ((ys ++ zs) ++ (x ∷ []))
      × (t.key ≡ s.key)
      × (t.value ≡ put s.value x value)
      × (t.size ≡ s.size)
      × (t.w ≡ s.w)
unfolding put_old set_value
lru_put-old s key value k fresh x ys zs free c n e m =
    let s1 = writing s in
    let c1 = IsCache-contents s s1 (ys ++ (x ∷ zs)) (refl, refl, refl, refl) c in
    let r = lru_remove-IsCache s1 x ys zs c1 in
    let s2 = removed s1 x in
    let s3 = record s2 { value = put s.value x value } in
    let pos : x ≢ 0 = (move_back s x ys zs c).3 in
    let c3 = IsCache-contents s2 s3 (ys ++ zs) (refl, refl, refl, refl) r.1 in
    let p = push_back-IsCache s3 x (ys ++ zs) c3 pos r.2 in
    let t = record (pushed s3 x) { w = s.w - 1 + 1 } in
    let run : put_old x value s1 ≡ some (tt, pushed s3 x) =
      bind-some (lru_remove x) (λ _. set_value x value >> push_back x) s1 s2 tt r.0 p.0 in
    (
      t,
      put_at s key value k fresh x (ys ++ (x ∷ zs)) free c m (find_key-here s.key key x ys zs n e)
          (rw (==-ne x 0 pos) run),
      IsCache-contents (pushed s3 x) t ((ys ++ zs) ++ (x ∷ [])) (refl, refl, refl, refl) p.1,
      refl,
      refl,
      refl,
      omega (arith, free),
    )

-- The nodes that stay when a new one comes: all, unless the size is the capacity.
abbrev pub kept : Lru → List ℕ → List ℕ
kept s [] = []
kept s (x ∷ xs) = if s.capacity == s.size then xs else x ∷ xs

-- What eviction leaves alone.
abbrev SameContents : Lru → Lru → Type 0
SameContents s u =
    (u.key ≡ s.key)
    × (u.value ≡ s.value)
    × (u.size ≡ s.size)
    × (u.w ≡ s.w)
    × (u.head ≡ s.head)
    × (u.tail ≡ s.tail)

evict-idle : (s : Lru) → (s.capacity == s.size) ≡ false → evict s ≡ some (tt, s)
unfolding evict
evict-idle s e = rw e refl

evict-full :
    (s u : Lru) (x : ℕ)
    → (s.capacity == s.size) ≡ true
    → s.next s.head ≡ x
    → lru_remove x s ≡ some (tt, u)
    → evict s ≡ some (tt, u)
unfolding evict
evict-full s u x e f r = rw (e, f) r

evict-kept :
    (s : Lru) (xs : List ℕ)
    → IsCache s xs
    → (length xs ≡ 0 → s.capacity ≢ s.size)
    → (u : Lru) × (evict s ≡ some (tt, u)) × IsCache u (kept s xs) × SameContents s u
evict-kept s [] c f =
    (s, evict-idle s (==-ne s.capacity s.size (f refl)), c, (refl, refl, refl, refl, refl, refl))
evict-kept s (x ∷ xs) c f = elim (Bool-cases (s.capacity == s.size)) [
  | inl e ↦
      let r = lru_remove-IsCache s x [] xs c in
      (
        removed s x,
        evict-full s (removed s x) x e c.linked.0 r.0,
        rw e r.1,
        (refl, refl, refl, refl, refl, refl),
      )
  | inr e ↦ (s, evict-idle s e, rw e c, (refl, refl, refl, refl, refl, refl))
]

has-shorter : (q p x : ℕ) (ws : List ℕ) → has q (p ∷ x ∷ ws) ≡ false → has q (p ∷ ws) ≡ false
has-shorter q p x ws h = ground arith

has-kept :
    (s : Lru) (q p t : ℕ) (xs : List ℕ)
    → has q (p ∷ (xs ++ (t ∷ []))) ≡ false
    → has q (p ∷ (kept s xs ++ (t ∷ []))) ≡ false
has-kept s q p t [] h = h
has-kept s q p t (x ∷ xs) h = elim (Bool-cases (s.capacity == s.size)) [
  | inl e ↦ rw e (has-shorter q p x (xs ++ (t ∷ [])) h)
  | inr e ↦ rw e h
]

-- `lru_put`, when `w` is free and the cache holds a node or is not full, of a key that no node has
-- puts the new node behind the others, with the key and the data, and counts it. It evicts the first
-- node only when the size is exactly the capacity, and does not count that: the size grows in any
-- case.
pub lru_put-new :
    (s : Lru) (key : Text) (value k fresh : ℕ) (xs : List ℕ)
    → s.w ≢ 0
    → IsCache s xs
    → has_key s.key key xs ≡ false
    → length xs < k
    → fresh ≢ 0
    → has fresh (s.head ∷ (xs ++ (s.tail ∷ []))) ≡ false
    → (length xs ≡ 0 → s.capacity ≢ s.size)
    → (t : Lru) × (lru_put k fresh key value s ≡ some (tt, t))
      × IsCache t (kept s xs ++ (fresh ∷ []))
      × (t.key ≡ put s.key fresh key)
      × (t.value ≡ put s.value fresh value)
      × (t.size ≡ s.size + 1)
      × (t.w ≡ s.w)
lru_put-new s key value k fresh xs free c n m pos a f =
    let s1 = writing s in
    let c1 = IsCache-contents s s1 xs (refl, refl, refl, refl) c in
    let (u, ev, left, (keys, values, size, w, head, tail)) = evict-kept s1 xs c1 f in
    let apart : has fresh (u.head ∷ (kept s1 xs ++ (u.tail ∷ []))) ≡ false =
      rw (head, tail) (has-kept s1 fresh s.head s.tail xs a) in
    let (run, cached) = put_new-inserted s1 u key value fresh (kept s1 xs) pos ev left apart in
    (
      inserted u fresh key value,
      put_at s key value k fresh 0 xs free c m (find_key-none s.key key xs n) run,
      cached,
      ap (λ g. put g fresh key) keys,
      ap (λ g. put g fresh value) values,
      ap (λ g. g + 1) size,
      omega (arith, free, w),
    )
