-- ===== src/Proxy/Lru/Tests.antt =====
-- Concrete caches, and the instances of the theorems on the list of nodes.
use csapp_labs.Base.{◌≡◌, refl, some, [], ◌∷◌, arith, ◌+◌}
use csapp_labs.Proxy.Lru.{Lru, lru_init, put, lru_get, lru_put}
use csapp_labs.Proxy.Lru.Search.{IsCache}
use csapp_labs.Proxy.Lru.Refine.{Idle, SameLocks, lru_get-hit}
use csapp_labs.Proxy.Lru.Insert.{lru_put-old, lru_put-new}
use csapp_labs.Proxy.Lru.Links.{Linked, pushed}

abbrev empty : Lru
empty = lru_init 10 1 2 0 (λ n. []) (λ n. 0)

-- The sentinels 1 and 2 with the nodes 3 and 4 between them.
abbrev two_nodes : Lru
two_nodes = pushed (pushed empty 3) 4

two_nodes-Linked : Linked two_nodes 1 (3 ∷ 4 ∷ 2 ∷ [])
unfolding lru_init
two_nodes-Linked =
    (refl, refl, omega arith, (refl, refl, omega arith, (refl, refl, omega arith, tt)))

-- A full cache of two nodes, with the keys "a" and "b" and the data 70 and 80.
abbrev full : Lru
full = record two_nodes {
  capacity = 2;
  size = 2;
  key = put (put (λ n. []) 3 (97 ∷ [])) 4 (98 ∷ []);
  value = put (put (λ n. 0) 3 70) 4 80;
}

full-IsCache : IsCache full (3 ∷ 4 ∷ [])
unfolding lru_init
full-IsCache = record {
  linked = (refl, refl, omega arith, (refl, refl, omega arith, (refl, refl, omega arith, tt)));
  apart = refl;
  non_null = refl;
}

full-Idle : Idle full
unfolding lru_init
full-Idle = record { mutex_free = omega arith; w_free = refl; no_reader = refl }

lru_get-hit_example :
    (t : Lru) × (lru_get 3 (97 ∷ []) full ≡ some (full.value 3, t))
    × IsCache t (4 ∷ 3 ∷ [])
    × (t.key ≡ full.key)
    × (t.value ≡ full.value)
    × (t.size ≡ full.size)
    × SameLocks full t
unfolding lru_init
lru_get-hit_example =
    lru_get-hit full (97 ∷ []) 3 3 [] (4 ∷ []) full-Idle full-IsCache refl refl (omega arith)

lru_put-old_example :
    (t : Lru) × (lru_put 3 5 (97 ∷ []) 90 full ≡ some (tt, t))
    × IsCache t (4 ∷ 3 ∷ [])
    × (t.key ≡ full.key)
    × (t.value ≡ put full.value 3 90)
    × (t.size ≡ full.size)
    × (t.w ≡ full.w)
unfolding lru_init
lru_put-old_example =
    lru_put-old full (97 ∷ []) 90 3 5 3 [] (4 ∷ []) (omega arith) full-IsCache refl refl
      (omega arith)

lru_put-new_example :
    (t : Lru) × (lru_put 3 5 (99 ∷ []) 90 full ≡ some (tt, t))
    × IsCache t (4 ∷ 5 ∷ [])
    × (t.key ≡ put full.key 5 (99 ∷ []))
    × (t.value ≡ put full.value 5 90)
    × (t.size ≡ full.size + 1)
    × (t.w ≡ full.w)
unfolding lru_init
lru_put-new_example =
    lru_put-new full (99 ∷ []) 90 3 5 (3 ∷ 4 ∷ []) (omega arith) full-IsCache refl (omega arith)
      (omega arith) refl (λ e. absurd (omega arith))
