-- ===== src/Proxy/Doit/Hit.antt =====
-- What proxy/lab/proxy.c answers to a request for a URL that is in the cache.
use csapp_labs.Base.{ℕ, ◌<◌, ◌≡◌, ◌≢◌, refl, true, false, some, List, [], ◌∷◌, ◌++◌, length, ==-ne}
use csapp_labs.Base.Text.{Text, text_eq}
use csapp_labs.Proxy.Net.{bind-some}
use csapp_labs.Proxy.Lru.{Lru, lru_get}
use csapp_labs.Proxy.Lru.Search.{IsCache, has_key}
use csapp_labs.Proxy.Lru.Refine.{Idle, lru_get-hit}
use csapp_labs.Proxy.Url.{Buffers, c_string}
use csapp_labs.Proxy.Doit.{Proxy, on_cache, scan_request, doit}
use csapp_labs.Base.{Option}

-- A request, whatever its method, for a URL that is the key of the cached node `x`, and of none
-- before it, is answered with the bytes of the object of that node, and nothing is asked of a server.
-- The node becomes the last of the list, and only the request line is read.
pub doit-hit :
    (open_clientfd : Text → Text → Option (List Text)) (k kc node fresh x : ℕ)
    (junk buf method version l sent m u v : Text) (ls : List Text) (b : Buffers) (s : Proxy)
    (ys zs : List ℕ)
    → scan_request l method b.url version ≡ (m, u, v)
    → Idle s.lru
    → IsCache s.lru (ys ++ (x ∷ zs))
    → has_key s.lru.key (c_string u) ys ≡ false
    → text_eq (s.lru.key x) (c_string u) ≡ true
    → s.lru.value x ≢ 0
    → length (ys ++ (x ∷ zs)) < kc
    → (t : Lru) × (doit open_clientfd k kc node fresh junk buf method version b
          (record s { client = record { lines = l ∷ ls; sent = sent } })
        ≡ some (
          tt,
          record s {
            lru = t;
            client = record { lines = ls; sent = sent ++ s.object (s.lru.value x) };
          },
        ))
      × IsCache t ((ys ++ zs) ++ (x ∷ []))
unfolding doit
doit-hit open_clientfd k kc node fresh x junk buf method version l sent m u v ls b s ys zs e i c h g
      n f =
    let (t, found, cached, same_key, same_value, same_size, same_locks) =
      lru_get-hit s.lru (c_string u) kc x ys zs i c h g f in
    let read = record s { client = record { lines = ls; sent = sent } } in
    let got : on_cache (lru_get kc (c_string u)) read
        ≡ some (s.lru.value x, record read { lru = t }) =
      rw (found, on_cache) refl in
    (
      t,
      rw e (
          bind-some (on_cache (lru_get kc (c_string u))) _ read (record read { lru = t })
            (s.lru.value x) got (rw (==-ne (s.lru.value x) 0 n) refl)),
      cached,
    )
