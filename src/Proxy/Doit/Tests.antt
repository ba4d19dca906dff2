-- ===== src/Proxy/Doit/Tests.antt =====
-- The proxy at concrete requests, and the instances of the theorems.
use csapp_labs.Base.{
  ℕ, ◌≡◌, refl, true, false, some, none, Option, List, [], ◌∷◌, arith, if◌then◌else◌, ◌==◌,
  replicate, length-replicate,
}
use csapp_labs.Base.Text.{Text}
use csapp_labs.Base.Strings.{codes, before, strstr}
use csapp_labs.Proxy.Net.{Conn, crlf}
use csapp_labs.Proxy.Lru.{Lru}
use csapp_labs.Proxy.Lru.Search.{IsCache}
use csapp_labs.Proxy.Url.{Buffers}
use csapp_labs.Proxy.Doit.{
  Proxy, none_seen, forward_headers, receive, max_object_size, scan_request, doit,
}
use csapp_labs.Proxy.Doit.Headers.{passed_on, forward_headers-passed_on}
use csapp_labs.Proxy.Doit.Relay.{receive-concat, receive-overflow}
use csapp_labs.Proxy.Doit.Hit.{doit-hit}

-- A cache with the one node 3 between the sentinels 1 and 2, of the URL `http://a/` and the object 70.
abbrev cache : Lru
cache = record {
  capacity = 10;
  size = 1;
  head = 1;
  tail = 2;
  readcnt = 0;
  mutex = 10;
  w = 1;
  pre = λ n. if n == 3 then 1 else 3;
  next = λ n. if n == 3 then 2 else 3;
  key = λ n. codes "http://a/";
  value = λ n. 70;
}

abbrev proxy : Proxy
proxy = record {
  lru = cache;
  object = λ a. codes "<p>Hello</p>";
  client = record { lines = codes "Proxy-Connection: keep-alive\r\n" ∷ crlf ∷ []; sent = [] };
  server = record { lines = []; sent = [] };
}

cache-IsCache : IsCache cache (3 ∷ [])
cache-IsCache = record {
  linked = (refl, refl, omega arith, (refl, refl, omega arith, tt));
  apart = refl;
  non_null = refl;
}

abbrev blank : Buffers
blank = record { url = []; uri = []; host = []; port = [] }

abbrev offline : Text → Text → Option (List Text)
offline host port = none

doit-hit_example :
    (t : Lru) × (doit offline 5 5 9 90 [] [] [] [] blank (record proxy {
      client = record { lines = codes "GET http://a/ HTTP/1.1\r\n" ∷ crlf ∷ []; sent = [] };
    })
      ≡ some (
        tt,
        record proxy {
          lru = t;
          client = record { lines = crlf ∷ []; sent = codes "<p>Hello</p>" };
        },
      ))
    × IsCache t (3 ∷ [])
unfolding scan_request before
doit-hit_example =
    doit-hit offline 5 5 9 90 3 [] [] [] [] (codes "GET http://a/ HTTP/1.1\r\n") [] (codes "GET")
      (codes "http://a/\0") (codes "HTTP/1.1") (crlf ∷ []) blank proxy [] [] refl
      (record { mutex_free = omega arith; w_free = refl; no_reader = refl }) cache-IsCache refl refl
      (omega arith) (omega arith)

forward_headers-passed_on_example :
    forward_headers 3 (codes "Host: a\r\n") none_seen proxy
    ≡ passed_on proxy
        (record { host = true; ua = false; conn = true; proxy_conn = false })
        (codes "Host: a\r\nProxy-Connection: keep-alive\r\n")
        (some [])
unfolding before strstr
forward_headers-passed_on_example =
    forward_headers-passed_on proxy 3 (codes "Host: a\r\n") none_seen (omega arith)

abbrev client : Conn
client = record { lines = []; sent = [] }

receive-concat_example :
    receive (codes "HTTP/1.0 200 OK\r\n" ∷ crlf ∷ []) (some []) client
    ≡ some (
      some (codes "HTTP/1.0 200 OK\r\n\r\n"),
      record client { sent = codes "HTTP/1.0 200 OK\r\n\r\n" },
    )
receive-concat_example =
    receive-concat (codes "HTTP/1.0 200 OK\r\n" ∷ crlf ∷ []) [] client refl (omega arith)

-- An object that already fills the limit.
receive-overflow_example :
    receive (crlf ∷ crlf ∷ []) (some (replicate max_object_size 120)) client ≡ none
receive-overflow_example =
    receive-overflow [] crlf crlf [] (replicate max_object_size 120) client refl
      (omega (arith, length-replicate {A = ℕ} max_object_size 120))
      (omega (arith, length-replicate {A = ℕ} max_object_size 120))
