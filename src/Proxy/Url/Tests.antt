-- ===== src/Proxy/Url/Tests.antt =====
-- URLs, and the instances of the theorems.
use csapp_labs.Base.{◌≡◌, refl, true, some, none, [], ◌∷◌, ◌++◌, replicate}
use csapp_labs.Base.Text.{Text}
use csapp_labs.Base.Strings.{codes, before}
use csapp_labs.Proxy.Url.{Buffers, parse_url, parse_version, overwrite}
use csapp_labs.Proxy.Url.RoundTrip.{parse_url-port, parse_url-no_port, parse_url-colon}

-- Buffers of 30 bytes; those for the result hold `x`s, a NUL, and no more.
abbrev junk : Text
junk = replicate 29 b'x' ++ (0 ∷ [])

abbrev buffers : Text → Buffers
buffers url = record { url = url ++ (0 ∷ junk); uri = junk; host = junk; port = junk }

parse_url-port_example :
    parse_url (buffers (codes "http://a.b:80/c"))
    ≡ some (
      true,
      record (buffers (codes "http://a.b:80/c")) {
        uri = overwrite junk (codes "/c\0");
        host = overwrite junk (codes "a.b");
        port = overwrite junk (codes "80");
      },
    )
unfolding before
parse_url-port_example =
    parse_url-port (buffers (codes "http://a.b:80/c")) (codes "a.b") (codes "80") (codes "c") refl
      refl refl refl

parse_url-no_port_example :
    parse_url (buffers (codes "http://a.b/c"))
    ≡ some (
      true,
      record (buffers (codes "http://a.b/c")) {
        uri = overwrite junk (codes "/c\0");
        host = overwrite junk (codes "a.b");
      },
    )
unfolding before
parse_url-no_port_example =
    parse_url-no_port (buffers (codes "http://a.b/c")) (codes "a.b") (codes "c") refl refl refl

parse_url-colon_example : parse_url (buffers (codes "http://a.b/c:d")) ≡ none
unfolding before
parse_url-colon_example =
    parse_url-colon (buffers (codes "http://a.b/c:d")) (codes "a.b") (codes "c") (codes "d") refl
      refl refl

-- The host that `doit` then asks for ends where the buffer has a NUL.
host_with_junk : before (overwrite junk (codes "a.b")) 0 ≡ codes "a.b" ++ replicate 26 b'x'
unfolding before
host_with_junk = refl

http_1_0 : parse_version (codes "HTTP/1.1") ≡ some (codes "HTTP/1.0")
unfolding parse_version
http_1_0 = refl

http_1_0_refused : parse_version (codes "HTTP/1.0") ≡ none
unfolding parse_version
http_1_0_refused = refl
