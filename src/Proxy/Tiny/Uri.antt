-- ===== src/Proxy/Tiny/Uri.antt =====
-- What tiny.c makes of a URI.
use csapp_labs.Base.{◌≡◌, refl, true, false, some, ◌∷◌, ◌++◌}
use csapp_labs.Base.Text.{Text}
use csapp_labs.Base.Strings.{
  codes, strstr, is_some, no_byte, strstr-append, strchr-append, before-append,
}
use csapp_labs.Proxy.Tiny.{parse_uri}

-- A path that contains `cgi-bin` and no `?`, followed by `?` and a query, is parsed as dynamic
-- content, into the file of that path below the current directory, and the query.
pub parse_uri-query :
    (path query : Text)
    → is_some (strstr path (codes "cgi-bin")) ≡ true
    → no_byte b'?' path ≡ true
    → parse_uri (path ++ (b'?' ∷ query)) ≡ some (false, codes "." ++ path, query)
unfolding parse_uri
parse_uri-query path query c n =
    rw
      (
        strstr-append path (b'?' ∷ query) (codes "cgi-bin") c,
        strchr-append path query b'?' n,
        before-append path query b'?' n,
      )
      refl
