-- ===== src/Proxy/Url/RoundTrip.antt =====
-- What `parseUrl` of proxy/lab/proxy.c makes of a URL.
use csapp_labs.Base.{
  ℕ, ◌≡◌, refl, ap, ◌∙◌, sym, true, false, none, some, [], ◌∷◌, ◌++◌, ltb, arith, length,
  length-append, append_assoc,
}
use csapp_labs.Base.Text.{Text}
use csapp_labs.Base.Strings.{
  codes, strstr, starts_with_case, strchr, before, no_byte, strchr-append, strchr-none,
  before-append,
}
use csapp_labs.Proxy.Url.{
  Buffers, c_string, overwrite, copy_string, split_host, split_url, parse_url,
}

no_byte-append :
    (c : ℕ) (s t : Text) → no_byte c s ≡ true → no_byte c t ≡ true → no_byte c (s ++ t) ≡ true
no_byte-append c [] t h k = k
no_byte-append c (d ∷ s) t h k = ground (arith, no_byte-append c s t)

ltb-before : (host rest : Text) → ltb (length host) (length (host ++ (b':' ∷ rest))) ≡ true
ltb-before host rest = ground (arith, length-append host (b':' ∷ rest))

split_host-port :
    (host port path : Text) (b : Buffers)
    → no_byte b':' host ≡ true
    → no_byte b'/' host ≡ true
    → no_byte b'/' port ≡ true
    → split_host (host ++ (b':' ∷ (port ++ (b'/' ∷ path)))) (b'/' ∷ path) b
      ≡ some (
        true,
        record b {
          uri = copy_string b.uri (b'/' ∷ path);
          host = overwrite b.host host;
          port = overwrite b.port port;
        },
      )
unfolding split_host
split_host-port host port path b h1 h2 h3 =
    let slash : before (host ++ (b':' ∷ (port ++ (b'/' ∷ path)))) b'/' ≡ host ++ (b':' ∷ port) =
      ap (λ s. before s b'/') (sym (append_assoc host (b':' ∷ port) (b'/' ∷ path)))
      ∙ before-append (host ++ (b':' ∷ port)) path b'/'
          (no_byte-append b'/' host (b':' ∷ port) h2 h3) in
    rw
      (
        split_host,
        strchr-append host (port ++ (b'/' ∷ path)) b':' h1,
        before-append host (port ++ (b'/' ∷ path)) b':' h1,
        slash,
        ltb-before host port,
        before-append port path b'/' h3,
      )
      refl

split_url-slash :
    (p : Text) (q : Text) (b : Buffers) → strchr p b'/' ≡ some q → split_url p b ≡ split_host p q b
unfolding split_url
split_url-slash p q b e = rw (split_url, e) refl

-- A buffer with the URL of the authority and path behind `http://`.
parse_url-http :
    (b : Buffers) (p : Text) → c_string b.url ≡ codes "http://" ++ p → parse_url b ≡ split_url p b
unfolding parse_url strstr
parse_url-http b p e =
    let http : starts_with_case (codes "http://") (c_string b.url) ≡ true =
      ap (starts_with_case (codes "http://")) e in
    rw (parse_url, e, http) refl

strchr-slash :
    (host rest path : Text)
    → no_byte b'/' host ≡ true
    → no_byte b'/' rest ≡ true
    → strchr (host ++ (b':' ∷ (rest ++ (b'/' ∷ path)))) b'/' ≡ some (b'/' ∷ path)
strchr-slash host rest path h k =
    ap (λ s. strchr s b'/') (sym (append_assoc host (b':' ∷ rest) (b'/' ∷ path)))
    ∙ strchr-append (host ++ (b':' ∷ rest)) path b'/' (no_byte-append b'/' host (b':' ∷ rest) h k)

-- `parseUrl` of `http://host:port/path` returns 0, with the path, the host and the port written to
-- the starts of their buffers, and the URL as it was. Behind the host and the port no NUL is written:
-- what the buffers held there stays.
pub parse_url-port :
    (b : Buffers) (host port path : Text)
    → c_string b.url ≡ codes "http://" ++ (host ++ (b':' ∷ (port ++ (b'/' ∷ path))))
    → no_byte b':' host ≡ true
    → no_byte b'/' host ≡ true
    → no_byte b'/' port ≡ true
    → parse_url b
      ≡ some (
        true,
        record b {
          uri = copy_string b.uri (b'/' ∷ path);
          host = overwrite b.host host;
          port = overwrite b.port port;
        },
      )
parse_url-port b host port path e h1 h2 h3 =
    let p = host ++ (b':' ∷ (port ++ (b'/' ∷ path))) in
    parse_url-http b p e
    ∙ split_url-slash p (b'/' ∷ path) b (strchr-slash host port path h2 h3)
    ∙ split_host-port host port path b h1 h2 h3

split_host-no_port :
    (host path : Text) (b : Buffers)
    → no_byte b':' (host ++ (b'/' ∷ path)) ≡ true
    → no_byte b'/' host ≡ true
    → split_host (host ++ (b'/' ∷ path)) (b'/' ∷ path) b
      ≡ some
          (true, record b { uri = copy_string b.uri (b'/' ∷ path); host = overwrite b.host host })
unfolding split_host
split_host-no_port host path b h1 h2 =
    rw (split_host, strchr-none (host ++ (b'/' ∷ path)) b':' h1, before-append host path b'/' h2)
      refl

-- `parseUrl` of `http://host/path`, with no colon behind `http:`, returns 0 and leaves the port's
-- buffer as it was: the default port is never written there.
pub parse_url-no_port :
    (b : Buffers) (host path : Text)
    → c_string b.url ≡ codes "http://" ++ (host ++ (b'/' ∷ path))
    → no_byte b':' (host ++ (b'/' ∷ path)) ≡ true
    → no_byte b'/' host ≡ true
    → parse_url b
      ≡ some
          (true, record b { uri = copy_string b.uri (b'/' ∷ path); host = overwrite b.host host })
parse_url-no_port b host path e h1 h2 =
    parse_url-http b (host ++ (b'/' ∷ path)) e
    ∙ split_url-slash (host ++ (b'/' ∷ path)) (b'/' ∷ path) b (strchr-append host path b'/' h2)
    ∙ split_host-no_port host path b h1 h2

no_byte-left : (c : ℕ) (s t : Text) → no_byte c (s ++ t) ≡ true → no_byte c s ≡ true
no_byte-left c [] t h = refl
no_byte-left c (d ∷ s) t h = ground (arith, no_byte-left c s t)

split_host-colon :
    (host rest more : Text) (b : Buffers)
    → no_byte b':' (host ++ (b'/' ∷ rest)) ≡ true
    → no_byte b'/' host ≡ true
    → split_host (host ++ (b'/' ∷ (rest ++ (b':' ∷ more)))) (b'/' ∷ (rest ++ (b':' ∷ more))) b
      ≡ none
unfolding split_host
split_host-colon host rest more b h1 h2 =
    let s = host ++ (b'/' ∷ (rest ++ (b':' ∷ more))) in
    let assoc = append_assoc host (b'/' ∷ rest) (b':' ∷ more) in
    let found : strchr s b':' ≡ some (b':' ∷ more) =
      ap (λ s. strchr s b':') (sym assoc) ∙ strchr-append (host ++ (b'/' ∷ rest)) more b':' h1 in
    let authority : before s b':' ≡ host ++ (b'/' ∷ rest) =
      ap (λ s. before s b':') (sym assoc) ∙ before-append (host ++ (b'/' ∷ rest)) more b':' h1 in
    let late : ltb (length (host ++ (b'/' ∷ rest))) (length host) ≡ false =
      ground (arith, length-append host (b'/' ∷ rest)) in
    rw (split_host, found, authority, before-append host (rest ++ (b':' ∷ more)) b'/' h2, late) refl

-- A URL with no port whose path has a colon makes `parseUrl` copy a negative number of bytes, which
-- is a huge one.
pub parse_url-colon :
    (b : Buffers) (host rest more : Text)
    → c_string b.url ≡ codes "http://" ++ (host ++ (b'/' ∷ (rest ++ (b':' ∷ more))))
    → no_byte b':' (host ++ (b'/' ∷ rest)) ≡ true
    → no_byte b'/' host ≡ true
    → parse_url b ≡ none
parse_url-colon b host rest more e h1 h2 =
    let p = host ++ (b'/' ∷ (rest ++ (b':' ∷ more))) in
    parse_url-http b p e
    ∙ split_url-slash p (b'/' ∷ (rest ++ (b':' ∷ more))) b
        (strchr-append host (rest ++ (b':' ∷ more)) b'/' h2)
    ∙ split_host-colon host rest more b h1 h2
