-- ===== src/Proxy/Doit.antt =====
-- proxy/lab/proxy.c: one transaction of the proxy, over the cache of Proxy/Lru.antt.
pub mod Headers
pub mod Relay
pub mod Hit
mod Tests
use csapp_labs.Base.{
  ℕ, zero, suc, ◌+◌, ◌-◌, ◌≡◌, Bool, true, false, not, Option, none, some, List, [], ◌∷◌, ◌++◌,
  ◌==◌, ltb, if◌then◌else◌, length, replicate,
}
use csapp_labs.Base.State.{Cmd}
use csapp_labs.Base.Text.{Text, text_eq}
use csapp_labs.Base.Strings.{codes, strstr, is_some, before, text_eq_case, scan_word}
use csapp_labs.Proxy.Net.{Conn, read_line, send, crlf, pure, fault, ◌>>=◌, ◌>>◌}
use csapp_labs.Proxy.Lru.{Lru, lru_get, lru_put, put}
use csapp_labs.Proxy.Url.{Buffers, c_string, copy_string, parse_url, parse_version}

-- MAX_OBJECT_SIZE
abbrev pub max_object_size : ℕ
max_object_size = 102400

-- The cache, with the first `len` bytes of each `cacheData` by its address, and the connections to
-- the client and to the server.
pub record Proxy : Type 0 where
  pub lru : Lru
  pub object : ℕ → Text
  pub client : Conn
  pub server : Conn

abbrev pub M : Type 0 → Type 0
M A = Cmd Proxy A

abbrev pub on_cache : {A : Type 0} → Cmd Lru A → M A
on_cache m s = elim (m s.lru) [ none ↦ none | some (a, t) ↦ some (a, record s { lru = t }) ]

abbrev pub on_client : {A : Type 0} → Cmd Conn A → M A
on_client m s = elim (m s.client) [ none ↦ none | some (a, c) ↦ some (a, record s { client = c }) ]

abbrev pub on_server : {A : Type 0} → Cmd Conn A → M A
on_server m s = elim (m s.server) [ none ↦ none | some (a, c) ↦ some (a, record s { server = c }) ]

-- `clienterror(fd, cause, errnum, shortmsg, longmsg)`
unfoldable pub clienterror : (cause errnum shortmsg longmsg : Text) → Cmd Conn (Unit {0})
clienterror cause errnum shortmsg longmsg = do
  send (codes "HTTP/1.0 " ++ (errnum ++ (codes " " ++ (shortmsg ++ crlf))))
  send (codes "Content-type: text/html\r\n\r\n")
  send (codes "<html><title>Tiny Error</title>")
  send (codes "<body bgcolor=ffffff>\r\n")
  send (errnum ++ (codes ": " ++ (shortmsg ++ crlf)))
  send (codes "<p>" ++ (longmsg ++ (codes ": " ++ (cause ++ crlf))))
  send (codes "<hr><em>The Tiny Web server</em>\r\n")

-- The calls of `clienterror` in `doit`.
unfoldable pub server_error : Text → M (Unit {0})
unfolding clienterror
server_error longmsg = on_client (clienterror [] (codes "500") [] longmsg)

-- The variables `host`, `ua`, `conn` and `proxy_conn` of `doit`: which headers were seen.
pub record Seen : Type 0 where
  pub host : Bool
  pub ua : Bool
  pub conn : Bool
  pub proxy_conn : Bool

abbrev pub none_seen : Seen
none_seen = record { host = false; ua = false; conn = false; proxy_conn = false }

unfoldable pub note_header : Text → Seen → Seen
unfolding strstr
note_header buf f =
    if is_some (strstr buf (codes "Host:"))
    then record f { host = true }
    else if is_some (strstr buf (codes "User-Agent:"))
    then record f { ua = true }
    else if is_some (strstr buf (codes "Connection:"))
    then record f { conn = true }
    else if is_some (strstr buf (codes "Proxy-Connection:"))
    then record f { proxy_conn = true }
    else f

-- The loop over the headers, with fuel; `buf` is what the buffer holds, and the calls see it up to
-- its first NUL.
unfoldable pub forward_headers : ℕ → Text → Seen → M Seen
unfolding note_header before
forward_headers zero buf f = fault
forward_headers (suc k) buf f = elim (text_eq (c_string buf) crlf) [
  | true ↦ pure f
  | false ↦ do
    on_server (send (c_string buf))
    (got, buf') ← on_client (read_line buf)
    forward_headers k buf' (note_header (c_string buf) f)
]

-- user_agent_hdr
abbrev pub user_agent_hdr : Text
user_agent_hdr =
    codes "User-Agent: Mozilla/5.0 (X11; Linux x86_64; rv:10.0.3) Gecko/20120305 Firefox/10.0.3\r\n"

abbrev pub send_unless : Bool → Text → Cmd Conn (Unit {0})
send_unless seen s = if seen then pure tt else send s

-- The headers that the client has not sent, and the empty line.
unfoldable pub add_headers : Text → Seen → Cmd Conn (Unit {0})
add_headers hostname f = do
  send_unless f.host (codes "Host: " ++ (hostname ++ crlf))
  send_unless f.ua user_agent_hdr
  send_unless f.conn (codes "Connection: close\r\n")
  send_unless f.proxy_conn (codes "Proxy-Connection: close\r\n")
  send crlf

-- `strncpy(p, s, n)` of the `n` bytes `s`: those up to a NUL, and NULs for the rest.
unfoldable pub copied : Text → Text
unfolding before
copied s = before s 0 ++ replicate (length s - length (before s 0)) 0

-- The loop that receives the response: what is kept of it for the cache, `none` being NULL, and the
-- connection to the client. A line that no longer fits frees it; the line behind that one is then
-- read from NULL.
unfoldable pub receive : List Text → Option Text → Conn → Option (Option Text × Conn)
unfolding copied
receive [] rev c = some (rev, c)
receive (l ∷ ls) none c = none
receive (l ∷ ls) (some t) c =
    let kept = receive ls (some (t ++ copied l)) (record c { sent = c.sent ++ l }) in
    let freed = receive ls none (record c { sent = c.sent ++ l }) in
    if ltb max_object_size (length t + length l) then freed else kept

unfoldable pub receive_all : Text → M (Option Text)
unfolding receive
receive_all junk s = elim (receive s.server.lines (some junk) s.client) [
  | none ↦ none
  | some (rev, c) ↦ some (rev, record s { client = c; server = record s.server { lines = [] } })
]

abbrev pub connect : List Text → M (Unit {0})
connect response s = some (tt, record s { server = record { lines = response; sent = [] } })

abbrev pub set_object : ℕ → Text → M (Unit {0})
set_object a t s = some (tt, record s { object = put s.object a t })

-- The end of `doit`: `lru_put(lru, url, rev_data)`; `node` is the new node and `fresh` the address of
-- the object.
unfoldable pub store_object : ℕ → (node fresh : ℕ) → Text → Option Text → M (Unit {0})
unfolding lru_put
store_object k node fresh url none = pure tt
store_object k node fresh url (some t) = do set_object fresh t; on_cache (lru_put k node url fresh)

-- From the connection to the server on. `junk` is what the object holds when it is allocated, as many
-- bytes as its length then says.
unfoldable pub relay :
    (k kc node fresh : ℕ) (junk : Text) → List Text → (m v : Text) → Buffers → M (Unit {0})
unfolding forward_headers add_headers receive_all store_object
relay k kc node fresh junk response m v b = do
  connect response
  let request = m ++ (codes " " ++ (c_string b.uri ++ (codes " " ++ (v ++ crlf))))
  on_server (send request)
  (got, buf) ← on_client (read_line request)
  f ← forward_headers k buf none_seen
  on_server (add_headers (c_string b.host) f)
  rev ← receive_all junk
  store_object kc node fresh (c_string b.url) rev

-- The branches behind `parseUrl`; `open` is `Open_clientfd`, with the lines that the server sends.
unfoldable pub fetch :
    (Text → Text → Option (List Text))
    → (k kc node fresh : ℕ) (junk m v : Text) → Bool
    → Buffers
    → M (Unit {0})
unfolding relay parse_version server_error
fetch open_clientfd k kc node fresh junk m v ok b =
    if not ok then server_error (codes "parseUrl Error") else elim (parse_version v) [
      | none ↦ server_error (codes "parseVersion Error")
      | some v' ↦ elim (open_clientfd (c_string b.host) (c_string b.port)) [
        | none ↦ server_error (codes "Clientfd Error")
        | some response ↦ relay k kc node fresh junk response m v' b
      ]
    ]

-- The branches behind the cache.
unfoldable pub miss :
    (Text → Text → Option (List Text))
    → (k kc node fresh : ℕ) (junk m v : Text) → Buffers
    → M (Unit {0})
unfolding fetch parse_url server_error
miss open_clientfd k kc node fresh junk m v b =
    if text_eq_case m (codes "GET")
    then elim (parse_url b) [
      | none ↦ fault
      | some (ok, b') ↦ fetch open_clientfd k kc node fresh junk m v ok b'
    ]
    else server_error (codes "Method Not Supported")

-- `sscanf(buf, "%s %s %s", method, url, version)`; what is not read keeps its value.
unfoldable pub scan_request : Text → (m u v : Text) → Text × Text × Text
unfolding scan_word before
scan_request buf m u v = elim (scan_word (c_string buf)) [
  | none ↦ (m, u, v)
  | some (m', r) ↦ elim (scan_word r) [
    | none ↦ (m', u, v)
    | some (u', r') ↦ elim (scan_word r') [
      | none ↦ (m', copy_string u u', v)
      | some (v', r'') ↦ (m', copy_string u u', v')
    ]
  ]
]

-- `Rio_writen(fd, data->buf, data->len)`
abbrev pub send_object : ℕ → M (Unit {0})
send_object a s = on_client (send (s.object a)) s

-- `doit(fd)`, with fuel for the headers and for the search of the cache, what `malloc` returns, and
-- what the buffers hold at first.
unfoldable pub doit :
    (Text → Text → Option (List Text))
    → (k kc node fresh : ℕ) (junk buf method version : Text) → Buffers
    → M (Unit {0})
unfolding lru_get miss scan_request
doit open_clientfd k kc node fresh junk buf method version b = do
  (got, line) ← on_client (read_line buf)
  if not got then pure tt else do
    let (m, u, v) = scan_request line method b.url version
    let b' = record b { url = u }
    found ← on_cache (lru_get kc (c_string u))
    if found == 0 then miss open_clientfd k kc node fresh junk m v b' else send_object found
