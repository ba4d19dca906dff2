-- ===== src/Proxy/Tiny.antt =====
-- proxy/lab/tiny/tiny.c: the Tiny web server.
pub mod Uri
pub mod Headers
pub mod Requests
pub mod Pages
pub mod Replies
mod Tests
use csapp_labs.Base.{
  ℕ, zero, suc, ◌+◌, ◌-◌, ◌%◌, ◌^◌, ltb, ◌≡◌, Bool, true, false, ◌&&◌, ◌||◌, not, Option, none,
  some, List, [], ◌∷◌, ◌++◌, ◌==◌, if◌then◌else◌,
}
use csapp_labs.Base.State.{Cmd}
use csapp_labs.Base.Int.{ℤ, pos, negsuc}
use csapp_labs.Base.Text.{Text, text_eq}
use csapp_labs.Base.Strings.{codes, strstr, is_some, strchr, before, text_eq_case, scan_word}
use csapp_labs.Base.Decimal.{write_decimal}
use csapp_labs.Proxy.Net.{Conn, read_line, send, crlf, pure, fault, ◌>>=◌, ◌>>◌}

-- What `stat` reports of a file; the bytes that are written when `Open`, `Mmap` and `Rio_writen` are
-- called with a size, `none` if `Open` or `Mmap` fails, as `Mmap` of no bytes does; and what a
-- program writes when it is run with a query string.
pub record File : Type 0 where
  pub is_regular : Bool
  pub can_read : Bool
  pub can_run : Bool
  pub size : ℕ
  pub mapped : ℤ → Option Text
  pub output : Text → Text

-- A call that returns, or that ends the server: `Open` and `Mmap` of csapp.c exit when they fail.
pub data Ending : Type 0 where
  returned : Ending
  exited : Ending

abbrev pub M : Type 0 → Type 0
M A = Cmd Conn A

-- A size that is passed as an `int`, and `%d`.
abbrev pub int_of : ℕ → ℤ
int_of n = if ltb (n % 2 ^ 32) (2 ^ 31) then pos (n % 2 ^ 32) else negsuc (2 ^ 32 - n % 2 ^ 32 - 1)

abbrev pub write_int : ℤ → Text
write_int (pos n) = write_decimal n
write_int (negsuc n) = b'-' ∷ write_decimal (n + 1)

-- `uri[strlen(uri) - 1] == '/'`; `none` is a read in front of an empty string.
abbrev pub ends_in_slash : Text → Option Bool
ends_in_slash [] = none
ends_in_slash (c ∷ []) = some (c == b'/')
ends_in_slash (c ∷ d ∷ s) = ends_in_slash (d ∷ s)

abbrev pub drop_first : Text → Text
drop_first [] = []
drop_first (c ∷ s) = s

-- `parse_uri(uri, filename, cgiargs)`: whether the content is static, the file name and the
-- arguments.
unfoldable pub parse_uri : Text → Option (Bool × Text × Text)
unfolding strstr strchr before
parse_uri uri =
    if not (is_some (strstr uri (codes "cgi-bin")))
    then elim (ends_in_slash uri) [
      | none ↦ none
      | some slash ↦
          some (true, codes "." ++ (uri ++ (if slash then codes "home.html" else [])), [])
    ]
    else elim (strchr uri b'?') [
      | none ↦ some (false, codes "." ++ uri, [])
      | some ptr ↦ some (false, codes "." ++ before uri b'?', drop_first ptr)
    ]

-- `get_filetype(filename, filetype)`
unfoldable pub get_filetype : Text → Text
unfolding strstr
get_filetype filename =
    if is_some (strstr filename (codes ".html"))
    then codes "text/html"
    else if is_some (strstr filename (codes ".gif"))
    then codes "image/gif"
    else if is_some (strstr filename (codes ".png"))
    then codes "image/png"
    else if is_some (strstr filename (codes ".jpg"))
    then codes "image/jpeg"
    else codes "text/plain"

-- `clienterror(fd, cause, errnum, shortmsg, longmsg)`
unfoldable pub clienterror : (cause errnum shortmsg longmsg : Text) → M (Unit {0})
clienterror cause errnum shortmsg longmsg = do
  send (codes "HTTP/1.0 " ++ (errnum ++ (codes " " ++ (shortmsg ++ crlf))))
  send (codes "Content-type: text/html\r\n\r\n")
  send (codes "<html><title>Tiny Error</title>")
  send (codes "<body bgcolor=ffffff>\r\n")
  send (errnum ++ (codes ": " ++ (shortmsg ++ crlf)))
  send (codes "<p>" ++ (longmsg ++ (codes ": " ++ (cause ++ crlf))))
  send (codes "<hr><em>The Tiny Web server</em>\r\n")

-- The loop of `read_requesthdrs`, with fuel; `buf` is what the buffer holds.
unfoldable pub headers_loop : ℕ → Text → M (Unit {0})
headers_loop zero buf = fault
headers_loop (suc k) buf = elim (text_eq buf crlf) [
  | true ↦ pure tt
  | false ↦ do (got, buf') ← read_line buf; headers_loop k buf'
]

unfoldable pub read_requesthdrs : ℕ → Text → M (Unit {0})
unfolding headers_loop
read_requesthdrs k buf = do (got, buf') ← read_line buf; headers_loop k buf'

-- `serve_static(fd, filename, filesize)`; `mapped` is the file.
unfoldable pub serve_static : Text → ℤ → (ℤ → Option Text) → M Ending
unfolding get_filetype write_decimal
serve_static filename filesize mapped = do
  send (codes "HTTP/1.0 200 OK\r\n")
  send (codes "Server: Tiny Web Server\r\n")
  send (codes "Content-length: " ++ (write_int filesize ++ crlf))
  send (codes "Content-type: " ++ (get_filetype filename ++ (crlf ++ crlf)))
  elim (mapped filesize) [ none ↦ pure exited | some srcp ↦ send srcp >> pure returned ]

-- `serve_dynamic(fd, filename, cgiargs)`; `output` is what the child writes.
unfoldable pub serve_dynamic : Text → M (Unit {0})
serve_dynamic output = do
  send (codes "HTTP/1.0 200 OK\r\n")
  send (codes "Server: Tiny Web Server\r\n")
  send output

-- `sscanf(buf, "%s %s %s", method, uri, version)`, up to the first NUL; what is not read keeps its value. The version is
-- not used.
unfoldable pub scan_request : Text → (method uri : Text) → Text × Text
unfolding scan_word before
scan_request buf method uri = elim (scan_word (before buf 0)) [
  | none ↦ (method, uri)
  | some (m, r) ↦ elim (scan_word r) [ none ↦ (m, uri) | some (u, r') ↦ (m, u) ]
]

-- `clienterror` and `return`
unfoldable pub refuse : (cause errnum shortmsg longmsg : Text) → M Ending
unfolding clienterror
refuse cause errnum shortmsg longmsg = clienterror cause errnum shortmsg longmsg >> pure returned

-- The branches of `doit` behind `stat`.
unfoldable pub serve_file : Bool → Text → Text → File → M Ending
unfolding refuse serve_static serve_dynamic
serve_file true filename cgiargs f =
    if not f.is_regular || not f.can_read
    then refuse filename (codes "403") (codes "Forbidden") (codes "Tiny couldn't read the file")
    else serve_static filename (int_of f.size) f.mapped
serve_file false filename cgiargs f =
    if not f.is_regular || not f.can_run
    then refuse filename (codes "403") (codes "Forbidden")
        (codes "Tiny couldn't run the CGI program")
    else serve_dynamic (f.output cgiargs) >> pure returned

-- From `stat` on.
unfoldable pub serve_name : (Text → Option File) → Bool → Text → Text → M Ending
unfolding refuse serve_file
serve_name stat is_static filename cgiargs = elim (stat filename) [
  | none ↦ refuse filename (codes "404") (codes "Not found") (codes "Tiny couldn't find this file")
  | some f ↦ serve_file is_static filename cgiargs f
]

-- From `parse_uri` on.
unfoldable pub serve_uri : (Text → Option File) → Text → M Ending
unfolding parse_uri serve_name
serve_uri stat uri = elim (parse_uri uri) [
  | none ↦ fault
  | some (is_static, filename, cgiargs) ↦ serve_name stat is_static filename cgiargs
]

-- `doit(fd)`, over a file system and with `k` rounds of fuel for the headers. `buf`, `method`, `uri`
-- and `hdr` are what the buffers of `doit` and of `read_requesthdrs` hold at first.
unfoldable pub doit : (Text → Option File) → ℕ → (buf method uri hdr : Text) → M Ending
unfolding refuse read_requesthdrs serve_uri scan_request
doit stat k buf method uri hdr = do
  (got, line) ← read_line buf
  if not got then pure returned else do
    let (m, u) = scan_request line method uri
    if not (text_eq_case m (codes "GET"))
        then refuse m (codes "501") (codes "Not Implemented")
            (codes "Tiny does not implement this method")
        else (do read_requesthdrs k hdr; serve_uri stat u)
