-- ===== src/Proxy/Tiny/Pages.antt =====
-- The answers of tiny.c to requests: what is sent, and whether the call returns.
use csapp_labs.Base.{Bool, true, false, ◌&&◌, Option, none, some, List, ◌++◌, if◌then◌else◌}
use csapp_labs.Base.Text.{Text}
use csapp_labs.Base.Strings.{codes, text_eq_case}
use csapp_labs.Proxy.Net.{Conn, crlf}
use csapp_labs.Proxy.Tiny.{File, Ending, returned, exited, int_of}
use csapp_labs.Proxy.Tiny.Headers.{after_blank}
use csapp_labs.Proxy.Tiny.Requests.{target, types, type_in, shown}

abbrev pub Answer : Type 0
Answer = Ending × Text

-- The page of an error.
abbrev pub error_page : (cause errnum shortmsg longmsg : Text) → Text
error_page cause errnum shortmsg longmsg =
    (codes "HTTP/1.0 " ++ (errnum ++ (codes " " ++ (shortmsg ++ crlf))))
    ++ (codes "Content-type: text/html\r\n\r\n"
        ++ (codes "<html><title>Tiny Error</title>"
            ++ (codes "<body bgcolor=ffffff>\r\n"
                ++ ((errnum ++ (codes ": " ++ (shortmsg ++ crlf)))
                    ++ ((codes "<p>" ++ (longmsg ++ (codes ": " ++ (cause ++ crlf))))
                        ++ codes "<hr><em>The Tiny Web server</em>\r\n")))))

-- The headers of a file.
abbrev pub static_head : Text → File → Text
static_head filename f =
    codes "HTTP/1.0 200 OK\r\n"
    ++ (codes "Server: Tiny Web Server\r\n"
        ++ ((codes "Content-length: " ++ (shown f.size ++ crlf))
            ++ (codes "Content-type: " ++ (type_in types filename ++ (crlf ++ crlf)))))

-- The headers and the bytes of the file; the headers only, and the end of the server, if the file
-- cannot be mapped.
abbrev pub static_answer : Text → File → Answer
static_answer filename f = elim (f.mapped (int_of f.size)) [
  | none ↦ (exited, static_head filename f)
  | some b ↦ (returned, static_head filename f ++ b)
]

abbrev pub dynamic_page : Text → Text
dynamic_page output = codes "HTTP/1.0 200 OK\r\n" ++ (codes "Server: Tiny Web Server\r\n" ++ output)

-- The answer to a request for a file.
abbrev pub file_answer : Bool → Text → Text → Option File → Answer
file_answer is_static filename cgiargs none = (
  returned,
  error_page filename (codes "404") (codes "Not found") (codes "Tiny couldn't find this file"),
)
file_answer true filename cgiargs (some f) =
    if f.is_regular && f.can_read then static_answer filename f else (
      returned,
      error_page filename (codes "403") (codes "Forbidden") (codes "Tiny couldn't read the file"),
    )
file_answer false filename cgiargs (some f) =
    if f.is_regular && f.can_run then (returned, dynamic_page (f.output cgiargs)) else (
      returned,
      error_page filename (codes "403") (codes "Forbidden")
          (codes "Tiny couldn't run the CGI program"),
    )

-- The answer to a GET request for what a URI stands for; `none` is a read in front of the empty
-- string.
abbrev pub target_answer : (Text → Option File) → Option (Bool × Text × Text) → Option Answer
target_answer stat none = none
target_answer stat (some (is_static, filename, cgiargs)) =
    some (file_answer is_static filename cgiargs (stat filename))

-- The connection behind an answer, with the lines that are left.
abbrev pub answered : Text → List Text → Option Answer → Option (Ending × Conn)
answered sent ls none = none
answered sent ls (some (ending, t)) = some (ending, record { lines = ls; sent = sent ++ t })

-- Behind the headers of a GET request, if they have an end.
abbrev pub got : (Text → Option File) → Text → Text → Option (List Text) → Option (Ending × Conn)
got stat sent u none = none
got stat sent u (some ls) = answered sent ls (target_answer stat (target u))

-- The answer to a method, a URI and the lines behind the request line: an error page if the method
-- is not GET; the answer to the URI once the empty line is read, and no end if there is none.
abbrev pub reply :
    (Text → Option File) → (sent method uri : Text) → List Text → Option (Ending × Conn)
reply stat sent m u ls =
    if text_eq_case m (codes "GET")
    then got stat sent u (after_blank ls)
    else answered sent ls (
        some (
          returned,
          error_page m (codes "501") (codes "Not Implemented")
              (codes "Tiny does not implement this method"),
        ))
