-- ===== src/Proxy/Tiny/Tests.antt =====
-- The server at concrete requests, and the instances of the theorems.
use csapp_labs.Base.{
  ◌≡◌, refl, true, false, Option, none, some, List, [], ◌∷◌, arith, if◌then◌else◌,
}
use csapp_labs.Base.Text.{Text, text_eq}
use csapp_labs.Base.Strings.{codes, strstr}
use csapp_labs.Base.Decimal.{write_decimal}
use csapp_labs.Proxy.Net.{crlf}
use csapp_labs.Proxy.Tiny.{File, returned, exited, parse_uri, read_requesthdrs, doit}
use csapp_labs.Proxy.Tiny.Uri.{parse_uri-query}
use csapp_labs.Proxy.Tiny.Headers.{read_requesthdrs-after_blank}
use csapp_labs.Proxy.Tiny.Replies.{doit-reply}

parse_uri-query_example :
    parse_uri (codes "/cgi-bin/adder?1&2") ≡ some (false, codes "./cgi-bin/adder", codes "1&2")
unfolding strstr
parse_uri-query_example = parse_uri-query (codes "/cgi-bin/adder") (codes "1&2") refl refl

home : parse_uri (codes "/") ≡ some (true, codes "./home.html", [])
unfolding parse_uri
home = refl

abbrev page : File
page = record {
  is_regular = true;
  can_read = true;
  can_run = false;
  size = 12;
  mapped = λ n. some (codes "<p>Hello</p>");
  output = λ query. [];
}

-- A file of no bytes cannot be mapped.
abbrev nothing : File
nothing = record {
  is_regular = true;
  can_read = true;
  can_run = false;
  size = 0;
  mapped = λ n. none;
  output = λ query. [];
}

abbrev site : Text → Option File
site name =
    if text_eq name (codes "./home.html")
    then some page
    else (if text_eq name (codes "./empty.gif") then some nothing else none)

abbrev request : List Text
request = codes "Host: a\r\n" ∷ crlf ∷ codes "next\r\n" ∷ []

read_requesthdrs-after_blank_example :
    read_requesthdrs 4 [] (record { lines = request; sent = [] })
    ≡ some (tt, record { lines = codes "next\r\n" ∷ []; sent = [] })
read_requesthdrs-after_blank_example =
    read_requesthdrs-after_blank (record { lines = request; sent = [] }) 4 [] refl (omega arith)

-- The server ends behind the headers of an empty file.
empty_file :
    doit site 4 [] [] [] []
      (record { lines = codes "get /empty.gif HTTP/1.0\r\n" ∷ request; sent = [] })
    ≡ some (
      exited,
      record {
        lines = codes "next\r\n" ∷ [];
        sent =
            codes
              "HTTP/1.0 200 OK\r\nServer: Tiny Web Server\r\nContent-length: 0\r\nContent-type: image/gif\r\n\r\n";
      },
    )
unfolding doit
empty_file = refl

doit-reply_example :
    doit site 4 [] [] [] [] (record { lines = codes "GET / HTTP/1.0\r\n" ∷ request; sent = [] })
    ≡ some (
      returned,
      record {
        lines = codes "next\r\n" ∷ [];
        sent =
            codes
              "HTTP/1.0 200 OK\r\nServer: Tiny Web Server\r\nContent-length: 12\r\nContent-type: text/html\r\n\r\n<p>Hello</p>";
      },
    )
unfolding write_decimal
doit-reply_example =
    doit-reply site 4 [] [] [] [] [] (codes "GET") (codes "/") (codes "HTTP/1.0\r\n") request refl
      refl refl (omega arith)
