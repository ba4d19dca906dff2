-- ===== src/Proxy/Tiny/Replies.antt =====
-- What tiny.c sends for a request.
use csapp_labs.Base.{
  ℕ, ◌<◌, ◌≡◌, refl, ap, ◌∙◌, Bool, true, false, ◌&&◌, ◌||◌, not, Option, some, List, ◌∷◌, ◌++◌,
  length, if◌then◌else◌, append_assoc, inl, inr, Bool-cases, Option-cases,
}
use csapp_labs.Base.Text.{Text, text_eq}
use csapp_labs.Base.Strings.{codes, text_eq_case}
use csapp_labs.Proxy.Net.{Conn, crlf, pure, ◌>>◌, bind-some, bind-none}
use csapp_labs.Proxy.Tiny.{
  File, Ending, returned, exited, M, int_of, write_int, get_filetype, clienterror, refuse,
  serve_static, serve_dynamic, serve_file, serve_name, serve_uri, read_requesthdrs, doit,
}
use csapp_labs.Proxy.Tiny.Headers.{after_blank, read_requesthdrs-after_blank}
use csapp_labs.Proxy.Tiny.Requests.{
  target, is_word, request_line, parse_uri-target, get_filetype-types, write_int-shown,
  scan_request-request_line,
}
use csapp_labs.Proxy.Tiny.Pages.{
  Answer, error_page, static_head, static_answer, dynamic_page, file_answer, target_answer,
  answered, got, reply,
}

abbrev with_sent : Conn → Answer → Option (Ending × Conn)
with_sent c (ending, t) = some (ending, record c { sent = c.sent ++ t })

assoc_three : (s a b d : Text) → ((s ++ a) ++ b) ++ d ≡ s ++ (a ++ (b ++ d))
assoc_three s a b d = simp (append_assoc)

assoc_four : (s a b d e : Text) → (((s ++ a) ++ b) ++ d) ++ e ≡ s ++ (a ++ (b ++ (d ++ e)))
assoc_four s a b d e = simp (append_assoc)

assoc_seven :
    (s a b d e f g h : Text)
    → ((((((s ++ a) ++ b) ++ d) ++ e) ++ f) ++ g) ++ h
      ≡ s ++ (a ++ (b ++ (d ++ (e ++ (f ++ (g ++ h))))))
assoc_seven s a b d e f g h = simp (append_assoc)

refuse-error_page :
    (cause errnum shortmsg longmsg : Text) (c : Conn)
    → refuse cause errnum shortmsg longmsg c
      ≡ with_sent c (returned, error_page cause errnum shortmsg longmsg)
unfolding refuse clienterror
refuse-error_page cause errnum shortmsg longmsg c =
    ap (λ t. some (returned, record c { sent = t })) (assoc_seven c.sent _ _ _ _ _ _ _)

-- The text that is sent for a file, with the type and the size as the program writes them.
head_with : Text → Text → Text → Text
head_with s kind size =
    (((s ++ codes "HTTP/1.0 200 OK\r\n") ++ codes "Server: Tiny Web Server\r\n")
      ++ (codes "Content-length: " ++ (size ++ crlf)))
    ++ (codes "Content-type: " ++ (kind ++ (crlf ++ crlf)))

head_with-static_head :
    (s filename : Text) (f : File)
    → head_with s (get_filetype filename) (write_int (int_of f.size)) ≡ s ++ static_head filename f
unfolding head_with
head_with-static_head s filename f =
    rw (get_filetype-types filename, write_int-shown f.size) (assoc_four s _ _ _ _)

serve_static-static_answer :
    (filename : Text) (f : File) (c : Conn)
    → serve_static filename (int_of f.size) f.mapped c ≡ with_sent c (static_answer filename f)
unfolding serve_static head_with
serve_static-static_answer filename f c = elim (Option-cases (f.mapped (int_of f.size))) [
  | inl e ↦
      rw (serve_static, static_answer, e)
        (ap (λ t. some (exited, record c { sent = t })) (head_with-static_head c.sent filename f))
  | inr (b, e) ↦
      rw (serve_static, static_answer, e)
        (ap (λ t. some (returned, record c { sent = t }))
          (ap (λ t. t ++ b) (head_with-static_head c.sent filename f) ∙ append_assoc c.sent _ b))
]

serve_dynamic-dynamic_page :
    (output : Text) (c : Conn)
    → (serve_dynamic output >> pure returned) c ≡ with_sent c (returned, dynamic_page output)
unfolding serve_dynamic
serve_dynamic-dynamic_page output c =
    ap (λ t. some (returned, record c { sent = t })) (assoc_three c.sent _ _ _)

-- A choice between two answers.
choose_answer :
    (a b : Bool) (x y : M Ending) (s t : Answer) (c : Conn)
    → x c ≡ with_sent c s
    → y c ≡ with_sent c t
    → (if not a || not b then x else y) c ≡ with_sent c (if a && b then t else s)
choose_answer true true x y s t c e f = f
choose_answer true false x y s t c e f = e
choose_answer false b x y s t c e f = e

serve_file-file_answer :
    (is_static : Bool) (filename cgiargs : Text) (f : File) (c : Conn)
    → serve_file is_static filename cgiargs f c
      ≡ with_sent c (file_answer is_static filename cgiargs (some f))
unfolding serve_file
serve_file-file_answer true filename cgiargs f c =
    choose_answer f.is_regular f.can_read _ _ _ _ c
      (refuse-error_page filename (codes "403") (codes "Forbidden")
        (codes "Tiny couldn't read the file") c)
      (serve_static-static_answer filename f c)
serve_file-file_answer false filename cgiargs f c =
    choose_answer f.is_regular f.can_run _ _ _ _ c
      (refuse-error_page filename (codes "403") (codes "Forbidden")
        (codes "Tiny couldn't run the CGI program") c)
      (serve_dynamic-dynamic_page (f.output cgiargs) c)

serve_name-file_answer :
    (stat : Text → Option File) (is_static : Bool) (filename cgiargs : Text) (c : Conn)
    → serve_name stat is_static filename cgiargs c
      ≡ with_sent c (file_answer is_static filename cgiargs (stat filename))
unfolding serve_name
serve_name-file_answer stat is_static filename cgiargs c = elim (Option-cases (stat filename)) [
  | inl e ↦
      rw (e, serve_name)
        (refuse-error_page filename (codes "404") (codes "Not found")
          (codes "Tiny couldn't find this file") c)
  | inr (f, e) ↦ rw (e, serve_name) (serve_file-file_answer is_static filename cgiargs f c)
]

serve_uri-target :
    (stat : Text → Option File) (uri : Text) (c : Conn)
    → serve_uri stat uri c ≡ answered c.sent c.lines (target_answer stat (target uri))
unfolding serve_uri
serve_uri-target stat uri c = elim (Option-cases (target uri)) [
  | inl e ↦ rw (serve_uri, parse_uri-target uri, e) refl
  | inr ((is_static, filename, cgiargs), e) ↦
      rw (serve_uri, parse_uri-target uri, e)
        (serve_name-file_answer stat is_static filename cgiargs c)
]

abbrev conn : List Text → Text → Conn
conn ls sent = record { lines = ls; sent = sent }

serve-got :
    (stat : Text → Option File) (k : ℕ) (hdr u sent : Text) (ls : List Text)
    → text_eq hdr crlf ≡ false
    → length ls < k
    → (read_requesthdrs k hdr >> serve_uri stat u) (conn ls sent) ≡ got stat sent u (after_blank ls)
serve-got stat k hdr u sent ls e n =
    let read = read_requesthdrs-after_blank (conn ls sent) k hdr e n in
    elim (Option-cases (after_blank ls)) [
      | inl f ↦ rw f (
          bind-none (read_requesthdrs k hdr) (λ _. serve_uri stat u) (conn ls sent)
            (read ∙ rw f refl))
      | inr (rs, f) ↦ rw f (
          bind-some (read_requesthdrs k hdr) (λ _. serve_uri stat u) (conn ls sent) (conn rs sent)
            tt (read ∙ rw f refl) (serve_uri-target stat u (conn rs sent)))
    ]

-- The branches of `doit` behind the request line.
served :
    (stat : Text → Option File) (k : ℕ) (hdr sent : Text) (ls : List Text) (mu : Text × Text)
    → text_eq hdr crlf ≡ false
    → length ls < k
    → (if not (text_eq_case mu.0 (codes "GET"))
          then refuse mu.0
              (codes "501")
              (codes "Not Implemented")
              (codes "Tiny does not implement this method")
          else (do read_requesthdrs k hdr; serve_uri stat mu.1))
        (conn ls sent)
      ≡ reply stat sent mu.0 mu.1 ls
served stat k hdr sent ls (m, u) e n = elim (Bool-cases (text_eq_case m (codes "GET"))) [
  | inl g ↦ rw g (serve-got stat k hdr u sent ls e n)
  | inr g ↦ rw g (
      refuse-error_page m (codes "501") (codes "Not Implemented")
        (codes "Tiny does not implement this method") (conn ls sent))
]

-- Given more rounds than there are lines, `doit` answers a request line, a method, a URI and a rest
-- with spaces between them, and the lines behind it as `reply` says. A method that is not GET, in
-- any case of the letters, gets an error page, with the headers left unread. Otherwise the input is
-- read up to the empty line and no further, and the URI is answered: a URI in which `cgi-bin` occurs
-- by the program of the name in front of the first `?`, run with what stands behind it, any other by
-- the file of that name, `home.html` in a directory, with its size and the type of its name. A name
-- that is not found, not regular or not permitted gets an error page. If the file cannot be opened
-- or mapped, the server ends behind the headers; if there is no empty line, `doit` does not return.
-- The method and the URI are nonempty words without NUL.
pub doit-reply :
    (stat : Text → Option File) (k : ℕ) (buf method uri hdr sent m u rest : Text) (ls : List Text)
    → is_word m ≡ true
    → is_word u ≡ true
    → text_eq hdr crlf ≡ false
    → length ls < k
    → doit stat k buf method uri hdr (record { lines = request_line m u rest ∷ ls; sent = sent })
      ≡ reply stat sent m u ls
unfolding doit
doit-reply stat k buf method uri hdr sent m u rest ls p q e n =
    rw (doit, scan_request-request_line m u rest method uri p q)
      (served stat k hdr sent ls (m, u) e n)
