-- ===== src/Proxy/Doit/Headers.antt =====
-- The request headers that proxy/lab/proxy.c passes on.
use Prim.Native.String.{String}
use csapp_labs.Base.{
  ℕ, zero, suc, ◌<◌, ◌≡◌, refl, ap, ◌∙◌, sym, Bool, true, false, not, ◌&&◌, ◌||◌, Option, none,
  some, List, [], ◌∷◌, ◌++◌, append_assoc, append-nil, arith, length, Bool-cases, inl, inr,
  if◌then◌else◌,
}
use csapp_labs.Base.Text.{Text, text_eq}
use csapp_labs.Base.Strings.{codes, strstr, is_some, strstr-suffix}
use csapp_labs.Proxy.Net.{crlf, line_or, rest_of}
use csapp_labs.Proxy.Url.{c_string}
use csapp_labs.Proxy.Doit.{Proxy, Seen, note_header, forward_headers}

-- The calls see a line up to its first NUL; the empty line ends the headers.
abbrev is_blank : Text → Bool
is_blank l = text_eq (c_string l) crlf

-- The lines before the empty one, and the lines behind it, if there is one.
abbrev pub head_lines : List Text → List Text
head_lines [] = []
head_lines (l ∷ ls) = if is_blank l then [] else c_string l ∷ head_lines ls

abbrev pub behind_head : List Text → Option (List Text)
behind_head [] = none
behind_head (l ∷ ls) = if is_blank l then some ls else behind_head ls

abbrev pub concat : List Text → Text
concat [] = []
concat (l ∷ ls) = l ++ concat ls

-- A line names a header if the name occurs anywhere in it.
abbrev pub names : String → Text → Bool
names header l = is_some (strstr l (codes header))

abbrev pub any_line : (Text → Bool) → List Text → Bool
any_line p [] = false
any_line p (l ∷ ls) = p l || any_line p ls

-- What is known of the headers behind the lines `ls`. A line counts for the first of the names `Host:`,
-- `User-Agent:` and `Connection:` that it has, and `proxy_conn` is never set, since a line with
-- `Proxy-Connection:` has `Connection:` too.
abbrev pub seen_in : List Text → Seen → Seen
seen_in ls f = record {
  host = f.host || any_line (names "Host:") ls;
  ua = f.ua || any_line (λ l. not (names "Host:" l) && names "User-Agent:" l) ls;
  conn =
      f.conn
      || any_line
          (λ l. not (names "Host:" l) && (not (names "User-Agent:" l) && names "Connection:" l)) ls;
  proxy_conn = f.proxy_conn;
}

-- The flags as the loop sets them, line by line.
abbrev head_seen : List Text → Seen → Seen
head_seen [] f = f
head_seen (l ∷ ls) f = if is_blank l then f else head_seen ls (note_header (c_string l) f)

-- The proxy with other lines to come from the client, and another text sent to the server.
abbrev pub with_io : Proxy → List Text → Text → Proxy
with_io s ls t = record s {
  client = record s.client { lines = ls };
  server = record s.server { sent = t };
}

abbrev pub passed_on : Proxy → Seen → Text → Option (List Text) → Option (Seen × Proxy)
passed_on s f t none = none
passed_on s f t (some ls) = some (f, with_io s ls t)

forward_headers-crlf :
    (k : ℕ) (buf : Text) (f : Seen) (s : Proxy)
    → is_blank buf ≡ true
    → forward_headers (suc k) buf f s ≡ some (f, s)
unfolding forward_headers
forward_headers-crlf k buf f s e = rw (forward_headers, e) refl

forward_headers-suc :
    (k : ℕ) (buf t : Text) (f : Seen) (s : Proxy) (ls : List Text)
    → is_blank buf ≡ false
    → forward_headers (suc k) buf f (with_io s ls t)
      ≡ forward_headers k
          (line_or buf ls)
          (note_header (c_string buf) f)
          (with_io s (rest_of ls) (t ++ c_string buf))
unfolding forward_headers
forward_headers-suc k buf t f s ls e = rw (forward_headers, e) refl

forward_headers-end :
    (k : ℕ) (buf t : Text) (f : Seen) (s : Proxy)
    → is_blank buf ≡ false
    → forward_headers k buf f (with_io s [] t) ≡ none
unfolding forward_headers
forward_headers-end zero buf t f s e = refl
forward_headers-end (suc k) buf t f s e =
    forward_headers-suc k buf t f s [] e
    ∙ forward_headers-end k buf (t ++ c_string buf) (note_header (c_string buf) f) s e

forward_headers-blank :
    (k : ℕ) (buf t : Text) (f : Seen) (s : Proxy) (ls : List Text)
    → is_blank buf ≡ true
    → forward_headers (suc k) buf f (with_io s ls t)
      ≡ passed_on s
          (head_seen (buf ∷ ls) f)
          (t ++ concat (head_lines (buf ∷ ls)))
          (behind_head (buf ∷ ls))
forward_headers-blank k buf t f s ls e =
    forward_headers-crlf k buf f (with_io s ls t) e
    ∙ rw e (ap (λ u. some (f, with_io s ls u)) (sym (append-nil t)))

forward_headers-with :
    (k : ℕ) (buf t : Text) (f : Seen) (s : Proxy) (ls : List Text)
    → length ls < k
    → forward_headers k buf f (with_io s ls t)
      ≡ passed_on s
          (head_seen (buf ∷ ls) f)
          (t ++ concat (head_lines (buf ∷ ls)))
          (behind_head (buf ∷ ls))
forward_headers-with zero buf t f s ls m = absurd (omega arith)
forward_headers-with (suc k) buf t f s [] m = elim (Bool-cases (is_blank buf)) [
  | inl e ↦ forward_headers-blank k buf t f s [] e
  | inr e ↦ forward_headers-end (suc k) buf t f s e ∙ rw e refl
]
forward_headers-with (suc k) buf t f s (l ∷ ls) m = elim (Bool-cases (is_blank buf)) [
  | inl e ↦ forward_headers-blank k buf t f s (l ∷ ls) e
  | inr e ↦
      forward_headers-suc k buf t f s (l ∷ ls) e
      ∙ forward_headers-with k l (t ++ c_string buf) (note_header (c_string buf) f) s ls
          (omega arith)
      ∙ rw e (
          ap
            (λ u.
              passed_on s (head_seen (l ∷ ls) (note_header (c_string buf) f)) u
                (behind_head (l ∷ ls)))
            (append_assoc t (c_string buf) (concat (head_lines (l ∷ ls)))))
]

or_true : (b : Bool) → (b || true) ≡ true
or_true true = refl
or_true false = refl

flags :
    (h u c p a b d : Bool) (f : Seen)
    → (p ≡ true → c ≡ true)
    → (let g =
          if h
          then record f { host = true }
          else if u
          then record f { ua = true }
          else if c
          then record f { conn = true }
          else if p
          then record f { proxy_conn = true }
          else f in
        ◌≡◌ {A = Seen}
          (record {
            host = g.host || a;
            ua = g.ua || b;
            conn = g.conn || d;
            proxy_conn = g.proxy_conn;
          })
          (record {
            host = f.host || (h || a);
            ua = f.ua || ((not h && u) || b);
            conn = f.conn || ((not h && (not u && c)) || d);
            proxy_conn = f.proxy_conn;
          }))
flags true u c p a b d f k = rw (or_true f.host) refl
flags false true c p a b d f k = rw (or_true f.ua) refl
flags false false true p a b d f k = rw (or_true f.conn) refl
flags false false false true a b d f k = absurd (ground (arith, k refl))
flags false false false false a b d f k = refl

seen_in-note_header :
    (l : Text) (ls : List Text) (f : Seen) → seen_in ls (note_header l f) ≡ seen_in (l ∷ ls) f
unfolding note_header
seen_in-note_header l ls f =
    flags (names "Host:" l) (names "User-Agent:" l) (names "Connection:" l)
      (names "Proxy-Connection:" l) _ _ _ f (strstr-suffix (codes "Proxy-") (codes "Connection:") l)

or_false : (b : Bool) → (b || false) ≡ b
or_false true = refl
or_false false = refl

seen_in-nil : (f : Seen) → f ≡ seen_in [] f
seen_in-nil f = rw (or_false f.host, or_false f.ua, or_false f.conn) refl

head_seen-seen_in : (ls : List Text) (f : Seen) → head_seen ls f ≡ seen_in (head_lines ls) f
head_seen-seen_in [] f = seen_in-nil f
head_seen-seen_in (l ∷ ls) f = elim (Bool-cases (is_blank l)) [
  | inl e ↦ rw e (seen_in-nil f)
  | inr e ↦ rw e (
      head_seen-seen_in ls (note_header (c_string l) f)
      ∙ seen_in-note_header (c_string l) (head_lines ls) f)
]

-- The loop over the headers, given more rounds than there are lines, sends every line before the
-- first empty one to the server, up to its first NUL, in order; sets the flags of `Host:`,
-- `User-Agent:` and `Connection:` as these lines say, a line counting for the first of them that it
-- has, and never the flag of `Proxy-Connection:`; and leaves the lines behind the empty one. If there
-- is no empty line it never returns.
pub forward_headers-passed_on :
    (s : Proxy) (k : ℕ) (buf : Text) (f : Seen)
    → length s.client.lines < k
    → forward_headers k buf f s
      ≡ passed_on s
          (seen_in (head_lines (buf ∷ s.client.lines)) f)
          (s.server.sent ++ concat (head_lines (buf ∷ s.client.lines)))
          (behind_head (buf ∷ s.client.lines))
forward_headers-passed_on s k buf f m =
    forward_headers-with k buf s.server.sent f s s.client.lines m
    ∙ ap
        (λ g.
          passed_on s g (s.server.sent ++ concat (head_lines (buf ∷ s.client.lines)))
            (behind_head (buf ∷ s.client.lines)))
        (head_seen-seen_in (buf ∷ s.client.lines) f)
