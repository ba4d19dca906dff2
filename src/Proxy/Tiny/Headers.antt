-- ===== src/Proxy/Tiny/Headers.antt =====
-- When `read_requesthdrs` of tiny.c comes to an end.
use csapp_labs.Base.{
  ℕ, zero, suc, ◌<◌, ◌≡◌, refl, true, false, Option, none, some, List, [], ◌∷◌, inl, inr, arith,
  length, Bool-cases, if◌then◌else◌, ◌∙◌,
}
use csapp_labs.Base.Text.{Text, text_eq}
use csapp_labs.Proxy.Net.{Conn, crlf}
use csapp_labs.Proxy.Tiny.{headers_loop, read_requesthdrs}

-- The lines behind the first empty one.
abbrev pub after_blank : List Text → Option (List Text)
after_blank [] = none
after_blank (l ∷ ls) = if text_eq l crlf then some ls else after_blank ls

abbrev pub with_lines : Conn → Option (List Text) → Option (Unit {0} × Conn)
with_lines c none = none
with_lines c (some ls) = some (tt, record c { lines = ls })

headers_loop-crlf :
    (c : Conn) (k : ℕ) (buf : Text)
    → text_eq buf crlf ≡ true
    → headers_loop (suc k) buf c ≡ some (tt, c)
unfolding headers_loop
headers_loop-crlf c k buf e = rw (headers_loop, e) refl

headers_loop-suc :
    (c : Conn) (k : ℕ) (buf : Text)
    → text_eq buf crlf ≡ false
    → headers_loop (suc k) buf c ≡ read_requesthdrs k buf c
unfolding headers_loop read_requesthdrs
headers_loop-suc c k buf e = rw (headers_loop, e) refl

abbrev conn : List Text → Text → Conn
conn ls sent = record { lines = ls; sent = sent }

-- At the end of the input the buffer is never written again.
headers_loop-end :
    (k : ℕ) (buf sent : Text) → text_eq buf crlf ≡ false → headers_loop k buf (conn [] sent) ≡ none
unfolding headers_loop read_requesthdrs
headers_loop-end zero buf sent e = refl
headers_loop-end (suc k) buf sent e =
    headers_loop-suc (conn [] sent) k buf e ∙ headers_loop-end k buf sent e

same :
    (sent : Text) (ls : List Text) (l : Text) (r : Option (List Text))
    → with_lines (conn ls sent) r ≡ with_lines (conn (l ∷ ls) sent) r
same sent ls l none = refl
same sent ls l (some rs) = refl

read_requesthdrs-lines :
    (k : ℕ) (buf sent : Text) (ls : List Text)
    → text_eq buf crlf ≡ false
    → length ls < k
    → read_requesthdrs k buf (conn ls sent) ≡ with_lines (conn ls sent) (after_blank ls)
unfolding read_requesthdrs
read_requesthdrs-lines zero buf sent ls e m = absurd (omega arith)
read_requesthdrs-lines (suc k) buf sent [] e m = headers_loop-end (suc k) buf sent e
read_requesthdrs-lines (suc k) buf sent (l ∷ ls) e m = elim (Bool-cases (text_eq l crlf)) [
  | inl h ↦ headers_loop-crlf (conn ls sent) k l h ∙ rw h refl
  | inr h ↦
      headers_loop-suc (conn ls sent) k l h
      ∙ read_requesthdrs-lines k l sent ls h (omega arith)
      ∙ rw h (same sent ls l (after_blank ls))
]

-- `read_requesthdrs`, given more rounds than there are lines, reads up to the first empty line and
-- leaves what follows it, and sends nothing. If there is no empty line it never returns, however
-- many rounds it is given: at the end of the input the buffer keeps the last line.
pub read_requesthdrs-after_blank :
    (c : Conn) (k : ℕ) (buf : Text)
    → text_eq buf crlf ≡ false
    → length c.lines < k
    → read_requesthdrs k buf c ≡ with_lines c (after_blank c.lines)
read_requesthdrs-after_blank c k buf e m = read_requesthdrs-lines k buf c.sent c.lines e m
