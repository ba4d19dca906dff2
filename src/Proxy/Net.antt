-- ===== src/Proxy/Net.antt =====
-- A connection, as the programs of proxy/lab use it through the Rio functions of csapp.c: the lines
-- that are still to come, and the bytes that were sent. `Rio_readlineb` puts the next line into the
-- caller's buffer; at the end of the input it returns 0 and leaves the buffer as it is.
use csapp_labs.Base.{Bool, true, false, List, [], ◌∷◌, ◌++◌}
use csapp_labs.Base.Text.{Text}
use csapp_labs.Base.{some}
use csapp_labs.Base.State.{Cmd}
pub use csapp_labs.Base.State.{pure, fault, ◌>>=◌, ◌>>◌, bind-some, bind-none}

pub record Conn : Type 0 where
  pub lines : List Text
  pub sent : Text

-- What the buffer holds after a read, and whether there was a line.
abbrev pub line_or : Text → List Text → Text
line_or buf [] = buf
line_or buf (l ∷ ls) = l

abbrev pub more : List Text → Bool
more [] = false
more (l ∷ ls) = true

abbrev pub rest_of : List Text → List Text
rest_of [] = []
rest_of (l ∷ ls) = ls

-- `Rio_readlineb(rp, buf, MAXLINE)`
abbrev pub read_line : Text → Cmd Conn (Bool × Text)
read_line buf c = some ((more c.lines, line_or buf c.lines), record c { lines = rest_of c.lines })

-- `Rio_writen(fd, s, strlen(s))`
abbrev pub send : Text → Cmd Conn (Unit {0})
send s c = some (tt, record c { sent = c.sent ++ s })

-- "\r\n"
abbrev pub crlf : Text
crlf = 13 ∷ 10 ∷ []
