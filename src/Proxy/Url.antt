-- ===== src/Proxy/Url.antt =====
-- proxy/lab/proxy.c: `parseUrl` and `parseVersion`, on buffers that are lists of bytes.
pub mod RoundTrip
mod Tests
use csapp_labs.Base.{
  ℕ, zero, suc, ◌-◌, ◌<◌, ◌≡◌, Bool, true, false, not, Option, none, some, List, [], ◌∷◌, ◌++◌,
  ◌==◌, ltb, leb, if◌then◌else◌, length,
}
use csapp_labs.Base.Text.{Text}
use csapp_labs.Base.Strings.{codes, strstr, strchr, before, starts_with_case, text_eq_case}

-- The C string in a buffer.
abbrev pub c_string : Text → Text
c_string buf = before buf 0

abbrev pub drop : ℕ → Text → Text
drop zero s = s
drop (suc n) [] = []
drop (suc n) (c ∷ s) = drop n s

-- `strncpy(buf, s, strlen(s))`: the bytes of `s`, with no NUL behind them, over those of the buffer.
abbrev pub overwrite : Text → Text → Text
overwrite buf s = s ++ drop (length s) buf

-- The buffers that `parseUrl` writes.
pub record Buffers : Type 0 where
  pub url : Text
  pub uri : Text
  pub host : Text
  pub port : Text

-- `strcpy(buf, s)`
abbrev pub copy_string : Text → Text → Text
copy_string buf s = overwrite buf (s ++ (0 ∷ []))

-- The end of `parseUrl`, for what follows `://` and the rest of it from the first slash on. `none`
-- is a `strncpy` of a negative length, which is a huge one.
unfoldable pub split_host : Text → Text → Buffers → Option (Bool × Buffers)
unfolding strchr before
split_host p uri_start b =
    let c = record b { uri = copy_string b.uri uri_start } in
    elim (strchr p b':') [
      | none ↦ some (true, record c { host = overwrite b.host (before p b'/') })
      | some colon ↦
          if ltb (length (before p b':')) (length (before p b'/'))
          then some (
            true,
            record c {
              host = overwrite b.host (before p b':');
              port = overwrite b.port (before (drop 1 colon) b'/');
            },
          )
          else none
    ]

-- From `p += 3` on; without a slash the end of the string is overwritten.
unfoldable pub split_url : Text → Buffers → Option (Bool × Buffers)
unfolding split_host
split_url p b = elim (strchr p b'/') [
  | none ↦
      let behind = drop (suc (length (c_string b.url))) b.url in
      let tail = b'/' ∷ c_string behind in
      split_host (p ++ tail) tail (record b { url = c_string b.url ++ (b'/' ∷ behind) })
  | some uri_start ↦ split_host p uri_start b
]

-- `parseUrl(url, uri, host, port)`: whether it returns 0, and the buffers.
unfoldable pub parse_url : Buffers → Option (Bool × Buffers)
unfolding strstr split_url
parse_url b = elim (strstr (c_string b.url) (codes "://")) [
  | none ↦
      some (true, record b { host = overwrite b.host (0 ∷ []); port = overwrite b.port (0 ∷ []) })
  | some p ↦
      if not (starts_with_case (codes "http://") (c_string b.url))
      then some (false, b)
      else split_url (drop 3 p) b
]

-- The string with another last byte.
abbrev pub set_last : ℕ → Text → Text
set_last c [] = []
set_last c (d ∷ []) = c ∷ []
set_last c (d ∷ e ∷ s) = d ∷ set_last c (e ∷ s)

-- `parseVersion(v)`: the string that is left in `v`, or `none` for -1.
unfoldable pub parse_version : Text → Option Text
parse_version v = if text_eq_case v (codes "http/1.1") then some (set_last b'0' v) else none
