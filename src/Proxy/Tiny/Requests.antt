-- ===== src/Proxy/Tiny/Requests.antt =====
-- What a request line asks of tiny.c, written without the string functions of the program.
use csapp_labs.Base.{
  ℕ, ◌-◌, ◌%◌, ◌^◌, ltb, ◌≡◌, refl, ap, ◌∙◌, Bool, true, false, ◌&&◌, ◌||◌, Option, none, some,
  List, [], ◌∷◌, ◌++◌, ◌==◌, if◌then◌else◌, inl, inr, Bool-cases, Option-cases, arith, sym, ap₂,
}
use csapp_labs.Base.Text.{Text}
use csapp_labs.Base.Strings.{
  codes, starts_with, strstr, is_some, strchr, before, no_byte, is_space, all_plain, skip_space,
  scan_word, split_word-append,
}
use csapp_labs.Base.Decimal.{write_decimal}
use csapp_labs.Proxy.Tiny.{
  parse_uri, get_filetype, ends_in_slash, drop_first, scan_request, int_of, write_int,
}

-- A text occurs in another one.
abbrev pub occurs : Text → Text → Bool
occurs p [] = starts_with p []
occurs p (c ∷ s) = starts_with p (c ∷ s) || occurs p s

-- The file that a URI names: a directory stands for its `home.html`.
abbrev pub completed : Text → Option Text
completed [] = none
completed (c ∷ []) = some (c ∷ (if c == b'/' then codes "home.html" else []))
completed (c ∷ d ∷ s) = elim (completed (d ∷ s)) [ none ↦ none | some f ↦ some (c ∷ f) ]

-- What stands before the first `?` and behind it.
abbrev pub cut : Text → Text × Text
cut [] = ([], [])
cut (c ∷ s) = if c == b'?' then ([], s) else (let (path, query) = cut s in (c ∷ path, query))

-- Whether a URI asks for a file, its name, and the arguments if it is a program.
abbrev pub target : Text → Option (Bool × Text × Text)
target u =
    if occurs (codes "cgi-bin") u
    then some (false, codes "." ++ (cut u).0, (cut u).1)
    else elim (completed u) [ none ↦ none | some f ↦ some (true, codes "." ++ f, []) ]

-- The types of content, the first of which applies.
abbrev pub types : List (Text × Text)
types =
    (codes ".html", codes "text/html")
    ∷ (codes ".gif", codes "image/gif")
    ∷ (codes ".png", codes "image/png")
    ∷ (codes ".jpg", codes "image/jpeg")
    ∷ []

abbrev pub type_in : List (Text × Text) → Text → Text
type_in [] name = codes "text/plain"
type_in ((extension, t) ∷ ts) name = if occurs extension name then t else type_in ts name

-- A size as `%d` of an `int` prints it.
abbrev pub shown : ℕ → Text
shown n =
    if ltb (n % 2 ^ 32) (2 ^ 31)
    then write_decimal (n % 2 ^ 32)
    else b'-' ∷ write_decimal (2 ^ 32 - n % 2 ^ 32)

-- A nonempty word: no white space and no NUL.
abbrev pub is_word : Text → Bool
is_word [] = false
is_word (c ∷ s) = all_plain (c ∷ s) && no_byte 0 (c ∷ s)

strstr-occurs : (s p : Text) → is_some (strstr s p) ≡ occurs p s
unfolding strstr
strstr-occurs [] p = ground arith
strstr-occurs (c ∷ s) p = ground (arith, strstr-occurs s p)

completed-ends :
    (u : Text)
    → completed u ≡ elim (ends_in_slash u) [
      | none ↦ none
      | some slash ↦ some (u ++ (if slash then codes "home.html" else []))
    ]
completed-ends [] = refl
completed-ends (c ∷ []) = refl
completed-ends (c ∷ d ∷ s) = elim (Option-cases (ends_in_slash (d ∷ s))) [
  | inl e ↦ rw (completed-ends (d ∷ s), e) refl
  | inr (slash, e) ↦ rw (completed-ends (d ∷ s), e) refl
]

before-cut : (u : Text) → before u b'?' ≡ (cut u).0
unfolding before
before-cut [] = refl
before-cut (c ∷ s) = ground (arith, before-cut s)

before-strchr : (u : Text) → strchr u b'?' ≡ none → before u b'?' ≡ u
unfolding before strchr
before-strchr [] e = refl
before-strchr (c ∷ s) e = ground (arith, before-strchr s)

abbrev behind : Option Text → Text
behind none = []
behind (some p) = drop_first p

strchr-cut : (u : Text) → behind (strchr u b'?') ≡ (cut u).1
unfolding strchr behind
strchr-cut [] = refl
strchr-cut (c ∷ s) = elim (Bool-cases (c == b'?')) [
  | inl e ↦ rw e refl
  | inr e ↦ rw e (strchr-cut s)
]

abbrev Target : Type 0
Target = Option (Bool × Text × Text)

abbrev a_file : Text → Target
a_file f = some (true, codes "." ++ f, [])

abbrev a_program : Text × Text → Target
a_program (path, query) = some (false, codes "." ++ path, query)

file_part :
    (u : Text)
    → ◌≡◌ {A = Target}
        (elim (ends_in_slash u) [
          | none ↦ none
          | some slash ↦ a_file (u ++ (if slash then codes "home.html" else []))
        ])
        (elim (completed u) [ none ↦ none | some f ↦ a_file f ])
file_part u = elim (Option-cases (ends_in_slash u)) [
  | inl e ↦ rw (completed-ends u, e) refl
  | inr (slash, e) ↦ rw (completed-ends u, e) refl
]

program_part :
    (u : Text)
    → ◌≡◌ {A = Target}
        (elim (strchr u b'?') [
          | none ↦ a_program (u, [])
          | some ptr ↦ a_program (before u b'?', drop_first ptr)
        ])
        (a_program (cut u))
program_part u = elim (Option-cases (strchr u b'?')) [
  | inl e ↦ rw e (
      ap₂ (λ a b. a_program (a, b)) (sym (before-strchr u e) ∙ before-cut u)
        (sym (ap behind e) ∙ strchr-cut u))
  | inr (ptr, e) ↦
      rw e (ap₂ (λ a b. a_program (a, b)) (before-cut u) (sym (ap behind e) ∙ strchr-cut u))
]

pub parse_uri-target : (u : Text) → parse_uri u ≡ target u
unfolding parse_uri
parse_uri-target u = elim (Bool-cases (occurs (codes "cgi-bin") u)) [
  | inl e ↦ rw (strstr-occurs u (codes "cgi-bin"), e) (program_part u)
  | inr e ↦ rw (strstr-occurs u (codes "cgi-bin"), e) (file_part u)
]

pub get_filetype-types : (name : Text) → get_filetype name ≡ type_in types name
unfolding get_filetype
get_filetype-types name =
    rw
      (
        strstr-occurs name (codes ".html"),
        strstr-occurs name (codes ".gif"),
        strstr-occurs name (codes ".png"),
        strstr-occurs name (codes ".jpg"),
      )
      refl

pub write_int-shown : (n : ℕ) → write_int (int_of n) ≡ shown n
write_int-shown n = elim (Bool-cases (ltb (n % 2 ^ 32) (2 ^ 31))) [
  | inl h ↦ rw h refl
  | inr h ↦ rw h (ap (λ m. b'-' ∷ write_decimal m) (omega arith))
]

before-word : (s t : Text) (c : ℕ) → no_byte c s ≡ true → before (s ++ t) c ≡ s ++ before t c
unfolding before
before-word [] t c h = refl
before-word (d ∷ s) t c h = ground (arith, before-word s t c)

is_word-plain : (w : Text) → is_word w ≡ true → all_plain w ≡ true
is_word-plain [] h = refl
is_word-plain (c ∷ w) h = ground arith

is_word-no_byte : (w : Text) → is_word w ≡ true → no_byte 0 w ≡ true
is_word-no_byte [] h = refl
is_word-no_byte (c ∷ w) h = ground arith

scan_word_behind : (s : Text) → scan_word (b' ' ∷ s) ≡ scan_word s
unfolding scan_word skip_space
scan_word_behind s = refl

scan_word-word : (w r : Text) → is_word w ≡ true → scan_word (w ++ (b' ' ∷ r)) ≡ some (w, b' ' ∷ r)
unfolding scan_word skip_space
scan_word-word [] r h = absurd (ground arith)
scan_word-word (c ∷ w) r h = elim (Bool-cases (is_space c)) [
  | inl e ↦ absurd (ground arith)
  | inr e ↦
      rw (scan_word, skip_space, e)
        (ap some (split_word-append (c ∷ w) r b' ' (is_word-plain (c ∷ w) h) refl))
]

-- A request line, of which the version is not looked at.
abbrev pub request_line : (method uri rest : Text) → Text
request_line m u rest = m ++ (b' ' ∷ (u ++ (b' ' ∷ rest)))

before-request_line :
    (m u rest : Text)
    → is_word m ≡ true
    → is_word u ≡ true
    → before (request_line m u rest) 0 ≡ request_line m u (before rest 0)
unfolding before
before-request_line m u rest h g =
    before-word m (b' ' ∷ (u ++ (b' ' ∷ rest))) 0 (is_word-no_byte m h)
    ∙ ap (λ t. m ++ (b' ' ∷ t)) (before-word u (b' ' ∷ rest) 0 (is_word-no_byte u g))

pub scan_request-request_line :
    (m u rest method uri : Text)
    → is_word m ≡ true
    → is_word u ≡ true
    → scan_request (request_line m u rest) method uri ≡ (m, u)
unfolding scan_request
scan_request-request_line m u rest method uri h g =
    rw
      (
        scan_request,
        before-request_line m u rest h g,
        scan_word-word m (u ++ (b' ' ∷ before rest 0)) h,
        scan_word_behind (u ++ (b' ' ∷ before rest 0)),
        scan_word-word u (before rest 0) g,
      )
      refl
