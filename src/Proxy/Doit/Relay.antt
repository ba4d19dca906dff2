-- ===== src/Proxy/Doit/Relay.antt =====
-- The response that proxy/lab/proxy.c passes on and keeps.
use csapp_labs.Base.{
  ℕ, ◌+◌, ◌-◌, ◌<◌, ◌≤◌, ◌≡◌, refl, ap, ap₂, ◌∙◌, sym, Bool, true, false, none, some, List, [], ◌∷◌,
  ◌++◌, append_assoc, append-nil, arith, length, length-append, ltb, if◌then◌else◌,
}
use csapp_labs.Base.Text.{Text}
use csapp_labs.Base.Strings.{before, no_byte}
use csapp_labs.Proxy.Net.{Conn}
use csapp_labs.Proxy.Doit.{receive, copied, max_object_size}

abbrev pub concat : List Text → Text
concat [] = []
concat (l ∷ ls) = l ++ concat ls

abbrev pub all_no_nul : List Text → Bool
all_no_nul [] = true
all_no_nul (l ∷ ls) = if no_byte 0 l then all_no_nul ls else false

before_none : (s : Text) (c : ℕ) → no_byte c s ≡ true → before s c ≡ s
unfolding before
before_none [] c h = refl
before_none (d ∷ s) c h = ground (arith, before_none s c)

copied_plain : (s : Text) → no_byte 0 s ≡ true → copied s ≡ s
unfolding copied
copied_plain s h =
    let none_left : length s - length s ≡ 0 = omega arith in
    rw (before_none s 0 h, none_left) (append-nil s)

receive-fits :
    (l : Text) (ls : List Text) (t : Text) (c : Conn)
    → length t + length l ≤ max_object_size
    → receive (l ∷ ls) (some t) c
      ≡ receive ls (some (t ++ copied l)) (record c { sent = c.sent ++ l })
unfolding receive
receive-fits l ls t c m =
    let e : ltb max_object_size (length t + length l) ≡ false = ground arith in rw (receive, e) refl

receive-large :
    (l : Text) (ls : List Text) (t : Text) (c : Conn)
    → max_object_size < length t + length l
    → receive (l ∷ ls) (some t) c ≡ receive ls none (record c { sent = c.sent ++ l })
unfolding receive
receive-large l ls t c m =
    let e : ltb max_object_size (length t + length l) ≡ true = ground arith in rw (receive, e) refl

-- A response without NUL bytes that fits behind what the new object held is passed to the client
-- whole and in order, and is kept whole behind that.
pub receive-concat :
    (ls : List Text) (t : Text) (c : Conn)
    → all_no_nul ls ≡ true
    → length t + length (concat ls) ≤ max_object_size
    → receive ls (some t) c ≡ some (some (t ++ concat ls), record c { sent = c.sent ++ concat ls })
unfolding receive
receive-concat [] t c n m =
    ap₂ (λ u v. some (some u, record c { sent = v })) (sym (append-nil t)) (sym (append-nil c.sent))
receive-concat (l ∷ ls) t c n m =
    let len = length-append l (concat ls) in
    let len' = length-append t l in
    let plain : copied l ≡ l = copied_plain l (ground arith) in
    receive-fits l ls t c (omega (arith, len))
    ∙ ap (λ u. receive ls (some (t ++ u)) (record c { sent = c.sent ++ l })) plain
    ∙ receive-concat ls (t ++ l) (record c { sent = c.sent ++ l }) (ground arith)
        (omega (arith, len, len'))
    ∙ ap₂ (λ u v. some (some u, record c { sent = v })) (append_assoc t l (concat ls))
        (append_assoc c.sent l (concat ls))

-- A response that outgrows the limit before its last line makes `doit` read through NULL.
pub receive-overflow :
    (ls : List Text) (l m : Text) (more : List Text) (t : Text) (c : Conn)
    → all_no_nul ls ≡ true
    → length t + length (concat ls) ≤ max_object_size
    → max_object_size < length t + length (concat ls) + length l
    → receive (ls ++ (l ∷ m ∷ more)) (some t) c ≡ none
unfolding receive
receive-overflow [] l m more t c n h k = receive-large l (m ∷ more) t c (omega (arith, k))
receive-overflow (x ∷ ls) l m more t c n h k =
    let len = length-append x (concat ls) in
    let len' = length-append t x in
    let plain : copied x ≡ x = copied_plain x (ground arith) in
    receive-fits x (ls ++ (l ∷ m ∷ more)) t c (omega (arith, len))
    ∙ ap (λ u. receive (ls ++ (l ∷ m ∷ more)) (some (t ++ u)) (record c { sent = c.sent ++ x }))
        plain
    ∙ receive-overflow ls l m more (t ++ x) (record c { sent = c.sent ++ x }) (ground arith)
        (omega (arith, len, len')) (omega (arith, len, len'))
