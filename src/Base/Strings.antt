-- ===== src/Base/Strings.antt =====
-- The functions of string.h and strings.h that the programs call, on C strings as lists of bytes.
use Prim.Native.Char.{code}
use Prim.Native.String.{String}
use csapp_labs.Base.Tests.{leb, ◌==◌, if◌then◌else◌}
use csapp_labs.Base.Text.{Text}
use Prim.Native.Nat.{ℕ, ◌+◌}
use mathlib.Core.Path.{◌≡◌, refl}
use mathlib.Core.Bool.{Bool, true, false, ◌&&◌, ◌||◌}
use mathlib.Core.Option.{Option, none, some}
use mathlib.Core.List.{[], ◌∷◌, ◌++◌}
use native.Mathlib.Omega.{arith}

-- The bytes of a literal.
abbrev pub codes : String → Text
codes String.[] = []
codes (String.◌∷◌ c s) = code c ∷ codes s

-- `strncmp(p, s, strlen(p)) == 0`
abbrev pub starts_with : Text → Text → Bool
starts_with [] s = true
starts_with (c ∷ p) [] = false
starts_with (c ∷ p) (d ∷ s) = c == d && starts_with p s

-- `strstr(s, p)`: the rest of `s` from the first occurrence on.
unfoldable pub strstr : Text → Text → Option Text
strstr [] p = if starts_with p [] then some [] else none
strstr (c ∷ s) p = if starts_with p (c ∷ s) then some (c ∷ s) else strstr s p

-- `strstr(s, p) != NULL`
abbrev pub is_some {ℓ} : {A : Type ℓ} → Option A → Bool
is_some none = false
is_some (some a) = true

-- `strchr(s, c)`, for `c` other than NUL: the rest of `s` from the first `c` on.
unfoldable pub strchr : Text → ℕ → Option Text
strchr [] c = none
strchr (d ∷ s) c = if d == c then some (d ∷ s) else strchr s c

-- What stands before the first `c`.
unfoldable pub before : Text → ℕ → Text
before [] c = []
before (d ∷ s) c = if d == c then [] else d ∷ before s c

-- `tolower`
abbrev pub lower : ℕ → ℕ
lower c = if leb b'A' c && leb c b'Z' then c + 32 else c

-- `strcasecmp(s, t) == 0`
abbrev pub text_eq_case : Text → Text → Bool
text_eq_case [] [] = true
text_eq_case [] (d ∷ t) = false
text_eq_case (c ∷ s) [] = false
text_eq_case (c ∷ s) (d ∷ t) = lower c == lower d && text_eq_case s t

-- `strncasecmp(s, p, strlen(p)) == 0`
abbrev pub starts_with_case : Text → Text → Bool
starts_with_case [] s = true
starts_with_case (c ∷ p) [] = false
starts_with_case (c ∷ p) (d ∷ s) = lower c == lower d && starts_with_case p s

-- `isspace`
abbrev pub is_space : ℕ → Bool
is_space c = c == 32 || (leb 9 c && leb c 13)

unfoldable pub skip_space : Text → Text
skip_space [] = []
skip_space (c ∷ s) = if is_space c then skip_space s else c ∷ s

-- The bytes up to the next space, and the rest.
unfoldable pub split_word : Text → Text × Text
split_word [] = ([], [])
split_word (c ∷ s) = if is_space c then ([], c ∷ s) else (let (w, r) = split_word s in (c ∷ w, r))

-- `sscanf(s, "%s", w)`: the next word and the rest, or `none` at the end of the input.
unfoldable pub scan_word : Text → Option (Text × Text)
unfolding skip_space split_word
scan_word s = elim (skip_space s) [ [] ↦ none | c ∷ t ↦ some (split_word (c ∷ t)) ]

-- A byte occurs nowhere.
abbrev pub no_byte : ℕ → Text → Bool
no_byte c [] = true
no_byte c (d ∷ s) = if d == c then false else no_byte c s

pub strchr-append :
    (s t : Text) (c : ℕ) → no_byte c s ≡ true → strchr (s ++ (c ∷ t)) c ≡ some (c ∷ t)
unfolding strchr
strchr-append [] t c h = ground arith
strchr-append (d ∷ s) t c h = ground (arith, strchr-append s t c)

pub strchr-none : (s : Text) (c : ℕ) → no_byte c s ≡ true → strchr s c ≡ none
unfolding strchr
strchr-none [] c h = refl
strchr-none (d ∷ s) c h = ground (arith, strchr-none s c)

pub before-append : (s t : Text) (c : ℕ) → no_byte c s ≡ true → before (s ++ (c ∷ t)) c ≡ s
unfolding before
before-append [] t c h = ground arith
before-append (d ∷ s) t c h = ground (arith, before-append s t c)

pub starts_with-append : (p s t : Text) → starts_with p s ≡ true → starts_with p (s ++ t) ≡ true
starts_with-append [] s t h = refl
starts_with-append (c ∷ p) [] t h = absurd (ground arith)
starts_with-append (c ∷ p) (d ∷ s) t h = ground (arith, starts_with-append p s t)

-- What occurs in a text occurs in a longer one.
pub strstr-append :
    (s t p : Text) → is_some (strstr s p) ≡ true → is_some (strstr (s ++ t) p) ≡ true
unfolding strstr
strstr-append [] [] p h = h
strstr-append [] (c ∷ t) [] h = refl
strstr-append [] (c ∷ t) (d ∷ p) h = absurd (ground arith)
strstr-append (c ∷ s) t p h = ground (arith, strstr-append s t p, starts_with-append p (c ∷ s) t)

abbrev pub all_plain : Text → Bool
all_plain [] = true
all_plain (c ∷ s) = if is_space c then false else all_plain s

pub split_word-append :
    (w r : Text) (c : ℕ)
    → all_plain w ≡ true
    → is_space c ≡ true
    → split_word (w ++ (c ∷ r)) ≡ (w, c ∷ r)
unfolding split_word
split_word-append [] r c p h = rw h refl
split_word-append (d ∷ w) r c p h = ground (arith, split_word-append w r c)

strstr-start : (s p : Text) → starts_with p s ≡ true → is_some (strstr s p) ≡ true
unfolding strstr
strstr-start [] p h = rw h refl
strstr-start (c ∷ s) p h = rw h refl

strstr-behind : (p q s : Text) → starts_with (p ++ q) s ≡ true → is_some (strstr s q) ≡ true
unfolding strstr
strstr-behind [] q s h = strstr-start s q h
strstr-behind (c ∷ p) q [] h = absurd (ground arith)
strstr-behind (c ∷ p) q (d ∷ s) h = ground (arith, strstr-behind p q s)

-- Where a text occurs, its ends occur too.
pub strstr-suffix :
    (p q s : Text) → is_some (strstr s (p ++ q)) ≡ true → is_some (strstr s q) ≡ true
unfolding strstr
strstr-suffix p q [] h = ground (arith, strstr-behind p q [])
strstr-suffix p q (c ∷ s) h = ground (arith, strstr-suffix p q s, strstr-behind p q (c ∷ s))
