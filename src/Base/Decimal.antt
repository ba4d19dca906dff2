-- ===== src/Base/Decimal.antt =====
-- Numbers in decimal, as `%d` and `%u` write and read them.
use csapp_labs.Base.Tests.{ltb, leb, if◌then◌else◌, Bool-cases}
use csapp_labs.Base.Text.{Text}
use Prim.Native.Nat.{ℕ, zero, suc, ◌+◌, ◌-◌, ◌*◌, ◌/◌, ◌%◌, ◌<◌}
use mathlib.Core.Path.{◌≡◌, refl, ap, ◌∙◌}
use mathlib.Core.Logic.{inl, inr}
use mathlib.Core.Bool.{Bool, true, false, ◌&&◌}
use mathlib.Core.List.{[], ◌∷◌, ◌++◌}
use native.Mathlib.Omega.{arith}

abbrev pub is_digit : ℕ → Bool
is_digit c = leb b'0' c && leb c b'9'

abbrev pub all_digits : Text → Bool
all_digits [] = true
all_digits (c ∷ s) = is_digit c && all_digits s

-- The number that a text of digits stands for, in base 10, `acc` being that of the text before it.
abbrev pub value : ℕ → Text → ℕ
value acc [] = acc
value acc (c ∷ s) = value (acc * 10 + (c - b'0')) s

-- The digits of `n`, in front of `s`, with fuel.
write_digits : ℕ → ℕ → Text → Text
write_digits zero n s = s
write_digits (suc k) n s =
    let rest = write_digits k (n / 10) ((b'0' + n % 10) ∷ s) in
    if ltb n 10 then (b'0' + n) ∷ s else rest

-- `sprintf(s, "%d", n)` of a number that is not negative
unfoldable pub write_decimal : ℕ → Text
unfolding write_digits
write_decimal n = write_digits (suc n) n []

-- The digits at the start of a text: the number, and the rest.
unfoldable pub read_digits : ℕ → Text → ℕ × Text
read_digits acc [] = (acc, [])
read_digits acc (c ∷ s) =
    let rest = read_digits (acc * 10 + (c - b'0')) s in if is_digit c then rest else (acc, c ∷ s)

value-write_digits :
    (k n : ℕ) (s : Text)
    → n < k
    → all_digits s ≡ true
    → (value 0 (write_digits k n s) ≡ value n s) × (all_digits (write_digits k n s) ≡ true)
unfolding write_digits
value-write_digits zero n s h d = absurd (omega arith)
value-write_digits (suc k) n s h d =
    ground (arith, value-write_digits k (n / 10) ((b'0' + n % 10) ∷ s))

pub read_digits-append :
    (acc : ℕ) (s : Text) (c : ℕ) (t : Text)
    → all_digits s ≡ true
    → is_digit c ≡ false
    → read_digits acc (s ++ (c ∷ t)) ≡ (value acc s, c ∷ t)
unfolding read_digits
read_digits-append acc [] c t d e = rw e refl
read_digits-append acc (b ∷ s) c t d e =
    ground (arith, read_digits-append (acc * 10 + (b - b'0')) s c t)

-- A written number reads back as itself, and leaves what follows it.
pub read_digits-write_decimal :
    (n c : ℕ) (t : Text)
    → is_digit c ≡ false
    → read_digits 0 (write_decimal n ++ (c ∷ t)) ≡ (n, c ∷ t)
unfolding write_decimal
read_digits-write_decimal n c t e =
    let w = value-write_digits (suc n) n [] (omega arith) refl in
    read_digits-append 0 (write_digits (suc n) n []) c t w.1 e ∙ ap (λ m. (m, c ∷ t)) w.0

pub all_digits-write_decimal : (n : ℕ) → all_digits (write_decimal n) ≡ true
unfolding write_decimal
all_digits-write_decimal n = (value-write_digits (suc n) n [] (omega arith) refl).1

first :
    (k n : ℕ) (t : Text)
    → n < k
    → (c : ℕ) × (s : Text) × (write_digits k n t ≡ c ∷ s) × (is_digit c ≡ true)
unfolding write_digits
first zero n t h = absurd (omega arith)
first (suc k) n t h = elim (Bool-cases (ltb n 10)) [
  | inl e ↦ (b'0' + n, t, rw e refl, ground arith)
  | inr e ↦
      let (c, s, w, d) = first k (n / 10) ((b'0' + n % 10) ∷ t) (ground arith) in (c, s, rw e w, d)
]

-- A written number begins with a digit.
pub write_decimal-first :
    (n : ℕ) → (c : ℕ) × (s : Text) × (write_decimal n ≡ c ∷ s) × (is_digit c ≡ true)
unfolding write_decimal
write_decimal-first n = first (suc n) n [] (omega arith)
