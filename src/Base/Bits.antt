-- ===== src/Base/Bits.antt =====
-- The digits of `bit_or`.
use Prim.Native.Nat.{ℕ, zero, suc, ◌+◌, ◌*◌, ◌/◌, ◌%◌, ◌≤◌, max, bit_or, digits, bit_or-bitwise}
use mathlib.Core.Path.{◌≡◌, refl, ap, ◌∙◌}
use native.Mathlib.Omega.{arith}

-- The digits of `bit_or`, with fuel.
abbrev or_digits : ℕ → ℕ → ℕ → ℕ
or_digits fuel b a = digits (λ y. y) max fuel a b

-- Fuel beyond the left number changes nothing.
enough : (b a k l : ℕ) → a ≤ l → a ≤ k → or_digits k b a ≡ or_digits l b a
enough b zero zero zero i j = refl
enough b zero zero (suc l) i j = refl
enough b zero (suc k) zero i j = refl
enough b zero (suc k) (suc l) i j = refl
enough b (suc a) zero l i j = absurd (omega arith)
enough b (suc a) (suc k) zero i j = absurd (omega arith)
enough b (suc a) (suc k) (suc l) i j =
    let half = suc a / 2 in
    ap (λ d. d * 2 + max (suc a % 2) (b % 2)) (enough (b / 2) half k l (omega arith) (omega arith))

-- The lowest digit of `bit_or`, and the others.
pub bit_or_step : (n m : ℕ) → bit_or n m ≡ bit_or (n / 2) (m / 2) * 2 + max (n % 2) (m % 2)
bit_or_step zero m = simp bit_or-bitwise (omega arith)
bit_or_step (suc n) m =
    let half = suc n / 2 in
    let e : or_digits n (m / 2) half ≡ or_digits half (m / 2) half =
      enough (m / 2) half n half (omega arith) (omega arith) in
    simp bit_or-bitwise (ap (λ d. d * 2 + max (suc n % 2) (m % 2)) e)

-- `i` times the half of a number.
abbrev pub halve : ℕ → ℕ → ℕ
halve zero n = n
halve (suc i) n = halve i (n / 2)

pub halve-bit_or : (i a b : ℕ) → halve i (bit_or a b) ≡ bit_or (halve i a) (halve i b)
halve-bit_or zero a b = refl
halve-bit_or (suc i) a b =
    let e : bit_or a b / 2 ≡ bit_or (a / 2) (b / 2) = omega (arith, bit_or_step a b) in
    ap (halve i) e ∙ halve-bit_or i (a / 2) (b / 2)
