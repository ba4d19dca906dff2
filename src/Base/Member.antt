-- ===== src/Base/Member.antt =====
-- Membership of numbers in a list, as a test.
use csapp_labs.Base.Tests.{◌==◌, if◌then◌else◌}
use Prim.Native.Nat.{ℕ}
use mathlib.Core.Path.{◌≡◌, refl}
use mathlib.Core.Logic.{◌≢◌}
use mathlib.Core.Bool.{Bool, true, false, ◌||◌}
use mathlib.Core.List.{List, [], ◌∷◌, ◌++◌}
use native.Mathlib.Omega.{arith}

abbrev pub has : ℕ → List ℕ → Bool
has q [] = false
has q (x ∷ xs) = (q == x) || has q xs

-- No number occurs twice.
abbrev pub distinct : List ℕ → Bool
distinct [] = true
distinct (x ∷ xs) = if has x xs then false else distinct xs

pub has-append : (q : ℕ) (xs ys : List ℕ) → has q (xs ++ ys) ≡ (has q xs || has q ys)
has-append q [] ys = refl
has-append q (x ∷ xs) ys = ground (arith, has-append q xs ys)

pub ne_of_has : (q r : ℕ) (xs : List ℕ) → has q xs ≡ false → has r xs ≡ true → q ≢ r
ne_of_has q r [] h k = absurd (ground arith)
ne_of_has q r (x ∷ xs) h k = λ e. ground (arith, ne_of_has q r xs)

-- Taking one number out of a list, and putting one in.
pub distinct-without :
    (xs : List ℕ) (x : ℕ) (ys : List ℕ)
    → distinct (xs ++ (x ∷ ys)) ≡ true
    → (distinct (xs ++ ys) ≡ true) × (has x (xs ++ ys) ≡ false)
distinct-without [] x ys d = ground arith
distinct-without (z ∷ xs) x ys d =
    ground (arith, distinct-without xs x ys, has-append z xs (x ∷ ys), has-append z xs ys)

pub distinct-with :
    (xs : List ℕ) (x : ℕ) (ys : List ℕ)
    → distinct (xs ++ ys) ≡ true
    → has x (xs ++ ys) ≡ false
    → distinct (xs ++ (x ∷ ys)) ≡ true
distinct-with [] x ys d h = ground arith
distinct-with (z ∷ xs) x ys d h =
    ground (arith, distinct-with xs x ys, has-append z xs (x ∷ ys), has-append z xs ys)
