-- ===== src/Malloc/Words/Classes.antt =====
-- `U` of malloc/lab/mm.c is the logarithm of a size, rounded up.
use Prim.Native.Nat.{bit_or}
use native.Mathlib.Nat.{pow-suc}
use mathlib.Core.Path.{subst}
use csapp_labs.Base.{
  ℕ, zero, suc, ◌+◌, ◌*◌, ◌/◌, ◌%◌, ◌^◌, ◌≤◌, ◌<◌, ◌≡◌, refl, ap, sym, ◌∙◌, Bool, true, false, ◌&&◌,
  Option, none, some, inl, inr, ◌==◌, arith, Bool-cases, ◌⊎◌,
}
use csapp_labs.Base.Bits.{bit_or_step, halve}
use csapp_labs.Malloc.Words.{smear, lowest_bit, size_class, word_mod, max_size}

-- The five lines `n |= n >> k`.
abbrev smears : ℕ → ℕ
smears n = smear 16 (smear 8 (smear 4 (smear 2 (smear 1 n))))

-- `smear k` halves what the half of its argument is.
abbrev Halves : (ℕ → ℕ) → Type 0
Halves f = (n : ℕ) → f n / 2 ≡ f (n / 2)

-- The first digit is 0 only where the lower `m` digits are.
abbrev Covers : (ℕ → ℕ) → ℕ → Type 0
Covers f m = (n : ℕ) → f n % 2 ≡ 0 → n % 2 ^ m ≡ 0

smear-Halves :
    (k : ℕ) (f : ℕ → ℕ)
    → ((n : ℕ) → n / 2 ^ k / 2 ≡ n / 2 / 2 ^ k)
    → Halves f
    → Halves (λ n. smear k (f n))
smear-Halves k f e h n =
    let s : smear k (f n) / 2 ≡ bit_or (f n / 2) (f n / 2 ^ k / 2) =
      omega (arith, bit_or_step (f n) (f n / 2 ^ k)) in
    rw (s, e (f n), h n) refl

halve-Halves : (i : ℕ) (f : ℕ → ℕ) → Halves f → (n : ℕ) → halve i (f n) ≡ f (halve i n)
halve-Halves zero f h n = refl
halve-Halves (suc i) f h n = rw (h n) (halve-Halves i f h (n / 2))

smear-Covers :
    (k m : ℕ) (f : ℕ → ℕ)
    → ((n : ℕ) → halve k n ≡ n / 2 ^ k)
    → ((n : ℕ) → n % 2 ^ k ≡ 0 → n / 2 ^ k % 2 ^ k ≡ 0 → n % 2 ^ m ≡ 0)
    → Halves f
    → Covers f k
    → Covers (λ n. smear k (f n)) m
smear-Covers k m f e j h c n z =
    let s = bit_or_step (f n) (f n / 2 ^ k) in
    let a : f n % 2 ≡ 0 = ground (arith, s) in
    let b : f n / 2 ^ k % 2 ≡ 0 = ground (arith, s) in
    let d : f (n / 2 ^ k) % 2 ≡ 0 =
      subst (λ x. x % 2 ≡ 0) (sym (e (f n)) ∙ halve-Halves k f h n ∙ ap f (e n)) b in
    j n (c n a) (c (n / 2 ^ k) d)

-- Where the bit is.
abbrev is_bit : Option ℕ → ℕ → Bool
is_bit none j = false
is_bit (some u) j = u == j

abbrev all_bits : ℕ → Bool
all_bits zero = true
all_bits (suc j) = is_bit (lowest_bit 32 (2 ^ j) 0) j && all_bits j

bits_table : all_bits 32 ≡ true
unfolding lowest_bit
bits_table = refl

all_bits-bit : (j n : ℕ) → all_bits n ≡ true → j < n → is_bit (lowest_bit 32 (2 ^ j) 0) j ≡ true
all_bits-bit j zero e l = absurd (omega arith)
all_bits-bit j (suc n) e l = elim (Bool-cases (j == n)) [
  | inl p ↦ let q : j ≡ n = ground arith in rw q (ground arith)
  | inr p ↦ all_bits-bit j n (ground arith) (ground arith)
]

abbrev Smeared : (ℕ → ℕ) → ℕ → Type 0
Smeared f m = Halves f × Covers f m

smear-Smeared :
    (k m : ℕ) (f : ℕ → ℕ)
    → ((n : ℕ) → n / 2 ^ k / 2 ≡ n / 2 / 2 ^ k)
    → ((n : ℕ) → halve k n ≡ n / 2 ^ k)
    → ((n : ℕ) → n % 2 ^ k ≡ 0 → n / 2 ^ k % 2 ^ k ≡ 0 → n % 2 ^ m ≡ 0)
    → Smeared f k
    → Smeared (λ n. smear k (f n)) m
smear-Smeared k m f a b c (h, d) = (smear-Halves k f a h, smear-Covers k m f b c h d)

smears-Smeared : Smeared smears 32
smears-Smeared =
    smear-Smeared 16 32 _ (λ n. omega arith) (λ n. omega arith) (λ n a b. omega arith)
      (smear-Smeared 8 16 _ (λ n. omega arith) (λ n. omega arith) (λ n a b. omega arith)
        (smear-Smeared 4 8 _ (λ n. omega arith) (λ n. omega arith) (λ n a b. omega arith)
          (smear-Smeared 2 4 _ (λ n. omega arith) (λ n. omega arith) (λ n a b. omega arith)
            (smear-Smeared 1 2 (λ n. n) (λ n. omega arith) (λ n. omega arith) (λ n a b. omega arith)
              (λ n. refl, λ n a. omega arith)))))

-- The smeared number ends in ones, and has as many digits as the number.
record Ones (n j k : ℕ) : Type 0 where
  pub ones : smears n + 1 ≡ 2 ^ j
  pub over : n < 2 ^ j
  pub close : (2 ^ j ≤ 2 * n) ⊎ ((n ≡ 0) × (j ≡ 0))
  pub few : j ≤ k

smears-Ones : (k n : ℕ) → n < 2 ^ 32 → n < 2 ^ k → (j : ℕ) × Ones n j k
smears-Ones zero n l b =
    let e : n ≡ 0 = omega arith in
    (0, record { ones = rw e refl; over = omega arith; close = inr (e, refl); few = omega arith })
smears-Ones (suc k) zero l b =
    (0, record { ones = refl; over = omega arith; close = inr (refl, refl); few = omega arith })
smears-Ones (suc k) (suc m) l b =
    let n = suc m in
    let (halves, covers) = smears-Smeared in
    let (j, r) = smears-Ones k (n / 2) (omega arith) (omega (arith, pow-suc 2 k)) in
    let odd : smears n % 2 ≡ 1 = elim (Bool-cases (smears n % 2 == 1)) [
      | inl e ↦ ground arith
      | inr e ↦ absurd (omega (arith, covers n (ground arith)))
    ] in
    (
      suc j,
      record {
        ones = omega (arith, pow-suc 2 j, r.ones, halves n, odd);
        over = omega (arith, pow-suc 2 j, r.over);
        close =
            inl (elim r.close [
              | inl c ↦ omega (arith, pow-suc 2 j)
              | inr (c, d) ↦ rw d (omega arith)
            ]);
        few = omega (arith, r.few);
      },
    )

is_bit-some : (o : Option ℕ) (j : ℕ) → is_bit o j ≡ true → o ≡ some j
is_bit-some none j e = absurd (ground arith)
is_bit-some (some u) j e = ap some (ground arith)

-- For a size up to 2 ^ 31, `U` returns the logarithm of the size to the base 2, rounded up: the
-- first list whose bound `MAX_SIZE` is not below the size.
pub size_class_lem :
    (s : ℕ)
    → 0 < s
    → s ≤ 2 ^ 31
    → (u : ℕ) × (size_class s ≡ some u) × (s ≤ max_size u) × (max_size u < 2 * s) × (u ≤ 31)
unfolding size_class
size_class_lem zero p b = absurd (omega arith)
size_class_lem (suc n) p b =
    let (u, r) = smears-Ones 31 n (omega arith) (omega arith) in
    let near : (2 ^ u ≤ 2 * n) ⊎ (2 ^ u ≡ 1) = elim r.close [
      | inl c ↦ inl c
      | inr (c, d) ↦ inr (ap (λ x. 2 ^ x) d)
    ] in
    let e : (smears n + 1) % word_mod ≡ 2 ^ u = elim near [
      | inl c ↦ omega (arith, r.ones)
      | inr c ↦ omega (arith, r.ones)
    ] in
    let t = all_bits-bit u 32 bits_table (omega (arith, r.few)) in
    (
      u,
      subst (λ x. lowest_bit 32 x 0 ≡ some u) (sym e) (is_bit-some _ u t),
      omega (arith, r.over),
      elim near [ inl c ↦ omega arith | inr c ↦ omega arith ],
      r.few,
    )
