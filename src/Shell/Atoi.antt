-- ===== src/Shell/Atoi.antt =====
-- shell/lab/util.c: `Atoi`, and what it makes of a text of digits.
use csapp_labs.Base.{
  ℕ, zero, suc, ◌+◌, ◌-◌, ◌*◌, ◌^◌, ◌≤◌, ◌≡◌, ◌≢◌, Bool, true, false, [], ◌∷◌, ◌==◌, ltb,
  if◌then◌else◌, arith, Bool-cases, inl, inr, ◌⊎◌,
}
use csapp_labs.Base.Int.{ℤ, pos, negsuc}
use csapp_labs.Base.Decimal.{is_digit, all_digits, value}
use csapp_labs.Shell.Jobs.{Text}

-- The largest absolute value: INT_MAX, or -INT_MIN for a negative number.
abbrev pub limit : Bool → ℕ
limit f = if f then 2 ^ 31 else 2 ^ 31 - 1

-- `f ? -res : res`
abbrev pub signed : Bool → ℕ → ℤ
signed false n = pos n
signed true zero = pos 0
signed true (suc n) = negsuc n

-- The loop of `Atoi`: -1 for a byte that is no digit, -2 beyond the range of `int`. `res` stays
-- below ten times the range, so the `int64_t` of the source cannot overflow.
atoi_loop : Bool → ℕ → Text → ℤ
atoi_loop f res [] = signed f res
atoi_loop f res (c ∷ s) =
    let rest = atoi_loop f (res * 10 + (c - b'0')) s in
    if is_digit c
    then (if ltb (limit f) (res * 10 + (c - b'0')) then negsuc 1 else rest)
    else negsuc 0

unfoldable pub atoi : Text → ℤ
unfolding atoi_loop
atoi [] = negsuc 0
atoi (c ∷ s) = if c == b'-' then atoi_loop true 0 s else atoi_loop false 0 (c ∷ s)

value-ge : (acc : ℕ) (s : Text) → acc ≤ value acc s
value-ge acc [] = omega arith
value-ge acc (c ∷ s) = omega (arith, value-ge (acc * 10 + (c - b'0')) s)

atoi_loop-value :
    (f : Bool) (res : ℕ) (s : Text)
    → res ≤ limit f
    → all_digits s ≡ true
    → atoi_loop f res s ≡ (if ltb (limit f) (value res s) then negsuc 1 else signed f (value res s))
unfolding atoi_loop
atoi_loop-value f res [] small h = ground arith
atoi_loop-value f res (c ∷ s) small h = elim (Bool-cases (ltb (limit f) (res * 10 + (c - b'0')))) [
  | inl big ↦ ground (arith, value-ge (res * 10 + (c - b'0')) s)
  | inr fits ↦ ground (arith, atoi_loop-value f (res * 10 + (c - b'0')) s)
]

-- `Atoi` of a text of digits, not empty, is the number that it stands for, or -2 if that is above
-- INT_MAX; with a `-` before the digits it is minus that number, or -2 if that is below INT_MIN.
pub atoi-value :
    (c : ℕ) (s : Text)
    → all_digits (c ∷ s) ≡ true
    → (atoi (c ∷ s)
        ≡ (if ltb (limit false) (value 0 (c ∷ s)) then negsuc 1 else pos (value 0 (c ∷ s))))
      × (atoi (b'-' ∷ c ∷ s) ≡ (
          if ltb (limit true) (value 0 (c ∷ s)) then negsuc 1 else signed true (value 0 (c ∷ s))))
unfolding atoi
atoi-value c s h = ground (arith, atoi_loop-value false 0 (c ∷ s), atoi_loop-value true 0 (c ∷ s))

atoi_loop-bad :
    (f : Bool) (res : ℕ) (s : Text)
    → all_digits s ≡ false
    → (atoi_loop f res s ≡ negsuc 0) ⊎ (atoi_loop f res s ≡ negsuc 1)
unfolding atoi_loop
atoi_loop-bad f res [] h = ground arith
atoi_loop-bad f res (c ∷ s) h = elim (Bool-cases (all_digits s)) [
  | inl good ↦ ground arith
  | inr bad ↦ ground (arith, atoi_loop-bad f (res * 10 + (c - b'0')) s bad)
]

atoi_loop_neg : (res n : ℕ) (s : Text) → atoi_loop true res s ≢ pos (suc n)
unfolding atoi_loop
atoi_loop_neg zero n [] h = ground arith
atoi_loop_neg (suc res) n [] h = ground arith
atoi_loop_neg res n (c ∷ s) h = ground (arith, atoi_loop_neg (res * 10 + (c - b'0')) n s)

-- `Atoi` returns a number above 0 only for a text of digits that stands for that number.
pub atoi-pos :
    (s : Text) (n : ℕ) → atoi s ≡ pos (suc n) → (all_digits s ≡ true) × (value 0 s ≡ suc n)
unfolding atoi
atoi-pos [] n h = ground arith
atoi-pos (c ∷ s) n h = elim (Bool-cases (all_digits (c ∷ s))) [
  | inl good ↦ ground (arith, atoi_loop-value false 0 (c ∷ s), atoi_loop_neg 0 n s)
  | inr bad ↦ ground (arith, atoi_loop-bad false 0 (c ∷ s), atoi_loop_neg 0 n s)
]
