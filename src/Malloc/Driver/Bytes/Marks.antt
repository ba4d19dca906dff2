-- ===== src/Malloc/Driver/Bytes/Marks.antt =====
-- The mark that malloc/lab/mdriver.c leaves in a payload, and the test for it.
use csapp_labs.Base.{
  ℕ, zero, suc, ◌+◌, ◌*◌, ◌/◌, ◌%◌, ◌≤◌, ◌<◌, ◌≡◌, ◌≢◌, refl, true, false, some, ltb, if◌then◌else◌,
  arith, ==-self, ==-ne, lt→ltb, ltb→lt, Bool-cases, inl, inr, sym, ◌∙◌,
}
use mathlib.Core.Path.{subst}
use native.Mathlib.Decide.{ℕ_discrete}
use csapp_labs.Malloc.Memlib.{Heap, pure, bind-some, ◌>>◌}
use csapp_labs.Malloc.Driver.Bytes.{
  byte_of, set_byte, has_byte, byte_at, with_byte, load_byte, store_byte, memset, same_char,
  same_bytes,
}

byte_of-set_byte : (w k v : ℕ) → k < 4 → v < 256 → byte_of (set_byte w k v) k ≡ v
byte_of-set_byte w zero v m n = omega arith
byte_of-set_byte w (suc zero) v m n = omega arith
byte_of-set_byte w (suc (suc zero)) v m n = omega arith
byte_of-set_byte w (suc (suc (suc zero))) v m n = omega arith
byte_of-set_byte w (suc (suc (suc (suc k)))) v m n = absurd (omega arith)

byte_of-set_other :
    (w k v j : ℕ) → k < 4 → j < 4 → v < 256 → k ≢ j → byte_of (set_byte w k v) j ≡ byte_of w j
byte_of-set_other w zero v (suc zero) m n b d = omega arith
byte_of-set_other w zero v (suc (suc zero)) m n b d = omega arith
byte_of-set_other w zero v (suc (suc (suc zero))) m n b d = omega arith
byte_of-set_other w (suc zero) v zero m n b d = omega arith
byte_of-set_other w (suc zero) v (suc (suc zero)) m n b d = omega arith
byte_of-set_other w (suc zero) v (suc (suc (suc zero))) m n b d = omega arith
byte_of-set_other w (suc (suc zero)) v zero m n b d = omega arith
byte_of-set_other w (suc (suc zero)) v (suc zero) m n b d = omega arith
byte_of-set_other w (suc (suc zero)) v (suc (suc (suc zero))) m n b d = omega arith
byte_of-set_other w (suc (suc (suc zero))) v zero m n b d = omega arith
byte_of-set_other w (suc (suc (suc zero))) v (suc zero) m n b d = omega arith
byte_of-set_other w (suc (suc (suc zero))) v (suc (suc zero)) m n b d = omega arith
byte_of-set_other w zero v zero m n b d = absurd (d refl)
byte_of-set_other w (suc zero) v (suc zero) m n b d = absurd (d refl)
byte_of-set_other w (suc (suc zero)) v (suc (suc zero)) m n b d = absurd (d refl)
byte_of-set_other w (suc (suc (suc zero))) v (suc (suc (suc zero))) m n b d = absurd (d refl)
byte_of-set_other w (suc (suc (suc (suc k)))) v j m n b d = absurd (omega arith)
byte_of-set_other w k v (suc (suc (suc (suc j)))) m n b d = absurd (omega arith)

byte_at-with_byte : (h : Heap) (p v : ℕ) → v < 256 → byte_at (with_byte h p v) p ≡ v
byte_at-with_byte h p v b =
    rw (==-self (p / 4 * 4)) (byte_of-set_byte (h.word (p / 4 * 4)) (p % 4) v (omega arith) b)

byte_at-with_other :
    (h : Heap) (p v a : ℕ) → v < 256 → p ≢ a → byte_at (with_byte h p v) a ≡ byte_at h a
byte_at-with_other h p v a b d = elim (ℕ_discrete (a / 4 * 4) (p / 4 * 4)) [
  | yes e ↦
      rw (e, ==-self (p / 4 * 4))
        (byte_of-set_other (h.word (p / 4 * 4)) (p % 4) v (a % 4) (omega arith) (omega arith) b
          (λ k. d (omega arith)))
  | no n ↦ rw (==-ne (a / 4 * 4) (p / 4 * 4) n) refl
]

-- The heap after `memset`.
abbrev pub filled : Heap → ℕ → ℕ → ℕ → Heap
filled h p v zero = h
filled h p v (suc n) = filled (with_byte h p v) (p + 1) v n

filled-before :
    (h : Heap) (p v n a : ℕ) → v < 256 → a < p → byte_at (filled h p v n) a ≡ byte_at h a
filled-before h p v zero a b m = refl
filled-before h p v (suc n) a b m =
    filled-before (with_byte h p v) (p + 1) v n a b (omega arith)
    ∙ byte_at-with_other h p v a b (omega arith)

filled-behind :
    (h : Heap) (p v n a : ℕ) → v < 256 → p + n ≤ a → byte_at (filled h p v n) a ≡ byte_at h a
filled-behind h p v zero a b m = refl
filled-behind h p v (suc n) a b m =
    filled-behind (with_byte h p v) (p + 1) v n a b (omega arith)
    ∙ byte_at-with_other h p v a b (omega arith)

filled-inside : (h : Heap) (p v n j : ℕ) → v < 256 → j < n → byte_at (filled h p v n) (p + j) ≡ v
filled-inside h p v zero j b m = absurd (omega arith)
filled-inside h p v (suc n) zero b m =
    let e : p + 0 ≡ p = omega arith in
    rw (e, filled-before (with_byte h p v) (p + 1) v n p b (omega arith))
      (byte_at-with_byte h p v b)
filled-inside h p v (suc n) (suc j) b m =
    let e : p + suc j ≡ p + 1 + j = omega arith in
    rw e (filled-inside (with_byte h p v) (p + 1) v n j b (omega arith))

filled-brk : (h : Heap) (p v n : ℕ) → (filled h p v n).mem_brk ≡ h.mem_brk
filled-brk h p v zero = refl
filled-brk h p v (suc n) = filled-brk (with_byte h p v) (p + 1) v n

filled-start : (h : Heap) (p v n : ℕ) → (filled h p v n).mem_start_brk ≡ h.mem_start_brk
filled-start h p v zero = refl
filled-start h p v (suc n) = filled-start (with_byte h p v) (p + 1) v n

has_byte-inside : (h : Heap) (p : ℕ) → h.mem_start_brk ≤ p → p + 1 ≤ h.mem_brk → has_byte h p ≡ true
has_byte-inside h p m k = ground arith

memset-filled :
    (h : Heap) (p v n : ℕ)
    → h.mem_start_brk ≤ p
    → p + n ≤ h.mem_brk
    → memset p v n h ≡ some (tt, filled h p v n)
unfolding memset store_byte
memset-filled h p v zero m k = refl
memset-filled h p v (suc n) m k =
    bind-some (store_byte p v) (λ _. memset (p + 1) v n) h (with_byte h p v) tt
      (rw (has_byte-inside h p (omega arith) (omega arith)) refl)
      (memset-filled (with_byte h p v) (p + 1) v n (omega arith) (omega arith))

-- Bytes that all hold the same value.
abbrev pub Holds : Heap → ℕ → ℕ → ℕ → Type 0
Holds h p v n = (j : ℕ) → j < n → byte_at h (p + j) ≡ v

first_byte : (h : Heap) (p v n : ℕ) → Holds h p v (suc n) → byte_at h p ≡ v
first_byte h p v n e =
    let z : p + 0 ≡ p = omega arith in subst (λ a. byte_at h a ≡ v) z (e 0 (omega arith))

next_bytes : (h : Heap) (p v n : ℕ) → Holds h p v (suc n) → Holds h (p + 1) v n
next_bytes h p v n e j m =
    let z : p + 1 + j ≡ p + suc j = omega arith in rw z (e (suc j) (omega arith))

load_byte-inside :
    (h : Heap) (p v n : ℕ)
    → h.mem_start_brk ≤ p
    → p + suc n ≤ h.mem_brk
    → Holds h p v (suc n)
    → load_byte p h ≡ some (v, h)
unfolding load_byte
load_byte-inside h p v n m k e = rw (has_byte-inside h p m (omega arith), first_byte h p v n e) refl

same_bytes-low :
    (h : Heap) (p index n : ℕ)
    → h.mem_start_brk ≤ p
    → p + n ≤ h.mem_brk
    → index % 256 < 128
    → Holds h p (index % 256) n
    → same_bytes p index n h ≡ some (true, h)
unfolding same_bytes
same_bytes-low h p index zero m k low e = refl
same_bytes-low h p index (suc n) m k low e =
    bind-some (load_byte p)
      (λ b. if same_char b index then same_bytes (p + 1) index n else pure false) h h (index % 256)
      (load_byte-inside h p (index % 256) n m k e)
      (rw (lt→ltb (index % 256) 128 low, ==-self (index % 256))
        (same_bytes-low h (p + 1) index n (omega arith) (omega arith) low
          (next_bytes h p (index % 256) n e)))

same_bytes-high :
    (h : Heap) (p index n : ℕ)
    → h.mem_start_brk ≤ p
    → p + suc n ≤ h.mem_brk
    → ltb (index % 256) 128 ≡ false
    → Holds h p (index % 256) (suc n)
    → same_bytes p index (suc n) h ≡ some (false, h)
unfolding same_bytes
same_bytes-high h p index n m k high e =
    bind-some (load_byte p)
      (λ b. if same_char b index then same_bytes (p + 1) index n else pure false) h h (index % 256)
      (load_byte-inside h p (index % 256) n m k e) (rw high refl)

-- The driver fills the payload of block `index` with the low byte of `index`, and looks for this byte
-- when it has moved the block. In a payload of the heap that is not empty, the test finds what the
-- driver has written exactly when that byte is below 128: of the blocks from 128 to 255, and of each
-- 256 later, even the untouched payload is reported as changed.
pub same_bytes-memset :
    (h : Heap) (p index size : ℕ)
    → h.mem_start_brk ≤ p
    → p + size ≤ h.mem_brk
    → 0 < size
    → (memset p (index % 256) size >> same_bytes p index size) h
      ≡ some (ltb (index % 256) 128, filled h p (index % 256) size)
same_bytes-memset h p index zero m k s = absurd (omega arith)
same_bytes-memset h p index (suc n) m k s =
    let v = index % 256 in
    let g = filled h p v (suc n) in
    let lo : g.mem_start_brk ≤ p = subst (λ x. x ≤ p) (sym (filled-start h p v (suc n))) m in
    let hi : p + suc n ≤ g.mem_brk =
      subst (λ x. p + suc n ≤ x) (sym (filled-brk h p v (suc n))) k in
    let e : Holds g p v (suc n) = λ j. filled-inside h p v (suc n) j (omega arith) in
    bind-some (memset p v (suc n)) (λ _. same_bytes p index (suc n)) h g tt
      (memset-filled h p v (suc n) m k)
      (elim (Bool-cases (ltb v 128)) [
        | inl low ↦ rw low (same_bytes-low g p index (suc n) lo hi (ltb→lt v 128 low) e)
        | inr high ↦ rw high (same_bytes-high g p index n lo hi high e)
      ])
