-- ===== src/Malloc/Memlib/Bounds.antt =====
-- The simulated break of malloc/lab/memlib.c stays inside the storage.
use csapp_labs.Base.{
  ℕ, ◌+◌, ◌≤◌, ◌≡◌, refl, Bool, true, false, none, some, arith, ltb, if◌then◌else◌, inl, inr,
  Bool-cases, ap,
}
use csapp_labs.Base.Int.{ℤ, pos, negsuc}
use csapp_labs.Malloc.Memlib.{Heap, mem_sbrk, mem_init, mem_reset_brk}

-- The break lies between the start of the storage and its end.
pub record InStorage (h : Heap) : Type 0 where
  pub from_start : h.mem_start_brk ≤ h.mem_brk
  pub to_end : h.mem_brk ≤ h.mem_max_addr

abbrev pub fits_storage : Heap → ℤ → Bool
fits_storage h (pos n) = if ltb h.mem_max_addr (h.mem_brk + n) then false else true
fits_storage h (negsuc n) = false

abbrev pub amount : ℤ → ℕ
amount (pos n) = n
amount (negsuc n) = 0

same : (h : Heap) → h ≡ record h { mem_brk = h.mem_brk + 0 }
same h = ap (λ n. record h { mem_brk = n }) (omega arith)

-- `mem_sbrk` always returns. When the increment is not negative and fits below the end of the
-- storage, it returns the old break, moves the break up by the increment, and the break stays inside
-- the storage; otherwise it fails and changes nothing.
mem_sbrk_lem :
    (h : Heap) (incr : ℤ)
    → InStorage h
    → (g : Heap) × (mem_sbrk incr h
        ≡ some (if fits_storage h incr then some h.mem_brk else none, g))
      × (g ≡ record h { mem_brk = h.mem_brk + (if fits_storage h incr then amount incr else 0) })
      × InStorage g
unfolding mem_sbrk
mem_sbrk_lem h (pos n) v = elim (Bool-cases (ltb h.mem_max_addr (h.mem_brk + n))) [
  | inl e ↦ (h, rw e refl, rw e (same h), v)
  | inr e ↦ (record h { mem_brk = h.mem_brk + n }, rw e refl, rw e refl, ground arith)
]
mem_sbrk_lem h (negsuc n) v = (h, refl, same h, v)

-- The storage begins empty, and is empty again after a reset.
mem_init-InStorage : (base : ℕ) (word : ℕ → ℕ) → InStorage (mem_init base word)
unfolding mem_init
mem_init-InStorage base word = omega arith

mem_reset_brk-InStorage : (h : Heap) → InStorage h → InStorage (mem_reset_brk h)
unfolding mem_reset_brk
mem_reset_brk-InStorage h v = omega arith
