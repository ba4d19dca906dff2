-- ===== src/Malloc/Whole/Tags.antt =====
-- What `coalesce` of malloc/lab/mm.c reads, and what it does with the blocks before and behind.
use csapp_labs.Base.{ℕ, ◌+◌, ◌-◌, ◌%◌, ◌≤◌, ◌≡◌, refl, ap, ◌∙◌, true, arith, some}
use csapp_labs.Malloc.Memlib.{Heap, in_heap, bind-some, load-then}
use csapp_labs.Malloc.Mm.{
  get_size, get_alloc, get_size-in_heap, absorb_prev, absorb_next, heap_remove,
}
use csapp_labs.Malloc.Words.{size_of, alloc_of, hdrp}
use csapp_labs.Malloc.Words.Sizes.{pack_fields, bit}
use csapp_labs.Malloc.Chain.All.{SameBounds}
use csapp_labs.Malloc.Tiles.{Tile, tag}
use csapp_labs.Malloc.Whole.{Framed, first, last}

pub reshaped : {h : Heap} {v : ℕ → ℕ} → SameBounds h (record h { word = v })
reshaped = record { start = refl; brk = refl; most = refl; lists = refl }

module _ (h : Heap) (a : ℕ) (t : Tile) (i : in_heap h a ≡ true) (e : h.word a ≡ tag t) where
  pub get_size-tag : t.size % 8 ≡ 0 → get_size a h ≡ some (t.size, h)
  get_size-tag m =
      get_size-in_heap h a i
      ∙ ap (λ w. some (w, h)) (ap size_of e ∙ (pack_fields t.size t.used m).0)

  pub get_alloc-tag : t.size % 8 ≡ 0 → get_alloc a h ≡ some (bit t.used, h)
  unfolding get_alloc
  get_alloc-tag m =
      load-then h a _ i (ap (λ w. some (w, h)) (ap alloc_of e ∙ (pack_fields t.size t.used m).1))

-- The words of the blocks and the epilogue can be read.
pub Framed-in_heap : (h : Heap) (a : ℕ) → Framed h → first h ≤ a → a ≤ last h → in_heap h a ≡ true
Framed-in_heap h a f i j = ground (arith, f.brk_above)

pub absorb_next-used : (h : Heap) (nxt size : ℕ) → absorb_next nxt 1 size h ≡ some (size, h)
unfolding absorb_next
absorb_next-used h nxt size = refl

pub absorb_next-free :
    (h g : Heap) (nxt size s : ℕ)
    → get_size (hdrp nxt) h ≡ some (s, h)
    → heap_remove nxt h ≡ some (tt, g)
    → absorb_next nxt 0 size h ≡ some (size + s, g)
unfolding absorb_next
absorb_next-free h g nxt size s e f =
    bind-some (get_size (hdrp nxt)) _ h h s e (bind-some (heap_remove nxt) _ h g tt f refl)

pub absorb_prev-used :
    (h : Heap) (bp pre size : ℕ) → absorb_prev bp pre 1 size h ≡ some ((bp, size), h)
unfolding absorb_prev
absorb_prev-used h bp pre size = refl

pub absorb_prev-free :
    (h g : Heap) (bp pre size s b : ℕ)
    → get_size (hdrp pre) h ≡ some (s, h)
    → heap_remove pre h ≡ some (tt, g)
    → get_size (bp - 16) g ≡ some (b, g)
    → absorb_prev bp pre 0 size h ≡ some ((bp - b, size + s), g)
unfolding absorb_prev
absorb_prev-free h g bp pre size s b e f d =
    bind-some (get_size (hdrp pre)) _ h h s e
      (bind-some (heap_remove pre) _ h g tt f (bind-some (get_size (bp - 16)) _ g g b d refl))
