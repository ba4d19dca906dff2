-- ===== src/Proxy/Sbuf/Tests.antt =====
-- A buffer of two slots that wraps around.
use csapp_labs.Base.{◌≡◌, refl, some, [], ◌∷◌, arith}
use csapp_labs.Base.Int.{pos}
use csapp_labs.Proxy.Sbuf.{Sbuf, sbuf_init, sbuf_insert, sbuf_remove, set_at}
use csapp_labs.Proxy.Sbuf.Fifo.{IsQueue, sbuf_insert-IsQueue, sbuf_remove-IsQueue}

abbrev one_item : Sbuf
one_item = record (sbuf_init 2) {
  buf = set_at (λ i. pos 0) 1 (pos 7);
  front = 2;
  rear = 3;
  slots = 1;
  items = 1;
}

one_item-IsQueue : IsQueue one_item (pos 7 ∷ [])
unfolding sbuf_init
one_item-IsQueue = record {
  unlocked = refl;
  free = refl;
  stored = refl;
  range = refl;
  contents = refl;
}

sbuf_insert-IsQueue_example :
    (t : Sbuf) × (sbuf_insert (pos 8) one_item ≡ some (tt, t))
    × IsQueue t (pos 7 ∷ pos 8 ∷ [])
    × (t.n ≡ one_item.n)
unfolding sbuf_init
sbuf_insert-IsQueue_example =
    sbuf_insert-IsQueue one_item (pos 7 ∷ []) (pos 8) one_item-IsQueue (omega arith) (omega arith)

sbuf_remove-IsQueue_example :
    (t : Sbuf) × (sbuf_remove one_item ≡ some (pos 7, t)) × IsQueue t [] × (t.n ≡ one_item.n)
unfolding sbuf_init
sbuf_remove-IsQueue_example = sbuf_remove-IsQueue one_item (pos 7) [] one_item-IsQueue (omega arith)
