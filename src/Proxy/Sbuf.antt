-- ===== src/Proxy/Sbuf.antt =====
-- proxy/lab/sbuf.c: the bounded buffer of connections, one call at a time.
pub mod Fifo
mod Tests
use csapp_labs.Base.{
  ℕ, suc, ◌+◌, ◌-◌, ◌%◌, ◌^◌, Bool, true, false, Option, none, some, ltb, ◌==◌, if◌then◌else◌,
}
use csapp_labs.Base.Int.{ℤ, pos}
use csapp_labs.Base.State.{Cmd, pure, ◌>>=◌, ◌>>◌}

-- `sbuf_t`; a semaphore is its count.
pub record Sbuf : Type 0 where
  pub buf : ℕ → ℤ
  pub n : ℕ
  pub front : ℕ
  pub rear : ℕ
  pub mutex : ℕ
  pub slots : ℕ
  pub items : ℕ

-- `sbuf_init(sp, n)`
unfoldable pub sbuf_init : ℕ → Sbuf
sbuf_init n = record {
  buf = λ i. pos 0;
  n = n;
  front = 0;
  rear = 0;
  mutex = 1;
  slots = n;
  items = 0;
}

abbrev pub set_at : (ℕ → ℤ) → ℕ → ℤ → ℕ → ℤ
set_at f i v j = if j == i then v else f j

-- `P` stops where the thread would block.
abbrev pub lock : Cmd Sbuf (Unit {0})
lock s = if s.mutex == 0 then none else some (tt, record s { mutex = s.mutex - 1 })

abbrev pub unlock : Cmd Sbuf (Unit {0})
unlock s = some (tt, record s { mutex = s.mutex + 1 })

abbrev pub take_slot : Cmd Sbuf (Unit {0})
take_slot s = if s.slots == 0 then none else some (tt, record s { slots = s.slots - 1 })

abbrev pub give_slot : Cmd Sbuf (Unit {0})
give_slot s = some (tt, record s { slots = s.slots + 1 })

abbrev pub take_item : Cmd Sbuf (Unit {0})
take_item s = if s.items == 0 then none else some (tt, record s { items = s.items - 1 })

abbrev pub give_item : Cmd Sbuf (Unit {0})
give_item s = some (tt, record s { items = s.items + 1 })

-- `sp->buf[(++sp->rear)%(sp->n)] = item`; an index that leaves the range of `int` is an error.
abbrev pub write_rear : ℤ → Cmd Sbuf (Unit {0})
write_rear item s =
    if ltb (s.rear + 1) (2 ^ 31)
    then some (tt, record s { rear = s.rear + 1; buf = set_at s.buf ((s.rear + 1) % s.n) item })
    else none

-- `item = sp->buf[(++sp->front)%(sp->n)]`
abbrev pub read_front : Cmd Sbuf ℤ
read_front s =
    if ltb (s.front + 1) (2 ^ 31)
    then some (s.buf ((s.front + 1) % s.n), record s { front = s.front + 1 })
    else none

unfoldable pub sbuf_insert : ℤ → Cmd Sbuf (Unit {0})
sbuf_insert item = do take_slot; lock; write_rear item; unlock; give_item

unfoldable pub sbuf_remove : Cmd Sbuf ℤ
sbuf_remove = do take_item; lock; item ← read_front; unlock; give_slot; pure item
