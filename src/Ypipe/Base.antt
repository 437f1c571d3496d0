-- ===== src/Ypipe/Base.antt =====
-- src/util/ypipe.hpp as the queue of a pipe, `class ypipe_t : public ypipe_base_t`.
use serverlink.Prelude.{
  ℕ, zero, suc, List, [], ◌∷◌, ◌+◌, ◌-◌, ◌<◌, ◌≤◌, ◌≡◌, Option, none, some, arith, length,
  get_elem?, length-take,
}
use serverlink.Msg.{Msg}
use serverlink.Pipe.Queue.{YpipeBase}
use serverlink.Ypipe.{Ypipe, write, unwrite, flush, check_read, read, prefetch}

-- `_queue.front()`, which the code reads only after a successful `check_read`.
unfoldable pub front : Ypipe Msg → Option Msg
front y = get_elem? y.items y.front

abbrev pub size : Ypipe Msg → ℕ
size y = length y.items + (length y.items - y.front)

elem-lt : (xs : List Msg) (i : ℕ) (m : Msg) → get_elem? xs i ≡ some m → i < length xs
elem-lt [] i m h = cc
elem-lt (x ∷ xs) zero m h = omega arith
elem-lt (x ∷ xs) (suc i) m h = omega (arith, elem-lt xs i m h)

pub read_shrinks : (y : Ypipe Msg) (m : Msg) → (read y).0 ≡ some m → size (read y).1 < size y
unfolding read check_read prefetch
read_shrinks y m h = ground (arith, elem-lt y.items y.front m)

pub read_keeps : (y : Ypipe Msg) → (read y).0 ≡ none → size (read y).1 ≤ size y
unfolding read check_read prefetch
read_keeps y h = ground arith

pub unwrite_shrinks :
    (y : Ypipe Msg) (m : Msg) → (unwrite y).0 ≡ some m → size (unwrite y).1 < size y
unfolding unwrite
unwrite_shrinks y m h =
    ground (arith, length-take (length y.items - 1) y.items, elem-lt y.items (length y.items - 1) m)

abbrev pub ypipe : YpipeBase (Ypipe Msg)
ypipe = record {
  write = λ y m more. write m more y;
  unwrite = unwrite;
  flush = flush;
  check_read = check_read;
  read = read;
  front = front;
  size = size;
  read_shrinks = read_shrinks;
  unwrite_shrinks = unwrite_shrinks;
  read_keeps = read_keeps;
}
