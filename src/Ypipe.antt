-- ===== src/Ypipe.antt =====
-- src/util/ypipe.hpp: the queue between two threads, one of which writes and one of which reads.
-- `items` holds what was ever written and not undone; the pointers `_w`, `_f`, `_r` and `_c` are
-- positions in it, `none` where the code has a null pointer, and `front` and the length stand for
-- `_queue.front()` and `_queue.back()`. Each operation touches the shared `_c` once, by an atomic
-- exchange, so operations of the two threads are taken one after the other. How src/util/yqueue.hpp
-- keeps the items in chunks is not modelled.
pub mod Base
pub mod Fifo
use serverlink.Prelude.{
  ℕ, zero, suc, ◌+◌, ◌-◌, ◌≤◌, ◌<◌, ◌≡◌, refl, ◌==◌, ltb, Bool, true, false, not, ◌&&◌, ◌||◌,
  if◌then◌else◌, Option, none, some, List, [], ◌∷◌, ◌++◌, length, take, get_elem?, arith,
  length-append, length-take, Option-cases, inl, inr, ◌⊎◌,
}
use serverlink.Msg.{Msg}
use serverlink.Pipe.Queue.{YpipeBase}

pub record Ypipe (A : Type 0) : Type 0 where
  pub items : List A
  pub front : ℕ
  pub w : ℕ
  pub f : ℕ
  pub r : Option ℕ
  pub c : Option ℕ

abbrev pub points_to : Option ℕ → ℕ → Bool
points_to none n = false
points_to (some k) n = k == n

abbrev pub is_null : Option ℕ → Bool
is_null none = true
is_null (some k) = false

-- The shared pointer is null only while the reader has taken all that was flushed.
abbrev pub Shared : Option ℕ → ℕ → ℕ → Type 0
Shared none front w = front ≡ w
Shared (some k) front w = k ≡ w

abbrev pub Fetched : Option ℕ → ℕ → ℕ → Type 0
Fetched none front w = Unit
Fetched (some k) front w = (front ≤ k) × (k ≤ w)

Fetched-mono : (o : Option ℕ) (a b b' : ℕ) → b ≤ b' → Fetched o a b → Fetched o a b'
Fetched-mono none a b b' l h = tt
Fetched-mono (some k) a b b' l h = (h.0, omega arith)

module _ {A : Type 0} where
  unfoldable pub empty : Ypipe A
  empty = record { items = []; front = 0; w = 0; f = 0; r = some 0; c = some 0 }

  unfoldable pub write : A → Bool → Ypipe A → Ypipe A
  write value incomplete y = record y {
    items = y.items ++ value ∷ [];
    f = if incomplete then y.f else length y.items + 1;
  }

  unfoldable pub unwrite : Ypipe A → Option A × Ypipe A
  unwrite y = if y.f == length y.items then (none, y) else (
    get_elem? y.items (length y.items - 1),
    record y { items = take (length y.items - 1) y.items },
  )

  -- `_c.cas(_w, _f)`, and the store that follows where it fails, leave `_f` in `_c` either way.
  unfoldable pub flush : Ypipe A → Bool × Ypipe A
  flush y =
      if y.w == y.f then (true, y) else (points_to y.c y.w, record y { c = some y.f; w = y.f })

  -- `_r = _c.cas(&front, nullptr)` gives the old value of `_c`.
  unfoldable pub prefetch : Ypipe A → Ypipe A
  prefetch y =
      if points_to y.c y.front then record y { r = y.c; c = none } else record y { r = y.c }

  unfoldable pub check_read : Ypipe A → Bool × Ypipe A
  unfolding prefetch
  check_read y =
      if not (points_to y.r y.front) && not (is_null y.r)
      then (true, y)
      else (let y' = prefetch y in (not (points_to y'.r y'.front || is_null y'.r), y'))

  unfoldable pub read : Ypipe A → Option A × Ypipe A
  unfolding check_read
  read y =
      let (available, y') = check_read y in
      if available
      then (get_elem? y'.items y'.front, record y' { front = y'.front + 1 })
      else (none, y')

  -- What the two threads rely on.
  pub record IsValid (y : Ypipe A) : Type 0 where
    pub front-w : y.front ≤ y.w
    pub w-f : y.w ≤ y.f
    pub f-back : y.f ≤ length y.items
    pub shared : Shared y.c y.front y.w
    pub fetched : Fetched y.r y.front y.w

  pub empty-IsValid : IsValid empty
  unfolding empty
  empty-IsValid = ground arith

  pub write-IsValid : (v : A) (b : Bool) (y : Ypipe A) → IsValid y → IsValid (write v b y)
  unfolding write
  write-IsValid v b y h = ground (arith, length-append y.items (v ∷ []))

  pub unwrite-IsValid : (y : Ypipe A) → IsValid y → IsValid (unwrite y).1
  unfolding unwrite
  unwrite-IsValid y h = ground (arith, length-take (length y.items - 1) y.items)

  pub flush-IsValid : (y : Ypipe A) → IsValid y → IsValid (flush y).1
  unfolding flush
  flush-IsValid y h = ground (arith, Fetched-mono y.r y.front y.w y.f h.w-f h.fetched)

  pub prefetch-IsValid : (y : Ypipe A) → IsValid y → IsValid (prefetch y)
  unfolding prefetch
  prefetch-IsValid y h = ground arith

  pub check_read-IsValid : (y : Ypipe A) → IsValid y → IsValid (check_read y).1
  unfolding check_read
  check_read-IsValid y h = ground arith

  -- A reader finds something exactly when flushed items are left, whatever it had fetched before.
  pub check_read_lem : (y : Ypipe A) → IsValid y → (check_read y).0 ≡ ltb y.front y.w
  unfolding check_read
  check_read_lem y h = ground arith

  pub read-IsValid : (y : Ypipe A) → IsValid y → IsValid (read y).1
  unfolding read
  read-IsValid y h = ground arith

  pub read_cases :
      (y : Ypipe A)
      → IsValid y
      → ((read y).0 ≡ (if ltb y.front y.w then get_elem? y.items y.front else none))
        × ((read y).1.front ≡ (if ltb y.front y.w then y.front + 1 else y.front))
        × ((read y).1.w ≡ y.w)
        × ((read y).1.items ≡ y.items)
  unfolding read
  read_cases y h = ground arith
