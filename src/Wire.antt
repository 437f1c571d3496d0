-- ===== src/Wire.antt =====
-- src/protocol/wire.hpp: integers in network byte order. A `put` gives the bytes that it writes
-- from `buffer[0]` on, a `get` reads the bytes that stand from there on. A byte is a number below
-- 256, so the `|` of the shifted bytes joins disjoint bit ranges and is written as their sum.
use serverlink.Prelude.{
  ℕ, ◌+◌, ◌*◌, ◌/◌, ◌%◌, ◌^◌, ◌<◌, ◌≡◌, refl, [], ◌∷◌, ◌++◌, arith, Bytes, get_or, length,
}

unfoldable pub put_uint8 : ℕ → Bytes
put_uint8 value = value ∷ []

unfoldable pub get_uint8 : Bytes → ℕ
get_uint8 buffer = get_or buffer 0 0

unfoldable pub put_uint16 : ℕ → Bytes
put_uint16 value = value / 2 ^ 8 % 256 ∷ value % 256 ∷ []

unfoldable pub get_uint16 : Bytes → ℕ
get_uint16 buffer = get_or buffer 0 0 * 2 ^ 8 + get_or buffer 1 0

unfoldable pub put_uint32 : ℕ → Bytes
put_uint32 value =
    (value / 2 ^ 24 % 256) ∷ (value / 2 ^ 16 % 256) ∷ (value / 2 ^ 8 % 256) ∷ (value % 256) ∷ []

unfoldable pub get_uint32 : Bytes → ℕ
get_uint32 buffer =
    get_or buffer 0 0 * 2 ^ 24
    + get_or buffer 1 0 * 2 ^ 16
    + get_or buffer 2 0 * 2 ^ 8
    + get_or buffer 3 0

unfoldable pub put_uint64 : ℕ → Bytes
put_uint64 value =
    (value / 2 ^ 56 % 256)
    ∷ (value / 2 ^ 48 % 256)
    ∷ (value / 2 ^ 40 % 256)
    ∷ (value / 2 ^ 32 % 256)
    ∷ (value / 2 ^ 24 % 256)
    ∷ (value / 2 ^ 16 % 256)
    ∷ (value / 2 ^ 8 % 256)
    ∷ (value % 256)
    ∷ []

unfoldable pub get_uint64 : Bytes → ℕ
get_uint64 buffer =
    get_or buffer 0 0 * 2 ^ 56
    + get_or buffer 1 0 * 2 ^ 48
    + get_or buffer 2 0 * 2 ^ 40
    + get_or buffer 3 0 * 2 ^ 32
    + get_or buffer 4 0 * 2 ^ 24
    + get_or buffer 5 0 * 2 ^ 16
    + get_or buffer 6 0 * 2 ^ 8
    + get_or buffer 7 0

pub get-put_uint16 : (v : ℕ) (rest : Bytes) → v < 2 ^ 16 → get_uint16 (put_uint16 v ++ rest) ≡ v
unfolding get_uint16 put_uint16
get-put_uint16 v rest h = omega arith

pub get-put_uint32 : (v : ℕ) (rest : Bytes) → v < 2 ^ 32 → get_uint32 (put_uint32 v ++ rest) ≡ v
unfolding get_uint32 put_uint32
get-put_uint32 v rest h = omega arith

-- A 64-bit value is read back from the eight bytes that were written for it, whatever follows them.
pub get-put_uint64 : (v : ℕ) (rest : Bytes) → v < 2 ^ 64 → get_uint64 (put_uint64 v ++ rest) ≡ v
unfolding get_uint64 put_uint64
get-put_uint64 v rest h = omega arith

pub length-put_uint64 : (v : ℕ) → length (put_uint64 v) ≡ 8
unfolding put_uint64
length-put_uint64 v = refl
