-- ===== src/Bitset.antt =====
-- data_structure/bitmap/bitset.c and bitset.h: a set of columns of one bit, in segments of 32 bits. The
-- record has the header of four bytes, the body is what is behind it.
pub mod Columns
pub mod Access
mod Tests
use Prim.Native.Nat.{bit_and, bit_or}
use pelikan.Common.{
  ℕ, ◌+◌, ◌-◌, ◌*◌, ◌/◌, ◌%◌, ◌^◌, Bool, true, false, ◌==◌, if◌then◌else◌, replicate,
}
use pelikan.Common.Words.{u32_mod, u64_mod}
use pelikan.Common.Memory.{Bytes, load, store, splice}
use pelikan.Common.Bits.{shift_left, shift_right}

pub record Bitset : Type 0 where
  pub size : ℕ
  pub col_w : ℕ
  pub count : ℕ
  pub body : Bytes

-- The column is cast to `uint8_t` in both.
unfoldable pub segment_offset : ℕ → ℕ
segment_offset col = shift_right 5 (col % 256)

unfoldable pub bit_offset : ℕ → ℕ
bit_offset col = bit_and (col % 256) 0x1f

-- The place of a segment in bytes.
unfoldable pub get_segment : ℕ → ℕ
get_segment col = 4 * segment_offset col

unfoldable pub get_col : ℕ → ℕ → ℕ
get_col v offset = bit_and (shift_right offset v) 1

-- `((_col) - 1) >> 5` is -1 for no column.
unfoldable pub bit2long : ℕ → ℕ
bit2long col = if col == 0 then 0 else shift_right 5 (col - 1) + 1

unfoldable pub size2byte : ℕ → ℕ
size2byte sz = shift_left 2 sz

-- The number of bytes that are in use, with the bitset; `sizeof(*bs)` is 6.
unfoldable pub init : Bitset → ℕ → ℕ × Bitset
init bs ncol =
    let size = bit2long ncol % 256 in
    let sz = size2byte size % 256 in
    (
      (sz + 6) % 256,
      record { size = size; col_w = 1; count = 0; body = splice 0 (replicate sz 0) bs.body },
    )

unfoldable pub get : Bitset → ℕ → ℕ
get bs col = get_col (load 4 (get_segment col) bs.body) (bit_offset col)

-- 1 where a value is not 0.
unfoldable pub nonzero : ℕ → ℕ
nonzero v = if v == 0 then 0 else 1

-- The segment with the column cleared, then set.
unfoldable pub write_col : ℕ → ℕ → ℕ → ℕ
write_col d offset val =
    bit_or (bit_and d (u64_mod - 1 - shift_left offset 1)) (shift_left offset val % u32_mod)

unfoldable pub set : Bitset → ℕ → ℕ → Bitset
set bs col val =
    let p = get_segment col in
    record bs {
      count = (bs.count + nonzero val + 2 ^ 16 - nonzero (get bs col)) % 2 ^ 16;
      body = store 4 p (write_col (load 4 p bs.body) (bit_offset col) val) bs.body;
    }
