-- ===== src/Sarray/Limits.antt =====
-- Values at the limits of sarray.c: one byte read through a `char`, and 8-byte values in the
-- `uint32_t curr` of the binary search.
use pelikan.Common.{ℕ, ◌+◌, ◌-◌, ◌≤◌, ◌<◌, ◌≡◌, ap, true, false, some, arith, ◌∷◌}
use pelikan.Common.Words.{u32_mod, u64_mod, mul32, sub32, add32}
use pelikan.Common.Memory.{Bytes, slice, splice, memmove, store, load, le_bytes, le_value}
use pelikan.Search
use pelikan.Search.{should_scan, linear_search}
use pelikan.Search.Locate.{locate_wide}
use pelikan.Sarray.{
  Sarray, ok, enotfound, entry, locate, insert, index, value, position, validate_range, get_value,
  set_value, sign_extend,
}

-- In an array of 8-byte values that is searched by halving, no value from 2^32 on is found, the
-- smallest entry excepted.
pub index_wide :
    (sa : Sarray) (val : ℕ)
    → sa.esize ≡ 8
    → should_scan sa.nentry sa.esize ≡ false
    → u32_mod ≤ val
    → entry sa 0 < val
    → (index (some sa) val).0 ≡ enotfound
unfolding index locate
index_wide sa val w halve wide above =
    rw (any_value, locate_wide (entry sa) sa.nentry sa.esize val halve wide above)
  where
    any_value : validate_range sa.esize val ≡ true
    any_value = unfold validate_range in rw w

abbrev pub empty_bytes : Bytes → Sarray
empty_bytes body = record { nentry = 0; esize = 1; body = body }

abbrev pub one_byte : ℕ → Bytes → Sarray
one_byte v rest = record { nentry = 1; esize = 1; body = v ∷ rest }

read_back : (v : ℕ) (b : Bytes) → 128 ≤ v → entry (one_byte v b) 0 ≡ u64_mod - 256 + v
unfolding entry position get_value load le_value slice sign_extend mul32
read_back v b h = ground arith

written :
    (v g : ℕ) (b : Bytes)
    → v < 256
    → insert (some (empty_bytes (g ∷ b))) v ≡ (ok, some (one_byte v b))
unfolding insert locate Search.locate position set_value store splice memmove slice le_bytes mul32
    sub32 add32 validate_range
written v g b h = ground arith

searched : (v : ℕ) (b : Bytes) → 128 ≤ v → v < 256 → locate (one_byte v b) v ≡ (false, 0)
unfolding locate Search.locate linear_search should_scan
searched v b h k = ground (arith, read_back v b h)

-- A value from 128 to 255 that is inserted into an empty array of 1-byte values is accepted, is not
-- found there, and is read back as 2^64 - 256 more.
pub index_signed :
    (v g : ℕ) (b : Bytes)
    → 128 ≤ v
    → v < 256
    → (insert (some (empty_bytes (g ∷ b))) v ≡ (ok, some (one_byte v b)))
      × (index (some (one_byte v b)) v ≡ (enotfound, some 0))
      × (value (some (one_byte v b)) 0 ≡ (ok, some (u64_mod - 256 + v)))
unfolding index value validate_range
index_signed v g b h k = (
  written v g b k,
  ground (arith, searched v b h k),
  ap (λ (x : ℕ). (ok, some x)) (read_back v b h),
)
