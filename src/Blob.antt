-- ===== src/Blob.antt =====
-- data_structure/shared.h: the values that a ziplist stores, and their order. An `int` that is a
-- comparison's result is its sign.
pub mod Order
mod Tests
use Prim.Native.Nat.{compare, Ordering}
use pelikan.Common.{ℕ, [], ◌∷◌}
use pelikan.Common.Memory.{Bytes}

-- `invalid` stands for the types that are neither BLOB_TYPE_INT nor BLOB_TYPE_STR.
pub data Blob : Type 0 where
  invalid : Blob
  int : ℕ → Blob
  str : Bytes → Blob

-- The sign of `memcmp` over the shorter length, then of the lengths.
unfoldable pub compare_str : Bytes → Bytes → Ordering
compare_str [] [] = Ordering.eq
compare_str [] (b ∷ bs) = Ordering.lt
compare_str (a ∷ as') [] = Ordering.gt
compare_str (a ∷ as') (b ∷ bs) = elim (compare a b) [
  | Ordering.eq ↦ compare_str as' bs
  | Ordering.lt ↦ Ordering.lt
  | Ordering.gt ↦ Ordering.gt
]

abbrev blob_type : Blob → ℕ
blob_type invalid = 0
blob_type (int v) = 1
blob_type (str s) = 2

unfoldable pub blob_compare : Blob → Blob → Ordering
unfolding compare_str
blob_compare (int v) (int w) = compare v w
blob_compare (str s) (str t) = compare_str s t
blob_compare a b = compare (blob_type a) (blob_type b)
