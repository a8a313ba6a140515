-- ===== src/Blob/Tests.antt =====
-- The order of values at concrete values.
use Prim.Native.Nat.{Ordering}
use pelikan.Common.{◌≡◌, refl, [], ◌∷◌}
use pelikan.Blob.{Blob, str, compare_str, blob_compare}

abbrev abc : Blob
abc = str (97 ∷ 98 ∷ 99 ∷ [])

abbrev abd : Blob
abd = str (97 ∷ 98 ∷ 100 ∷ [])

abc_runs : blob_compare abc abc ≡ Ordering.eq
unfolding blob_compare compare_str
abc_runs = refl
