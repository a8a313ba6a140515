-- ===== src/Blob/Order.antt =====
-- The order of values that `blob_compare` decides.
use Prim.Native.Nat.{compare, Ordering}
use pelikan.Common.{ℕ, ◌≡◌, refl, ap, arith, [], ◌∷◌}
use pelikan.Common.Memory.{Bytes}
use pelikan.Blob.{Blob, invalid, int, str, compare_str, blob_compare}

-- The sign of a comparison the other way round.
abbrev pub flip : Ordering → Ordering
flip Ordering.lt = Ordering.gt
flip Ordering.eq = Ordering.eq
flip Ordering.gt = Ordering.lt

compare-flip : (a b : ℕ) → compare b a ≡ flip (compare a b)
compare-flip a b = ground arith

compare_str-flip : (s t : Bytes) → compare_str t s ≡ flip (compare_str s t)
unfolding compare_str
compare_str-flip [] [] = refl
compare_str-flip [] (b ∷ bs) = refl
compare_str-flip (a ∷ as') [] = refl
compare_str-flip (a ∷ as') (b ∷ bs) = ground (arith, compare_str-flip as' bs)

compare_str_eq : (s t : Bytes) → compare_str s t ≡ Ordering.eq → s ≡ t
unfolding compare_str
compare_str_eq [] [] h = refl
compare_str_eq [] (b ∷ bs) h = absurd (ground (arith, h))
compare_str_eq (a ∷ as') [] h = absurd (ground (arith, h))
compare_str_eq (a ∷ as') (b ∷ bs) h = ground (arith, compare_str_eq as' bs)

-- With its values exchanged, `blob_compare` answers the opposite sign.
pub blob_compare-flip : (a b : Blob) → blob_compare b a ≡ flip (blob_compare a b)
unfolding blob_compare
blob_compare-flip (int v) (int w) = compare-flip v w
blob_compare-flip (str s) (str t) = compare_str-flip s t
blob_compare-flip invalid invalid = refl
blob_compare-flip invalid (int w) = refl
blob_compare-flip invalid (str t) = refl
blob_compare-flip (int v) invalid = refl
blob_compare-flip (int v) (str t) = refl
blob_compare-flip (str s) invalid = refl
blob_compare-flip (str s) (int w) = refl

-- Values for which `blob_compare` answers 0 are equal.
pub blob_compare_eq : (a b : Blob) → blob_compare a b ≡ Ordering.eq → a ≡ b
unfolding blob_compare
blob_compare_eq (int v) (int w) h = ap int (ground (arith, h))
blob_compare_eq (str s) (str t) h = ap str (compare_str_eq s t h)
blob_compare_eq invalid invalid h = refl
blob_compare_eq invalid (int w) h = absurd (ground (arith, h))
blob_compare_eq invalid (str t) h = absurd (ground (arith, h))
blob_compare_eq (int v) invalid h = absurd (ground (arith, h))
blob_compare_eq (int v) (str t) h = absurd (ground (arith, h))
blob_compare_eq (str s) invalid h = absurd (ground (arith, h))
blob_compare_eq (str s) (int w) h = absurd (ground (arith, h))
