-- ===== src/Bitset/Columns.antt =====
-- data_structure/bitmap/bitset.c: reading a column after a write.
use Prim.Native.Nat.{bit_and, min, max}
use pelikan.Common.{
  ℕ, zero, suc, ◌+◌, ◌-◌, ◌/◌, ◌%◌, ◌^◌, ◌≤◌, ◌<◌, ◌≡◌, ◌⊎◌, refl, ap, ap₂, ◌∙◌, inl, inr, Bool,
  true, false, arith, ◌==◌, ==_iff, if◌then◌else◌, length, Bool-cases,
}
use pelikan.Common.Words.{u32_mod, u64_mod}
use pelikan.Common.Memory.{
  Bytes, load, store, le_bytes, le_value, length-le_bytes, le_value-le_bytes,
}
use pelikan.Common.Splice.{slice-splice, slice-splice_before, slice-splice_behind}
use pelikan.Common.Bits.{
  shift_left, shift_right, digit, digit-and, digit-or, bit_and_bound, bit_or_bound, bit_and-last,
}
use pelikan.Bitset.{segment_offset, bit_offset, get_col, write_col}

-- Every number below a bound, by evaluation.
each : ℕ → (ℕ → Bool) → Bool
each zero p = true
each (suc n) p = if p n then each n p else false

below : (x n : ℕ) → x < suc n → (x == n) ≡ false → x < n
below x n l q = ground arith

each_holds : (n : ℕ) (p : ℕ → Bool) → each n p ≡ true → (x : ℕ) → x < n → p x ≡ true
unfolding each
each_holds zero p h x l = absurd (omega arith)
each_holds (suc n) p h x l = elim (Bool-cases (p n)) [
  | inl e ↦ elim (Bool-cases (x == n)) [
    | inl q ↦ ap p ((==_iff x n).0 q) ∙ e
    | inr q ↦ each_holds n p (rw e at h) x (below x n l q)
  ]
  | inr e ↦ absurd (ground (arith, rw e at h))
]

-- The digits of the two masks, and the place of a column in its segment, by evaluation.
mask_table :
    each 32
      (λ i. each 32 (λ j. digit j (u64_mod - 1 - shift_left i 1) == (if j == i then 0 else 1)))
    ≡ true
unfolding each shift_left shift_right
mask_table = refl

value_table :
    each 2 (λ v.
      each 32 (λ i. each 32 (λ j. digit j (shift_left i v % u32_mod) == (if j == i then v else 0))))
    ≡ true
unfolding each shift_left shift_right
value_table = refl

offset_table : each 256 (λ col. bit_and col 0x1f == col % 32) ≡ true
unfolding each
offset_table = refl

mask_digit :
    (i j : ℕ) → i < 32 → j < 32 → digit j (u64_mod - 1 - shift_left i 1) ≡ (if j == i then 0 else 1)
mask_digit i j h k = (==_iff _ _).0 (
    each_holds 32 (λ b. digit b (u64_mod - 1 - shift_left i 1) == (if b == i then 0 else 1))
      (each_holds 32 _ mask_table i h) j k)

value_digit :
    (v i j : ℕ)
    → v < 2
    → i < 32
    → j < 32
    → digit j (shift_left i v % u32_mod) ≡ (if j == i then v else 0)
value_digit v i j l h k = (==_iff _ _).0 (
    each_holds 32 (λ b. digit b (shift_left i v % u32_mod) == (if b == i then v else 0))
      (each_holds 32
        (λ a. each 32 (λ b. digit b (shift_left a v % u32_mod) == (if b == a then v else 0)))
        (each_holds 2 _ value_table v l) i h)
      j k)

-- A digit of a segment after a write.
pub write_digit :
    (d v i j : ℕ)
    → v < 2
    → i < 32
    → j < 32
    → digit j (write_col d i v) ≡ (if j == i then v else digit j d)
unfolding write_col
write_digit d v i j l h k =
    digit-or j _ _
    ∙ ap₂ max (digit-and j d _) refl
    ∙ ap₂ (λ m w. max (min (digit j d) m) w) (mask_digit i j h k) (value_digit v i j l h k)
    ∙ merged (digit j d) v (j == i) (omega arith) l
  where
    merged :
        (x v : ℕ) (same : Bool)
        → x < 2
        → v < 2
        → max (min x (if same then 0 else 1)) (if same then v else 0) ≡ (if same then v else x)
    merged x v true h k = omega arith
    merged x v false h k = omega arith

pub read_col : (v i : ℕ) → get_col v i ≡ digit i v
unfolding get_col
read_col v i = bit_and-last (shift_right i v)

pub segment_lem : (col : ℕ) → col < 256 → segment_offset col ≡ col / 32
unfolding segment_offset shift_right
segment_lem col h = omega arith

pub offset_lem : (col : ℕ) → col < 256 → bit_offset col ≡ col % 32
unfolding bit_offset
offset_lem col h =
    ap (λ (k : ℕ). bit_and k 0x1f) (wrapped col h)
    ∙ (==_iff _ _).0 (each_holds 256 (λ k. bit_and k 0x1f == k % 32) offset_table col h)
  where
    wrapped : (col : ℕ) → col < 256 → col % 256 ≡ col
    wrapped col h = omega arith

pub write_bound : (d i v : ℕ) → d < 2 ^ 32 → write_col d i v < 2 ^ 32
unfolding write_col
write_bound d i v h = bit_or_bound 32 _ _ (bit_and_bound 32 d _ h) (omega arith)

-- A word of the region after a write of one.
module _ (body : Bytes) (p w : ℕ) (room : p + 4 ≤ length body) where
  pub read_same : w < 2 ^ 32 → load 4 p (store 4 p w body) ≡ w
  unfolding load store
  read_same h =
      ap le_value (slice-splice p 4 (le_bytes 4 w) body (omega arith) (length-le_bytes 4 w))
      ∙ le_value-le_bytes 4 w h

  pub read_apart : (q : ℕ) → (q + 4 ≤ p) ⊎ (p + 4 ≤ q) → load 4 q (store 4 p w body) ≡ load 4 q body
  unfolding load store
  read_apart q (inl h) = ap le_value (slice-splice_before q 4 p (le_bytes 4 w) body h (omega arith))
  read_apart q (inr h) = ap le_value (
      slice-splice_behind q 4 p (le_bytes 4 w) body (omega (arith, length-le_bytes 4 w))
        (omega (arith, length-le_bytes 4 w)))
