-- ===== src/Common/Int.antt =====
-- `int64_t` values as integers. Where the code computes with values that a client sends, the result is
-- wrapped around by `wrap64`.
use Prim.Native.Nat.{ℕ, zero, suc, ◌+◌, ◌-◌, ◌%◌, ◌^◌, ◌<◌, ◌≤◌}
use mathlib.Core.Path.{◌≡◌}
use mathlib.Core.Logic.{inl, inr}
use native.Mathlib.Omega.{arith}
use mathlib.Core.List.{List}
use mathlib.Core.Bool.{Bool}
use pelikan.Common.Tests.{leb, ltb, if◌then◌else◌, Bool-cases}
use pelikan.Common.Lists.{length, take, drop}

-- `negsuc n` is -(n + 1).
pub data ℤ : Type 0 where
  pos : ℕ → ℤ
  negsuc : ℕ → ℤ

abbrev pub neg : ℤ → ℤ
neg (pos zero) = pos 0
neg (pos (suc n)) = negsuc n
neg (negsuc n) = pos (suc n)

abbrev pub pos_part : ℤ → ℕ
pos_part (pos n) = n
pos_part (negsuc n) = 0

abbrev pub neg_part : ℤ → ℕ
neg_part (pos n) = 0
neg_part (negsuc n) = suc n

-- a - b, as an integer.
abbrev pub sub_ℕ : ℕ → ℕ → ℤ
sub_ℕ a b = if leb b a then pos (a - b) else negsuc (b - a - 1)

infixl 65 ◌+ℤ◌ ◌-ℤ◌
abbrev pub ◌+ℤ◌ : ℤ → ℤ → ℤ
a +ℤ b = sub_ℕ (pos_part a + pos_part b) (neg_part a + neg_part b)

abbrev pub ◌-ℤ◌ : ℤ → ℤ → ℤ
a -ℤ b = sub_ℕ (pos_part a + neg_part b) (neg_part a + pos_part b)

abbrev pub ltb_ℤ : ℤ → ℤ → Bool
ltb_ℤ a b = ltb (pos_part a + neg_part b) (pos_part b + neg_part a)

abbrev pub leb_ℤ : ℤ → ℤ → Bool
leb_ℤ a b = leb (pos_part a + neg_part b) (pos_part b + neg_part a)

-- What a truncation by a count leaves of a list: a positive count drops from the start, a negative
-- one from the end.
abbrev pub survivors {ℓ} : {A : Type ℓ} → ℤ → List A → List A
survivors (pos n) xs = drop n xs
survivors (negsuc n) xs = take (length xs - suc n) xs

-- The `int64_t` that is congruent to an integer.
unfoldable pub wrap64 : ℤ → ℤ
wrap64 (pos n) = let m = n % 2 ^ 64 in if ltb m (2 ^ 63) then pos m else negsuc (2 ^ 64 - 1 - m)
wrap64 (negsuc n) = let m = n % 2 ^ 64 in if ltb m (2 ^ 63) then negsuc m else pos (2 ^ 64 - 1 - m)

pub wrap64_pos : (n : ℕ) → n < 2 ^ 63 → wrap64 (pos n) ≡ pos n
unfolding wrap64
wrap64_pos n h = ground arith

pub wrap64_negsuc : (n : ℕ) → n < 2 ^ 63 → wrap64 (negsuc n) ≡ negsuc n
unfolding wrap64
wrap64_negsuc n h = ground arith

-- A difference that an `int64_t` holds is not wrapped around.
pub wrap64-sub_ℕ : (a b : ℕ) → a < 2 ^ 63 → b < 2 ^ 63 → wrap64 (sub_ℕ a b) ≡ sub_ℕ a b
wrap64-sub_ℕ a b ha hb = elim (Bool-cases (leb b a)) [
  | inl le ↦ rw le (wrap64_pos (a - b) (omega arith))
  | inr gt ↦ rw gt (wrap64_negsuc (b - a - 1) (omega arith))
]

pub pos_part-sub_ℕ : (a b : ℕ) → pos_part (sub_ℕ a b) ≤ a
pos_part-sub_ℕ a b = ground arith

pub neg_part-sub_ℕ : (a b : ℕ) → neg_part (sub_ℕ a b) ≤ b
neg_part-sub_ℕ a b = ground arith

-- Values that the code may add to one another.
abbrev pub IsNear : ℤ → Type 0
IsNear z = (pos_part z < 2 ^ 61) × (neg_part z < 2 ^ 61)
