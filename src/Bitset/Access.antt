-- ===== src/Bitset/Access.antt =====
-- data_structure/bitmap/bitset.c: `bitset_get` after `bitset_set`.
use pelikan.Common.{
  ℕ, ◌+◌, ◌*◌, ◌/◌, ◌%◌, ◌^◌, ◌≤◌, ◌<◌, ◌≡◌, ◌⊎◌, sym, ap, ap₂, ◌∙◌, inl, inr, false, arith, ◌==◌,
  ==_iff, ==_eq, if◌then◌else◌, length, Bool-cases, ltb, ltb→lt, ltb→ge,
}
use mathlib.Core.Bool.{true≢false}
use pelikan.Common.Memory.{load, store}
use pelikan.Common.Bits.{digit}
use pelikan.Bitset.{Bitset, segment_offset, bit_offset, get_segment, write_col, get, set}
use pelikan.Bitset.Columns.{
  write_digit, read_col, segment_lem, offset_lem, write_bound, read_same, read_apart,
}

-- The segment of a column lies in the body.
abbrev pub IsInside : Bitset → ℕ → Type 0
IsInside bs col = (col < 256) × (4 * (col / 32) + 4 ≤ length bs.body)

place : (col : ℕ) → col < 256 → get_segment col ≡ 4 * (col / 32)
unfolding get_segment
place col h = ap (λ (k : ℕ). 4 * k) (segment_lem col h)

-- A column as the digit of its segment.
column :
    (bs : Bitset) (col : ℕ)
    → col < 256
    → get bs col ≡ digit (col % 32) (load 4 (4 * (col / 32)) bs.body)
unfolding get
column bs col h =
    read_col _ (bit_offset col)
    ∙ ap₂ (λ i p. digit i (load 4 p bs.body)) (offset_lem col h) (place col h)

body-set :
    (bs : Bitset) (col val : ℕ)
    → col < 256
    → (set bs col val).body
      ≡ store 4
          (4 * (col / 32))
          (write_col (load 4 (4 * (col / 32)) bs.body) (col % 32) val)
          bs.body
unfolding set
body-set bs col val h =
    ap₂ (λ i p. store 4 p (write_col (load 4 p bs.body) i val) bs.body) (offset_lem col h)
      (place col h)

above : (a b : ℕ) → b ≤ a → (a == b) ≡ false → b < a
above a b h e = ground arith

clash :
    (a b : ℕ) → a ≡ b → (4 * (a / 32) + 4 ≤ 4 * (b / 32)) ⊎ (4 * (b / 32) + 4 ≤ 4 * (a / 32)) → ⊥
clash a b e (inl h) = absurd (omega (arith, ap (λ (k : ℕ). k / 32) e))
clash a b e (inr h) = absurd (omega (arith, ap (λ (k : ℕ). k / 32) e))

-- In one segment, columns differ by their digit.
same_test : (a b : ℕ) → a / 32 ≡ b / 32 → (a % 32 == b % 32) ≡ (a == b)
same_test a b e = elim (Bool-cases (a == b)) [
  | inl q ↦ ==_eq (a % 32) (b % 32) (omega (arith, (==_iff a b).0 q)) ∙ sym q
  | inr q ↦ elim (Bool-cases (a % 32 == b % 32)) [
    | inl m ↦ absurd (true≢false (sym (==_eq a b (omega (arith, e, (==_iff _ _).0 m))) ∙ q))
    | inr m ↦ m ∙ sym q
  ]
]

-- After a column below 256 is set to 0 or 1, every column below 256 reads as before, but that one,
-- which reads as the value.
pub get-set_bit :
    (bs : Bitset) (col other val : ℕ)
    → IsInside bs col
    → other < 256
    → load 4 (4 * (col / 32)) bs.body < 2 ^ 32
    → val < 2
    → get (set bs col val) other ≡ (if other == col then val else get bs other)
get-set_bit bs col other val inside h word v =
    column (set bs col val) other h
    ∙ ap (λ body. digit (other % 32) (load 4 (4 * (other / 32)) body))
        (body-set bs col val inside.0)
    ∙ elim (Bool-cases (other / 32 == col / 32)) [
      | inl e ↦ together ((==_iff _ _).0 e)
      | inr e ↦ apart (distinct (other / 32) (col / 32) e)
    ]
  where
    p : ℕ
    p = 4 * (col / 32)

    d : ℕ
    d = load 4 p bs.body

    w : ℕ
    w = write_col d (col % 32) val

    distinct : (a b : ℕ) → (a == b) ≡ false → (4 * a + 4 ≤ 4 * b) ⊎ (4 * b + 4 ≤ 4 * a)
    distinct a b e = elim (Bool-cases (ltb a b)) [
      | inl l ↦ inl (omega (arith, ltb→lt a b l))
      | inr g ↦ inr (omega (arith, above a b (ltb→ge a b g) e))
    ]

    differ : (4 * (other / 32) + 4 ≤ p) ⊎ (p + 4 ≤ 4 * (other / 32)) → (other == col) ≡ false
    differ s = elim (Bool-cases (other == col)) [
      | inl q ↦ absurd (clash other col ((==_iff other col).0 q) s)
      | inr q ↦ q
    ]

    apart :
        (4 * (other / 32) + 4 ≤ p) ⊎ (p + 4 ≤ 4 * (other / 32))
        → digit (other % 32) (load 4 (4 * (other / 32)) (store 4 p w bs.body))
          ≡ (if other == col then val else get bs other)
    apart s =
        ap (digit (other % 32)) (read_apart bs.body p w inside.1 (4 * (other / 32)) s)
        ∙ sym (column bs other h)
        ∙ sym (ap (λ b. if b then val else get bs other) (differ s))

    together :
        other / 32 ≡ col / 32
        → digit (other % 32) (load 4 (4 * (other / 32)) (store 4 p w bs.body))
          ≡ (if other == col then val else get bs other)
    together e =
        ap (digit (other % 32)) (
          ap (λ q. load 4 (4 * q) (store 4 p w bs.body)) e
          ∙ read_same bs.body p w inside.1 (write_bound d (col % 32) val word))
        ∙ write_digit d val (col % 32) (other % 32) v (omega arith) (omega arith)
        ∙ ap₂ (λ b x. if b then val else x) (same_test other col e)
            (ap (λ q. digit (other % 32) (load 4 (4 * q) bs.body)) (sym e)
              ∙ sym (column bs other h))

-- Columns 256 apart are one: a column is read and written in the place of its remainder, although the
-- bitset is meant for up to 8000 columns.
pub columns_alias :
    (bs : Bitset) (col val : ℕ)
    → (get bs (col + 256) ≡ get bs col) × (set bs (col + 256) val ≡ set bs col val)
unfolding get set get_segment segment_offset bit_offset
columns_alias bs col val = let e : (col + 256) % 256 ≡ col % 256 = omega arith in (rw e, rw e)
