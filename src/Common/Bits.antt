-- ===== src/Common/Bits.antt =====
-- Binary digits of `&` and `|` on `uint32_t`: a digit of the result from the digits of the operands.
use Prim.Native.Nat.{
  ℕ, zero, suc, ◌+◌, ◌*◌, ◌/◌, ◌%◌, ◌^◌, ◌≤◌, ◌<◌, min, max, bit_and, bit_or, digits,
  bit_and-bitwise, bit_or-bitwise,
}
use mathlib.Core.Path.{◌≡◌, refl, sym, ap, ◌∙◌}
use native.Mathlib.Omega.{arith}
use native.Mathlib.Nat.{pow-suc}

-- An operation by digits, with more steps than the first operand needs.
module _ (rest : ℕ → ℕ) (op : ℕ → ℕ → ℕ) where
  pub spare_digits : (b n a m : ℕ) → a ≤ n → n ≤ m → digits rest op m a b ≡ digits rest op n a b
  spare_digits b zero zero zero h k = refl
  spare_digits b zero zero (suc m) h k = refl
  spare_digits b zero (suc a) m h k = absurd (omega arith)
  spare_digits b (suc n) a zero h k = absurd (omega arith)
  spare_digits b (suc n) zero (suc m) h k = refl
  spare_digits b (suc n) (suc a) (suc m) h k =
      ap (λ high. high * 2 + op (suc a % 2) (b % 2))
        (spare_digits (b / 2) n (suc a / 2) m (omega arith) (omega arith))

  -- The lowest digit apart, where `rest` is the operation on 0.
  halves :
      ((b : ℕ) → rest b ≡ rest (b / 2) * 2 + op 0 (b % 2))
      → (a b : ℕ)
      → digits rest op a a b ≡ digits rest op (a / 2) (a / 2) (b / 2) * 2 + op (a % 2) (b % 2)
  halves h zero b = h b
  halves h (suc a) b =
      ap (λ high. high * 2 + op (suc a % 2) (b % 2))
        (spare_digits (b / 2) (suc a / 2) (suc a / 2) a (omega arith) (omega arith))

bit_and-halves : (a b : ℕ) → bit_and a b ≡ bit_and (a / 2) (b / 2) * 2 + min (a % 2) (b % 2)
bit_and-halves a b =
    bit_and-bitwise a b
    ∙ halves (λ b. zero) min (λ b. omega arith) a b
    ∙ ap (λ high. high * 2 + min (a % 2) (b % 2)) (sym (bit_and-bitwise (a / 2) (b / 2)))

bit_or-halves : (a b : ℕ) → bit_or a b ≡ bit_or (a / 2) (b / 2) * 2 + max (a % 2) (b % 2)
bit_or-halves a b =
    bit_or-bitwise a b
    ∙ halves (λ b. b) max (λ b. omega arith) a b
    ∙ ap (λ high. high * 2 + max (a % 2) (b % 2)) (sym (bit_or-bitwise (a / 2) (b / 2)))

-- Shifts, one digit after another.
unfoldable pub shift_right : ℕ → ℕ → ℕ
shift_right zero v = v
shift_right (suc n) v = shift_right n (v / 2)

unfoldable pub shift_left : ℕ → ℕ → ℕ
shift_left zero v = v
shift_left (suc n) v = shift_left n (v * 2)

-- One binary digit.
abbrev pub digit : ℕ → ℕ → ℕ
digit j v = shift_right j v % 2

pub digit-and : (j a b : ℕ) → digit j (bit_and a b) ≡ min (digit j a) (digit j b)
unfolding shift_right
digit-and zero a b = omega (arith, bit_and-halves a b)
digit-and (suc j) a b =
    let e : bit_and a b / 2 ≡ bit_and (a / 2) (b / 2) = omega (arith, bit_and-halves a b) in
    ap (digit j) e ∙ digit-and j (a / 2) (b / 2)

pub digit-or : (j a b : ℕ) → digit j (bit_or a b) ≡ max (digit j a) (digit j b)
unfolding shift_right
digit-or zero a b = omega (arith, bit_or-halves a b)
digit-or (suc j) a b =
    let e : bit_or a b / 2 ≡ bit_or (a / 2) (b / 2) = omega (arith, bit_or-halves a b) in
    ap (digit j) e ∙ digit-or j (a / 2) (b / 2)

pub bit_and_bound : (n a b : ℕ) → a < 2 ^ n → bit_and a b < 2 ^ n
bit_and_bound zero zero b h = omega (arith, bit_and-bitwise 0 b)
bit_and_bound zero (suc a) b h = absurd (omega arith)
bit_and_bound (suc n) a b h = omega (
  arith,
  h,
  pow-suc 2 n,
  bit_and-halves a b,
  bit_and_bound n (a / 2) (b / 2) (omega (arith, h, pow-suc 2 n)),
)

pub bit_or_bound : (n a b : ℕ) → a < 2 ^ n → b < 2 ^ n → bit_or a b < 2 ^ n
bit_or_bound zero zero b h k = omega (arith, bit_or-bitwise 0 b, k)
bit_or_bound zero (suc a) b h k = absurd (omega arith)
bit_or_bound (suc n) a b h k = omega (
  arith,
  h,
  k,
  pow-suc 2 n,
  bit_or-halves a b,
  bit_or_bound n (a / 2) (b / 2) (omega (arith, h, pow-suc 2 n)) (omega (arith, k, pow-suc 2 n)),
)

-- The last digit by a mask.
bit_and-none : (n v : ℕ) → v ≤ n → bit_and v 0 ≡ 0
bit_and-none n zero h = bit_and-bitwise 0 0
bit_and-none zero (suc v) h = absurd (omega arith)
bit_and-none (suc n) (suc v) h =
    omega (arith, bit_and-halves (suc v) 0, bit_and-none n (suc v / 2) (omega arith))

pub bit_and-last : (v : ℕ) → bit_and v 1 ≡ v % 2
bit_and-last v = omega (arith, bit_and-halves v 1, bit_and-none (v / 2) (v / 2) (omega arith))
