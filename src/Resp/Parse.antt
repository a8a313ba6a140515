-- ===== src/Resp/Parse.antt =====
-- The loops of `_read_str` and `_read_int` on text that ends with CRLF.
use pelikan.Common.{
  ℕ, zero, suc, ◌+◌, ◌-◌, ◌*◌, ◌^◌, ◌≤◌, ◌<◌, ◌≡◌, refl, true, false, arith, [], ◌∷◌, ◌++◌, length,
  ltb, ◌==◌,
}
use pelikan.Common.Memory.{Bytes}
use pelikan.Common.Int.{ℤ, pos, negsuc, neg, ltb_ℤ, ◌+ℤ◌, wrap64}
use pelikan.Resp.{
  parse_ok, crlf, str_maxlen, line_end, read_str_from, is_digit, times10, quot10, signed,
  read_digits,
}

-- No CRLF inside the text, the byte that follows it included.
abbrev pub NoLineEnd : Bytes → Type 0
NoLineEnd [] = Unit
NoLineEnd (c ∷ cs) = (line_end (c ∷ (cs ++ crlf)) ≡ false) × NoLineEnd cs

line_end_longer :
    (c : ℕ) (cs rest : Bytes) → line_end (c ∷ (cs ++ (crlf ++ rest))) ≡ line_end (c ∷ (cs ++ crlf))
unfolding line_end
line_end_longer c [] rest = refl
line_end_longer c (d ∷ ds) rest = refl

pub line_end-crlf : (rest : Bytes) → line_end (crlf ++ rest) ≡ true
unfolding line_end
line_end-crlf rest = refl

pub read_str_from_lem :
    (len : ℕ) (s rest : Bytes)
    → NoLineEnd s
    → len + length s ≤ 255
    → read_str_from len (s ++ (crlf ++ rest)) ≡ (parse_ok, s, rest)
unfolding read_str_from
read_str_from_lem len [] rest h short = rw (line_end-crlf rest) refl
read_str_from_lem len (c ∷ cs) rest h short =
    rw (line_end_longer c cs rest, h.0, fits, read_str_from_lem (len + 1) cs rest h.1 (omega arith))
      refl
  where
    fits : ltb str_maxlen (len + 1) ≡ false
    fits = ground arith

-- The number that decimal digits stand for, behind the digits of `acc`.
abbrev pub decimal_value : ℕ → Bytes → ℕ
decimal_value acc [] = acc
decimal_value acc (c ∷ cs) = decimal_value (acc * 10 + (c - 48)) cs

abbrev pub AllDigits : Bytes → Type 0
AllDigits [] = Unit
AllDigits (c ∷ cs) = (48 ≤ c) × (c ≤ 57) × AllDigits cs

decimal_value-le : (acc : ℕ) (ds : Bytes) → acc ≤ decimal_value acc ds
decimal_value-le acc [] = omega arith
decimal_value-le acc (c ∷ cs) = omega (arith, decimal_value-le (acc * 10 + (c - 48)) cs)

digit_lem : (c : ℕ) → 48 ≤ c → c ≤ 57 → is_digit c ≡ true
unfolding is_digit
digit_lem c h k = ground arith

not_digit : is_digit 13 ≡ false
unfolding is_digit
not_digit = refl

wrap64_small : (n : ℕ) → n < 2 ^ 63 → wrap64 (pos n) ≡ pos n
unfolding wrap64
wrap64_small n h = ground arith

wrap64-neg : (n : ℕ) → n ≤ 2 ^ 63 → wrap64 (neg (pos n)) ≡ neg (pos n)
unfolding wrap64
wrap64-neg zero h = refl
wrap64-neg (suc n) h = ground arith

step_pos : (acc d : ℕ) → times10 (pos acc) +ℤ signed false d ≡ pos (acc * 10 + d)
step_pos acc d = ground arith

step_neg : (acc d : ℕ) → times10 (neg (pos acc)) +ℤ signed true d ≡ neg (pos (acc * 10 + d))
step_neg zero zero = refl
step_neg zero (suc d) = ground arith
step_neg (suc acc) zero = ground arith
step_neg (suc acc) (suc d) = ground arith

-- Digits of a number in range, and the end of the line.
pub read_digits-pos :
    (min : ℤ) (m acc len : ℕ) (ds rest : Bytes)
    → ((a : ℕ) → ltb_ℤ (pos a) (quot10 min) ≡ false)
    → ltb_ℤ (pos (decimal_value acc ds)) min ≡ false
    → AllDigits ds
    → decimal_value acc ds ≤ m
    → m < 2 ^ 63
    → 1 ≤ len + length ds
    → read_digits false min (pos m) (pos acc) len (ds ++ (crlf ++ rest))
      ≡ (parse_ok, pos (decimal_value acc ds), rest)
unfolding read_digits
read_digits-pos min m acc len [] rest hq hmin hd hm h63 hl =
    rw (not_digit, started, line_end-crlf rest, over, hmin) refl
  where
    started : (len == 0) ≡ false
    started = ground arith

    over : ltb_ℤ (pos m) (pos acc) ≡ false
    over = ground arith
read_digits-pos min m acc len (c ∷ cs) rest hq hmin hd hm h63 hl =
    rw
      (
        digit_lem c hd.0 hd.1,
        hq acc,
        within,
        step_pos acc (c - 48),
        wrap64_small (acc * 10 + (c - 48)) (omega (arith, grows)),
      )
      (read_digits-pos min m (acc * 10 + (c - 48)) (len + 1) cs rest hq hmin hd.2 hm h63
        (omega arith))
  where
    grows : acc * 10 + (c - 48) ≤ decimal_value acc (c ∷ cs)
    grows = decimal_value-le (acc * 10 + (c - 48)) cs

    within : ltb_ℤ (quot10 (pos m)) (pos acc) ≡ false
    within = ground (arith, grows)

pub read_digits-neg :
    (k acc len : ℕ) (max : ℤ) (ds rest : Bytes)
    → ((a : ℕ) → ltb_ℤ (quot10 max) (neg (pos a)) ≡ false)
    → ltb_ℤ max (neg (pos (decimal_value acc ds))) ≡ false
    → AllDigits ds
    → decimal_value acc ds ≤ suc k
    → suc k ≤ 2 ^ 63
    → 1 ≤ len + length ds
    → read_digits true (negsuc k) max (neg (pos acc)) len (ds ++ (crlf ++ rest))
      ≡ (parse_ok, neg (pos (decimal_value acc ds)), rest)
unfolding read_digits
read_digits-neg k acc len max [] rest hq hmax hd hm h63 hl =
    rw (not_digit, started, line_end-crlf rest, hmax, under acc hm) refl
  where
    started : (len == 0) ≡ false
    started = ground arith

    under : (acc : ℕ) → acc ≤ suc k → ltb_ℤ (neg (pos acc)) (negsuc k) ≡ false
    under zero h = ground arith
    under (suc a) h = ground arith
read_digits-neg k acc len max (c ∷ cs) rest hq hmax hd hm h63 hl =
    rw
      (
        digit_lem c hd.0 hd.1,
        hq acc,
        within acc (omega (arith, grows)),
        step_neg acc (c - 48),
        wrap64-neg (acc * 10 + (c - 48)) (omega (arith, grows)),
      )
      (read_digits-neg k (acc * 10 + (c - 48)) (len + 1) max cs rest hq hmax hd.2 hm h63
        (omega arith))
  where
    grows : acc * 10 + (c - 48) ≤ decimal_value acc (c ∷ cs)
    grows = decimal_value-le (acc * 10 + (c - 48)) cs

    within : (acc : ℕ) → acc * 10 ≤ suc k → ltb_ℤ (neg (pos acc)) (quot10 (negsuc k)) ≡ false
    within zero h = ground arith
    within (suc a) h = ground arith
