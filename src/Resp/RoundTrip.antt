-- ===== src/Resp/RoundTrip.antt =====
-- The bytes of an element of RESP, and `parse_element` on them.
use pelikan.Common.{
  ℕ, zero, suc, ◌+◌, ◌-◌, ◌^◌, ◌≤◌, ◌<◌, ◌≡◌, refl, ap, ◌∙◌, true, false, some, arith, [], ◌∷◌,
  ◌++◌, append_assoc, length, length-append, leb, take-append, drop-append, ==_gt,
}
use pelikan.Common.Memory.{Bytes}
use pelikan.Common.Int.{ℤ, pos, negsuc, neg, ltb_ℤ}
use pelikan.Resp.{
  Element, elem_str, elem_err, elem_int, elem_bulk, elem_array, elem_attrib, elem_nil, elem_null,
  parse_ok, eempty, crlf, bulk_maxlen, int64_max, int64_min, read_str, quot10, read_int,
  read_payload, read_bulk, bulk_of, parse_element, read_null,
}
use pelikan.Resp.Wire.{wire}
use pelikan.Resp.Parse.{
  NoLineEnd, AllDigits, decimal_value, line_end-crlf, read_str_from_lem, read_digits-pos,
  read_digits-neg,
}

-- The decimal digits of an integer, a minus sign before those of a negative one.
abbrev pub Printed : ℤ → Bytes → Type 0
Printed (pos n) ds = (1 ≤ length ds) × AllDigits ds × (decimal_value 0 ds ≡ n)
Printed (negsuc n) [] = ⊥
Printed (negsuc n) (c ∷ ds) =
    (c ≡ 45) × (1 ≤ length ds) × AllDigits ds × (decimal_value 0 ds ≡ suc n)

-- The elements that fit the format, where their integers are printed as decimal digits.
abbrev pub Sendable : (ℤ → Bytes) → Element → Type 0
Sendable print (elem_str s) = NoLineEnd s × (length s ≤ 255)
Sendable print (elem_err s) = NoLineEnd s × (length s ≤ 255)
Sendable print (elem_int (pos n)) = (n < 2 ^ 63) × Printed (pos n) (print (pos n))
Sendable print (elem_int (negsuc n)) = (n < 2 ^ 63) × Printed (negsuc n) (print (negsuc n))
Sendable print (elem_bulk s) =
    (length s ≤ bulk_maxlen) × Printed (pos (length s)) (print (pos (length s)))
Sendable print (elem_array (pos n)) = (n < 2 ^ 32) × Printed (pos n) (print (pos n))
Sendable print (elem_array (negsuc n)) = (n ≡ 0) × Printed (negsuc n) (print (negsuc n))
Sendable print (elem_attrib (pos n)) = (1 ≤ n) × (n < 2 ^ 31) × Printed (pos n) (print (pos n))
Sendable print (elem_attrib (negsuc n)) = ⊥
Sendable print elem_nil = Unit
Sendable print elem_null = Unit

read_int-pos :
    (min : ℤ) (m n : ℕ) (ds rest : Bytes)
    → ((a : ℕ) → ltb_ℤ (pos a) (quot10 min) ≡ false)
    → ltb_ℤ (pos n) min ≡ false
    → Printed (pos n) ds
    → n ≤ m
    → m < 2 ^ 63
    → read_int min (pos m) (ds ++ (crlf ++ rest)) ≡ (parse_ok, pos n, rest)
unfolding read_int
read_int-pos min m n [] rest hq hmin p hm h63 = absurd (omega (arith, p.0))
read_int-pos min m n (c ∷ cs) rest hq hmin p hm h63 = rw (==_gt c 45 (omega (arith, p.1.0))) (
    read_digits-pos min m 0 0 (c ∷ cs) rest hq (rw p.2 hmin) p.1 (omega (arith, p.2)) h63
      (omega arith)
    ∙ ap {A = ℕ} (λ k. (parse_ok, pos k, rest)) p.2)

read_int-neg :
    (k n : ℕ) (max : ℤ) (ds rest : Bytes)
    → ((a : ℕ) → ltb_ℤ (quot10 max) (neg (pos a)) ≡ false)
    → ltb_ℤ max (negsuc n) ≡ false
    → Printed (negsuc n) ds
    → n ≤ k
    → k < 2 ^ 63
    → read_int (negsuc k) max (ds ++ (crlf ++ rest)) ≡ (parse_ok, negsuc n, rest)
unfolding read_int
read_int-neg k n max [] rest hq hmax p hm h63 = absurd p
read_int-neg k n max (c ∷ cs) rest hq hmax p hm h63 = rw p.0 (
    read_digits-neg k 0 0 max cs rest hq (rw p.3 hmax) p.2 (omega (arith, p.3)) (omega arith)
      (omega (arith, p.1))
    ∙ ap {A = ℕ} (λ j. (parse_ok, neg (pos j), rest)) p.3)

read_payload_lem :
    (s rest : Bytes) → read_payload (length s) (s ++ (crlf ++ rest)) ≡ (parse_ok, s, rest)
unfolding read_payload
read_payload_lem s rest =
    rw
      (
        drop-append (length s) s (crlf ++ rest) refl,
        room,
        line_end-crlf rest,
        take-append (length s) s (crlf ++ rest) refl,
      )
      refl
  where
    room : leb (length s + 2) (length (s ++ (crlf ++ rest))) ≡ true
    room = ground (arith, length-append s (crlf ++ rest))

low : (a : ℕ) → ltb_ℤ (pos a) (quot10 (negsuc 0)) ≡ false
low a = ground arith

read_bulk_lem :
    (print : ℤ → Bytes) (s rest : Bytes)
    → Sendable print (elem_bulk s)
    → read_bulk (print (pos (length s)) ++ (crlf ++ (s ++ (crlf ++ rest)))) ≡ (parse_ok, s, rest)
unfolding read_bulk
read_bulk_lem print s rest h =
    ap bulk_of (
      read_int-pos (negsuc 0) bulk_maxlen (length s) (print (pos (length s))) (s ++ (crlf ++ rest))
        low (low_end (length s)) h.1 h.0 (omega arith))
    ∙ read (length s) s
    ∙ read_payload_lem s rest
  where
    low_end : (n : ℕ) → ltb_ℤ (pos n) (negsuc 0) ≡ false
    low_end n = ground arith

    read :
        (n : ℕ) (s : Bytes)
        → bulk_of (parse_ok, pos n, s ++ (crlf ++ rest)) ≡ read_payload n (s ++ (crlf ++ rest))
    read n s = ground arith

read_str_lem :
    (s rest : Bytes)
    → NoLineEnd s
    → length s ≤ 255
    → read_str (s ++ (crlf ++ rest)) ≡ (parse_ok, s, rest)
unfolding read_str
read_str_lem s rest h short = read_str_from_lem 0 s rest h (omega arith)

read_nil : (rest : Bytes) → read_bulk (45 ∷ 49 ∷ (crlf ++ rest)) ≡ (eempty, [], rest)
unfolding read_bulk
read_nil rest = ap bulk_of (
    read_int-neg 0 0 (pos bulk_maxlen) (45 ∷ 49 ∷ []) rest over refl
      (refl, omega arith, omega arith, refl) (omega arith) (omega arith))
  where
    over : (a : ℕ) → ltb_ℤ (quot10 (pos bulk_maxlen)) (neg (pos a)) ≡ false
    over zero = refl
    over (suc a) = ground arith

-- `parse_element` reads back an element from its bytes and leaves what follows them: a string of at
-- most 255 bytes without CRLF, a bulk string of at most 512 MiB, an `int64_t`, the length of an
-- array or of an attribute in its range, nil and null, where the integers are printed as decimal
-- digits.
pub parse_element-wire :
    (print : ℤ → Bytes) (el : Element) (rest : Bytes)
    → Sendable print el
    → parse_element (wire print el ++ rest) ≡ (parse_ok, some el, rest)
unfolding parse_element read_null
parse_element-wire print (elem_str s) rest h =
    rw (append_assoc s crlf rest, read_str_lem s rest h.0 h.1) refl
parse_element-wire print (elem_err s) rest h =
    rw (append_assoc s crlf rest, read_str_lem s rest h.0 h.1) refl
parse_element-wire print (elem_int (pos n)) rest h =
    rw
      (
        append_assoc (print (pos n)) crlf rest,
        read_int-pos int64_min (2 ^ 63 - 1) n (print (pos n)) rest (λ a. ground arith)
            (ground arith) h.1 (omega (arith, h.0)) (omega arith),
      )
      refl
parse_element-wire print (elem_int (negsuc n)) rest h =
    rw
      (
        append_assoc (print (negsuc n)) crlf rest,
        read_int-neg (2 ^ 63 - 1) n int64_max (print (negsuc n)) rest over (ground arith) h.1
            (omega (arith, h.0)) (omega arith),
      )
      refl
  where
    over : (a : ℕ) → ltb_ℤ (quot10 int64_max) (neg (pos a)) ≡ false
    over zero = refl
    over (suc a) = ground arith
parse_element-wire print (elem_bulk s) rest h =
    rw
      (
        append_assoc (print (pos (length s)) ++ crlf) (s ++ crlf) rest,
        append_assoc (print (pos (length s))) crlf ((s ++ crlf) ++ rest),
        append_assoc s crlf rest,
        read_bulk_lem print s rest h,
      )
      refl
parse_element-wire print (elem_array (pos n)) rest h =
    rw
      (
        append_assoc (print (pos n)) crlf rest,
        read_int-pos (negsuc 0) (2 ^ 32 - 1) n (print (pos n)) rest low (ground arith) h.1
            (omega (arith, h.0)) (omega arith),
      )
      refl
parse_element-wire print (elem_array (negsuc n)) rest h =
    rw
      (
        append_assoc (print (negsuc n)) crlf rest,
        read_int-neg 0 n (pos (2 ^ 32 - 1)) (print (negsuc n)) rest over (ground arith) h.1
            (omega (arith, h.0)) (omega arith),
      )
      refl
  where
    over : (a : ℕ) → ltb_ℤ (quot10 (pos (2 ^ 32 - 1))) (neg (pos a)) ≡ false
    over zero = refl
    over (suc a) = ground arith
parse_element-wire print (elem_attrib (pos n)) rest h =
    rw
      (
        append_assoc (print (pos n)) crlf rest,
        read_int-pos (pos 1) (2 ^ 31 - 1) n (print (pos n)) rest (λ a. ground arith)
            (ground (arith, h.0)) h.2 (omega (arith, h.1)) (omega arith),
      )
      refl
parse_element-wire print (elem_attrib (negsuc n)) rest h = absurd h
parse_element-wire print elem_nil rest h = rw (read_nil rest) refl
parse_element-wire print elem_null rest h = rw (line_end-crlf rest, room rest) refl
  where
    room : (rest : Bytes) → leb 2 (length (crlf ++ rest)) ≡ true
    room rest = ground arith
