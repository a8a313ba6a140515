-- ===== src/Ziplist/Locate.antt =====
-- `ziplist_locate`, with the walks from either end.
use pelikan.Common.{
  ℕ, zero, suc, ◌+◌, ◌-◌, ◌≤◌, ◌<◌, ◌≡◌, sym, ap, ◌∙◌, true, false, ◌||◌, Option, none, some, inl,
  inr, arith, List, length, get_or, ltb, Bool-cases, if◌then◌else◌, ltb→lt,
}
use pelikan.Common.Memory.{Bytes, byte}
use pelikan.Common.Int.{ℤ, pos, negsuc, ltb_ℤ, leb_ℤ}
use pelikan.Blob.{Blob, invalid}
use pelikan.Ziplist.{
  Ziplist, ok, eoob, encode_size, nend, skip, fromleft, skip_back, fromright, adjust, locate,
}
use pelikan.Ziplist.Lists.{
  Lists, offset, offset-suc, offset_all, nentry_lem, nend_lem, zipentry_len-at, byte-before,
}

-- The entry that an index means in a list of `n`: a negative index counts from the end.
abbrev pub resolve : ℤ → ℕ → Option ℕ
resolve (pos i) n = if ltb i n then some i else none
resolve (negsuc i) n = if ltb i n then some (n - suc i) else none

pub adjust_pos : (i n : ℕ) → adjust (pos i) n ≡ pos i
unfolding adjust
adjust_pos i n = ground arith

pub adjust_within : (i n : ℕ) → ltb i n ≡ true → adjust (negsuc i) n ≡ pos (n - suc i)
unfolding adjust
adjust_within i n h = ground arith

pub adjust_below : (i n : ℕ) → ltb i n ≡ false → adjust (negsuc i) n ≡ negsuc (i - n)
unfolding adjust
adjust_below i n h = ground arith

module _ {zl : Ziplist} {xs : List Blob} {rest : Bytes} (h : Lists zl xs rest) where
  pub skip_lem : (i j : ℕ) → j + i ≤ length xs → skip zl i (offset xs j) ≡ offset xs (j + i)
  unfolding skip
  skip_lem zero j le = ap (offset xs) (sym (plus_zero j))
    where
      plus_zero : (j : ℕ) → j + 0 ≡ j
      plus_zero j = omega arith
  skip_lem (suc i) j le =
      ap (skip zl i) (
        ap (λ (t : ℕ). offset xs j + t) (zipentry_len-at h j (omega arith))
        ∙ sym (offset-suc xs j h.valid (omega arith)))
      ∙ skip_lem i (suc j) (omega arith)
      ∙ ap (offset xs) (omega arith)

  skip_back_lem :
      (i j p q : ℕ)
      → suc p ≡ offset xs (j + i)
      → suc q ≡ offset xs j
      → j + i ≤ length xs
      → skip_back zl i p ≡ q
  unfolding skip_back
  skip_back_lem zero j p q hp hq le =
      let e : offset xs (j + 0) ≡ offset xs j = ap (offset xs) (omega arith) in omega arith
  skip_back_lem (suc i) j p q hp hq le =
      skip_back_lem i j (p - byte p zl) q earlier hq (omega arith)
    where
      size : ℕ
      size = encode_size (get_or xs (j + i) invalid)

      there : suc p ≡ offset xs (suc (j + i))
      there = hp ∙ ap (offset xs) (plus_suc j i)
        where
          plus_suc : (j i : ℕ) → j + suc i ≡ suc (j + i)
          plus_suc j i = omega arith

      earlier : suc (p - byte p zl) ≡ offset xs (j + i)
      earlier = omega (
        arith,
        byte-before h (j + i) p (omega arith) there,
        there,
        offset-suc xs (j + i) h.valid (omega arith),
      )

  pub fromleft_lem : (i : ℕ) → i ≤ length xs → fromleft zl i ≡ offset xs i
  unfolding fromleft
  fromleft_lem i le = skip_lem i 0 (omega arith) ∙ ap (offset xs) (omega arith)

  pub fromright_lem : (i : ℕ) → i < length xs → fromright zl (length xs - 1 - i) ≡ offset xs i
  unfolding fromright
  fromright_lem i lt = rw back (
      omega (
        arith,
        byte-before h i (offset xs (suc i) - 1) lt (omega (arith)),
        offset-suc xs i h.valid lt,
      ))
    where
      back : skip_back zl (length xs - 1 - i) (nend zl) ≡ offset xs (suc i) - 1
      back =
          skip_back_lem (length xs - 1 - i) (suc i) (nend zl) (offset xs (suc i) - 1)
            (omega (arith, nend_lem h, offset_all xs, ap (offset xs) (whole (length xs) i lt)))
            (omega arith) (omega arith)
        where
          whole : (n i : ℕ) → i < n → suc i + (n - 1 - i) ≡ n
          whole n i lt = omega arith

  pub located :
      (idx : ℤ) (k : ℕ)
      → adjust idx (length xs) ≡ pos k
      → k < length xs
      → locate (some zl) idx ≡ (ok, some (offset xs k))
  unfolding locate
  located idx k e lt =
      rw (nentry_lem h, e) (ground (arith, fromleft_lem k (omega arith), fromright_lem k lt))

  outside :
      (idx i : ℤ)
      → adjust idx (length xs) ≡ i
      → (ltb_ℤ i (pos 0) || leb_ℤ (pos (length xs)) i) ≡ true
      → locate (some zl) idx ≡ (eoob, none)
  unfolding locate
  outside idx i e out = rw (nentry_lem h, e, out)

  -- `ziplist_locate` finds the entry that the index means, a negative index counting from the end,
  -- whether it walks from the left or from the right, and answers EOOB for an index out of range.
  pub locate-eq-resolve :
      (idx : ℤ)
      → locate (some zl) idx ≡ (elim (resolve idx (length xs)) [
        | none ↦ (eoob, none)
        | some i ↦ (ok, some (offset xs i))
      ])
  locate-eq-resolve (pos i) = elim (Bool-cases (ltb i (length xs))) [
    | inl lt ↦ rw lt (located (pos i) i (adjust_pos i (length xs)) (ltb→lt i (length xs) lt))
    | inr ge ↦ rw ge (outside (pos i) (pos i) (adjust_pos i (length xs)) (ground arith))
  ]
  locate-eq-resolve (negsuc i) = elim (Bool-cases (ltb i (length xs))) [
    | inl lt ↦ rw lt (
        located (negsuc i) (length xs - suc i) (adjust_within i (length xs) lt)
          (omega (arith, ltb→lt i (length xs) lt)))
    | inr ge ↦
        rw ge (
          outside (negsuc i) (negsuc (i - length xs)) (adjust_below i (length xs) ge)
            (ground arith))
  ]
