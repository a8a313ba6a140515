-- ===== src/Ziplist/Walk.antt =====
-- The walks from one entry to the next, `ziplist_next` and `ziplist_prev`.
use pelikan.Common.{
  ℕ, zero, suc, ◌+◌, ◌-◌, ◌≤◌, ◌<◌, ◌≡◌, refl, ap, none, some, inl, inr, arith, List, length,
  get_or, ltb, ◌==◌, Bool-cases, if◌then◌else◌, ltb→lt, ==_iff, ==_eq, ==_lt, ==_gt,
}
use pelikan.Common.Memory.{Bytes}
use pelikan.Blob.{Blob, invalid}
use pelikan.Ziplist.{Ziplist, ok, eoob, encode_size, nend, ziplist_tail, prev, next}
use pelikan.Ziplist.Codec.{encode_size_bounds}
use pelikan.Ziplist.Lists.{
  Lists, offset, AllEntries-at, offset-suc, offset_all, nend_lem, zipentry_len-at, byte-before,
}

module _ {zl : Ziplist} {xs : List Blob} {rest : Bytes} (h : Lists zl xs rest) where
  pub offset_mono : (i j : ℕ) → i < j → j ≤ length xs → offset xs i < offset xs j
  offset_mono i zero lt le = absurd (omega arith)
  offset_mono i (suc j) lt le = elim (Bool-cases (ltb i j)) [
    | inl before ↦ omega (
      arith,
      offset_mono i j (ltb→lt i j before) (omega arith),
      offset-suc xs j h.valid (omega arith),
      encode_size_bounds (get_or xs j invalid) (AllEntries-at xs j h.valid (omega arith)),
    )
    | inr same ↦
        let e : i ≡ j = ground arith in
        let o : offset xs i ≡ offset xs j = ap (offset xs) e in
        omega (
          arith,
          offset-suc xs j h.valid (omega arith),
          encode_size_bounds (get_or xs j invalid) (AllEntries-at xs j h.valid (omega arith)),
        )
  ]

  pub ziplist_tail_lem : (i : ℕ) → suc i ≡ length xs → ziplist_tail zl ≡ offset xs i
  unfolding ziplist_tail
  ziplist_tail_lem i e = omega (
    arith,
    ap {A = ℕ} (λ k. nend zl + 1 - k) (byte-before h i (nend zl) (omega arith) ending),
    ending,
    offset-suc xs i h.valid (omega arith),
  )
    where
      ending : suc (nend zl) ≡ offset xs (suc i)
      ending =
          let o : offset xs (suc i) ≡ offset xs (length xs) = ap (offset xs) e in
          omega (arith, nend_lem h, offset_all xs)

  -- From every entry but the last, `ziplist_next` reaches the next one; from the last it answers
  -- EOOB.
  pub next_lem :
      (i : ℕ)
      → i < length xs
      → next zl (offset xs i)
        ≡ (if suc i == length xs then (eoob, none) else (ok, some (offset xs (suc i))))
  unfolding next
  next_lem i lt = elim (Bool-cases (suc i == length xs)) [
    | inl last ↦ rw (
      last,
      ziplist_tail_lem i ((==_iff (suc i) (length xs)).0 last),
      ==_eq (offset xs i) (offset xs i) refl,
    )
    | inr more ↦ rw (
      more,
      ziplist_tail_lem (length xs - 1) (omega arith),
      ==_lt (offset xs i) (offset xs (length xs - 1))
          (offset_mono i (length xs - 1) (ground arith) (omega arith)),
      zipentry_len-at h i lt,
      offset-suc xs i h.valid lt,
    )
  ]

  -- From every place but the first `ziplist_prev` reaches the entry before it; from the first it
  -- answers EOOB.
  pub prev_lem :
      (i : ℕ)
      → i ≤ length xs
      → prev zl (offset xs i) ≡ (if i == 0 then (eoob, none) else (ok, some (offset xs (i - 1))))
  unfolding prev
  prev_lem zero le = refl
  prev_lem (suc i) le =
      rw
        (
          ==_gt (offset xs (suc i)) 8 (omega (arith, offset_mono 0 (suc i) (omega arith) le)),
          ==_gt (suc i) 0 (omega arith),
          byte-before h i (offset xs (suc i) - 1) (omega arith) (omega arith),
        )
        (ap {A = ℕ} (λ t. (ok, some t)) before)
    where
      before : offset xs (suc i) - encode_size (get_or xs i invalid) ≡ offset xs (suc i - 1)
      before =
          let o : offset xs (suc i - 1) ≡ offset xs i = ap (offset xs) (omega arith) in
          omega (arith, offset-suc xs i h.valid (omega arith))
