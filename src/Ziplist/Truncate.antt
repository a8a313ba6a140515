-- ===== src/Ziplist/Truncate.antt =====
-- `ziplist_reset` and `ziplist_truncate`.
use pelikan.Common.{
  ℕ, zero, suc, ◌+◌, ◌-◌, ◌≤◌, ◌<◌, ◌≡◌, refl, sym, ap, ◌∙◌, true, false, some, inl, inr, arith,
  List, [], ◌++◌, append_assoc, append-nil, length, length-append, take, drop, ltb, ◌==◌, ◌&&◌,
  Bool-cases, take-append-drop, drop_all, drop-add, length-take, length-drop, ltb→lt, ◌||◌, ◌^◌,
}
use pelikan.Common.Memory.{Bytes, le_bytes, length-le_bytes, store_lem, splice-append, splice}
use pelikan.Common.Int.{
  ℤ, pos, negsuc, neg, pos_part, neg_part, leb_ℤ, ◌-ℤ◌, survivors, wrap64, wrap64_pos,
  wrap64_negsuc,
}
use pelikan.Search.Layout.{body_of}
use pelikan.Blob.{Blob}
use pelikan.Ziplist.{Ziplist, ok, nend, set_nentry, set_nend, reset}
use pelikan.Ziplist.Edit.{truncate, remove_range}
use pelikan.Ziplist.Codec.{entry_bytes}
use pelikan.Ziplist.Lists.{
  header, span, offset, Lists, nentry_lem, nend_lem, offset_all, length-header, length-le-span,
}
use pelikan.Ziplist.Locate.{located, adjust_pos}
use pelikan.Ziplist.Shrink.{leftover, cut}

length-Lists : {zl : Ziplist} {xs : List Blob} {rest : Bytes} → Lists zl xs rest → 8 ≤ length zl
length-Lists {zl} {xs} {rest} h = rw h.memory (
    omega (
      arith,
      length-append (header (length xs) (7 + span xs)) (body_of entry_bytes xs ++ rest),
      length-header (length xs) (7 + span xs),
    ))

-- `ziplist_reset` makes any region that is large enough for the header the empty list, over the
-- bytes behind the header as they are.
pub reset-Lists :
    (zl : Ziplist)
    → 8 ≤ length zl
    → (zl' : Ziplist) × (reset (some zl) ≡ (ok, some zl')) × Lists zl' [] (drop 8 zl)
unfolding reset set_nentry set_nend
reset-Lists zl room = (_, refl, record { memory = memory; valid = tt; fits = omega arith })
  where
    A : Bytes
    A = take 4 zl

    B : Bytes
    B = take 4 (drop 4 zl)

    C : Bytes
    C = drop 4 (drop 4 zl)

    parts : zl ≡ A ++ (B ++ C)
    parts = sym (ap (λ t. A ++ t) (take-append-drop 4 (drop 4 zl)) ∙ take-append-drop 4 zl)

    memory : set_nend 7 (set_nentry 0 zl) ≡ header 0 7 ++ drop 8 zl
    memory =
        rw (store_lem, store_lem)
          (ap (λ t. splice 4 (le_bytes 4 7) (splice 0 (le_bytes 4 0) t)) parts
            ∙ ap (splice 4 (le_bytes 4 7)) (
                splice-append [] A (B ++ C) (le_bytes 4 0) 0 refl
                  (length-le_bytes 4 0 ∙ sym (length-take 4 zl (omega arith))))
            ∙ splice-append (le_bytes 4 0) B C (le_bytes 4 7) 4 (sym (length-le_bytes 4 0)) (
                length-le_bytes 4 7
                ∙ sym (length-take 4 (drop 4 zl) (omega (arith, length-drop 4 zl))))
            ∙ sym (append_assoc (le_bytes 4 0) (le_bytes 4 7) C)
            ∙ ap (λ t. header 0 7 ++ t) (sym (drop-add 4 4 zl)))

module _ {zl : Ziplist} {xs : List Blob} {rest : Bytes} (h : Lists zl xs rest) where
  emptied :
      (count : ℤ)
      → (leb_ℤ (pos (length xs)) count || leb_ℤ (pos (length xs)) (wrap64 (neg count))) ≡ true
      → (pos_part count == 0 && neg_part count == 0) ≡ false
      → truncate (some zl) count ≡ reset (some zl)
  unfolding truncate
  emptied count all some_of = rw (nentry_lem h, all, some_of)

  from_front :
      (k : ℕ)
      → suc k < length xs
      → truncate (some zl) (pos (suc k))
        ≡ (ok, some (remove_range zl 8 (offset xs (suc k)) (suc k)))
  unfolding truncate
  from_front k lt =
      rw
        (
          nentry_lem h,
          wrap64_negsuc k (omega (arith, lt, h.fits, length-le-span xs h.valid)),
          partial,
          located h (pos (suc k)) (suc k) (adjust_pos (suc k) (length xs)) lt,
        )
        (ground arith)
    where
      partial :
          (leb_ℤ (pos (length xs)) (pos (suc k)) || leb_ℤ (pos (length xs)) (neg (pos (suc k))))
          ≡ false
      partial = ground arith

  from_back :
      (k : ℕ)
      → suc k < length xs
      → truncate (some zl) (negsuc k)
        ≡ (ok, some (remove_range zl (offset xs (length xs - suc k)) (nend zl + 1) (suc k)))
  unfolding truncate
  from_back k lt =
      rw
        (
          nentry_lem h,
          wrap64_pos (suc k) (omega (arith, lt, h.fits, length-le-span xs h.valid)),
          partial,
          start,
          located h (pos (length xs - suc k)) (length xs - suc k)
              (adjust_pos (length xs - suc k) (length xs)) (omega arith),
        )
        (ground arith)
    where
      partial :
          (leb_ℤ (pos (length xs)) (negsuc k) || leb_ℤ (pos (length xs)) (neg (negsuc k))) ≡ false
      partial = ground arith

      start : pos (length xs) -ℤ pos (suc k) ≡ pos (length xs - suc k)
      start = ground arith

  unchanged : truncate (some zl) (pos zero) ≡ (ok, some zl)
  unfolding truncate
  unchanged = refl

  cut_front :
      (k : ℕ)
      → suc k < length xs
      → Lists
          (remove_range zl 8 (offset xs (suc k)) (suc k))
          (drop (suc k) xs)
          (leftover (take (suc k) xs) (drop (suc k) xs) rest)
  cut_front k lt =
      let e : 0 + suc k ≡ suc k = omega arith in rw e at (cut h 0 (suc k) (omega arith))

  cut_back :
      (k : ℕ)
      → suc k < length xs
      → Lists
          (remove_range zl (offset xs (length xs - suc k)) (nend zl + 1) (suc k))
          (take (length xs - suc k) xs)
          (leftover (take (suc k) (drop (length xs - suc k) xs)) [] rest)
  cut_back k lt =
      let e : length xs - suc k + suc k ≡ length xs = omega arith in
      let nil : drop (length xs) xs ≡ [] = drop_all (length xs) xs (omega arith) in
      let end : offset xs (length xs) ≡ nend zl + 1 = omega (arith, offset_all xs, nend_lem h) in
      rw (e, end, nil, append-nil (take (length xs - suc k) xs)) at
        (cut h (length xs - suc k) (suc k) (omega arith))

  -- `ziplist_truncate` succeeds for every count above INT64_MIN: a positive one drops as many values from the start
  -- of the list, a negative one from its end.
  pub truncate-Lists :
      (count : ℤ)
      → neg_part count < 2 ^ 63
      → (zl' : Ziplist) × (rest' : Bytes) × (truncate (some zl) count ≡ (ok, some zl'))
        × Lists zl' (survivors count xs) rest'
  truncate-Lists (pos zero) b = (zl, rest, unchanged, h)
  truncate-Lists (pos (suc k)) b = elim (Bool-cases (ltb (suc k) (length xs))) [
    | inl lt ↦ let l = ltb→lt (suc k) (length xs) lt in (_, _, from_front k l, cut_front k l)
    | inr ge ↦
        let (zl', done, held) = reset-Lists zl (length-Lists h) in
        (
          zl',
          drop 8 zl,
          emptied (pos (suc k)) (ground arith) (ground arith) ∙ done,
          rw (drop_all (suc k) xs (ground arith)) held,
        )
  ]
  truncate-Lists (negsuc k) b = elim (Bool-cases (ltb (suc k) (length xs))) [
    | inl lt ↦ let l = ltb→lt (suc k) (length xs) lt in (_, _, from_back k l, cut_back k l)
    | inr ge ↦
        let (zl', done, held) = reset-Lists zl (length-Lists h) in
        let e : length xs - suc k ≡ 0 = ground arith in
        (
          zl',
          drop 8 zl,
          emptied (negsuc k) (rw (wrap64_pos (suc k) b) (ground arith)) (ground arith) ∙ done,
          rw e held,
        )
  ]
