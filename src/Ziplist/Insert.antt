-- ===== src/Ziplist/Insert.antt =====
-- `ziplist_insert`: opening a gap between two entries.
use pelikan.Common.{
  ℕ, suc, ◌+◌, ◌-◌, ◌^◌, ◌≤◌, ◌<◌, ◌≡◌, refl, sym, ap, ◌∙◌, true, false, Option, none, some, inl,
  inr, arith, List, ◌∷◌, ◌++◌, append_assoc, length, length-append, take, drop, ltb, leb, ◌==◌,
  Bool-cases, if◌then◌else◌, take-append-drop, drop_all, take_all, leb→le, length-take, ◌||◌,
}
use pelikan.Common.Memory.{Bytes, memmove}
use pelikan.Common.Splice.{memmove_up}
use pelikan.Common.Int.{ℤ, pos, negsuc, ltb_ℤ}
use pelikan.Search.Layout.{body_of, body_of-split}
use pelikan.Blob.{Blob}
use pelikan.Ziplist.{Ziplist, Status, ok, eoob, encode_size, nend, adjust}
use pelikan.Ziplist.Edit.{add, insert}
use pelikan.Ziplist.Codec.{IsEntry, entry_bytes}
use pelikan.Ziplist.Lists.{header, span, offset, Lists, length-header, nentry_lem, nend_lem}
use pelikan.Ziplist.Locate.{located, adjust_pos, adjust_within, adjust_below}
use pelikan.Ziplist.Grow.{
  IsEntry-refused, AllEntries-take, AllEntries-drop, span-append, added, appended,
}

-- The place that an index means when a value is inserted: the end of the list is one.
abbrev pub resolve_gap : ℤ → ℕ → Option ℕ
resolve_gap (pos i) n = if leb i n then some i else none
resolve_gap (negsuc i) n = if ltb i n then some (n - suc i) else none

-- What an insertion at a place answers and leaves.
abbrev pub Inserted :
    Ziplist → List Blob → Blob → Bytes → Status × Option Ziplist → Option ℕ → Type 0
Inserted zl xs x behind answer none = answer ≡ (eoob, some zl)
Inserted zl xs x behind answer (some i) =
    (zl' : Ziplist) × (answer ≡ (ok, some zl')) × Lists zl' (take i xs ++ x ∷ drop i xs) behind

module _ {zl : Ziplist} {xs : List Blob} {rest : Bytes} (h : Lists zl xs rest) (x : Blob)
    (gap behind : Bytes) (hx : IsEntry x) (hr : rest ≡ gap ++ behind)
    (hg : length gap ≡ encode_size x) (fit : 8 + span xs + encode_size x < 2 ^ 32) where
  -- The entries behind the place are moved up by the size of the new entry.
  opened :
      (i : ℕ)
      → i ≤ length xs
      → Lists
          (add
            (memmove (offset xs i + encode_size x) (offset xs i) (nend zl + 1 - offset xs i) zl)
            (offset xs i)
            x)
          (take i xs ++ x ∷ drop i xs)
          behind
  opened i le =
      rw (nend_lem h, moved)
        (added ys zs x S behind (length xs) (7 + span xs) (offset xs i)
          (AllEntries-take i xs h.valid) (AllEntries-drop i xs h.valid) hx size count
          (omega (arith, whole)) refl (omega arith))
    where
      ys : List Blob
      ys = take i xs

      zs : List Blob
      zs = drop i xs

      S : Bytes
      S = take (encode_size x) (body_of entry_bytes zs ++ (gap ++ behind))

      whole : span xs ≡ span ys + span zs
      whole = ap span (sym (take-append-drop i xs)) ∙ span-append ys zs

      count : length xs ≡ length ys + length zs
      count = ap length (sym (take-append-drop i xs)) ∙ length-append ys zs

      size : length S ≡ encode_size x
      size = length-take (encode_size x) (body_of entry_bytes zs ++ (gap ++ behind)) (
          omega (
            arith,
            length-append (body_of entry_bytes zs) (gap ++ behind),
            length-append gap behind,
          ))

      moved :
          memmove (offset xs i + encode_size x) (offset xs i) (7 + span xs + 1 - offset xs i) zl
          ≡ header (length xs) (7 + span xs)
            ++ (body_of entry_bytes ys ++ (S ++ (body_of entry_bytes zs ++ behind)))
      moved =
          ap (memmove (offset xs i + encode_size x) (offset xs i) (7 + span xs + 1 - offset xs i))
            parts
          ∙ memmove_up (header (length xs) (7 + span xs) ++ body_of entry_bytes ys)
              (body_of entry_bytes zs) gap behind (offset xs i) (7 + span xs + 1 - offset xs i)
              (encode_size x)
              (omega (
                arith,
                length-append (header (length xs) (7 + span xs)) (body_of entry_bytes ys),
                length-header (length xs) (7 + span xs),
              ))
              (omega (arith, whole)) (sym hg)
          ∙ append_assoc (header (length xs) (7 + span xs)) (body_of entry_bytes ys) _
        where
          parts :
              zl
              ≡ (header (length xs) (7 + span xs) ++ body_of entry_bytes ys)
                ++ (body_of entry_bytes zs ++ (gap ++ behind))
          parts =
              h.memory
              ∙ ap (λ t. header (length xs) (7 + span xs) ++ t)
                  (body_of-split entry_bytes i xs rest
                    ∙ ap (λ t. body_of entry_bytes ys ++ (body_of entry_bytes zs ++ t)) hr)
              ∙ sym (append_assoc (header (length xs) (7 + span xs)) (body_of entry_bytes ys) _)

  outside :
      (idx i : ℤ)
      → adjust idx (length xs) ≡ i
      → (ltb_ℤ i (pos 0) || ltb_ℤ (pos (length xs)) i) ≡ true
      → insert (some zl) x idx ≡ (eoob, some zl)
  unfolding insert
  outside idx i e out = rw (IsEntry-refused x hx, nentry_lem h, e, out)

  inserted :
      (idx : ℤ) (i : ℕ)
      → adjust idx (length xs) ≡ pos i
      → i ≤ length xs
      → (zl' : Ziplist) × (insert (some zl) x idx ≡ (ok, some zl'))
        × Lists zl' (take i xs ++ x ∷ drop i xs) behind
  unfolding insert
  inserted idx i e le = elim (Bool-cases (i == length xs)) [
    | inl last ↦ (
      add zl (nend zl + 1) x,
      rw (IsEntry-refused x hx, nentry_lem h, e, last, within) refl,
      rw (take_all i xs (ground arith), drop_all i xs (ground arith))
          (appended h x gap behind hx hr hg fit),
    )
    | inr more ↦ (
      _,
      rw
          (
            IsEntry-refused x hx,
            nentry_lem h,
            e,
            more,
            within,
            located h (pos i) i (adjust_pos i (length xs)) (ground arith),
          )
          refl,
      opened i le,
    )
  ]
    where
      within : (ltb (i + 0) 0 || ltb (length xs + 0) (i + 0)) ≡ false
      within = ground arith

  -- In a region with room for the entry of a value, `ziplist_insert` puts the value before the
  -- entry that the index means, or behind the last, and refuses any other index with EOOB and no
  -- change.
  pub insert-Lists :
      (idx : ℤ) → Inserted zl xs x behind (insert (some zl) x idx) (resolve_gap idx (length xs))
  insert-Lists (pos i) = elim (Bool-cases (leb i (length xs))) [
    | inl le ↦ rw le (inserted (pos i) i (adjust_pos i (length xs)) (leb→le i (length xs) le))
    | inr gt ↦ rw gt (outside (pos i) (pos i) (adjust_pos i (length xs)) (ground arith))
  ]
  insert-Lists (negsuc i) = elim (Bool-cases (ltb i (length xs))) [
    | inl lt ↦
        rw lt
          (inserted (negsuc i) (length xs - suc i) (adjust_within i (length xs) lt) (omega arith))
    | inr ge ↦
        rw ge (
          outside (negsuc i) (negsuc (i - length xs)) (adjust_below i (length xs) ge)
            (ground arith))
  ]
