-- ===== src/Sarray/Update.antt =====
-- `sarray_insert` and the list of values that the array holds.
use pelikan.Common.{
  ℕ, suc, ◌+◌, ◌-◌, ◌*◌, ◌^◌, ◌≤◌, ◌<◌, ◌≡◌, inl, inr, sym, ap, ◌∙◌, true, false, some, arith, List,
  [], ◌∷◌, ◌++◌, length, take, drop, ◌==◌, ltb, Bool-cases, lt→ltb,
}
use pelikan.Common.Words.{
  IsWidth, u64_mod, add32, sub32, mul32, add32_exact, sub32_exact, mul32_exact,
}
use pelikan.Common.Memory.{Bytes, splice, splice-append, store, memmove, le_bytes, length-le_bytes}
use pelikan.Search.Layout.{body_of, length-body_of-take}
use pelikan.Search.Shift.{open_gap, fill_gap}
use pelikan.Search.Sorted
use pelikan.Search.Sorted.{IsSorted, key_at, has_key, insert_at, remove_at}
use pelikan.Search.Position.{IsPosition}
use pelikan.Sarray.{Sarray, ok, edup, locate, validate_range, set_value, position, insert}
use pelikan.Sarray.Holds.{limit, limit-le, AllBelow, Holds, le_bytes-Sized, position_lem}
use pelikan.Sarray.Lookup.{IsComparable, validate_range_lem, locate_lem, found_lem, width_pos}

set_value_lem :
    (p e v : ℕ) (body : Bytes) → IsWidth e → set_value p e v body ≡ splice p (le_bytes e v) body
unfolding set_value store
set_value_lem p e v body (inl w) = rw w
set_value_lem p e v body (inr (inl w)) = rw w
set_value_lem p e v body (inr (inr (inl w))) = rw w
set_value_lem p e v body (inr (inr (inr w))) = rw w

AllBelow-insert :
    (b v : ℕ) (xs : List ℕ) → v < b → AllBelow b xs → AllBelow b (Sorted.insert (λ x. x) v xs)
AllBelow-insert b v [] h a = (h, tt)
AllBelow-insert b v (x ∷ xs) h a = elim (Bool-cases (ltb x v)) [
  | inl lt ↦ rw lt (a.0, AllBelow-insert b v xs h a.1)
  | inr ge ↦ rw ge (h, a)
]

pub AllBelow-remove :
    (b v : ℕ) (xs : List ℕ) → AllBelow b xs → AllBelow b (Sorted.remove (λ x. x) v xs)
AllBelow-remove b v [] a = tt
AllBelow-remove b v (x ∷ xs) a = elim (Bool-cases (x == v)) [
  | inl e ↦ rw e a.1
  | inr ne ↦ rw ne (a.0, AllBelow-remove b v xs a.1)
]

module _ {sa : Sarray} {xs : List ℕ} {rest : Bytes} (h : Holds sa xs rest) where
  pub in_range :
      (val : ℕ) → val < limit sa.esize → val < u64_mod → validate_range sa.esize val ≡ true
  in_range val r r64 =
      validate_range_lem sa.esize val h.width r64
      ∙ lt→ltb val (256 ^ sa.esize) (omega (arith, limit-le sa.esize))

  -- `sarray_insert` of a value that the array has and that fits the width, in an array of
  -- comparable values, answers EDUP and changes nothing.
  pub insert_dup :
      (val : ℕ)
      → IsComparable sa xs
      → val < limit sa.esize
      → val < u64_mod
      → has_key (λ x. x) val xs ≡ true
      → insert (some sa) val ≡ (edup, some sa)
  unfolding insert
  insert_dup val c r r64 has = rw (in_range val r r64, sym (found_lem h val c) ∙ has)

  pub count_small : length xs < 2 ^ 31
  count_small = grind (arith, h.fits, width_pos h)

  -- The bytes from position `k` on move by the size of what stands there.
  pub moved_size :
      (k : ℕ) → k ≤ length xs → mul32 sa.esize (sub32 sa.nentry k) ≡ sa.esize * (length xs - k)
  moved_size k le =
      rw (h.count, sub32_exact (length xs) k le (omega (arith, count_small)))
        (mul32_exact sa.esize (length xs - k) (grind (arith, h.fits)))

  insert_bytes :
      (val k : ℕ) (gap behind : Bytes)
      → rest ≡ gap ++ behind
      → length gap ≡ sa.esize
      → k ≤ length xs
      → set_value (position sa.esize k) sa.esize val (
          memmove
            (position sa.esize k + sa.esize)
            (position sa.esize k)
            (mul32 sa.esize (sub32 sa.nentry k))
            sa.body)
        ≡ body_of (le_bytes sa.esize) (take k xs ++ (val ∷ drop k xs)) ++ behind
  insert_bytes val k gap behind hr hg le =
      let e = sa.esize in
      let s = le_bytes-Sized e xs in
      let (place, lp, moved) = open_gap (le_bytes e) e xs s k gap behind le hg in
      rw
        (
          position_lem k h le,
          moved_size k le,
          set_value_lem _ e val _ h.width,
          h.entries,
          hr,
          moved,
        )
        (splice-append (body_of (le_bytes e) (take k xs)) place _ (le_bytes e val) (e * k)
            (length-body_of-take (le_bytes e) e k xs s le) (length-le_bytes e val ∙ sym lp)
          ∙ fill_gap (le_bytes e) e xs s k val behind)

  -- `sarray_insert` of a value that fits the width, or is below 128 where the width is 1 byte, as
  -- those of the array are, and that the array does not have puts it in its
  -- place in the order, where a free entry follows the array and the values are comparable; the
  -- bytes behind the free entry stay.
  pub insert-Holds :
      (val : ℕ) (gap behind : Bytes)
      → rest ≡ gap ++ behind
      → length gap ≡ sa.esize
      → sa.esize * suc (length xs) < 2 ^ 31
      → IsComparable sa xs
      → val < limit sa.esize
      → val < u64_mod
      → has_key (λ x. x) val xs ≡ false
      → (sa' : Sarray) × (insert (some sa) val ≡ (ok, some sa'))
        × Holds sa' (Sorted.insert (λ x. x) val xs) behind
  unfolding insert
  insert-Holds val gap behind hr hg room c r r64 new = (
    sa',
    rw (in_range val r r64, sym known ∙ new),
    record {
      entries = written;
      count =
          rw (h.count, add32_exact (length xs) 1 (omega (arith, count_small)), Sorted.length-insert)
            (omega arith);
      width = h.width;
      sorted = Sorted.insert-IsSorted (λ x. x) val xs h.sorted new;
      readable = AllBelow-insert (limit sa.esize) val xs r h.readable;
      fits = rw Sorted.length-insert room;
    },
  )
    where
      k : ℕ
      k = (locate sa val).1

      known : has_key (λ x. x) val xs ≡ (locate sa val).0
      known = found_lem h val c

      at : IsPosition (key_at (λ x. x) xs) (length xs) val (false, k)
      at =
          let p : IsPosition (key_at (λ x. x) xs) (length xs) val ((locate sa val).0, k) =
            locate_lem h val c in
          rw (sym known ∙ new) at p

      sa' : Sarray
      sa' = record sa {
        nentry = add32 sa.nentry 1;
        body = set_value (position sa.esize k) sa.esize val (
            memmove (position sa.esize k + sa.esize) (position sa.esize k)
              (mul32 sa.esize (sub32 sa.nentry k)) sa.body);
      }

      written : sa'.body ≡ body_of (le_bytes sa.esize) (Sorted.insert (λ x. x) val xs) ++ behind
      written =
          insert_bytes val k gap behind hr hg at.in_range
          ∙ ap (λ ys. body_of (le_bytes sa.esize) ys ++ behind) (insert_at (λ x. x) val xs k at)
