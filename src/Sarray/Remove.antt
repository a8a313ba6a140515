-- ===== src/Sarray/Remove.antt =====
-- `sarray_remove`, and the values that every operation refuses.
use pelikan.Common.{
  ℕ, suc, ◌+◌, ◌-◌, ◌*◌, ◌^◌, ◌≤◌, ◌<◌, ◌≡◌, refl, sym, ap, ◌∙◌, true, false, none, some, arith,
  List, ◌++◌, length, take, drop, ge→ltb,
}
use pelikan.Common.Words.{IsWidth, u64_mod, sub32, mul32, sub32_exact, mul32_exact}
use pelikan.Common.Memory.{Bytes, memmove, le_bytes}
use pelikan.Search.Layout.{body_of}
use pelikan.Search.Shift.{close_gap}
use pelikan.Search.Sorted
use pelikan.Search.Sorted.{IsSorted, key_at, has_key, insert_at, remove_at}
use pelikan.Search.Position.{IsPosition}
use pelikan.Sarray.{
  Sarray, ok, enotfound, einvalid, locate, validate_range, position, index, insert, remove,
}
use pelikan.Sarray.Holds.{limit, Holds, le_bytes-Sized, position_lem}
use pelikan.Sarray.Lookup.{IsComparable, validate_range_lem, locate_lem, found_lem}
use pelikan.Sarray.Update.{in_range, count_small, AllBelow-remove}

module _ {sa : Sarray} {xs : List ℕ} {rest : Bytes} (h : Holds sa xs rest) where
  remove_bytes :
      (k : ℕ)
      → k < length xs
      → (rest' : Bytes) × (length rest' ≡ length rest + sa.esize)
        × (memmove
              (position sa.esize k)
              (position sa.esize k + sa.esize)
              (mul32 sa.esize (sub32 (sub32 sa.nentry k) 1))
              sa.body
            ≡ body_of (le_bytes sa.esize) (take k xs ++ drop (suc k) xs) ++ rest')
  remove_bytes k lt =
      let e = sa.esize in
      let (rest', len, moved) = close_gap (le_bytes e) e xs (le_bytes-Sized e xs) k 0 rest lt in
      (rest', len, rw (position_lem k h (omega arith), size, h.entries) moved)
    where
      size : mul32 sa.esize (sub32 (sub32 sa.nentry k) 1) ≡ sa.esize * (length xs - suc k)
      size =
          rw
            (
              h.count,
              sub32_exact (length xs) k (omega arith) (omega (arith, count_small h)),
              sub32_exact (length xs - k) 1 (omega arith) (omega (arith, count_small h)),
            )
            (ap (mul32 sa.esize) (one_less (length xs) k)
              ∙ mul32_exact sa.esize (length xs - suc k) (grind (arith, h.fits)))
        where
          one_less : (n k : ℕ) → n - k - 1 ≡ n - suc k
          one_less n k = omega arith

  -- `sarray_remove` of a value that the array has, in an array of comparable values, all of which fit
  -- the width, or are below 128 where the width is 1 byte, takes it out; its bytes are free behind the others.
  pub remove-Holds :
      (val : ℕ)
      → IsComparable sa xs
      → val < limit sa.esize
      → val < u64_mod
      → has_key (λ x. x) val xs ≡ true
      → (sa' : Sarray) × (rest' : Bytes) × (remove (some sa) val ≡ (ok, some sa'))
        × Holds sa' (Sorted.remove (λ x. x) val xs) rest'
        × (length rest' ≡ length rest + sa.esize)
  unfolding remove
  remove-Holds val c r r64 has = (
    sa',
    bytes.0,
    rw (in_range h val r r64, sym known ∙ has),
    record {
      entries =
          bytes.2
          ∙ ap (λ ys. body_of (le_bytes sa.esize) ys ++ bytes.0) (remove_at (λ x. x) val xs k at);
      count = fewer;
      width = h.width;
      sorted = Sorted.remove-IsSorted (λ x. x) val xs h.sorted;
      readable = AllBelow-remove (limit sa.esize) val xs h.readable;
      fits = grind (arith, h.fits, shorter);
    },
    bytes.1,
  )
    where
      k : ℕ
      k = (locate sa val).1

      known : has_key (λ x. x) val xs ≡ (locate sa val).0
      known = found_lem h val c

      at : IsPosition (key_at (λ x. x) xs) (length xs) val (true, k)
      at =
          let p : IsPosition (key_at (λ x. x) xs) (length xs) val ((locate sa val).0, k) =
            locate_lem h val c in
          rw (sym known ∙ has) at p

      bytes :
          (rest' : Bytes) × (length rest' ≡ length rest + sa.esize)
          × (memmove
                (position sa.esize k)
                (position sa.esize k + sa.esize)
                (mul32 sa.esize (sub32 (sub32 sa.nentry k) 1))
                sa.body
              ≡ body_of (le_bytes sa.esize) (take k xs ++ drop (suc k) xs) ++ rest')
      bytes = remove_bytes k (at.hit refl).0

      shorter : suc (length (Sorted.remove (λ x. x) val xs)) ≡ length xs
      shorter = Sorted.length-remove (λ x. x) val xs has

      sa' : Sarray
      sa' = record sa {
        nentry = sub32 sa.nentry 1;
        body =
            memmove (position sa.esize k) (position sa.esize k + sa.esize)
              (mul32 sa.esize (sub32 (sub32 sa.nentry k) 1)) sa.body;
      }

      fewer : sub32 sa.nentry 1 ≡ length (Sorted.remove (λ x. x) val xs)
      fewer =
          rw
            (
              h.count,
              sub32_exact (length xs) 1 (omega (arith, shorter)) (omega (arith, count_small h)),
            )
            (omega (arith, shorter))

  -- `sarray_remove` of a value that the array does not have and that fits the width, in an array of
  -- comparable values, answers ENOTFOUND and changes nothing.
  pub remove_absent :
      (val : ℕ)
      → IsComparable sa xs
      → val < limit sa.esize
      → val < u64_mod
      → has_key (λ x. x) val xs ≡ false
      → remove (some sa) val ≡ (enotfound, some sa)
  unfolding remove
  remove_absent val c r r64 new = rw (in_range h val r r64, sym (found_lem h val c) ∙ new)

-- A `uint64_t` that does not fit the width of the array is refused by the three operations that
-- take a value, and nothing changes.
pub refuses_wide :
    (sa : Sarray) (val : ℕ)
    → IsWidth sa.esize
    → 256 ^ sa.esize ≤ val
    → val < u64_mod
    → (insert (some sa) val ≡ (einvalid, some sa))
      × (remove (some sa) val ≡ (einvalid, some sa))
      × (index (some sa) val ≡ (einvalid, none))
unfolding insert remove index
refuses_wide sa val w wide r64 = (rw out, rw out, rw out)
  where
    out : validate_range sa.esize val ≡ false
    out = validate_range_lem sa.esize val w r64 ∙ ge→ltb val (256 ^ sa.esize) wide
