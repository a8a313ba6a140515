-- ===== src/Smap/Remove.antt =====
-- `smap_remove`.
use pelikan.Common.{
  ℕ, suc, ◌+◌, ◌-◌, ◌*◌, ◌^◌, ◌<◌, ◌≡◌, refl, sym, ap, ◌∙◌, true, false, some, arith, List, ◌++◌,
  length, take, drop,
}
use pelikan.Common.Words.{u64_mod, sub32, mul32, sub32_exact, mul32_exact}
use pelikan.Common.Memory.{Bytes, memmove}
use pelikan.Search.Layout.{body_of}
use pelikan.Search.Shift.{close_gap}
use pelikan.Search.Sorted
use pelikan.Search.Sorted.{IsSorted, key_at, has_key, insert_at, remove_at}
use pelikan.Smap.{Smap, ok, enotfound, esize, locate, position, remove}
use pelikan.Smap.Maps.{Entry, key, encode, no_entry, Maps, sized, position_lem}
use pelikan.Smap.Lookup.{IsComparable, found_lem}
use pelikan.Smap.Update.{in_range, count_small, AllShaped-remove, at-IsPosition}

module _ {sm : Smap} {xs : List Entry} {rest : Bytes} (h : Maps sm xs rest) where
  remove_bytes :
      (i : ℕ)
      → i < length xs
      → (rest' : Bytes) × (length rest' ≡ length rest + esize sm)
        × (memmove
              (position (esize sm) i)
              (position (esize sm) i + esize sm)
              (mul32 (esize sm) (sub32 (sub32 sm.nentry i) 1))
              sm.body
            ≡ body_of (encode sm.ksize) (take i xs ++ drop (suc i) xs) ++ rest')
  remove_bytes i lt =
      let (rest', len, moved) =
        close_gap (encode sm.ksize) (esize sm) xs (sized h) i no_entry rest lt in
      (rest', len, rw (position_lem h i (omega arith), size, h.entries) moved)
    where
      one_less : (n k : ℕ) → n - k - 1 ≡ n - suc k
      one_less n k = omega arith

      size : mul32 (esize sm) (sub32 (sub32 sm.nentry i) 1) ≡ esize sm * (length xs - suc i)
      size =
          rw
            (
              h.count,
              sub32_exact (length xs) i (omega arith) (omega (arith, count_small h)),
              sub32_exact (length xs - i) 1 (omega arith) (omega (arith, count_small h)),
            )
            (ap (mul32 (esize sm)) (one_less (length xs) i)
              ∙ mul32_exact (esize sm) (length xs - suc i) (grind (arith, h.fits)))

  -- `smap_remove` of a key that the map has and that fits the width, in a map of comparable keys,
  -- takes it out with its value; its bytes are free behind the others.
  pub remove-Maps :
      (k : ℕ)
      → IsComparable sm xs
      → k < 256 ^ sm.ksize
      → k < u64_mod
      → has_key key k xs ≡ true
      → (sm' : Smap) × (rest' : Bytes) × (remove (some sm) k ≡ (ok, some sm'))
        × Maps sm' (Sorted.remove key k xs) rest'
        × (length rest' ≡ length rest + esize sm)
  unfolding remove
  remove-Maps k c r r64 has =
      let i = (locate sm k).1 in
      let at = at-IsPosition h k true c has in
      let (rest', len, moved) = remove_bytes i (at.hit refl).0 in
      let shorter = Sorted.length-remove key k xs has in
      (
        record sm {
          nentry = sub32 sm.nentry 1;
          body =
              memmove (position (esize sm) i) (position (esize sm) i + esize sm)
                (mul32 (esize sm) (sub32 (sub32 sm.nentry i) 1)) sm.body;
        },
        rest',
        rw (in_range h k r r64, sym (found_lem h k c) ∙ has),
        record {
          entries =
              moved ∙ ap (λ ys. body_of (encode sm.ksize) ys ++ rest') (remove_at key k xs i at);
          count =
              rw
                (
                  h.count,
                  sub32_exact (length xs) 1 (omega (arith, shorter)) (omega (arith, count_small h)),
                )
                (omega (arith, shorter));
          width = h.width;
          sorted = Sorted.remove-IsSorted key k xs h.sorted;
          shaped = AllShaped-remove sm.ksize sm.vsize k xs h.shaped;
          fits = grind (arith, h.fits, shorter);
        },
        len,
      )

  -- `smap_remove` of a key that the map does not have and that fits the width, in a map of
  -- comparable keys, answers ENOTFOUND and changes nothing.
  pub remove_unknown :
      (k : ℕ)
      → IsComparable sm xs
      → k < 256 ^ sm.ksize
      → k < u64_mod
      → has_key key k xs ≡ false
      → remove (some sm) k ≡ (enotfound, some sm)
  unfolding remove
  remove_unknown k c r r64 new = rw (in_range h k r r64, sym (found_lem h k c) ∙ new)
