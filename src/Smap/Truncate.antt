-- ===== src/Smap/Truncate.antt =====
-- `smap_init` and `smap_truncate`, and the updates that are refused.
use pelikan.Common.{
  ℕ, zero, suc, ◌-◌, ◌*◌, ◌^◌, ◌≤◌, ◌<◌, ◌≡◌, ◌≢◌, inl, inr, refl, ◌∙◌, false, none, some, arith,
  List, [], ◌∷◌, ◌++◌, length, take, drop, drop_all, length-drop, length-take, ge→ltb, ◌==◌,
}
use native.Mathlib.Decide.{dec_lt}
use pelikan.Common.Words.{IsWidth, u64_mod, sub32, sub32_exact}
use pelikan.Common.Memory.{Bytes, memmove}
use pelikan.Common.Int.{ℤ, pos, negsuc, survivors}
use pelikan.Search.Layout.{body_of, body_of-split}
use pelikan.Search.Shift.{drop_front}
use pelikan.Search.Sorted.{take-IsSorted, drop-IsSorted}
use pelikan.Smap.{Smap, ok, einvalid, esize, validate_range, init, index, insert, remove, truncate}
use pelikan.Smap.Maps.{Entry, key, encode, AllShaped, Maps, sized}
use pelikan.Smap.Lookup.{validate_range_lem}
use pelikan.Smap.Update.{count_small}

-- `smap_init` makes an empty map with keys of 1, 2, 4 or 8 bytes, over the memory as it is.
pub init-Maps :
    (sm : Smap) (k v : ℕ)
    → IsWidth k
    → (sm' : Smap) × (init (some sm) k v ≡ (ok, some sm'))
      × Maps sm' [] sm.body
      × (sm'.ksize ≡ k)
      × (sm'.vsize ≡ v)
unfolding init
init-Maps sm k v w = (
  record sm { nentry = 0; ksize = k; vsize = v },
  accepted k w,
  record { entries = refl; count = refl; width = w; sorted = tt; shaped = tt; fits = omega arith },
  refl,
  refl,
)
  where
    accepted :
        (k : ℕ)
        → IsWidth k
        → init (some sm) k v ≡ (ok, some (record sm { nentry = 0; ksize = k; vsize = v }))
    accepted k (inl w) = rw w
    accepted k (inr (inl w)) = rw w
    accepted k (inr (inr (inl w))) = rw w
    accepted k (inr (inr (inr w))) = rw w

AllShaped-drop : (k v n : ℕ) (xs : List Entry) → AllShaped k v xs → AllShaped k v (drop n xs)
AllShaped-drop k v zero xs a = a
AllShaped-drop k v (suc n) [] a = tt
AllShaped-drop k v (suc n) (x ∷ xs) a = AllShaped-drop k v n xs a.3

AllShaped-take : (k v n : ℕ) (xs : List Entry) → AllShaped k v xs → AllShaped k v (take n xs)
AllShaped-take k v zero xs a = tt
AllShaped-take k v (suc n) [] a = tt
AllShaped-take k v (suc n) (x ∷ xs) a = (a.0, a.1, a.2, AllShaped-take k v n xs a.3)

module _ {sm : Smap} {xs : List Entry} {rest : Bytes} (h : Maps sm xs rest) where
  Truncated : ℤ → List Entry → Type 0
  Truncated count ys =
      (sm' : Smap) × (rest' : Bytes) × (truncate (some sm) count ≡ (ok, some sm'))
      × Maps sm' ys rest'

  emptied :
      (count : ℤ)
      → truncate (some sm) count ≡ (ok, some (record sm { nentry = 0 }))
      → Truncated count []
  unfolding Truncated
  emptied count e = (
    record sm { nentry = 0 },
    sm.body,
    e,
    record {
      entries = refl;
      count = refl;
      width = h.width;
      sorted = tt;
      shaped = tt;
      fits = omega arith;
    },
  )

  front : (n : ℕ) → suc n < length xs → Truncated (pos (suc n)) (drop (suc n) xs)
  unfolding Truncated truncate
  front n lt =
      let (rest', moved) =
        drop_front (encode sm.ksize) (esize sm) xs (sized h) (suc n) rest (omega arith) in
      (
        record sm {
          nentry = sub32 sm.nentry (suc n);
          body = memmove 0 (esize sm * suc n) (esize sm * (sm.nentry - suc n)) sm.body;
        },
        rest',
        ground (arith, h.count),
        record {
          entries = rw (h.count, h.entries) moved;
          count =
              rw (h.count, length-drop)
                (sub32_exact (length xs) (suc n) (omega arith) (omega (arith, count_small h)));
          width = h.width;
          sorted = drop-IsSorted key (suc n) xs h.sorted;
          shaped = AllShaped-drop sm.ksize sm.vsize (suc n) xs h.shaped;
          fits = rw length-drop (grind (arith, h.fits));
        },
      )

  back : (n : ℕ) → suc n < length xs → Truncated (negsuc n) (take (length xs - suc n) xs)
  unfolding Truncated truncate
  back n lt = (
    record sm { nentry = sub32 sm.nentry (suc n) },
    body_of (encode sm.ksize) (drop (length xs - suc n) xs) ++ rest,
    ground (arith, h.count),
    record {
      entries = h.entries ∙ body_of-split (encode sm.ksize) (length xs - suc n) xs rest;
      count =
          rw (h.count, length-take (length xs - suc n) xs (omega arith))
            (sub32_exact (length xs) (suc n) (omega arith) (omega (arith, count_small h)));
      width = h.width;
      sorted = take-IsSorted key (length xs - suc n) xs h.sorted;
      shaped = AllShaped-take sm.ksize sm.vsize (length xs - suc n) xs h.shaped;
      fits = rw (length-take (length xs - suc n) xs (omega arith)) (grind (arith, h.fits));
    },
  )

  -- `smap_truncate` succeeds for every count: a positive one drops as many entries from the start
  -- of the map, a negative one from its end.
  pub truncate-Maps :
      (count : ℤ)
      → (sm' : Smap) × (rest' : Bytes) × (truncate (some sm) count ≡ (ok, some sm'))
        × Maps sm' (survivors count xs) rest'
  unfolding Truncated truncate
  truncate-Maps (pos zero) = (sm, rest, refl, h)
  truncate-Maps (pos (suc n)) = elim (dec_lt (suc n) (length xs)) [
    | yes lt ↦ front n lt
    | no ge ↦
        rw (drop_all (suc n) xs (omega arith)) (emptied (pos (suc n)) (ground (arith, h.count)))
  ]
  truncate-Maps (negsuc n) = elim (dec_lt (suc n) (length xs)) [
    | yes lt ↦ back n lt
    | no ge ↦
        let none_left : length xs - suc n ≡ 0 = omega arith in
        rw none_left (emptied (negsuc n) (ground (arith, h.count)))
  ]

-- A key that does not fit the width is refused by the three operations that take a key, and nothing
-- changes.
pub refuses_wide_key :
    (sm : Smap) (k : ℕ) (val : Bytes)
    → IsWidth sm.ksize
    → k < u64_mod
    → 256 ^ sm.ksize ≤ k
    → (insert (some sm) k val ≡ (einvalid, some sm))
      × (remove (some sm) k ≡ (einvalid, some sm))
      × (index (some sm) k ≡ (einvalid, none))
unfolding insert remove index
refuses_wide_key sm k val w r64 wide = (rw out, rw out, rw out)
  where
    out : validate_range sm.ksize k ≡ false
    out = validate_range_lem sm.ksize k w r64 ∙ ge→ltb k (256 ^ sm.ksize) wide

-- A value of another size than the map's is refused by the insertion, whatever its key.
pub refuses_misfit :
    (sm : Smap) (k : ℕ) (val : Bytes)
    → length val ≢ sm.vsize
    → insert (some sm) k val ≡ (einvalid, some sm)
unfolding insert
refuses_misfit sm k val other = rw differs (ground arith)
  where
    differs : (length val == sm.vsize) ≡ false
    differs = ground arith
