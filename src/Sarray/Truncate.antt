-- ===== src/Sarray/Truncate.antt =====
-- `sarray_init` and `sarray_truncate`.
use pelikan.Common.{
  drop_all, ℕ, zero, suc, ◌-◌, ◌*◌, ◌<◌, ◌≡◌, inl, inr, refl, ◌∙◌, some, arith, List, [], ◌∷◌, ◌++◌,
  length, take, drop, length-drop, length-take,
}
use native.Mathlib.Decide.{dec_lt}
use pelikan.Common.Words.{IsWidth, sub32, sub32_exact}
use pelikan.Common.Memory.{Bytes, memmove, le_bytes}
use pelikan.Common.Int.{ℤ, pos, negsuc, survivors}
use pelikan.Search.Layout.{body_of, body_of-split}
use pelikan.Search.Shift.{drop_front}
use pelikan.Search.Sorted.{take-IsSorted, drop-IsSorted}
use pelikan.Sarray.{Sarray, ok, einvalid, init, truncate}
use pelikan.Sarray.Holds.{limit, AllBelow, Holds, le_bytes-Sized}
use pelikan.Sarray.Update.{count_small}

-- `sarray_init` makes an empty array of a width of 1, 2, 4 or 8 bytes, over the memory as it is.
pub init-Holds :
    (sa : Sarray) (e : ℕ)
    → IsWidth e
    → (sa' : Sarray) × (init (some sa) e ≡ (ok, some sa')) × Holds sa' [] sa.body × (sa'.esize ≡ e)
unfolding init
init-Holds sa e w = (
  record sa { nentry = 0; esize = e },
  accepted e w,
  record {
    entries = refl;
    count = refl;
    width = w;
    sorted = tt;
    readable = tt;
    fits = omega arith;
  },
  refl,
)
  where
    accepted :
        (e : ℕ) → IsWidth e → init (some sa) e ≡ (ok, some (record sa { nentry = 0; esize = e }))
    accepted e (inl w) = rw w
    accepted e (inr (inl w)) = rw w
    accepted e (inr (inr (inl w))) = rw w
    accepted e (inr (inr (inr w))) = rw w

-- Any other width is refused.
pub init_invalid : (sa : Sarray) (e : ℕ) → ¬ IsWidth e → init (some sa) e ≡ (einvalid, some sa)
unfolding init
init_invalid sa e n = ground arith

AllBelow-drop : (b n : ℕ) (xs : List ℕ) → AllBelow b xs → AllBelow b (drop n xs)
AllBelow-drop b zero xs a = a
AllBelow-drop b (suc n) [] a = tt
AllBelow-drop b (suc n) (x ∷ xs) a = AllBelow-drop b n xs a.1

AllBelow-take : (b n : ℕ) (xs : List ℕ) → AllBelow b xs → AllBelow b (take n xs)
AllBelow-take b zero xs a = tt
AllBelow-take b (suc n) [] a = tt
AllBelow-take b (suc n) (x ∷ xs) a = (a.0, AllBelow-take b n xs a.1)

module _ {sa : Sarray} {xs : List ℕ} {rest : Bytes} (h : Holds sa xs rest) where
  Truncated : ℤ → List ℕ → Type 0
  Truncated count ys =
      (sa' : Sarray) × (rest' : Bytes) × (truncate (some sa) count ≡ (ok, some sa'))
      × Holds sa' ys rest'

  emptied : (count : ℤ) → truncate (some sa) count ≡ init (some sa) sa.esize → Truncated count []
  unfolding Truncated
  emptied count e =
      let (sa', made, holds, w) = init-Holds sa sa.esize h.width in (sa', sa.body, e ∙ made, holds)

  front : (n : ℕ) → suc n < length xs → Truncated (pos (suc n)) (drop (suc n) xs)
  unfolding Truncated truncate
  front n lt =
      let (rest', moved) =
        drop_front (le_bytes sa.esize) sa.esize xs (le_bytes-Sized sa.esize xs) (suc n) rest
          (omega arith) in
      (
        record sa {
          nentry = sub32 sa.nentry (suc n);
          body = memmove 0 (sa.esize * suc n) (sa.esize * (sa.nentry - suc n)) sa.body;
        },
        rest',
        ground (arith, h.count),
        record {
          entries = rw (h.count, h.entries) moved;
          count =
              rw (h.count, length-drop)
                (sub32_exact (length xs) (suc n) (omega arith) (omega (arith, count_small h)));
          width = h.width;
          sorted = drop-IsSorted (λ x. x) (suc n) xs h.sorted;
          readable = AllBelow-drop (limit sa.esize) (suc n) xs h.readable;
          fits = rw length-drop (grind (arith, h.fits));
        },
      )

  back : (n : ℕ) → suc n < length xs → Truncated (negsuc n) (take (length xs - suc n) xs)
  unfolding Truncated truncate
  back n lt = (
    record sa { nentry = sub32 sa.nentry (suc n) },
    body_of (le_bytes sa.esize) (drop (length xs - suc n) xs) ++ rest,
    ground (arith, h.count),
    record {
      entries = h.entries ∙ body_of-split (le_bytes sa.esize) (length xs - suc n) xs rest;
      count =
          rw (h.count, length-take (length xs - suc n) xs (omega arith))
            (sub32_exact (length xs) (suc n) (omega arith) (omega (arith, count_small h)));
      width = h.width;
      sorted = take-IsSorted (λ x. x) (length xs - suc n) xs h.sorted;
      readable = AllBelow-take (limit sa.esize) (length xs - suc n) xs h.readable;
      fits = rw (length-take (length xs - suc n) xs (omega arith)) (grind (arith, h.fits));
    },
  )

  -- `sarray_truncate` succeeds for every count: a positive one drops as many values from the start
  -- of the array, a negative one from its end.
  pub truncate-Holds :
      (count : ℤ)
      → (sa' : Sarray) × (rest' : Bytes) × (truncate (some sa) count ≡ (ok, some sa'))
        × Holds sa' (survivors count xs) rest'
  unfolding Truncated truncate
  truncate-Holds (pos zero) = (sa, rest, refl, h)
  truncate-Holds (pos (suc n)) = elim (dec_lt (suc n) (length xs)) [
    | yes lt ↦ front n lt
    | no ge ↦
        rw (drop_all (suc n) xs (omega arith)) (emptied (pos (suc n)) (ground (arith, h.count)))
  ]
  truncate-Holds (negsuc n) = elim (dec_lt (suc n) (length xs)) [
    | yes lt ↦ back n lt
    | no ge ↦
        let none_left : length xs - suc n ≡ 0 = omega arith in
        rw none_left (emptied (negsuc n) (ground (arith, h.count)))
  ]
