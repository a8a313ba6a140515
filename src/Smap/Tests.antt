-- ===== src/Smap/Tests.antt =====
-- The theorems about the sorted map at a concrete map.
use pelikan.Common.{ℕ, ◌≡◌, inl, inr, refl, some, arith, List, [], ◌∷◌, ◌++◌}
use pelikan.Common.Memory.{Bytes, le_bytes}
use pelikan.Search.Sorted
use pelikan.Search.Sorted.{has_key}
use pelikan.Smap.{Smap, ok, einvalid, entry_size, keyval, index, insert}
use pelikan.Smap.Maps.{Entry, key, Maps}
use pelikan.Smap.Lookup.{IsComparable}
use pelikan.Smap.Update.{insert-Maps}
use pelikan.Smap.Truncate.{refuses_misfit}
use pelikan.Smap.RoundTrip.{keyval-index-insert}

-- 2-byte keys with 3-byte values, 3 and 300, and seven bytes behind.
abbrev sample : Smap
sample = record {
  nentry = 2;
  ksize = 2;
  vsize = 3;
  body = 3 ∷ 0 ∷ 1 ∷ 2 ∷ 3 ∷ 0 ∷ 44 ∷ 1 ∷ 4 ∷ 5 ∷ 6 ∷ 0 ∷ 0 ∷ 0 ∷ 0 ∷ 0 ∷ 0 ∷ 0 ∷ 9 ∷ [];
}

abbrev entry : ℕ → Bytes → Entry
entry k v = record { key = k; val = v; pad = 0 ∷ [] }

abbrev held : List Entry
held = entry 3 (1 ∷ 2 ∷ 3 ∷ []) ∷ entry 300 (4 ∷ 5 ∷ 6 ∷ []) ∷ []

abbrev gap : Bytes
gap = 0 ∷ 0 ∷ 0 ∷ 0 ∷ 0 ∷ 0 ∷ []

six : entry_size 2 3 ≡ 6
unfolding entry_size
six = refl

sample-Maps : Maps sample held (gap ++ (9 ∷ []))
unfolding le_bytes entry_size
sample-Maps = record {
  entries = refl;
  count = refl;
  width = inr (inl refl);
  sorted = omega arith;
  shaped = (omega arith, refl, refl, (omega arith, refl, refl, tt));
  fits = omega arith;
}

sample-IsComparable : IsComparable sample held
sample-IsComparable halve wide = absurd (omega arith)

insert_entry_map_example :
    (sm' : Smap) × (pad : Bytes) × (insert (some sample) 7 (7 ∷ 8 ∷ 9 ∷ []) ≡ (ok, some sm'))
    × Maps sm'
        (Sorted.insert key (record { key = 7; val = 7 ∷ 8 ∷ 9 ∷ []; pad = pad }) held)
        (9 ∷ [])
    × (sm'.ksize ≡ 2)
    × (sm'.vsize ≡ 3)
insert_entry_map_example =
    insert-Maps sample-Maps 7 (7 ∷ 8 ∷ 9 ∷ []) gap (9 ∷ []) refl (omega (arith, six))
      (omega (arith, six)) sample-IsComparable refl (omega arith) (omega arith) refl

refuses_misfit_example : insert (some sample) 5 (7 ∷ []) ≡ (einvalid, some sample)
refuses_misfit_example = refuses_misfit sample 5 (7 ∷ []) (λ e. omega arith)

round_trip_example :
    (sm' : Smap) × (idx : ℕ) × (insert (some sample) 7 (7 ∷ 8 ∷ 9 ∷ []) ≡ (ok, some sm'))
    × (index (some sm') 7 ≡ (ok, some idx))
    × (keyval (some sm') idx ≡ (ok, some (7, 7 ∷ 8 ∷ 9 ∷ [])))
round_trip_example =
    keyval-index-insert sample-Maps 7 (7 ∷ 8 ∷ 9 ∷ []) gap (9 ∷ []) refl (omega (arith, six))
      (omega (arith, six)) (λ _ w. absurd (omega arith)) (λ _ w. absurd (omega arith)) refl
      (omega arith) (omega arith) refl
