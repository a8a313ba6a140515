-- ===== src/Sarray/Tests.antt =====
-- The theorems about the sorted array at concrete arrays, and runs of its operations.
use pelikan.Common.{
  ℕ, ◌+◌, ◌-◌, ◌*◌, ◌^◌, ◌≡◌, inl, inr, refl, true, false, some, arith, List, [], ◌∷◌, ◌++◌, length,
}
use pelikan.Common.Words.{u64_mod, mul32, add32, sub32}
use pelikan.Common.Memory.{Bytes, le_bytes, le_value, load, store, slice, splice, memmove}
use pelikan.Search
use pelikan.Search.{should_scan, linear_search, binary_search, binary_loop, middle, linear_from}
use pelikan.Search.Sorted
use pelikan.Search.Sorted.{has_key, key_at}
use pelikan.Search.Position.{IsPosition}
use pelikan.Search.Locate.{locate-IsPosition}
use pelikan.Search.Binary.{binary_loop_fuel}
use pelikan.Sarray.{
  Sarray, ok, enotfound, entry, locate, validate_range, index, value, insert, remove, position,
  get_value, set_value,
}
use pelikan.Sarray.Holds.{Holds}
use pelikan.Sarray.Lookup.{IsComparable}
use pelikan.Sarray.Update.{insert-Holds}
use pelikan.Sarray.Remove.{remove-Holds}
use pelikan.Sarray.Limits.{index_wide, index_signed, empty_bytes, one_byte}

-- 3 and 300 as 2-byte integers, and three bytes behind.
abbrev sample : Sarray
sample = record { nentry = 2; esize = 2; body = 3 ∷ 0 ∷ 44 ∷ 1 ∷ 0 ∷ 0 ∷ 9 ∷ [] }

abbrev held : List ℕ
held = 3 ∷ 300 ∷ []

sample-Holds : Holds sample held (0 ∷ 0 ∷ 9 ∷ [])
unfolding le_bytes
sample-Holds = record {
  entries = refl;
  count = refl;
  width = inr (inl refl);
  sorted = omega arith;
  readable = omega arith;
  fits = omega arith;
}

sample-IsComparable : IsComparable sample held
sample-IsComparable halve wide = absurd (omega arith)

insert_example :
    (sa' : Sarray) × (insert (some sample) 7 ≡ (ok, some sa'))
    × Holds sa' (Sorted.insert (λ x. x) 7 held) (9 ∷ [])
insert_example =
    insert-Holds sample-Holds 7 (0 ∷ 0 ∷ []) (9 ∷ []) refl refl (omega arith) sample-IsComparable
      (omega arith) (omega arith) refl

insert_runs :
    insert (some sample) 7
    ≡ (ok, some (record { nentry = 3; esize = 2; body = 3 ∷ 0 ∷ 7 ∷ 0 ∷ 44 ∷ 1 ∷ 9 ∷ [] }))
unfolding insert validate_range locate Search.locate should_scan linear_search entry get_value
    position load slice le_value mul32 add32 sub32 memmove splice set_value store le_bytes
insert_runs = refl

remove_example :
    (sa' : Sarray) × (rest' : Bytes) × (remove (some sample) 3 ≡ (ok, some sa'))
    × Holds sa' (300 ∷ []) rest'
    × (length rest' ≡ 5)
remove_example = remove-Holds sample-Holds 3 sample-IsComparable (omega arith) (omega arith) refl

-- Nine entries of 8 bytes: 0, 2^32, and seven larger ones.
abbrev wide_entry : ℕ → ℕ → Bytes
wide_entry lo hi = lo ∷ 0 ∷ 0 ∷ 0 ∷ hi ∷ 0 ∷ 0 ∷ 0 ∷ []

abbrev wide : Sarray
wide = record {
  nentry = 9;
  esize = 8;
  body =
      wide_entry 0 0
      ++ (wide_entry 0 1
          ++ (wide_entry 1 1
              ++ (wide_entry 2 1
                  ++ (wide_entry 3 1
                      ++ (wide_entry 4 1
                          ++ (wide_entry 5 1 ++ (wide_entry 6 1 ++ wide_entry 7 1)))))));
}

wide_facts : (should_scan 9 8 ≡ false) × (entry wide 0 ≡ 0) × (entry wide 1 ≡ 2 ^ 32)
unfolding should_scan mul32 entry get_value position load slice le_value
wide_facts = (refl, refl, refl)

index_wide_example : (index (some wide) (2 ^ 32)).0 ≡ enotfound
index_wide_example =
    index_wide wide (2 ^ 32) refl wide_facts.0 (omega arith) (omega (arith, wide_facts.1))

index_signed_example :
    (insert (some (empty_bytes (0 ∷ []))) 200 ≡ (ok, some (one_byte 200 [])))
    × (index (some (one_byte 200 [])) 200 ≡ (enotfound, some 0))
    × (value (some (one_byte 200 [])) 0 ≡ (ok, some (u64_mod - 256 + 200)))
index_signed_example = index_signed 200 0 [] (omega arith) (omega arith)

abbrev evens : ℕ → ℕ
evens i = i * 2

locate_example : IsPosition evens 40 31 (Search.locate evens 40 4 31)
locate_example =
    locate-IsPosition evens 40 4 31 (λ i j lt hj. omega arith) (omega arith) (λ i h lt. omega arith)

locate_runs : Search.locate evens 40 4 30 ≡ (true, 15)
unfolding Search.locate should_scan mul32 binary_search middle
locate_runs = refl

fuel_example : binary_loop evens 39 1 39 0 31 ≡ binary_loop evens 50 1 39 0 31
fuel_example =
    binary_loop_fuel evens 39 50 1 39 0 31 (omega arith) (omega arith) (omega arith) (omega arith)
