-- ===== src/Sarray/Lookup.antt =====
-- `sarray_value` and `sarray_index`, and the list of values that the array holds.
use pelikan.Common.{
  get_elem?-eq-get_or, get_elem?_past, ℕ, ◌^◌, ◌≤◌, ◌<◌, ◌≡◌, ◌⊎◌, inl, inr, sym, ap, ◌∙◌, true,
  false, none, some, arith, List, length, get_or, get_elem?, ltb, le→leb, gt→leb, lt→ltb,
  if◌then◌else◌,
}
use pelikan.Common.Words.{IsWidth, u32_mod, u64_mod}
use pelikan.Common.Memory.{Bytes}
use pelikan.Search.Sorted.{key_at, has_key, IsSorted-Ascends, found_iff}
use pelikan.Search.Position.{IsPosition, Ascends, IsPosition-ext, Ascends-ext}
use pelikan.Search.Locate.{locate-IsPosition}
use pelikan.Search.{should_scan}
use native.Mathlib.Decide.{dec_lt}
use pelikan.Sarray.{Sarray, ok, enotfound, eoob, entry, locate, validate_range, value, index}
use pelikan.Sarray.Holds.{limit, AllBelow, AllBelow-at, Holds, key_at-eq-get_or, entry_lem}

-- The binary search compares the low 32 bits of an entry: of an array that it searches, the 8-byte
-- values are below 2^32.
abbrev pub IsComparable : Sarray → List ℕ → Type 0
IsComparable sa xs = should_scan sa.nentry sa.esize ≡ false → sa.esize ≡ 8 → AllBelow u32_mod xs

-- The range test of a `uint64_t` is whether the value fits the width.
pub validate_range_lem : (e v : ℕ) → IsWidth e → v < u64_mod → validate_range e v ≡ ltb v (256 ^ e)
unfolding validate_range
validate_range_lem e v (inl w) h = rw w (ground arith)
validate_range_lem e v (inr (inl w)) h = rw w (ground arith)
validate_range_lem e v (inr (inr (inl w))) h = rw w (ground arith)
validate_range_lem e v (inr (inr (inr w))) h = rw w (ground arith)

limit-le_u32 : (e v : ℕ) → IsWidth e → v < limit e → (e ≡ 8) ⊎ (v < u32_mod)
limit-le_u32 e v (inl w) h = inr (let h' : v < limit 1 = rw w at h in omega arith)
limit-le_u32 e v (inr (inl w)) h = inr (let h' : v < limit 2 = rw w at h in omega arith)
limit-le_u32 e v (inr (inr (inl w))) h = inr (let h' : v < limit 4 = rw w at h in omega arith)
limit-le_u32 e v (inr (inr (inr w))) h = inl w

module _ {sa : Sarray} {xs : List ℕ} {rest : Bytes} (h : Holds sa xs rest) where
  entry_key : (i : ℕ) → i < sa.nentry → key_at (λ x. x) xs i ≡ entry sa i
  entry_key i lt = key_at-eq-get_or xs i ∙ sym (entry_lem i h (omega (arith, h.count)))

  entry_u32 :
      IsComparable sa xs
      → (i : ℕ) → should_scan sa.nentry sa.esize ≡ false
      → i < sa.nentry
      → entry sa i < u32_mod
  entry_u32 c i halve lt =
      let at = entry_lem i h (omega (arith, h.count)) in
      elim (limit-le_u32 sa.esize (get_or xs i 0) h.width
        (AllBelow-at (limit sa.esize) i xs h.readable (omega (arith, h.count)))) [
          | inl wide ↦
              omega (arith, at, AllBelow-at u32_mod i xs (c halve wide) (omega (arith, h.count)))
          | inr small ↦ omega (arith, at, small)
        ]

  pub width_pos : 1 ≤ sa.esize
  width_pos = ground (arith, h.width)

  -- The search of the array finds the position in the list.
  pub locate_lem :
      (val : ℕ)
      → IsComparable sa xs
      → IsPosition (key_at (λ x. x) xs) (length xs) val (locate sa val)
  unfolding locate
  locate_lem val c =
      let ascending : Ascends (entry sa) sa.nentry =
        Ascends-ext (key_at (λ x. x) xs) (entry sa) sa.nentry entry_key
          (rw h.count (IsSorted-Ascends (λ x. x) xs h.sorted)) in
      let found =
        locate-IsPosition (entry sa) sa.nentry sa.esize val ascending
          (grind (arith, h.fits, width_pos, h.count)) (entry_u32 c) in
      rw (← h.count) (
        IsPosition-ext (entry sa) (key_at (λ x. x) xs) sa.nentry val _
          (λ i lt. sym (entry_key i lt)) found)

  pub found_lem : (val : ℕ) → IsComparable sa xs → has_key (λ x. x) val xs ≡ (locate sa val).0
  found_lem val c = found_iff (λ x. x) val xs _ _ h.sorted (locate_lem val c)

  -- `sarray_value` gives the value at the index of the list that the array holds, and answers EOOB
  -- for an index past its end.
  pub value-eq-get_elem? :
      (i : ℕ)
      → value (some sa) i ≡ (elim (get_elem? xs i) [ none ↦ (eoob, none) | some v ↦ (ok, some v) ])
  unfolding value
  value-eq-get_elem? i = elim (dec_lt i (length xs)) [
    | yes lt ↦
        rw (entry_lem i h lt, h.count, gt→leb (length xs) i lt, get_elem?-eq-get_or xs i 0 lt)
    | no ge ↦ rw (h.count, le→leb (length xs) i (omega arith), get_elem?_past xs i (omega arith))
  ]

  -- What `sarray_index` answers.
  pub index-eq-has_key :
      (val : ℕ)
      → IsComparable sa xs
      → val < 256 ^ sa.esize
      → val < u64_mod
      → (idx : ℕ) × (index (some sa) val
          ≡ (if has_key (λ x. x) val xs then ok else enotfound, some idx))
        × (has_key (λ x. x) val xs ≡ true → get_elem? xs idx ≡ some val)
  unfolding index
  index-eq-has_key val c r r64 =
      let p = locate_lem val c in
      let known = found_lem val c in
      (
        (locate sa val).1,
        rw (validate_range_lem sa.esize val h.width r64, lt→ltb val (256 ^ sa.esize) r, known),
        λ has.
            let (inside, same) = p.hit (sym known ∙ has) in
            get_elem?-eq-get_or xs _ 0 inside
            ∙ ap some (sym (key_at-eq-get_or xs (locate sa val).1) ∙ same),
      )

  -- `sarray_index` of a value that the array has and that fits the width, in an array of comparable
  -- values, gives its position, where `sarray_value` reads it.
  pub index_found :
      (val : ℕ)
      → IsComparable sa xs
      → val < 256 ^ sa.esize
      → val < u64_mod
      → has_key (λ x. x) val xs ≡ true
      → (idx : ℕ) × (index (some sa) val ≡ (ok, some idx))
        × (get_elem? xs idx ≡ some val)
        × (value (some sa) idx ≡ (ok, some val))
  index_found val c r r64 has =
      let (idx, found, at) = index-eq-has_key val c r r64 in
      (idx, found ∙ rw has, at has, rw (value-eq-get_elem?, at has))

  -- A value that fits the width and that the list does not have is not found.
  pub index_absent :
      (val : ℕ)
      → IsComparable sa xs
      → val < 256 ^ sa.esize
      → val < u64_mod
      → has_key (λ x. x) val xs ≡ false
      → (index (some sa) val).0 ≡ enotfound
  index_absent val c r r64 new =
      let (idx, found, at) = index-eq-has_key val c r r64 in rw found (rw new)
