-- ===== src/Smap/Lookup.antt =====
-- `smap_keyval` and `smap_index`, and the list of entries that the map holds.
use pelikan.Common.{
  ℕ, zero, suc, ◌^◌, ◌<◌, ◌≡◌, ◌⊎◌, inl, inr, refl, sym, ◌∙◌, true, false, Option, none, some,
  arith, List, [], ◌∷◌, length, get_or, get_elem?, get_elem?-eq-get_or, get_elem?_past, ◌==◌, ltb,
  ==_iff, le→leb, gt→leb, lt→ltb, if◌then◌else◌,
}
use native.Mathlib.Decide.{dec_lt}
use pelikan.Common.Words.{IsWidth, u32_mod, u64_mod}
use pelikan.Common.Memory.{Bytes}
use pelikan.Search.Sorted.{key_at, has_key, IsSorted-Ascends, found_iff, IsPosition-tail}
use pelikan.Search.Position.{IsPosition, Ascends, IsPosition-ext, Ascends-ext}
use pelikan.Search.Locate.{locate-IsPosition}
use pelikan.Search.{should_scan}
use pelikan.Smap.{Smap, ok, enotfound, eoob, esize, key_of, locate, validate_range, keyval, index}
use pelikan.Smap.Maps.{
  Entry, key, no_entry, Maps, AllShaped-at, key_at-eq-get_or, key_of_lem, value_lem, esize_pos,
}

-- The value of a key.
abbrev pub lookup : ℕ → List Entry → Option Bytes
lookup k [] = none
lookup k (x ∷ xs) = if x.key == k then some x.val else lookup k xs

abbrev pub KeysBelow : ℕ → List Entry → Type 0
KeysBelow b [] = Unit
KeysBelow b (x ∷ xs) = (x.key < b) × KeysBelow b xs

-- The binary search compares the low 32 bits of a key: of a map that it searches, the 8-byte keys
-- are below 2^32.
abbrev pub IsComparable : Smap → List Entry → Type 0
IsComparable sm xs = should_scan sm.nentry (esize sm) ≡ false → sm.ksize ≡ 8 → KeysBelow u32_mod xs

KeysBelow-at :
    (b i : ℕ) (xs : List Entry) → KeysBelow b xs → i < length xs → (get_or xs i no_entry).key < b
KeysBelow-at b i [] h lt = absurd (omega arith)
KeysBelow-at b zero (x ∷ xs) h lt = h.0
KeysBelow-at b (suc i) (x ∷ xs) h lt = KeysBelow-at b i xs h.1 (omega arith)

-- The range test of a `uint64_t` is whether the key fits the width.
pub validate_range_lem : (k v : ℕ) → IsWidth k → v < u64_mod → validate_range k v ≡ ltb v (256 ^ k)
unfolding validate_range
validate_range_lem k v (inl w) h = rw w (ground arith)
validate_range_lem k v (inr (inl w)) h = rw w (ground arith)
validate_range_lem k v (inr (inr (inl w))) h = rw w (ground arith)
validate_range_lem k v (inr (inr (inr w))) h = rw w (ground arith)

pow-le_u32 : (k v : ℕ) → IsWidth k → v < 256 ^ k → (k ≡ 8) ⊎ (v < u32_mod)
pow-le_u32 k v (inl w) h = inr (let h' : v < 256 ^ 1 = rw w at h in omega arith)
pow-le_u32 k v (inr (inl w)) h = inr (let h' : v < 256 ^ 2 = rw w at h in omega arith)
pow-le_u32 k v (inr (inr (inl w))) h = inr (let h' : v < 256 ^ 4 = rw w at h in omega arith)
pow-le_u32 k v (inr (inr (inr w))) h = inl w

-- The entry at the position of a key that is found has the value of the key.
pub lookup_at :
    (v : ℕ) (xs : List Entry) (k : ℕ)
    → IsPosition (key_at key xs) (length xs) v (true, k)
    → lookup v xs ≡ some (get_or xs k no_entry).val
lookup_at v [] k p = absurd (omega (arith, (p.hit refl).0))
lookup_at v (x ∷ xs) zero p = rw ((==_iff x.key v).1 (p.hit refl).1)
lookup_at v (x ∷ xs) (suc k) p =
    rw (differs (p.below 0 (omega arith))) (lookup_at v xs k (IsPosition-tail key x xs v k true p))
  where
    differs : x.key < v → (x.key == v) ≡ false
    differs h = ground arith

module _ {sm : Smap} {xs : List Entry} {rest : Bytes} (h : Maps sm xs rest) where
  entry_key : (i : ℕ) → i < sm.nentry → key_at key xs i ≡ key_of sm i
  entry_key i lt =
      key_at-eq-get_or xs i (omega (arith, h.count)) ∙ sym (key_of_lem h i (omega (arith, h.count)))

  entry_u32 :
      IsComparable sm xs
      → (i : ℕ) → should_scan sm.nentry (esize sm) ≡ false
      → i < sm.nentry
      → key_of sm i < u32_mod
  entry_u32 c i halve lt =
      let inside : i < length xs = omega (arith, h.count) in
      let at = key_of_lem h i inside in
      elim (pow-le_u32 sm.ksize (get_or xs i no_entry).key h.width
        (AllShaped-at sm.ksize sm.vsize i xs h.shaped inside).0) [
          | inl wide ↦ omega (arith, at, KeysBelow-at u32_mod i xs (c halve wide) inside)
          | inr small ↦ omega (arith, at, small)
        ]

  -- The search of the map finds the position in the list.
  pub locate_lem :
      (k : ℕ) → IsComparable sm xs → IsPosition (key_at key xs) (length xs) k (locate sm k)
  unfolding locate
  locate_lem k c =
      let ascending : Ascends (key_of sm) sm.nentry =
        Ascends-ext (key_at key xs) (key_of sm) sm.nentry entry_key
          (rw h.count (IsSorted-Ascends key xs h.sorted)) in
      let found =
        locate-IsPosition (key_of sm) sm.nentry (esize sm) k ascending
          (grind (arith, h.fits, esize_pos h, h.count)) (entry_u32 c) in
      rw (← h.count) (
        IsPosition-ext (key_of sm) (key_at key xs) sm.nentry k _ (λ i lt. sym (entry_key i lt))
          found)

  pub found_lem : (k : ℕ) → IsComparable sm xs → has_key key k xs ≡ (locate sm k).0
  found_lem k c = found_iff key k xs _ _ h.sorted (locate_lem k c)

  -- `smap_keyval` gives the key and the value at the index of the list that the map holds, and
  -- answers EOOB for an index past its end.
  pub keyval-eq-get_elem? :
      (i : ℕ)
      → keyval (some sm) i
        ≡ (elim (get_elem? xs i) [ none ↦ (eoob, none) | some x ↦ (ok, some (x.key, x.val)) ])
  unfolding keyval key_of
  keyval-eq-get_elem? i = elim (dec_lt i (length xs)) [
    | yes lt ↦ rw (
      value_lem h i lt,
      key_of_lem h i lt,
      h.count,
      gt→leb (length xs) i lt,
      get_elem?-eq-get_or xs i no_entry lt,
    )
    | no ge ↦ rw (h.count, le→leb (length xs) i (omega arith), get_elem?_past xs i (omega arith))
  ]

  -- What `smap_index` answers.
  pub index-eq-lookup :
      (k : ℕ)
      → IsComparable sm xs
      → k < 256 ^ sm.ksize
      → k < u64_mod
      → (idx : ℕ) × (index (some sm) k ≡ (if has_key key k xs then ok else enotfound, some idx))
        × (has_key key k xs ≡ true
            → (v : Bytes) × (lookup k xs ≡ some v) × (keyval (some sm) idx ≡ (ok, some (k, v))))
  unfolding index
  index-eq-lookup k c r r64 =
      let known = found_lem k c in
      let pos : IsPosition (key_at key xs) (length xs) k ((locate sm k).0, (locate sm k).1) =
        locate_lem k c in
      (
        (locate sm k).1,
        rw (validate_range_lem sm.ksize k h.width r64, lt→ltb k (256 ^ sm.ksize) r, known),
        λ has.
            let at : IsPosition (key_at key xs) (length xs) k (true, (locate sm k).1) =
              rw (sym known ∙ has) at pos in
            let (inside, same) = at.hit refl in
            (
              (get_or xs (locate sm k).1 no_entry).val,
              lookup_at k xs (locate sm k).1 at,
              rw (
                keyval-eq-get_elem?,
                get_elem?-eq-get_or xs (locate sm k).1 no_entry inside,
                ← key_at-eq-get_or xs (locate sm k).1 inside,
                same,
              ),
            ),
      )

  -- `smap_index` of a key that the map has and that fits the width, in a map of comparable keys,
  -- gives a position where `smap_keyval` returns the key and its value.
  pub index_known :
      (k : ℕ)
      → IsComparable sm xs
      → k < 256 ^ sm.ksize
      → k < u64_mod
      → has_key key k xs ≡ true
      → (idx : ℕ) × (v : Bytes) × (index (some sm) k ≡ (ok, some idx))
        × (lookup k xs ≡ some v)
        × (keyval (some sm) idx ≡ (ok, some (k, v)))
  index_known k c r r64 has =
      let (idx, found, at) = index-eq-lookup k c r r64 in
      let (v, held, read) = at has in (idx, v, found ∙ rw has, held, read)

  -- `smap_index` of a key that the map does not have and that fits the width, in a map of
  -- comparable keys, answers ENOTFOUND.
  pub index_unknown :
      (k : ℕ)
      → IsComparable sm xs
      → k < 256 ^ sm.ksize
      → k < u64_mod
      → has_key key k xs ≡ false
      → (index (some sm) k).0 ≡ enotfound
  index_unknown k c r r64 new =
      let (idx, found, at) = index-eq-lookup k c r r64 in rw found (rw new)
