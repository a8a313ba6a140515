-- ===== src/Ziplist/Lists.antt =====
-- When a ziplist holds a list of values, and where its entries are.
use pelikan.Common.{
  ℕ, zero, suc, ◌+◌, ◌*◌, ◌^◌, ◌≤◌, ◌<◌, ◌≡◌, refl, sym, ap, ◌∙◌, some, arith, List, [], ◌∷◌, ◌++◌,
  append_assoc, length, length-append, take, drop, get_or,
}
use pelikan.Common.Memory.{
  Bytes, le_bytes, load, byte, length-le_bytes, le_value-le_bytes, slice-append, splice-append,
  store_lem,
}
use pelikan.Search.Layout.{body_of, body_of-at}
use pelikan.Blob.{Blob, invalid}
use pelikan.Ziplist.{
  Ziplist, nentry, nend, set_nentry, set_nend, encode_size, zipentry_len, zipentry_get, ok,
}
use pelikan.Ziplist.Codec.{IsEntry, entry_bytes, encode_size_bounds, length-entry_bytes}
use pelikan.Ziplist.Decode.{zipentry_len_lem, zipentry_get_lem, last_byte}

abbrev pub AllEntries : List Blob → Type 0
AllEntries [] = Unit
AllEntries (x ∷ xs) = IsEntry x × AllEntries xs

abbrev pub header : ℕ → ℕ → Bytes
header n end = le_bytes 4 n ++ le_bytes 4 end

-- The bytes that the entries take.
abbrev pub span : List Blob → ℕ
span xs = length (body_of entry_bytes xs)

-- Where the entry at an index starts; at the length of the list, where the next would.
abbrev pub offset : List Blob → ℕ → ℕ
offset xs i = 8 + span (take i xs)

-- The memory is the header, the entries, and then `rest`.
pub record Lists (zl : Ziplist) (xs : List Blob) (rest : Bytes) : Type 0 where
  pub memory : zl ≡ header (length xs) (7 + span xs) ++ (body_of entry_bytes xs ++ rest)
  pub valid : AllEntries xs
  pub fits : 8 + span xs < 2 ^ 32

pub length-header : (n end : ℕ) → length (header n end) ≡ 8
length-header n end = omega (
  arith,
  length-append (le_bytes 4 n) (le_bytes 4 end),
  length-le_bytes 4 n,
  length-le_bytes 4 end,
)

module _ (n end : ℕ) (X : Bytes) where
  pub nentry-header : n < 2 ^ 32 → nentry (header n end ++ X) ≡ n
  unfolding nentry load
  nentry-header h = rw append_assoc (
      rw (slice-append [] (le_bytes 4 n) (le_bytes 4 end ++ X) 0 4 refl (sym (length-le_bytes 4 n)))
        (le_value-le_bytes 4 n (omega arith)))

  pub nend-header : end < 2 ^ 32 → nend (header n end ++ X) ≡ end
  unfolding nend load
  nend-header h = rw append_assoc (
      rw
        (slice-append (le_bytes 4 n) (le_bytes 4 end) X 4 4 (sym (length-le_bytes 4 n))
          (sym (length-le_bytes 4 end)))
        (le_value-le_bytes 4 end (omega arith)))

  pub set_nentry-header : (k : ℕ) → set_nentry k (header n end ++ X) ≡ header k end ++ X
  unfolding set_nentry
  set_nentry-header k =
      rw (append_assoc, store_lem)
        (splice-append [] (le_bytes 4 n) (le_bytes 4 end ++ X) (le_bytes 4 k) 0 refl
            (length-le_bytes 4 k ∙ sym (length-le_bytes 4 n))
          ∙ sym (append_assoc (le_bytes 4 k) (le_bytes 4 end) X))

  pub set_nend-header : (k : ℕ) → set_nend k (header n end ++ X) ≡ header n k ++ X
  unfolding set_nend
  set_nend-header k =
      rw (append_assoc, store_lem)
        (splice-append (le_bytes 4 n) (le_bytes 4 end) X (le_bytes 4 k) 4
            (sym (length-le_bytes 4 n)) (length-le_bytes 4 k ∙ sym (length-le_bytes 4 end))
          ∙ sym (append_assoc (le_bytes 4 n) (le_bytes 4 k) X))

pub AllEntries-at :
    (xs : List Blob) (i : ℕ) → AllEntries xs → i < length xs → IsEntry (get_or xs i invalid)
AllEntries-at [] i h lt = absurd (omega arith)
AllEntries-at (x ∷ xs) zero h lt = h.0
AllEntries-at (x ∷ xs) (suc i) h lt = AllEntries-at xs i h.1 (omega arith)

-- An entry takes two bytes at least.
pub length-le-span : (xs : List Blob) → AllEntries xs → 2 * length xs ≤ span xs
length-le-span [] h = omega arith
length-le-span (x ∷ xs) h = omega (
  arith,
  length-append (entry_bytes x) (body_of entry_bytes xs),
  length-entry_bytes x h.0,
  encode_size_bounds x h.0,
  length-le-span xs h.1,
)

-- The next entry starts where this one ends.
pub offset-suc :
    (xs : List Blob) (i : ℕ)
    → AllEntries xs
    → i < length xs
    → offset xs (suc i) ≡ offset xs i + encode_size (get_or xs i invalid)
offset-suc [] i h lt = absurd (omega arith)
offset-suc (x ∷ xs) zero h lt =
    omega (arith, length-append (entry_bytes x) [], length-entry_bytes x h.0)
offset-suc (x ∷ xs) (suc i) h lt = omega (
  arith,
  length-append (entry_bytes x) (body_of entry_bytes (take (suc i) xs)),
  length-append (entry_bytes x) (body_of entry_bytes (take i xs)),
  offset-suc xs i h.1 (omega arith),
)

pub offset_all : (xs : List Blob) → offset xs (length xs) ≡ 8 + span xs
offset_all [] = refl
offset_all (x ∷ xs) = omega (
  arith,
  length-append (entry_bytes x) (body_of entry_bytes (take (length xs) xs)),
  length-append (entry_bytes x) (body_of entry_bytes xs),
  offset_all xs,
)

module _ {zl : Ziplist} {xs : List Blob} {rest : Bytes} (h : Lists zl xs rest) where
  pub nentry_lem : nentry zl ≡ length xs
  nentry_lem =
      rw h.memory (nentry-header (length xs) _ _ (omega (arith, h.fits, length-le-span xs h.valid)))

  pub nend_lem : nend zl ≡ 7 + span xs
  nend_lem = rw h.memory (nend-header (length xs) _ _ (omega (arith, h.fits)))

  -- The memory around the entry at an index.
  pub around :
      (i : ℕ)
      → i < length xs
      → zl
        ≡ (header (length xs) (7 + span xs) ++ body_of entry_bytes (take i xs))
          ++ (entry_bytes (get_or xs i invalid) ++ (body_of entry_bytes (drop (suc i) xs) ++ rest))
  around i lt =
      h.memory
      ∙ ap (λ t. header (length xs) (7 + span xs) ++ t)
          (body_of-at entry_bytes i xs invalid rest lt)
      ∙ sym (append_assoc (header (length xs) (7 + span xs)) (body_of entry_bytes (take i xs)) _)

  pub start :
      (i : ℕ)
      → offset xs i ≡ length (header (length xs) (7 + span xs) ++ body_of entry_bytes (take i xs))
  start i = omega (
    arith,
    length-append (header (length xs) (7 + span xs)) (body_of entry_bytes (take i xs)),
    length-header (length xs) (7 + span xs),
  )

  pub zipentry_len-at :
      (i : ℕ) → i < length xs → zipentry_len zl (offset xs i) ≡ encode_size (get_or xs i invalid)
  zipentry_len-at i lt =
      ap (λ t. zipentry_len t (offset xs i)) (around i lt)
      ∙ zipentry_len_lem _ _ (offset xs i) (start i) (get_or xs i invalid)
          (AllEntries-at xs i h.valid lt)

  -- The entry at an index is decoded to the value there.
  pub zipentry_get-at :
      (i : ℕ) → i < length xs → zipentry_get zl (some (offset xs i)) ≡ (ok, get_or xs i invalid)
  zipentry_get-at i lt =
      ap (λ t. zipentry_get t (some (offset xs i))) (around i lt)
      ∙ zipentry_get_lem _ _ (offset xs i) (start i) (get_or xs i invalid)
          (AllEntries-at xs i h.valid lt)

  pub byte-before :
      (i q : ℕ)
      → i < length xs
      → suc q ≡ offset xs (suc i)
      → byte q zl ≡ encode_size (get_or xs i invalid)
  byte-before i q lt e =
      ap (byte q) (around i lt)
      ∙ last_byte _ _ (offset xs i) (start i) (get_or xs i invalid) q
          (AllEntries-at xs i h.valid lt) (e ∙ offset-suc xs i h.valid lt)
