-- ===== src/Ziplist/Find.antt =====
-- `ziplist_find`, and the places of a value in a list.
use pelikan.Common.{
  ℕ, zero, suc, ◌+◌, ◌-◌, ◌≤◌, ◌<◌, ◌≡◌, ◌≢◌, refl, sym, ap, ◌∙◌, Bool, true, false, Option, none,
  some, inl, inr, arith, List, length, take, drop, get_or, ltb, Bool-cases, take-append-drop,
  ltb→lt,
}
use pelikan.Common.Memory.{Bytes}
use pelikan.Search.Layout.{body_of}
use pelikan.Blob.{Blob, invalid}
use pelikan.Ziplist.{Ziplist, ok, enotfound, encode_size, zipentry_len, nend}
use pelikan.Ziplist.Edit.{find_from, find}
use pelikan.Ziplist.Codec.{IsEntry, entry_bytes}
use pelikan.Ziplist.Lists.{
  span, offset, Lists, AllEntries-at, nentry_lem, nend_lem, zipentry_len-at, offset-suc, around,
  start,
}
use pelikan.Ziplist.Compare.{agrees, agrees_only, agrees_same, encoded_lem}
use pelikan.Ziplist.Grow.{IsEntry-refused, span-append}

-- The first place of a value from an index on.
abbrev pub FirstFrom : Blob → List Blob → ℕ → Option (ℕ × ℕ) → Type 0
FirstFrom v xs from none = (j : ℕ) → from ≤ j → j < length xs → get_or xs j invalid ≢ v
FirstFrom v xs from (some (z, k)) =
    (z ≡ offset xs k)
    × (from ≤ k)
    × (k < length xs)
    × (get_or xs k invalid ≡ v)
    × ((j : ℕ) → from ≤ j → j < k → get_or xs j invalid ≢ v)

pub FirstFrom-suc :
    (v : Blob) (xs : List Blob) (i : ℕ) (r : Option (ℕ × ℕ))
    → get_or xs i invalid ≢ v
    → FirstFrom v xs (suc i) r
    → FirstFrom v xs i r
FirstFrom-suc v xs i none other f = λ j le lt. elim (Bool-cases (ltb i j)) [
  | inl more ↦ f j (ltb→lt i j more) lt
  | inr same ↦ let e : j ≡ i = ground arith in rw e other
]
FirstFrom-suc v xs i (some (z, k)) other (hz, le, lt, at, before) = (
  hz,
  omega arith,
  lt,
  at,
  λ j le' lt'. elim (Bool-cases (ltb i j)) [
    | inl more ↦ before j (ltb→lt i j more) lt'
    | inr same ↦ let e : j ≡ i = ground arith in rw e other
  ],
)

pub no_both : (b : Bool) → b ≡ true → b ≡ false → ⊥
no_both b t f = ground arith

module _ {zl : Ziplist} {xs : List Blob} {rest : Bytes} (h : Lists zl xs rest) (v : Blob)
    (hv : IsEntry v) where
  room :
      (i : ℕ)
      → i < length xs
      → nend zl + 1 - offset xs i
        ≡ encode_size (get_or xs i invalid) + length (body_of entry_bytes (drop (suc i) xs))
  room i lt =
      let e : span xs ≡ span (take (suc i) xs) + span (drop (suc i) xs) =
        ap span (sym (take-append-drop (suc i) xs))
        ∙ span-append (take (suc i) xs) (drop (suc i) xs) in
      omega (arith, nend_lem h, offset-suc xs i h.valid lt, e)

  pub agrees_at :
      (i : ℕ)
      → i < length xs
      → agrees zl (entry_bytes v) (nend zl + 1 - offset xs i) (offset xs i) ≡ true
      → get_or xs i invalid ≡ v
  agrees_at i lt e =
      agrees_only _ _ rest (offset xs i) (nend zl + 1 - offset xs i) (get_or xs i invalid) v
        (start h i) (room i lt) (AllEntries-at xs i h.valid lt) hv
        (ap (λ t. agrees t (entry_bytes v) (nend zl + 1 - offset xs i) (offset xs i))
            (sym (around h i lt))
          ∙ e)

  pub agrees_back :
      (i : ℕ)
      → i < length xs
      → get_or xs i invalid ≡ v
      → agrees zl (entry_bytes v) (nend zl + 1 - offset xs i) (offset xs i) ≡ true
  agrees_back i lt e =
      ap (λ t. agrees t (entry_bytes v) (nend zl + 1 - offset xs i) (offset xs i)) (around h i lt)
      ∙ agrees_same _ _ rest (offset xs i) (nend zl + 1 - offset xs i) (get_or xs i invalid) v
          (start h i) (room i lt) (AllEntries-at xs i h.valid lt) hv e

  pub next_place :
      (i : ℕ) → i < length xs → offset xs i + zipentry_len zl (offset xs i) ≡ offset xs (suc i)
  next_place i lt = omega (arith, zipentry_len-at h i lt, offset-suc xs i h.valid lt)

  found_from :
      (left i : ℕ)
      → i + left ≡ length xs
      → FirstFrom v xs i (find_from zl (entry_bytes v) left i (offset xs i))
  unfolding find_from
  found_from zero i e = λ j le lt. absurd (omega arith)
  found_from (suc left) i e =
      elim (Bool-cases (agrees zl (entry_bytes v) (nend zl + 1 - offset xs i) (offset xs i))) [
        | inl same ↦ rw same (
          refl,
          omega arith,
          omega arith,
          agrees_at i (omega arith) same,
          λ j le lt. absurd (omega arith),
        )
        | inr other ↦
            rw (other, next_place i (omega arith), add_one i)
              (FirstFrom-suc v xs i _ (differs other) (found_from left (suc i) (omega arith)))
      ]
    where
      add_one : (i : ℕ) → i + 1 ≡ suc i
      add_one i = omega arith

      differs :
          agrees zl (entry_bytes v) (nend zl + 1 - offset xs i) (offset xs i) ≡ false
          → get_or xs i invalid ≢ v
      differs other same = no_both _ (agrees_back i (omega arith) same) other

  -- `ziplist_find` of a value that an entry can hold gives the first entry of the value and its
  -- index, or ENOTFOUND where the list does not have the value.
  pub find-FirstFrom :
      (r : Option (ℕ × ℕ)) × (find (some zl) v
        ≡ (elim r [ none ↦ (enotfound, none) | some p ↦ (ok, some p) ]))
      × FirstFrom v xs 0 r
  unfolding find
  find-FirstFrom = (
    find_from zl (entry_bytes v) (length xs) 0 8,
    rw (encoded_lem v hv, nentry_lem h, IsEntry-refused v hv) refl,
    found_from (length xs) 0 (omega arith),
  )
