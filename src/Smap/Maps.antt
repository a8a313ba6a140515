-- ===== src/Smap/Maps.antt =====
-- When a sorted map holds a list of entries, and how their keys are then read.
use pelikan.Common.{
  ℕ, zero, suc, ◌+◌, ◌*◌, ◌^◌, ◌%◌, ◌≤◌, ◌<◌, ◌≡◌, inl, inr, refl, sym, ap, ◌∙◌, arith, List, [],
  ◌∷◌, ◌++◌, append_assoc, length, length-append, take, drop, get_or,
}
use pelikan.Common.Words.{IsWidth, mul32_exact}
use pelikan.Common.Memory.{
  Bytes, slice, load, le_bytes, length-le_bytes, le_value-le_bytes, slice-append,
}
use pelikan.Search.Layout.{body_of, Sized, body_of-at, length-body_of-take}
use pelikan.Search.Sorted.{IsSorted, key_at}
use pelikan.Smap.{Smap, get_key, position, key_of, esize, entry_size}

-- An entry is its key, its value and the bytes that pad it to the alignment of the key.
pub record Entry : Type 0 where
  pub key : ℕ
  pub val : Bytes
  pub pad : Bytes

abbrev pub key : Entry → ℕ
key x = x.key

abbrev pub encode : ℕ → Entry → Bytes
encode ksize x = le_bytes ksize x.key ++ (x.val ++ x.pad)

abbrev pub no_entry : Entry
no_entry = record { key = 0; val = []; pad = [] }

-- The keys fit their width, the values have their size, and the padding fills the entry.
abbrev pub AllShaped : ℕ → ℕ → List Entry → Type 0
AllShaped k v [] = Unit
AllShaped k v (x ∷ xs) =
    (x.key < 256 ^ k)
    × (length x.val ≡ v)
    × (k + v + length x.pad ≡ entry_size k v)
    × AllShaped k v xs

-- The body is the entries in ascending order of their keys, and then `rest`.
pub record Maps (sm : Smap) (xs : List Entry) (rest : Bytes) : Type 0 where
  pub entries : sm.body ≡ body_of (encode sm.ksize) xs ++ rest
  pub count : sm.nentry ≡ length xs
  pub width : IsWidth sm.ksize
  pub sorted : IsSorted key xs
  pub shaped : AllShaped sm.ksize sm.vsize xs
  pub fits : esize sm * length xs < 2 ^ 31

-- For keys of 1, 2, 4 or 8 bytes, the size of an entry is large enough for key and value, is a
-- multiple of the size of the key, and is the least such.
pub entry_size_bounds :
    (k v : ℕ)
    → IsWidth k
    → (k + v ≤ entry_size k v) × (entry_size k v < k + v + k) × (entry_size k v % k ≡ 0)
unfolding entry_size
entry_size_bounds k v (inl w) = rw w (omega arith)
entry_size_bounds k v (inr (inl w)) = rw w (omega arith)
entry_size_bounds k v (inr (inr (inl w))) = rw w (omega arith)
entry_size_bounds k v (inr (inr (inr w))) = rw w (omega arith)

pub length-encode :
    (k v : ℕ) (x : Entry)
    → length x.val ≡ v
    → k + v + length x.pad ≡ entry_size k v
    → length (encode k x) ≡ entry_size k v
length-encode k v x hv hp = omega (
  arith,
  length-append (le_bytes k x.key) (x.val ++ x.pad),
  length-append x.val x.pad,
  length-le_bytes k x.key,
)

pub AllShaped-Sized :
    (k v : ℕ) (xs : List Entry) → AllShaped k v xs → Sized (encode k) (entry_size k v) xs
AllShaped-Sized k v [] h = tt
AllShaped-Sized k v (x ∷ xs) h = (length-encode k v x h.1 h.2, AllShaped-Sized k v xs h.3)

pub AllShaped-at :
    (k v i : ℕ) (xs : List Entry)
    → AllShaped k v xs
    → i < length xs
    → ((get_or xs i no_entry).key < 256 ^ k) × (length (get_or xs i no_entry).val ≡ v)
AllShaped-at k v i [] h lt = absurd (omega arith)
AllShaped-at k v zero (x ∷ xs) h lt = (h.0, h.1)
AllShaped-at k v (suc i) (x ∷ xs) h lt = AllShaped-at k v i xs h.3 (omega arith)

pub key_at-eq-get_or :
    (xs : List Entry) (i : ℕ) → i < length xs → key_at key xs i ≡ (get_or xs i no_entry).key
key_at-eq-get_or [] i lt = absurd (omega arith)
key_at-eq-get_or (x ∷ xs) zero lt = refl
key_at-eq-get_or (x ∷ xs) (suc i) lt = key_at-eq-get_or xs i (omega arith)

get_key-load : (p k : ℕ) (body : Bytes) → IsWidth k → get_key p k body ≡ load k p body
unfolding get_key
get_key-load p k body (inl w) = rw w
get_key-load p k body (inr (inl w)) = rw w
get_key-load p k body (inr (inr (inl w))) = rw w
get_key-load p k body (inr (inr (inr w))) = rw w

get_key_lem :
    (p k x : ℕ) (body : Bytes)
    → IsWidth k
    → x < 256 ^ k
    → slice p k body ≡ le_bytes k x
    → get_key p k body ≡ x
get_key_lem p k x body w h s = get_key-load p k body w ∙ load_eq
  where
    load_eq : load k p body ≡ x
    load_eq = unfold load in rw s (le_value-le_bytes k x h)

module _ {sm : Smap} {xs : List Entry} {rest : Bytes} (h : Maps sm xs rest) where
  pub esize_pos : 1 ≤ esize sm
  esize_pos = ground (arith, entry_size_bounds sm.ksize sm.vsize h.width, h.width)

  pub sized : Sized (encode sm.ksize) (esize sm) xs
  sized = AllShaped-Sized sm.ksize sm.vsize xs h.shaped

  pub position_lem : (i : ℕ) → i ≤ length xs → position (esize sm) i ≡ esize sm * i
  unfolding position
  position_lem i le = mul32_exact (esize sm) i (grind (arith, h.fits))

  -- The body around the entry at an index.
  around :
      (i : ℕ)
      → i < length xs
      → let x = get_or xs i no_entry in
        sm.body
        ≡ body_of (encode sm.ksize) (take i xs)
          ++ (le_bytes sm.ksize x.key
              ++ (x.val ++ (x.pad ++ (body_of (encode sm.ksize) (drop (suc i) xs) ++ rest))))
  around i lt =
      let x = get_or xs i no_entry in
      h.entries
      ∙ body_of-at (encode sm.ksize) i xs no_entry rest lt
      ∙ ap (λ t. body_of (encode sm.ksize) (take i xs) ++ t)
          (append_assoc (le_bytes sm.ksize x.key) (x.val ++ x.pad) _
            ∙ ap (λ t. le_bytes sm.ksize x.key ++ t) (append_assoc x.val x.pad _))

  pub key_of_lem : (i : ℕ) → i < length xs → key_of sm i ≡ (get_or xs i no_entry).key
  unfolding key_of
  key_of_lem i lt =
      let x = get_or xs i no_entry in
      get_key_lem (position (esize sm) i) sm.ksize x.key sm.body h.width
        (AllShaped-at sm.ksize sm.vsize i xs h.shaped lt).0
        (rw (position_lem i (omega arith), around i lt)
          (slice-append (body_of (encode sm.ksize) (take i xs)) (le_bytes sm.ksize x.key) _ _ _
            (length-body_of-take (encode sm.ksize) (esize sm) i xs sized (omega arith))
            (sym (length-le_bytes sm.ksize x.key))))

  pub value_lem :
      (i : ℕ)
      → i < length xs
      → slice (position (esize sm) i + sm.ksize) sm.vsize sm.body ≡ (get_or xs i no_entry).val
  value_lem i lt =
      let x = get_or xs i no_entry in
      rw (position_lem i (omega arith), around i lt, ← append_assoc)
        (slice-append (body_of (encode sm.ksize) (take i xs) ++ le_bytes sm.ksize x.key) x.val _ _ _
          (omega (
            arith,
            length-append (body_of (encode sm.ksize) (take i xs)) (le_bytes sm.ksize x.key),
            length-body_of-take (encode sm.ksize) (esize sm) i xs sized (omega arith),
            length-le_bytes sm.ksize x.key,
          ))
          (sym (AllShaped-at sm.ksize sm.vsize i xs h.shaped lt).1))
