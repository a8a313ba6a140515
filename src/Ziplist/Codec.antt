-- ===== src/Ziplist/Codec.antt =====
-- The bytes of an entry of a ziplist, and `_zipentry_encode`, which writes them.
use pelikan.Common.{
  ℕ, suc, ◌+◌, ◌-◌, ◌*◌, ◌≤◌, ◌<◌, ◌≡◌, sym, ap, ap₂, ◌∙◌, true, false, arith, [], ◌∷◌, ◌++◌,
  length, length-append, inl, inr, leb, Bool-cases, leb→le, if◌then◌else◌,
}
use pelikan.Common.Words.{u64_mod}
use pelikan.Common.Memory.{
  Bytes, le_bytes, splice, set_byte, length-le_bytes, splice-append, store_lem, set_byte_lem,
}
use pelikan.Common.Splice.{splice_merge}
use pelikan.Blob.{Blob, invalid, int, str}
use pelikan.Ziplist.{u16_max, u24_max, u56_max, encode_size, encode_value, zipentry_encode}

-- A value that an entry can hold: a `uint64_t`, or a text of at most 252 bytes.
abbrev pub IsEntry : Blob → Type 0
IsEntry invalid = ⊥
IsEntry (int v) = v < u64_mod
IsEntry (str s) = length s ≤ 252

-- The first byte: the encoding, or a small integer itself.
abbrev pub tag : Blob → ℕ
tag invalid = 0
tag (int v) =
    if leb v 250
    then v
    else if leb v u16_max
    then 251
    else if leb v u24_max
    then 252
    else if leb v u56_max
    then 253
    else 254
tag (str s) = 255

abbrev pub data_bytes : Blob → Bytes
data_bytes invalid = []
data_bytes (int v) =
    if leb v 250
    then []
    else if leb v u16_max
    then le_bytes 2 v
    else if leb v u24_max
    then le_bytes 3 v
    else if leb v u56_max
    then le_bytes 7 v
    else le_bytes 8 v
data_bytes (str s) = length s ∷ s

-- The encoding and the data, and the length at the end.
abbrev pub value_bytes : Blob → Bytes
value_bytes x = tag x ∷ data_bytes x

abbrev pub entry_bytes : Blob → Bytes
entry_bytes x = value_bytes x ++ (encode_size x ∷ [])

pub length-value_bytes : (x : Blob) → IsEntry x → suc (length (value_bytes x)) ≡ encode_size x
unfolding encode_size
length-value_bytes invalid h = absurd h
length-value_bytes (int v) h =
    ground
      (arith, length-le_bytes 2 v, length-le_bytes 3 v, length-le_bytes 7 v, length-le_bytes 8 v)
length-value_bytes (str s) h = omega arith

pub length-entry_bytes : (x : Blob) → IsEntry x → length (entry_bytes x) ≡ encode_size x
length-entry_bytes x h =
    omega (arith, length-append (value_bytes x) (encode_size x ∷ []), length-value_bytes x h)

pub encode_size_bounds : (x : Blob) → IsEntry x → (2 ≤ encode_size x) × (encode_size x ≤ 255)
unfolding encode_size
encode_size_bounds invalid h = absurd h
encode_size_bounds (int v) h = ground arith
encode_size_bounds (str s) h = omega arith

encode_size_short : (v : ℕ) → leb v 250 ≡ false → leb v u16_max ≡ true → encode_size (int v) ≡ 4
unfolding encode_size
encode_size_short v a b = rw (a, b)

encode_size_long :
    (v : ℕ)
    → leb v 250 ≡ false
    → leb v u16_max ≡ false
    → leb v u24_max ≡ false
    → leb v u56_max ≡ false
    → encode_size (int v) ≡ 10
unfolding encode_size
encode_size_long v a b c d = rw (a, b, c, d)

encode_size_str : (s : Bytes) → length s ≤ 252 → encode_size (str s) ≡ 3 + length s
unfolding encode_size
encode_size_str s h = omega arith

le_bytes_head : (n v c : ℕ) → c < 256 → le_bytes (suc n) (v * 256 + c) ≡ c ∷ le_bytes n v
unfolding le_bytes
le_bytes_head n v c h = ap₂ (λ a b. a ∷ le_bytes n b) (omega arith) (omega arith)

module _ (P S R : Bytes) (ze : ℕ) (hp : ze ≡ length P) where
  -- An encoding byte, and the data behind it.
  tagged :
      (b : ℕ) (V : Bytes)
      → b < 256
      → suc (length V) ≤ length S
      → splice (ze + 1) V (set_byte ze b (P ++ (S ++ R))) ≡ splice ze (b ∷ V) (P ++ (S ++ R))
  tagged b V hb room =
      rw (set_byte_lem ze b (P ++ (S ++ R)) hb)
        (splice_merge P S R (b ∷ []) V ze (ze + 1) hp (omega arith) (omega arith))

  -- The value, written over a place that is large enough.
  encode_value_lem :
      (x : Blob)
      → IsEntry x
      → encode_size x ≤ length S
      → encode_value ze x (P ++ (S ++ R)) ≡ splice ze (value_bytes x) (P ++ (S ++ R))
  unfolding encode_value
  encode_value_lem invalid h room = absurd h
  encode_value_lem (int v) h room = elim (Bool-cases (leb v 250)) [
    | inl small ↦ rw small (set_byte_lem ze v _ (omega (arith, leb→le v 250 small)))
    | inr more ↦ elim (Bool-cases (leb v u16_max)) [
      | inl short ↦
          rw (more, short, store_lem)
            (tagged 251 (le_bytes 2 v) (omega arith)
              (omega (arith, encode_size_short v more short, length-le_bytes 2 v)))
      | inr more2 ↦ elim (Bool-cases (leb v u24_max)) [
        | inl three ↦ rw (more, more2, three, store_lem, le_bytes_head 3 v 252 (omega arith))
        | inr more3 ↦ elim (Bool-cases (leb v u56_max)) [
          | inl seven ↦
              rw (more, more2, more3, seven, store_lem, le_bytes_head 7 v 253 (omega arith))
          | inr more4 ↦
              rw (more, more2, more3, more4, store_lem)
                (tagged 254 (le_bytes 8 v) (omega arith)
                  (omega (arith, encode_size_long v more more2 more3 more4, length-le_bytes 8 v)))
        ]
      ]
    ]
  ]
  encode_value_lem (str s) h room = rw (set_byte_lem (ze + 1) (length s) _ (omega arith)) (
      ap (splice (ze + 2) s)
        (tagged 255 (length s ∷ []) (omega arith) (omega (arith, encode_size_str s h)))
      ∙ splice_merge P S R (255 ∷ (length s ∷ [])) s ze (ze + 2) hp (omega arith)
          (omega (arith, encode_size_str s h)))

  -- The encoder writes exactly the bytes of the entry.
  pub zipentry_encode_lem :
      (x : Blob)
      → IsEntry x
      → length S ≡ encode_size x
      → zipentry_encode ze x (P ++ (S ++ R)) ≡ P ++ (entry_bytes x ++ R)
  unfolding zipentry_encode
  zipentry_encode_lem x h size = rw (encode_value_lem x h (omega arith)) (
      set_byte_lem (ze + encode_size x - 1) (encode_size x) _
        (omega (arith, encode_size_bounds x h))
      ∙ splice_merge P S R (value_bytes x) (encode_size x ∷ []) ze (ze + encode_size x - 1) hp
          (omega (arith, length-value_bytes x h)) (omega (arith, length-value_bytes x h))
      ∙ splice-append P S R (entry_bytes x) ze hp (length-entry_bytes x h ∙ sym size))
