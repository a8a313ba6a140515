-- ===== src/Ziplist/Decode.antt =====
-- `_zipentry_len` and `zipentry_get` on the bytes of an entry.
use pelikan.Common.{
  ℕ, suc, ◌+◌, ◌*◌, ◌/◌, ◌^◌, ◌<◌, ◌≡◌, refl, sym, ap, ◌∙◌, false, some, arith, [], ◌∷◌, ◌++◌,
  append_assoc, length, length-append, inl, inr, leb, ◌==◌, Bool-cases, leb→le,
}
use pelikan.Common.Words.{u64_mod}
use pelikan.Common.Memory.{
  Bytes, le_bytes, le_value, load, slice, byte, length-le_bytes, le_value-le_bytes, slice-append,
  byte-append, byte_behind, le_value_cons,
}
use pelikan.Blob.{Blob, invalid, int, str}
use pelikan.Ziplist.{
  ok, u16_max, u24_max, u56_max, encode_size, zipentry_len, zipentry_int, zipentry_str,
  zipentry_get,
}
use pelikan.Ziplist.Codec.{IsEntry, tag, value_bytes, entry_bytes, length-value_bytes}

module _ (P R : Bytes) (ze : ℕ) (hp : ze ≡ length P) where
  pub first_byte : (x : Blob) → byte ze (P ++ (entry_bytes x ++ R)) ≡ tag x
  first_byte x = byte-append P _ (tag x) ze hp

  second_byte : (s : Bytes) → byte (ze + 1) (P ++ (entry_bytes (str s) ++ R)) ≡ length s
  second_byte s = byte_behind P _ 255 (length s) (ze + 1) (omega arith)

  -- The bytes tell the size of the entry.
  pub zipentry_len_lem :
      (x : Blob) → IsEntry x → zipentry_len (P ++ (entry_bytes x ++ R)) ze ≡ encode_size x
  unfolding zipentry_len encode_size
  zipentry_len_lem invalid h = absurd h
  zipentry_len_lem (int v) h = rw (first_byte (int v)) (ground arith)
  zipentry_len_lem (str s) h = rw (first_byte (str s), second_byte s)

  -- Data of `n` bytes behind the first, and the first `n + 1` bytes.
  load_behind :
      (b n v : ℕ) (E : Bytes) → v < 256 ^ n → load n (ze + 1) (P ++ (b ∷ (le_bytes n v ++ E))) ≡ v
  unfolding load
  load_behind b n v E h =
      ap le_value (
        ap (slice (ze + 1) n) (sym (append_assoc P (b ∷ []) (le_bytes n v ++ E)))
        ∙ slice-append (P ++ (b ∷ [])) (le_bytes n v) E (ze + 1) n
            (omega (arith, length-append P (b ∷ []))) (sym (length-le_bytes n v)))
      ∙ le_value-le_bytes n v h

  load_whole :
      (b n v : ℕ) (E : Bytes)
      → v < 256 ^ n
      → load (suc n) ze (P ++ (b ∷ (le_bytes n v ++ E))) ≡ b + 256 * v
  unfolding load
  load_whole b n v E h =
      ap le_value
        (slice-append P (b ∷ le_bytes n v) E ze (suc n) hp (ap suc (sym (length-le_bytes n v))))
      ∙ le_value_cons b (le_bytes n v)
      ∙ ap (λ (k : ℕ). b + 256 * k) (le_value-le_bytes n v h)

  shifted : (b v : ℕ) → b < 256 → (b + 256 * v) / 256 ≡ v
  shifted b v h = omega arith

  zipentry_int_lem : (v : ℕ) → v < u64_mod → zipentry_int (P ++ (entry_bytes (int v) ++ R)) ze ≡ v
  unfolding zipentry_int
  zipentry_int_lem v h = elim (Bool-cases (leb v 250)) [
    | inl small ↦ rw (first_byte (int v), small, small)
    | inr more ↦ elim (Bool-cases (leb v u16_max)) [
      | inl short ↦
          rw (first_byte (int v), more, short, append_assoc)
            (load_behind 251 2 v _ (omega (arith, leb→le v u16_max short)))
      | inr more2 ↦ elim (Bool-cases (leb v u24_max)) [
        | inl three ↦
            rw (first_byte (int v), more, more2, three, append_assoc)
              (ap {A = ℕ} (λ k. k / 256)
                  (load_whole 252 3 v _ (omega (arith, leb→le v u24_max three)))
                ∙ shifted 252 v (omega arith))
        | inr more3 ↦ elim (Bool-cases (leb v u56_max)) [
          | inl seven ↦
              rw (first_byte (int v), more, more2, more3, seven, append_assoc)
                (ap {A = ℕ} (λ k. k / 256)
                    (load_whole 253 7 v _ (omega (arith, leb→le v u56_max seven)))
                  ∙ shifted 253 v (omega arith))
          | inr more4 ↦
              rw (first_byte (int v), more, more2, more3, more4, append_assoc)
                (load_behind 254 8 v _ (omega arith))
        ]
      ]
    ]
  ]

  -- The entry is decoded to the value that was encoded.
  pub zipentry_get_lem :
      (x : Blob) → IsEntry x → zipentry_get (P ++ (entry_bytes x ++ R)) (some ze) ≡ (ok, x)
  unfolding zipentry_get zipentry_str
  zipentry_get_lem invalid h = absurd h
  zipentry_get_lem (int v) h = rw (first_byte (int v), not_str v, zipentry_int_lem v h)
    where
      not_str : (v : ℕ) → (tag (int v) == 255) ≡ false
      not_str v = ground arith
  zipentry_get_lem (str s) h = rw (first_byte (str s), second_byte s) (ap (λ t. (ok, str t)) text)
    where
      text : slice (ze + 2) (length s) (P ++ (entry_bytes (str s) ++ R)) ≡ s
      text =
          ap (λ t. slice (ze + 2) (length s) (P ++ (255 ∷ (length s ∷ t)))) (append_assoc s _ R)
          ∙ ap (slice (ze + 2) (length s)) (sym (append_assoc P (255 ∷ (length s ∷ [])) _))
          ∙ slice-append (P ++ (255 ∷ (length s ∷ []))) s _ (ze + 2) (length s)
              (omega (arith, length-append P (255 ∷ (length s ∷ [])))) refl

  -- The last byte is the size of the entry.
  pub last_byte :
      (x : Blob) (q : ℕ)
      → IsEntry x
      → suc q ≡ ze + encode_size x
      → byte q (P ++ (entry_bytes x ++ R)) ≡ encode_size x
  last_byte x q h e =
      ap (λ t. byte q (P ++ t)) (append_assoc (value_bytes x) (encode_size x ∷ []) R)
      ∙ ap (byte q) (sym (append_assoc P (value_bytes x) _))
      ∙ byte-append (P ++ value_bytes x) R (encode_size x) q
          (omega (arith, length-append P (value_bytes x), length-value_bytes x h))
