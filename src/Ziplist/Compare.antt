-- ===== src/Ziplist/Compare.antt =====
-- What comparing the bytes of an entry with an encoded value tells: `memcmp` in `ziplist_find`.
use pelikan.Common.{
  ℕ, zero, suc, ◌+◌, ◌-◌, ◌≡◌, refl, sym, ap, ◌∙◌, Bool, true, false, some, inl, inr, arith, [],
  ◌∷◌, ◌++◌, append_assoc, append-nil, length, length-append, take, drop, replicate, ltb,
  Bool-cases, if◌then◌else◌, take-append-drop, take-append, drop-append, take_all,
}
use pelikan.Common.Memory.{Bytes, slice, bytes_eq, slice-append, bytes_eq_sound, bytes_eq-same}
use pelikan.Blob.{Blob}
use pelikan.Ziplist.{Status, ok, encode_size, zipentry_get, zipentry_encode}
use pelikan.Ziplist.Edit.{encoded}
use pelikan.Ziplist.Codec.{
  IsEntry, entry_bytes, length-entry_bytes, encode_size_bounds, zipentry_encode_lem,
}
use pelikan.Ziplist.Decode.{zipentry_get_lem}

abbrev zeros : ℕ → Bytes
zeros n = replicate n 0

zeros-add : (n m : ℕ) → zeros (n + m) ≡ zeros n ++ zeros m
zeros-add zero m = let e : zero + m ≡ m = omega arith in rw e
zeros-add (suc n) m =
    let e : suc n + m ≡ suc (n + m) = omega arith in rw e (ap (λ t. 0 ∷ t) (zeros-add n m))

length-zeros : (n : ℕ) → length (zeros n) ≡ n
length-zeros zero = refl
length-zeros (suc n) = ap suc (length-zeros n)

-- The static buffer holds the bytes of the value's entry.
pub encoded_lem : (v : Blob) → IsEntry v → encoded v ≡ entry_bytes v
unfolding encoded
encoded_lem v h =
    ap (λ t. slice 0 (encode_size v) (zipentry_encode 0 v t)) parts
    ∙ ap (slice 0 (encode_size v)) (
        zipentry_encode_lem [] (zeros (encode_size v)) (zeros (255 - encode_size v)) 0 refl v h
          (length-zeros (encode_size v)))
    ∙ slice-append [] (entry_bytes v) _ 0 (encode_size v) refl (sym (length-entry_bytes v h))
  where
    parts : zeros 255 ≡ zeros (encode_size v) ++ zeros (255 - encode_size v)
    parts = ap zeros filled ∙ zeros-add (encode_size v) (255 - encode_size v)
      where
        filled : 255 ≡ encode_size v + (255 - encode_size v)
        filled = omega (arith, encode_size_bounds v h)

ok_inj : (x v : Blob) → ◌≡◌ {A = Status × Blob} (ok, x) (ok, v) → x ≡ v
ok_inj x v e = ground arith

-- Bytes that start two entries are of one value.
same_entry :
    (P R R' : Bytes) (x v : Blob)
    → IsEntry x
    → IsEntry v
    → entry_bytes x ++ R ≡ entry_bytes v ++ R'
    → x ≡ v
same_entry P R R' x v hx hv e = ok_inj x v (
    sym (zipentry_get_lem P R (length P) refl x hx)
    ∙ ap (λ t. zipentry_get (P ++ t) (some (length P))) e
    ∙ zipentry_get_lem P R' (length P) refl v hv)

slice-behind : (P T : Bytes) (z n : ℕ) → z ≡ length P → slice z n (P ++ T) ≡ take n T
unfolding slice
slice-behind P T z n hz = ap (take n) (drop-append z P T hz)

-- The bytes that the loop compares at an entry, and whether they agree.
abbrev pub agrees : Bytes → Bytes → ℕ → ℕ → Bool
agrees m buf room z =
    let n = if ltb room (length buf) then room else length buf in
    bytes_eq (slice z n m) (slice 0 n buf)

module _ (P B rest : Bytes) (z room : ℕ) (x v : Blob) (hz : z ≡ length P)
    (hr : room ≡ encode_size x + length B) (hx : IsEntry x) (hv : IsEntry v) where
  -- The comparison ends with the list.
  agrees_short :
      slice z room (P ++ (entry_bytes x ++ (B ++ rest))) ≡ slice 0 room (entry_bytes v) → x ≡ v
  agrees_short e = same_entry P (B ++ drop room (entry_bytes v)) [] x v hx hv (
      sym (append_assoc (entry_bytes x) B _)
      ∙ ap (λ t. t ++ drop room (entry_bytes v)) front
      ∙ take-append-drop room (entry_bytes v)
      ∙ sym (append-nil (entry_bytes v)))
    where
      front : entry_bytes x ++ B ≡ take room (entry_bytes v)
      front =
          sym (
            take-append room (entry_bytes x ++ B) rest
              (omega (arith, length-append (entry_bytes x) B, length-entry_bytes x hx)))
          ∙ ap (take room) (append_assoc (entry_bytes x) B rest)
          ∙ sym (slice-behind P _ z room hz)
          ∙ e
          ∙ slice-behind [] (entry_bytes v) 0 room refl

  whole : slice 0 (length (entry_bytes v)) (entry_bytes v) ≡ entry_bytes v
  whole =
      slice-behind [] (entry_bytes v) 0 (length (entry_bytes v)) refl
      ∙ take_all (length (entry_bytes v)) (entry_bytes v) (omega arith)

  agrees_long :
      slice z (length (entry_bytes v)) (P ++ (entry_bytes x ++ (B ++ rest)))
        ≡ slice 0 (length (entry_bytes v)) (entry_bytes v)
      → x ≡ v
  agrees_long e =
      same_entry P (B ++ rest) (drop (length (entry_bytes v)) (entry_bytes x ++ (B ++ rest))) x v hx
        hv
        (sym (take-append-drop (length (entry_bytes v)) (entry_bytes x ++ (B ++ rest)))
          ∙ ap (λ t. t ++ drop (length (entry_bytes v)) (entry_bytes x ++ (B ++ rest)))
              (sym (slice-behind P _ z _ hz) ∙ e ∙ whole))

  pub agrees_only :
      agrees (P ++ (entry_bytes x ++ (B ++ rest))) (entry_bytes v) room z ≡ true → x ≡ v
  agrees_only h = elim (Bool-cases (ltb room (length (entry_bytes v)))) [
    | inl short ↦ agrees_short (bytes_eq_sound _ _ (rw short at h))
    | inr long ↦ agrees_long (bytes_eq_sound _ _ (rw long at h))
  ]

  pub agrees_same :
      x ≡ v → agrees (P ++ (entry_bytes x ++ (B ++ rest))) (entry_bytes v) room z ≡ true
  agrees_same e = rw (fits, equal, whole) (bytes_eq-same (entry_bytes v))
    where
      size : encode_size x ≡ length (entry_bytes v)
      size = ap encode_size e ∙ sym (length-entry_bytes v hv)

      fits : ltb room (length (entry_bytes v)) ≡ false
      fits = ground (arith, size)

      equal : slice z (length (entry_bytes v)) (P ++ (entry_bytes x ++ (B ++ rest))) ≡ entry_bytes v
      equal =
          ap (λ t. slice z (length (entry_bytes v)) (P ++ (entry_bytes t ++ (B ++ rest)))) e
          ∙ slice-append P (entry_bytes v) (B ++ rest) z _ hz refl
