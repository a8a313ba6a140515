-- ===== src/Search/Shift.antt =====
-- Opening and closing the place of one entry in a body of entries of one size.
use pelikan.Common.{
  [], refl, ℕ, suc, ◌+◌, ◌-◌, ◌*◌, ◌≤◌, ◌<◌, ◌≡◌, sym, ap, ◌∙◌, arith, List, ◌∷◌, ◌++◌, length,
  take, drop, get_or, length-append, length-take, length-drop, append_assoc,
}
use pelikan.Common.Memory.{Bytes, memmove}
use pelikan.Common.Splice.{memmove_up, remove_lem}
use pelikan.Search.Layout.{
  body_of, Sized, body_of-append, length-body_of, Sized-drop, Sized-at, body_of-split, body_of-at,
  length-body_of-take,
}

module _ {ℓ} {A : Type ℓ} (encode : A → Bytes) (e : ℕ) (xs : List A) (s : Sized encode e xs) where
  -- The size of the entries from an index on.
  size_from : (k : ℕ) → e * (length xs - k) ≡ length (body_of encode (drop k xs))
  size_from k =
      ap (λ n. e * n) (sym (length-drop k xs))
      ∙ sym (length-body_of encode e (drop k xs) (Sized-drop encode e k xs s))

  -- Moving the entries from `k` on up by one leaves `e` free bytes at their old start.
  pub open_gap :
      (k : ℕ) (gap rest : Bytes)
      → k ≤ length xs
      → length gap ≡ e
      → (place : Bytes) × (length place ≡ e)
        × (memmove (e * k + e) (e * k) (e * (length xs - k)) (body_of encode xs ++ (gap ++ rest))
            ≡ body_of encode (take k xs) ++ (place ++ (body_of encode (drop k xs) ++ rest)))
  open_gap k gap rest hk hg = (
    take e behind,
    length-take e behind (
        omega (
          arith,
          length-append (body_of encode (drop k xs)) (gap ++ rest),
          length-append gap rest,
        )),
    rw (body_of-split encode k xs (gap ++ rest)) (
        memmove_up (body_of encode (take k xs)) (body_of encode (drop k xs)) gap rest (e * k) _ e
          (length-body_of-take encode e k xs s hk) (size_from k) (sym hg)),
  )
    where
      behind : Bytes
      behind = body_of encode (drop k xs) ++ (gap ++ rest)

  -- An entry written at the gap is inserted.
  pub fill_gap :
      (k : ℕ) (v : A) (rest : Bytes)
      → body_of encode (take k xs) ++ (encode v ++ (body_of encode (drop k xs) ++ rest))
        ≡ body_of encode (take k xs ++ (v ∷ drop k xs)) ++ rest
  fill_gap k v rest =
      ap (λ t. body_of encode (take k xs) ++ t)
        (sym (append_assoc (encode v) (body_of encode (drop k xs)) rest))
      ∙ sym (append_assoc (body_of encode (take k xs)) _ rest)
      ∙ ap (λ t. t ++ rest) (sym (body_of-append encode (take k xs) (v ∷ drop k xs)))

  -- Moving the entries behind `k` down by one removes the entry at `k`.
  pub close_gap :
      (k : ℕ) (d : A) (rest : Bytes)
      → k < length xs
      → (rest' : Bytes) × (length rest' ≡ length rest + e)
        × (memmove (e * k) (e * k + e) (e * (length xs - suc k)) (body_of encode xs ++ rest)
            ≡ body_of encode (take k xs ++ drop (suc k) xs) ++ rest')
  close_gap k d rest hk = (
    drop (e * (length xs - suc k)) tail,
    length-drop (e * (length xs - suc k)) tail
        ∙ omega (
          arith,
          length-append (encode (get_or xs k d)) (body_of encode (drop (suc k) xs) ++ rest),
          length-append (body_of encode (drop (suc k) xs)) rest,
          size_from (suc k),
          Sized-at encode e k xs d s hk,
        ),
    rw (body_of-at encode k xs d rest hk) (
        remove_lem (body_of encode (take k xs)) (encode (get_or xs k d))
          (body_of encode (drop (suc k) xs)) rest (e * k) _ e
          (length-body_of-take encode e k xs s (omega arith)) (sym (Sized-at encode e k xs d s hk))
          (size_from (suc k))
        ∙ sym (append_assoc (body_of encode (take k xs)) _ _)
        ∙ ap (λ t. t ++ drop (e * (length xs - suc k)) tail)
            (sym (body_of-append encode (take k xs) (drop (suc k) xs)))),
  )
    where
      tail : Bytes
      tail = encode (get_or xs k d) ++ (body_of encode (drop (suc k) xs) ++ rest)

  -- Moving the entries from `k` on to the start drops those before.
  pub drop_front :
      (k : ℕ) (rest : Bytes)
      → k ≤ length xs
      → (rest' : Bytes) × (memmove 0 (e * k) (e * (length xs - k)) (body_of encode xs ++ rest)
          ≡ body_of encode (drop k xs) ++ rest')
  drop_front k rest hk = (
    drop (e * (length xs - k)) whole,
    ap (λ from. memmove 0 from (e * (length xs - k)) (body_of encode xs ++ rest)) start
        ∙ ap (memmove 0 (0 + e * k) (e * (length xs - k))) (body_of-split encode k xs rest)
        ∙ remove_lem [] (body_of encode (take k xs)) (body_of encode (drop k xs)) rest 0 _ (e * k)
            refl (length-body_of-take encode e k xs s hk) (size_from k),
  )
    where
      whole : Bytes
      whole = body_of encode (take k xs) ++ (body_of encode (drop k xs) ++ rest)

      start : e * k ≡ 0 + e * k
      start = omega arith
