-- ===== src/Search/Layout.antt =====
-- Entries of one size laid out one after the other, and the entry at an index.
use pelikan.Common.{
  ℕ, zero, suc, ◌*◌, ◌≤◌, ◌<◌, ◌≡◌, refl, sym, ap, ◌∙◌, arith, List, [], ◌∷◌, ◌++◌, length, take,
  drop, get_or, length-append, take-append-drop, append_assoc,
}
use pelikan.Common.Memory.{Bytes, slice, slice-append}

module _ {ℓ} {A : Type ℓ} (encode : A → Bytes) where
  abbrev pub body_of : List A → Bytes
  body_of [] = []
  body_of (x ∷ xs) = encode x ++ body_of xs

  -- Every entry takes `e` bytes.
  abbrev pub Sized : ℕ → List A → Type 0
  Sized e [] = Unit
  Sized e (x ∷ xs) = (length (encode x) ≡ e) × Sized e xs

  pub body_of-append : (xs ys : List A) → body_of (xs ++ ys) ≡ body_of xs ++ body_of ys
  body_of-append [] ys = refl
  body_of-append (x ∷ xs) ys =
      ap (λ t. encode x ++ t) (body_of-append xs ys)
      ∙ sym (append_assoc (encode x) (body_of xs) (body_of ys))

  pub length-body_of : (e : ℕ) (xs : List A) → Sized e xs → length (body_of xs) ≡ e * length xs
  length-body_of e [] h = omega arith
  length-body_of e (x ∷ xs) h =
      omega (arith, length-append (encode x) (body_of xs), h.0, length-body_of e xs h.1)

  pub Sized-take : (e n : ℕ) (xs : List A) → Sized e xs → Sized e (take n xs)
  Sized-take e zero xs h = tt
  Sized-take e (suc n) [] h = tt
  Sized-take e (suc n) (x ∷ xs) h = (h.0, Sized-take e n xs h.1)

  pub Sized-drop : (e n : ℕ) (xs : List A) → Sized e xs → Sized e (drop n xs)
  Sized-drop e zero xs h = h
  Sized-drop e (suc n) [] h = tt
  Sized-drop e (suc n) (x ∷ xs) h = Sized-drop e n xs h.1

  pub Sized-at :
      (e i : ℕ) (xs : List A) (d : A)
      → Sized e xs
      → i < length xs
      → length (encode (get_or xs i d)) ≡ e
  Sized-at e i [] d s h = absurd (omega arith)
  Sized-at e zero (x ∷ xs) d s h = s.0
  Sized-at e (suc i) (x ∷ xs) d s h = Sized-at e i xs d s.1 (omega arith)

  -- The body cut at an index.
  pub body_of-split :
      (i : ℕ) (xs : List A) (rest : Bytes)
      → body_of xs ++ rest ≡ body_of (take i xs) ++ (body_of (drop i xs) ++ rest)
  body_of-split i xs rest =
      ap (λ t. t ++ rest)
        (ap body_of (sym (take-append-drop i xs)) ∙ body_of-append (take i xs) (drop i xs))
      ∙ append_assoc (body_of (take i xs)) (body_of (drop i xs)) rest

  -- The entry at an index, with what stands before and behind it.
  pub body_of-at :
      (i : ℕ) (xs : List A) (d : A) (rest : Bytes)
      → i < length xs
      → body_of xs ++ rest
        ≡ body_of (take i xs) ++ (encode (get_or xs i d) ++ (body_of (drop (suc i) xs) ++ rest))
  body_of-at i [] d rest h = absurd (omega arith)
  body_of-at zero (x ∷ xs) d rest h = append_assoc (encode x) (body_of xs) rest
  body_of-at (suc i) (x ∷ xs) d rest h =
      append_assoc (encode x) (body_of xs) rest
      ∙ ap (λ t. encode x ++ t) (body_of-at i xs d rest (omega arith))
      ∙ sym (append_assoc (encode x) (body_of (take i xs)) _)

  -- Where the first `i` entries end.
  pub length-body_of-take :
      (e i : ℕ) (xs : List A) → Sized e xs → i ≤ length xs → e * i ≡ length (body_of (take i xs))
  length-body_of-take e zero xs s h = omega arith
  length-body_of-take e (suc i) [] s h = absurd (omega arith)
  length-body_of-take e (suc i) (x ∷ xs) s h = omega (
    arith,
    length-append (encode x) (body_of (take i xs)),
    s.0,
    length-body_of-take e i xs s.1 (omega arith),
  )

  -- Reading the entry at an index.
  pub slice-at :
      (e i : ℕ) (xs : List A) (d : A) (rest : Bytes)
      → Sized e xs
      → i < length xs
      → slice (e * i) (length (encode (get_or xs i d))) (body_of xs ++ rest)
        ≡ encode (get_or xs i d)
  slice-at e i xs d rest s h = rw (body_of-at i xs d rest h) (
      slice-append (body_of (take i xs)) (encode (get_or xs i d)) _ (e * i) _
        (length-body_of-take e i xs s (omega arith)) refl)
