-- ===== src/Common/Lists.antt =====
-- Lists measured and indexed by native numbers, under the library's names.
use Prim.Native.Nat.{ℕ, zero, suc, ◌+◌, ◌-◌, ◌≤◌, ◌<◌}
use mathlib.Core.Path.{◌≡◌, refl, sym, ap, ◌∙◌}
use mathlib.Core.List.{List, [], ◌∷◌, ◌++◌}
use mathlib.Core.Option.{Option, none, some}
use native.Mathlib.Omega.{arith}

module _ {ℓ} {A : Type ℓ} where
  abbrev pub length : List A → ℕ
  length [] = 0
  length (x ∷ xs) = suc (length xs)

  abbrev pub get_elem? : List A → ℕ → Option A
  get_elem? [] i = none
  get_elem? (x ∷ xs) zero = some x
  get_elem? (x ∷ xs) (suc i) = get_elem? xs i

  abbrev pub get_or : List A → ℕ → A → A
  get_or [] i d = d
  get_or (x ∷ xs) zero d = x
  get_or (x ∷ xs) (suc i) d = get_or xs i d

  abbrev pub take : ℕ → List A → List A
  take zero xs = []
  take (suc n) [] = []
  take (suc n) (x ∷ xs) = x ∷ take n xs

  abbrev pub drop : ℕ → List A → List A
  drop zero xs = xs
  drop (suc n) [] = []
  drop (suc n) (x ∷ xs) = drop n xs

  abbrev pub replicate : ℕ → A → List A
  replicate zero a = []
  replicate (suc n) a = a ∷ replicate n a

  pub length-append : (xs ys : List A) → length (xs ++ ys) ≡ length xs + length ys
  length-append [] ys = omega arith
  length-append (x ∷ xs) ys = omega (arith, length-append xs ys)

  -- A cut at the seam of two lists.
  pub take-append : (n : ℕ) (xs ys : List A) → n ≡ length xs → take n (xs ++ ys) ≡ xs
  take-append zero [] ys h = refl
  take-append zero (x ∷ xs) ys h = absurd (omega arith)
  take-append (suc n) [] ys h = absurd (omega arith)
  take-append (suc n) (x ∷ xs) ys h = ap (λ t. x ∷ t) (take-append n xs ys (omega arith))

  pub drop-append : (n : ℕ) (xs ys : List A) → n ≡ length xs → drop n (xs ++ ys) ≡ ys
  drop-append zero [] ys h = refl
  drop-append zero (x ∷ xs) ys h = absurd (omega arith)
  drop-append (suc n) [] ys h = absurd (omega arith)
  drop-append (suc n) (x ∷ xs) ys h = drop-append n xs ys (omega arith)

  pub drop-nil : (n : ℕ) → drop n [] ≡ []
  drop-nil zero = refl
  drop-nil (suc n) = refl

  pub drop-add : (n m : ℕ) (xs : List A) → drop (n + m) xs ≡ drop m (drop n xs)
  drop-add zero m xs = let e : zero + m ≡ m = omega arith in rw e
  drop-add (suc n) m [] = drop-nil (suc n + m) ∙ sym (drop-nil m)
  drop-add (suc n) m (x ∷ xs) =
      let e : suc n + m ≡ suc (n + m) = omega arith in rw e (drop-add n m xs)

  -- A cut behind the seam.
  pub take-append_add :
      (n m : ℕ) (xs ys : List A) → n ≡ length xs → take (n + m) (xs ++ ys) ≡ xs ++ take m ys
  take-append_add n m [] ys h = let e : n + m ≡ m = omega arith in rw e
  take-append_add n m (x ∷ xs) ys h =
      let e : n + m ≡ suc (length xs + m) = omega arith in
      rw e (ap (λ t. x ∷ t) (take-append_add (length xs) m xs ys refl))

  pub length-drop : (n : ℕ) (xs : List A) → length (drop n xs) ≡ length xs - n
  length-drop zero xs = omega arith
  length-drop (suc n) [] = omega arith
  length-drop (suc n) (x ∷ xs) = omega (arith, length-drop n xs)

  pub length-take : (n : ℕ) (xs : List A) → n ≤ length xs → length (take n xs) ≡ n
  length-take zero xs h = refl
  length-take (suc n) [] h = absurd (omega arith)
  length-take (suc n) (x ∷ xs) h = ap suc (length-take n xs (omega arith))

  pub take-append-drop : (n : ℕ) (xs : List A) → take n xs ++ drop n xs ≡ xs
  take-append-drop zero xs = refl
  take-append-drop (suc n) [] = refl
  take-append-drop (suc n) (x ∷ xs) = ap (λ t. x ∷ t) (take-append-drop n xs)

  pub get_elem?-eq-get_or :
      (xs : List A) (i : ℕ) (d : A) → i < length xs → get_elem? xs i ≡ some (get_or xs i d)
  get_elem?-eq-get_or [] i d h = absurd (omega arith)
  get_elem?-eq-get_or (x ∷ xs) zero d h = refl
  get_elem?-eq-get_or (x ∷ xs) (suc i) d h = get_elem?-eq-get_or xs i d (omega arith)

  pub get_elem?_past : (xs : List A) (i : ℕ) → length xs ≤ i → get_elem? xs i ≡ none
  get_elem?_past [] i h = refl
  get_elem?_past (x ∷ xs) zero h = absurd (omega arith)
  get_elem?_past (x ∷ xs) (suc i) h = get_elem?_past xs i (omega arith)

  pub drop_all : (n : ℕ) (xs : List A) → length xs ≤ n → drop n xs ≡ []
  drop_all n [] h = drop-nil n
  drop_all zero (x ∷ xs) h = absurd (omega arith)
  drop_all (suc n) (x ∷ xs) h = drop_all n xs (omega arith)

  pub take_all : (n : ℕ) (xs : List A) → length xs ≤ n → take n xs ≡ xs
  take_all zero [] h = refl
  take_all (suc n) [] h = refl
  take_all zero (x ∷ xs) h = absurd (omega arith)
  take_all (suc n) (x ∷ xs) h = ap (λ t. x ∷ t) (take_all n xs (omega arith))

  take-nil : (n : ℕ) → take n [] ≡ []
  take-nil zero = refl
  take-nil (suc n) = refl

  pub take-add : (n m : ℕ) (xs : List A) → take (n + m) xs ≡ take n xs ++ take m (drop n xs)
  take-add zero m xs = let e : zero + m ≡ m = omega arith in rw e
  take-add (suc n) m [] = take-nil (suc n + m) ∙ sym (take-nil m)
  take-add (suc n) m (x ∷ xs) =
      let e : suc n + m ≡ suc (n + m) = omega arith in rw e (ap (λ t. x ∷ t) (take-add n m xs))

  pub get_or-append :
      (n : ℕ) (xs : List A) (x d : A) → n ≡ length xs → get_or (xs ++ (x ∷ [])) n d ≡ x
  get_or-append zero [] x d h = refl
  get_or-append zero (y ∷ xs) x d h = absurd (omega arith)
  get_or-append (suc n) [] x d h = absurd (omega arith)
  get_or-append (suc n) (y ∷ xs) x d h = get_or-append n xs x d (omega arith)

  -- A part before a cut.
  take_within :
      (n q : ℕ) (xs ys : List A) → n ≤ q → q ≤ length xs → take n (take q xs ++ ys) ≡ take n xs
  take_within zero q xs ys h k = refl
  take_within (suc n) zero xs ys h k = absurd (omega arith)
  take_within (suc n) (suc q) [] ys h k = absurd (omega arith)
  take_within (suc n) (suc q) (x ∷ xs) ys h k =
      ap (λ t. x ∷ t) (take_within n q xs ys (omega arith) (omega arith))

  pub slice_within :
      (p n q : ℕ) (xs ys : List A)
      → p + n ≤ q
      → q ≤ length xs
      → take n (drop p (take q xs ++ ys)) ≡ take n (drop p xs)
  slice_within zero n q xs ys h k = take_within n q xs ys (omega arith) k
  slice_within (suc p) n zero xs ys h k = absurd (omega arith)
  slice_within (suc p) n (suc q) [] ys h k = absurd (omega arith)
  slice_within (suc p) n (suc q) (x ∷ xs) ys h k =
      slice_within p n q xs ys (omega arith) (omega arith)

  -- A cut behind three parts.
  pub drop_behind :
      (p q n : ℕ) (xs vs zs : List A)
      → q ≡ length xs
      → n ≡ length vs
      → q + n ≤ p
      → drop p (xs ++ (vs ++ zs)) ≡ drop (p - (q + n)) zs
  drop_behind p q n xs vs zs hq hn h =
      ap (λ (k : ℕ). drop k (xs ++ (vs ++ zs))) (regroup p q n h)
      ∙ drop-add q (n + (p - (q + n))) _
      ∙ ap (drop (n + (p - (q + n)))) (drop-append q xs _ hq)
      ∙ drop-add n (p - (q + n)) _
      ∙ ap (drop (p - (q + n))) (drop-append n vs zs hn)
    where
      regroup : (p q n : ℕ) → q + n ≤ p → p ≡ q + (n + (p - (q + n)))
      regroup p q n h = omega arith
