-- ===== src/Search/Sorted.antt =====
-- Lists of entries in ascending order of their keys, the abstract view of the sorted array and the
-- sorted map, and what a position found by a search is to such a list.
use pelikan.Common.{
  Bool-cases, inl, inr, ltb→lt, ℕ, zero, suc, ◌≤◌, ◌<◌, ◌≡◌, refl, ap, Bool, true, false, ◌||◌,
  arith, List, [], ◌∷◌, ◌++◌, length, take, drop, ltb, ◌==◌, if◌then◌else◌, lt→ltb, ge→ltb, ==_iff,
}
use pelikan.Search.Position.{IsPosition, Ascends}

module _ {ℓ} {A : Type ℓ} (key : A → ℕ) where
  abbrev pub AllAbove : ℕ → List A → Type 0
  AllAbove k [] = Unit
  AllAbove k (x ∷ xs) = (k < key x) × AllAbove k xs

  -- Strictly ascending keys.
  abbrev pub IsSorted : List A → Type 0
  IsSorted [] = Unit
  IsSorted (x ∷ xs) = AllAbove (key x) xs × IsSorted xs

  abbrev pub key_at : List A → ℕ → ℕ
  key_at [] i = 0
  key_at (x ∷ xs) zero = key x
  key_at (x ∷ xs) (suc i) = key_at xs i

  abbrev pub has_key : ℕ → List A → Bool
  has_key k [] = false
  has_key k (x ∷ xs) = key x == k || has_key k xs

  -- Before the first entry with a larger key.
  abbrev pub insert : A → List A → List A
  insert v [] = v ∷ []
  insert v (x ∷ xs) = if ltb (key x) (key v) then x ∷ insert v xs else v ∷ x ∷ xs

  -- Without the entry whose key is `k`.
  abbrev pub remove : ℕ → List A → List A
  remove k [] = []
  remove k (x ∷ xs) = if key x == k then xs else x ∷ remove k xs

  AllAbove-at : (k i : ℕ) (xs : List A) → AllAbove k xs → i < length xs → k < key_at xs i
  AllAbove-at k i [] h lt = absurd (omega arith)
  AllAbove-at k zero (x ∷ xs) h lt = h.0
  AllAbove-at k (suc i) (x ∷ xs) h lt = AllAbove-at k i xs h.1 (omega arith)

  pub IsSorted-Ascends : (xs : List A) → IsSorted xs → Ascends (key_at xs) (length xs)
  IsSorted-Ascends [] h i j lt hj = absurd (omega arith)
  IsSorted-Ascends (x ∷ xs) h i zero lt hj = absurd (omega arith)
  IsSorted-Ascends (x ∷ xs) h zero (suc j) lt hj = AllAbove-at (key x) j xs h.0 (omega arith)
  IsSorted-Ascends (x ∷ xs) h (suc i) (suc j) lt hj =
      IsSorted-Ascends xs h.1 i j (omega arith) (omega arith)

  -- The position in a tail.
  pub IsPosition-tail :
      (x : A) (xs : List A) (v k : ℕ) (b : Bool)
      → IsPosition (key_at (x ∷ xs)) (suc (length xs)) v (b, suc k)
      → IsPosition (key_at xs) (length xs) v (b, k)
  IsPosition-tail x xs v k b p = record {
    in_range = omega (arith, p.in_range);
    below = λ i h. p.below (suc i) (omega arith);
    above = λ i h1 h2. p.above (suc i) (omega arith) (omega arith);
    hit = λ h. (omega (arith, (p.hit h).0), (p.hit h).1);
    miss = λ h lt. p.miss h (omega arith);
  }

  pub insert_at :
      (v : A) (xs : List A) (k : ℕ)
      → IsPosition (key_at xs) (length xs) (key v) (false, k)
      → take k xs ++ (v ∷ drop k xs) ≡ insert v xs
  insert_at v [] zero p = refl
  insert_at v [] (suc k) p = absurd (omega (arith, p.in_range))
  insert_at v (x ∷ xs) zero p = rw (ge→ltb (key x) (key v) (p.above 0 (omega arith) (omega arith)))
  insert_at v (x ∷ xs) (suc k) p =
      rw (lt→ltb (key x) (key v) (p.below 0 (omega arith)))
        (ap (λ t. x ∷ t) (insert_at v xs k (IsPosition-tail x xs (key v) k false p)))

  pub remove_at :
      (v : ℕ) (xs : List A) (k : ℕ)
      → IsPosition (key_at xs) (length xs) v (true, k)
      → take k xs ++ drop (suc k) xs ≡ remove v xs
  remove_at v [] k p = absurd (omega (arith, (p.hit refl).0))
  remove_at v (x ∷ xs) zero p = rw ((==_iff (key x) v).1 (p.hit refl).1)
  remove_at v (x ∷ xs) (suc k) p =
      rw (differs (p.below 0 (omega arith)))
        (ap (λ t. x ∷ t) (remove_at v xs k (IsPosition-tail x xs v k true p)))
    where
      differs : key x < v → (key x == v) ≡ false
      differs h = ground arith

  has_key-AllAbove : (k j : ℕ) (xs : List A) → AllAbove k xs → j ≤ k → has_key j xs ≡ false
  has_key-AllAbove k j [] h le = refl
  has_key-AllAbove k j (x ∷ xs) h le = ground (arith, has_key-AllAbove k j xs h.1 le)

  -- A search finds a key exactly if the list has it.
  pub found_iff :
      (v : ℕ) (xs : List A) (k : ℕ) (b : Bool)
      → IsSorted xs
      → IsPosition (key_at xs) (length xs) v (b, k)
      → has_key v xs ≡ b
  found_iff v [] k false s p = refl
  found_iff v [] k true s p = absurd (omega (arith, (p.hit refl).0))
  found_iff v (x ∷ xs) zero true s p = rw ((==_iff (key x) v).1 (p.hit refl).1)
  found_iff v (x ∷ xs) zero false s p = ground (
    arith,
    has_key-AllAbove (key x) v xs s.0 (p.above 0 (omega arith) (omega arith)),
    p.miss refl (omega arith),
  )
  found_iff v (x ∷ xs) (suc k) b s p =
      ground (arith, found_iff v xs k b s.1 (IsPosition-tail x xs v k b p), p.below 0 (omega arith))

  AllAbove-mono : (j k : ℕ) (xs : List A) → j ≤ k → AllAbove k xs → AllAbove j xs
  AllAbove-mono j k [] h a = tt
  AllAbove-mono j k (x ∷ xs) h a = (omega (arith, a.0), AllAbove-mono j k xs h a.1)

  AllAbove-insert :
      (k : ℕ) (v : A) (xs : List A) → k < key v → AllAbove k xs → AllAbove k (insert v xs)
  AllAbove-insert k v [] h a = (h, tt)
  AllAbove-insert k v (x ∷ xs) h a = elim (Bool-cases (ltb (key x) (key v))) [
    | inl lt ↦ rw lt (a.0, AllAbove-insert k v xs h a.1)
    | inr ge ↦ rw ge (h, a)
  ]

  -- Inserting a new key keeps the order.
  pub insert-IsSorted :
      (v : A) (xs : List A) → IsSorted xs → has_key (key v) xs ≡ false → IsSorted (insert v xs)
  insert-IsSorted v [] s h = (tt, tt)
  insert-IsSorted v (x ∷ xs) s h = elim (Bool-cases (ltb (key x) (key v))) [
    | inl lt ↦ rw lt (
      AllAbove-insert (key x) v xs (ltb→lt (key x) (key v) lt) s.0,
      insert-IsSorted v xs s.1 (ground arith),
    )
    | inr ge ↦
        let above : key v < key x = ground arith in
        rw ge ((above, AllAbove-mono (key v) (key x) xs (omega arith) s.0), s)
  ]

  AllAbove-remove : (k j : ℕ) (xs : List A) → AllAbove k xs → AllAbove k (remove j xs)
  AllAbove-remove k j [] a = tt
  AllAbove-remove k j (x ∷ xs) a = elim (Bool-cases (key x == j)) [
    | inl e ↦ rw e a.1
    | inr ne ↦ rw ne (a.0, AllAbove-remove k j xs a.1)
  ]

  pub remove-IsSorted : (k : ℕ) (xs : List A) → IsSorted xs → IsSorted (remove k xs)
  remove-IsSorted k [] s = tt
  remove-IsSorted k (x ∷ xs) s = elim (Bool-cases (key x == k)) [
    | inl e ↦ rw e s.1
    | inr ne ↦ rw ne (AllAbove-remove (key x) k xs s.0, remove-IsSorted k xs s.1)
  ]

  pub drop-IsSorted : (n : ℕ) (xs : List A) → IsSorted xs → IsSorted (drop n xs)
  drop-IsSorted zero xs s = s
  drop-IsSorted (suc n) [] s = tt
  drop-IsSorted (suc n) (x ∷ xs) s = drop-IsSorted n xs s.1

  AllAbove-take : (k n : ℕ) (xs : List A) → AllAbove k xs → AllAbove k (take n xs)
  AllAbove-take k zero xs a = tt
  AllAbove-take k (suc n) [] a = tt
  AllAbove-take k (suc n) (x ∷ xs) a = (a.0, AllAbove-take k n xs a.1)

  pub take-IsSorted : (n : ℕ) (xs : List A) → IsSorted xs → IsSorted (take n xs)
  take-IsSorted zero xs s = tt
  take-IsSorted (suc n) [] s = tt
  take-IsSorted (suc n) (x ∷ xs) s = (AllAbove-take (key x) n xs s.0, take-IsSorted n xs s.1)

  -- What a set of keys sees of the two updates.
  pub has_key-insert :
      (j : ℕ) (v : A) (xs : List A) → has_key j (insert v xs) ≡ (key v == j || has_key j xs)
  has_key-insert j v [] = refl
  has_key-insert j v (x ∷ xs) = ground (arith, has_key-insert j v xs)

  pub length-insert : (v : A) (xs : List A) → length (insert v xs) ≡ suc (length xs)
  length-insert v [] = refl
  length-insert v (x ∷ xs) = ground (arith, length-insert v xs)

  pub length-remove :
      (k : ℕ) (xs : List A) → has_key k xs ≡ true → suc (length (remove k xs)) ≡ length xs
  length-remove k [] h = cc
  length-remove k (x ∷ xs) h = ground (arith, length-remove k xs)
