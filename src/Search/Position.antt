-- ===== src/Search/Position.antt =====
-- What a search of ascending entries must answer, and the entries that decide it.
use pelikan.Common.{
  ℕ, zero, suc, ◌≤◌, ◌<◌, ◌≡◌, ◌≢◌, inl, inr, refl, sym, ◌∙◌, Bool, true, false, arith, ◌==◌,
  Bool-cases, ==_iff,
}
use native.Mathlib.Decide.{ℕ_discrete}

-- What a search for `val` among `n` ascending entries must answer: the first index whose entry
-- is not below `val`, and whether the entry there is `val`.
pub record IsPosition (get : ℕ → ℕ) (n val : ℕ) (r : Bool × ℕ) : Type 0 where
  pub in_range : r.1 ≤ n
  pub below : (i : ℕ) → i < r.1 → get i < val
  pub above : (i : ℕ) → r.1 ≤ i → i < n → val ≤ get i
  pub hit : r.0 ≡ true → (r.1 < n) × (get r.1 ≡ val)
  pub miss : r.0 ≡ false → r.1 < n → get r.1 ≢ val

-- The entry just below index `k`, if there is one, is below `val`.
module _ (get : ℕ → ℕ) where
  abbrev pub Before : ℕ → ℕ → Type 0
  Before k val = (i : ℕ) → suc i ≡ k → get i < val

abbrev pub Ascends : (ℕ → ℕ) → ℕ → Type 0
Ascends get n = (i j : ℕ) → i < j → j < n → get i < get j

module _ (get : ℕ → ℕ) where
  pub Ascends-le : (n i j : ℕ) → Ascends get n → i ≤ j → j < n → get i ≤ get j
  Ascends-le n i j asc hij hj = elim (ℕ_discrete i j) [
    | yes e ↦ rw e (omega arith)
    | no ne ↦ omega (arith, asc i j (omega arith) hj)
  ]

  below_of : (n val k i : ℕ) → Ascends get n → k ≤ n → Before get k val → i < k → get i < val
  below_of n val zero i asc hk hb hi = elim hi [ ]
  below_of n val (suc p) i asc hk hb hi =
      omega (arith, Ascends-le n i p asc (omega arith) hk, hb p refl)

  -- Two neighbours decide for all.
  pub IsPosition-of_neighbours :
      (n val k : ℕ) (found : Bool)
      → Ascends get n
      → k ≤ n
      → Before get k val
      → (k < n → val ≤ get k)
      → (found ≡ true → (k < n) × (get k ≡ val))
      → (found ≡ false → k < n → get k ≢ val)
      → IsPosition get n val (found, k)
  IsPosition-of_neighbours n val k found asc hk hb ha hh hm = record {
    in_range = hk;
    below = λ i hi. below_of n val k i asc hk hb hi;
    above = λ i hki hi. omega (arith, Ascends-le n k i asc hki hi, ha (omega arith));
    hit = hh;
    miss = hm;
  }

  pub IsPosition-hit :
      (n val k : ℕ) → Ascends get n → k < n → get k ≡ val → IsPosition get n val (true, k)
  IsPosition-hit n val k asc hk e =
      IsPosition-of_neighbours n val k true asc (omega arith)
        (λ i hi. omega (arith, asc i k (omega arith) hk)) (λ h. omega arith) (λ h. (hk, e))
        (λ h. cc)

  pub IsPosition-miss :
      (n val k : ℕ)
      → Ascends get n
      → k ≤ n
      → Before get k val
      → (k < n → val < get k)
      → IsPosition get n val (false, k)
  IsPosition-miss n val k asc hk hb ha =
      IsPosition-of_neighbours n val k false asc hk hb (λ h. omega (arith, ha h)) (λ h. cc)
        (λ h hk' e. omega (arith, ha hk'))

  pub IsPosition-exact :
      (n val k : ℕ)
      → Ascends get n
      → k < n
      → Before get k val
      → val ≤ get k
      → IsPosition get n val (val == get k, k)
  IsPosition-exact n val k asc hk hb ha = elim (Bool-cases (val == get k)) [
    | inl e ↦ rw e (IsPosition-hit n val k asc hk (sym ((==_iff val (get k)).0 e)))
    | inr ne ↦ rw ne (IsPosition-miss n val k asc (omega arith) hb (λ h. ground arith))
  ]

-- Only the entries in range matter.
pub IsPosition-ext :
    (f g : ℕ → ℕ) (n val : ℕ) (r : Bool × ℕ)
    → ((i : ℕ) → i < n → f i ≡ g i)
    → IsPosition f n val r
    → IsPosition g n val r
IsPosition-ext f g n val r e p = record {
  in_range = p.in_range;
  below = λ i h. omega (arith, e i (omega (arith, p.in_range)), p.below i h);
  above = λ i h1 h2. omega (arith, e i h2, p.above i h1 h2);
  hit = λ h. ((p.hit h).0, sym (e r.1 (p.hit h).0) ∙ (p.hit h).1);
  miss = λ h lt q. p.miss h lt (e r.1 lt ∙ q);
}

pub Ascends-ext : (f g : ℕ → ℕ) (n : ℕ) → ((i : ℕ) → i < n → f i ≡ g i) → Ascends f n → Ascends g n
Ascends-ext f g n e a i j lt hj = omega (arith, e i (omega arith), e j hj, a i j lt hj)
