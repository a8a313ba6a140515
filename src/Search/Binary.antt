-- ===== src/Search/Binary.antt =====
-- The loop of `_binary_search` and the fuel that it is given.
use pelikan.Common.{
  ℕ, zero, suc, ◌+◌, ◌-◌, ◌%◌, ◌^◌, ◌≤◌, ◌<◌, ◌≡◌, inl, inr, refl, sym, ◌∙◌, true, false, arith,
  leb, ltb, ◌==◌, Bool-cases, leb→le, leb→gt, le→leb, gt→leb, if◌then◌else◌, ltb→lt, ge→ltb, ==_iff,
}
use native.Mathlib.Decide.{dec_lt}
use pelikan.Search.Position.{
  IsPosition, Ascends, Before, Ascends-le, IsPosition-hit, IsPosition-miss,
}
use pelikan.Common.Words.{u32_mod, add32, sub32}
use pelikan.Search.{middle, binary_loop, binary_search}

-- Without wrap-around the middle lies between the ends.
middle_bounds :
    (imin imax : ℕ)
    → imin ≤ imax
    → imax < 2 ^ 31
    → (imin ≤ middle imin imax) × (middle imin imax ≤ imax)
unfolding middle
middle_bounds imin imax h1 h2 = omega arith

module _ (get : ℕ → ℕ) where
  -- One round of the loop, with the uint32_t sums exact.
  binary_loop_step :
      (fuel imin imax id val mid : ℕ)
      → mid ≡ middle imin imax
      → 1 ≤ imin
      → imin ≤ imax
      → imax < 2 ^ 31
      → binary_loop get (suc fuel) imin imax id val ≡ (
          if val == get mid % u32_mod
          then (true, mid)
          else if ltb (get mid % u32_mod) val
          then binary_loop get fuel (mid + 1) imax mid val
          else if leb val (get (mid - 1))
          then binary_loop get fuel imin (mid - 1) mid val
          else (false, mid))
  unfolding binary_loop
  binary_loop_step fuel imin imax id val mid e h1 h2 h3 =
      rw (le→leb imin imax h2, ← e, next, previous)
    where
      inside : (imin ≤ mid) × (mid ≤ imax)
      inside = rw e (middle_bounds imin imax h2 h3)

      next : add32 mid 1 ≡ mid + 1
      next = omega (arith, inside)

      previous : sub32 mid 1 ≡ mid - 1
      previous = omega (arith, inside)

  binary_loop_over :
      (fuel imin imax id val : ℕ)
      → imax < imin
      → binary_loop get fuel imin imax id val ≡ (false, id)
  unfolding binary_loop
  binary_loop_over zero imin imax id val h = refl
  binary_loop_over (suc fuel) imin imax id val h = rw (gt→leb imin imax h)

  -- The loop of the binary search, over an interval from 1 on that ends below 2^31, has the same
  -- result for any two amounts of fuel that are not smaller than the interval.
  pub binary_loop_fuel :
      (f k imin imax id val : ℕ)
      → 1 ≤ imin
      → imax < 2 ^ 31
      → imax < imin + f
      → imax < imin + k
      → binary_loop get f imin imax id val ≡ binary_loop get k imin imax id val
  binary_loop_fuel zero k imin imax id val h1 h2 hf hk =
      binary_loop_over 0 imin imax id val (omega arith)
      ∙ sym (binary_loop_over k imin imax id val (omega arith))
  binary_loop_fuel (suc f) zero imin imax id val h1 h2 hf hk =
      binary_loop_over (suc f) imin imax id val (omega arith)
      ∙ sym (binary_loop_over 0 imin imax id val (omega arith))
  binary_loop_fuel (suc f) (suc k) imin imax id val h1 h2 hf hk = elim (dec_lt imax imin) [
    | yes over ↦
        binary_loop_over (suc f) imin imax id val over
        ∙ sym (binary_loop_over (suc k) imin imax id val over)
    | no le ↦
        let mid = middle imin imax in
        let (lo, hi) = middle_bounds imin imax (omega arith) h2 in
        rw (
          binary_loop_step f imin imax id val (middle imin imax) refl h1 (omega arith) h2,
          binary_loop_step k imin imax id val (middle imin imax) refl h1 (omega arith) h2,
          binary_loop_fuel f k (mid + 1) imax mid val (omega arith) h2 (omega arith) (omega arith),
          binary_loop_fuel f k imin (mid - 1) mid val h1 (omega arith) (omega arith) (omega arith),
        )
  ]

  binary_loop-IsPosition :
      (fuel n imin imax id val : ℕ)
      → Ascends get n
      → n ≤ 2 ^ 31
      → ((i : ℕ) → i < n → get i < u32_mod)
      → 1 ≤ imin
      → imin ≤ n
      → imax < n
      → Before get imin val
      → val ≤ get imax
      → imax < imin + fuel
      → IsPosition get n val (binary_loop get fuel imin imax id val)
  binary_loop-IsPosition zero n imin imax id val asc hn small h1 h2 h3 hb ha hf = absurd (
      omega (
        arith,
        Ascends-le get n imax (imin - 1) asc (omega arith) (omega arith),
        hb (imin - 1) (omega arith),
      ))
  binary_loop-IsPosition (suc fuel) n imin imax id val asc hn small h1 h2 h3 hb ha hf =
      elim (dec_lt imax imin) [
        | yes over ↦ absurd (
            omega (
              arith,
              Ascends-le get n imax (imin - 1) asc (omega arith) (omega arith),
              hb (imin - 1) (omega arith),
            ))
        | no le ↦
            let mid = middle imin imax in
            let (lo, hi) = middle_bounds imin imax (omega arith) (omega arith) in
            let exact : get mid % u32_mod ≡ get mid = omega (arith, small mid (omega arith)) in
            rw
              (
                binary_loop_step fuel imin imax id val mid refl h1 (omega arith) (omega arith),
                exact,
              )
              (elim (Bool-cases (val == get mid)) [
                | inl eq ↦ rw eq (
                    IsPosition-hit get n val mid asc (omega arith)
                      (sym ((==_iff val (get mid)).0 eq)))
                | inr ne ↦ elim (Bool-cases (ltb (get mid) val)) [
                  | inl lt ↦
                      rw (ne, lt)
                        (binary_loop-IsPosition fuel n (mid + 1) imax mid val asc hn small
                          (omega arith) (omega arith) h3 (at_mid mid (ltb→lt (get mid) val lt)) ha
                          (omega arith))
                  | inr ge ↦ elim (Bool-cases (leb val (get (mid - 1)))) [
                    | inl further ↦
                        rw (ne, ge, further)
                          (binary_loop-IsPosition fuel n imin (mid - 1) mid val asc hn small h1 h2
                            (omega arith) hb (leb→le val (get (mid - 1)) further) (omega arith))
                    | inr stop ↦
                        rw (ne, ge, stop)
                          (IsPosition-miss get n val mid asc (omega arith)
                            (before_mid mid (leb→gt val (get (mid - 1)) stop)) (λ h. ground arith))
                  ]
                ]
              ])
      ]
    where
      at_mid : (mid : ℕ) → get mid < val → Before get (mid + 1) val
      at_mid mid h i e = let same : i ≡ mid = omega arith in rw same h

      before_mid : (mid : ℕ) → get (mid - 1) < val → Before get mid val
      before_mid mid h i e = let same : i ≡ mid - 1 = omega arith in rw same h

  pub binary_search-IsPosition :
      (n val : ℕ)
      → Ascends get n
      → n ≤ 2 ^ 31
      → ((i : ℕ) → i < n → get i < u32_mod)
      → 0 < n
      → val ≤ get (n - 1)
      → IsPosition get n val (binary_search get n val)
  unfolding binary_search
  binary_search-IsPosition n val asc hn small pos top = elim (Bool-cases (val == get 0)) [
    | inl eq ↦
        rw (not_empty, eq) (IsPosition-hit get n val 0 asc pos (sym ((==_iff val (get 0)).0 eq)))
    | inr ne ↦ elim (Bool-cases (ltb val (get 0))) [
      | inl lt ↦
          rw (not_empty, ne, lt)
            (IsPosition-miss get n val 0 asc (omega arith) (λ i e. absurd (omega arith))
              (λ h. ltb→lt val (get 0) lt))
      | inr ge ↦
          rw (not_empty, ne, ge, ge→ltb (get (n - 1)) val top)
            (binary_loop-IsPosition n n 1 (n - 1) 0 val asc hn small (omega arith) pos (omega arith)
              (first (above_first ne ge)) top (omega arith))
    ]
  ]
    where
      not_empty : (n == 0) ≡ false
      not_empty = ground arith

      above_first : (val == get 0) ≡ false → ltb val (get 0) ≡ false → get 0 < val
      above_first ne ge = ground arith

      first : get 0 < val → Before get 1 val
      first h i e = let same : i ≡ 0 = omega arith in rw same h
