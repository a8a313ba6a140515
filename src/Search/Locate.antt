-- ===== src/Search/Locate.antt =====
-- `_locate`, which chooses between the two searches.
use pelikan.Common.{
  refl, ℕ, zero, suc, ◌-◌, ◌^◌, ◌≤◌, ◌<◌, ◌≡◌, inl, inr, false, arith, ltb, ◌==◌, Bool-cases,
  ltb→lt, ltb→ge,
}
use pelikan.Search.Position.{IsPosition, Ascends, Before, IsPosition-miss}
use pelikan.Search.Linear.{linear_search-IsPosition}
use pelikan.Search.Binary.{binary_search-IsPosition}
use pelikan.Common.Words.{u32_mod}
use pelikan.Common.Words.{add32, sub32}
use pelikan.Search.{middle, binary_loop, binary_search, should_scan, locate}

module _ (get : ℕ → ℕ) where
  -- On ascending entries, at most 2^31 of them, and below 2^32 where they are searched by halving,
  -- `_locate` answers whether one of them is the value, and gives its index, or else the index of
  -- the first larger one.
  pub locate-IsPosition :
      (n esize val : ℕ)
      → Ascends get n
      → n ≤ 2 ^ 31
      → ((i : ℕ) → should_scan n esize ≡ false → i < n → get i < u32_mod)
      → IsPosition get n val (locate get n esize val)
  unfolding locate
  locate-IsPosition zero esize val asc hn small =
      IsPosition-miss get zero val zero asc (omega arith) (λ i e. absurd (omega arith))
        (λ h. absurd (omega arith))
  locate-IsPosition (suc m) esize val asc hn small = elim (Bool-cases (ltb (get m) val)) [
    | inl past ↦
        rw (not_empty, last, past)
          (IsPosition-miss get (suc m) val (suc m) asc (omega arith)
            (behind (ltb→lt (get m) val past)) (λ h. absurd (omega arith)))
    | inr inside ↦ elim (Bool-cases (should_scan (suc m) esize)) [
      | inl scan ↦
          rw (not_empty, last, inside, scan)
            (linear_search-IsPosition get (suc m) val asc (omega arith) (rw last (top inside)))
      | inr halve ↦
          rw (not_empty, last, inside, halve)
            (binary_search-IsPosition get (suc m) val asc hn (λ i. small i halve) (omega arith)
              (rw last (top inside)))
    ]
  ]
    where
      not_empty : (suc m == 0) ≡ false
      not_empty = ground arith

      last : suc m - 1 ≡ m
      last = omega arith

      top : ltb (get m) val ≡ false → val ≤ get m
      top h = ltb→ge (get m) val h

      behind : get m < val → Before get (suc m) val
      behind h i e = let same : i ≡ m = omega arith in rw same h

  binary_loop_wide :
      (fuel imin imax id val : ℕ)
      → u32_mod ≤ val
      → (binary_loop get fuel imin imax id val).0 ≡ false
  unfolding binary_loop
  binary_loop_wide zero imin imax id val h = refl
  binary_loop_wide (suc fuel) imin imax id val h =
      let mid = middle imin imax in
      ground (
        arith,
        binary_loop_wide fuel (add32 mid 1) imax mid val h,
        binary_loop_wide fuel imin (sub32 mid 1) mid val h,
      )

  -- The binary search finds no value from 2^32 on, the first entry excepted.
  pub locate_wide :
      (n esize val : ℕ)
      → should_scan n esize ≡ false
      → u32_mod ≤ val
      → get 0 < val
      → (locate get n esize val).0 ≡ false
  unfolding locate binary_search
  locate_wide n esize val halve h above = ground (arith, binary_loop_wide n 1 (n - 1) 0 val h)
