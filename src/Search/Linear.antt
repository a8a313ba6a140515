-- ===== src/Search/Linear.antt =====
-- The loop of `_linear_search`.
use pelikan.Common.{
  ℕ, zero, suc, ◌+◌, ◌-◌, ◌≤◌, ◌<◌, ◌≡◌, inl, inr, false, arith, leb, ◌==◌, Bool-cases, leb→le,
  leb→gt,
}
use native.Mathlib.Decide.{dec_lt}
use pelikan.Search.Position.{IsPosition, Ascends, Before, IsPosition-exact}
use pelikan.Search.{linear_from, linear_search}

module _ (get : ℕ → ℕ) where
  linear_from_lem :
      (left i val : ℕ)
      → Before get i val
      → (i ≤ linear_from get left i val)
        × (linear_from get left i val ≤ i + left)
        × Before get (linear_from get left i val) val
        × (linear_from get left i val < i + left → val ≤ get (linear_from get left i val))
  unfolding linear_from
  linear_from_lem zero i val hb = (omega arith, omega arith, hb, λ h. omega arith)
  linear_from_lem (suc left) i val hb = elim (Bool-cases (leb val (get i))) [
    | inl stop ↦ rw stop (omega arith, omega arith, hb, λ h. leb→le val (get i) stop)
    | inr go ↦
        let (lo, hi, before, at) = linear_from_lem left (i + 1) val (next go) in
        rw go (omega arith, omega arith, before, λ h. at (omega arith))
  ]
    where
      next : leb val (get i) ≡ false → Before get (i + 1) val
      next go j e = let same : j ≡ i = omega arith in rw same (leb→gt val (get i) go)

  linear_search_pos :
      (n val : ℕ)
      → 0 < n
      → linear_search get n val ≡ (val == get (linear_from get n 0 val), linear_from get n 0 val)
  unfolding linear_search
  linear_search_pos n val h = ground arith

  pub linear_search-IsPosition :
      (n val : ℕ)
      → Ascends get n
      → 0 < n
      → val ≤ get (n - 1)
      → IsPosition get n val (linear_search get n val)
  linear_search-IsPosition n val asc pos top =
      let (lo, hi, before, at) = linear_from_lem n 0 val (λ i e. absurd (omega arith)) in
      rw (linear_search_pos n val pos) (
        IsPosition-exact get n val (linear_from get n 0 val) asc (stops before hi) before
          (at (omega (arith, stops before hi))))
    where
      stops :
          Before get (linear_from get n 0 val) val
          → linear_from get n 0 val ≤ 0 + n
          → linear_from get n 0 val < n
      stops before hi = elim (dec_lt (linear_from get n 0 val) n) [
        | yes h ↦ h
        | no h ↦ absurd (omega (arith, before (n - 1) (omega arith)))
      ]
