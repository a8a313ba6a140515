-- ===== src/Search.antt =====
-- The searches that sarray.c and smap.c repeat, over the function `get` that reads the value (or
-- the key) of the entry at an index. `uint32_t` sums are taken mod 2^32.
pub mod Position
pub mod Linear
pub mod Binary
pub mod Locate
pub mod Sorted
pub mod Layout
pub mod Shift
use pelikan.Common.Words.{u32_mod, add32, sub32, mul32}
use pelikan.Common.{
  ℕ, zero, suc, ◌+◌, ◌-◌, ◌*◌, ◌/◌, ◌%◌, ◌^◌, Bool, true, false, ltb, leb, ◌==◌, if◌then◌else◌,
  ◌||◌,
}

abbrev pub scan_threshold : ℕ
scan_threshold = 64

-- The uint32_t product that decides between the two searches.
unfoldable pub should_scan : ℕ → ℕ → Bool
unfolding mul32
should_scan nentry esize = leb (mul32 nentry esize) scan_threshold

unfoldable pub middle : ℕ → ℕ → ℕ
unfolding add32
middle imin imax = add32 imin imax / 2

module _ (get : ℕ → ℕ) where
  -- The `for` loop from index `i`, with the rounds that are left; `*idx` is `i` throughout.
  pub linear_from : ℕ → ℕ → ℕ → ℕ
  linear_from zero i val = i
  linear_from (suc left) i val =
      let rest = linear_from left (i + 1) val in if leb val (get i) then i else rest

  unfoldable pub linear_search : ℕ → ℕ → Bool × ℕ
  unfolding linear_from
  linear_search nentry val =
      if nentry == 0
      then (false, 0)
      else let idx = linear_from nentry 0 val in (val == get idx, idx)

  -- The `while` loop; `id` is the last middle. `curr` is a uint32_t. The fuel given is the number of
  -- entries; without fuel the loop ends as by its test.
  pub binary_loop : ℕ → ℕ → ℕ → ℕ → ℕ → Bool × ℕ
  unfolding middle sub32
  binary_loop zero imin imax id val = (false, id)
  binary_loop (suc fuel) imin imax id val =
      let mid = middle imin imax in
      let curr = get mid % u32_mod in
      let previous = sub32 mid 1 in
      let right = binary_loop fuel (add32 mid 1) imax mid val in
      let left = binary_loop fuel imin previous mid val in
      if leb imin imax
      then (if val == curr
          then (true, mid)
          else if ltb curr val
          then right
          else if leb val (get previous)
          then left
          else (false, mid))
      else (false, id)

  unfoldable pub binary_search : ℕ → ℕ → Bool × ℕ
  unfolding binary_loop
  binary_search nentry val =
      if nentry == 0
      then (false, 0)
      else if val == get 0
      then (true, 0)
      else if ltb val (get 0)
      then (false, 0)
      else if ltb (get (nentry - 1)) val
      then (false, nentry)
      else binary_loop nentry 1 (nentry - 1) 0 val

  unfoldable pub locate : ℕ → ℕ → ℕ → Bool × ℕ
  locate nentry esize val =
      if nentry == 0 || ltb (get (nentry - 1)) val
      then (false, nentry)
      else if should_scan nentry esize
      then linear_search nentry val
      else binary_search nentry val
