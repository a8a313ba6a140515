-- ===== src/Ziplist/Remove.antt =====
-- `ziplist_remove`: the range that an index and a count mean, and its removal.
use pelikan.Common.{
  ℕ, zero, suc, ◌+◌, ◌-◌, ◌≤◌, ◌<◌, ◌^◌, ◌≡◌, refl, ◌∙◌, true, false, Option, none, some, inl, inr,
  arith, List, ◌++◌, length, take, drop, ltb, leb, Bool-cases, if◌then◌else◌, ◌||◌, leb→le, ltb→lt,
}
use pelikan.Common.Memory.{Bytes}
use pelikan.Common.Int.{
  ℤ, pos, negsuc, ltb_ℤ, leb_ℤ, ◌+ℤ◌, ◌-ℤ◌, wrap64, pos_part, neg_part, sub_ℕ, wrap64-sub_ℕ,
  pos_part-sub_ℕ, neg_part-sub_ℕ, IsNear, wrap64_pos,
}
use pelikan.Blob.{Blob}
use pelikan.Ziplist.{Ziplist, Status, ok, eoob, adjust}
use pelikan.Ziplist.Edit.{remove_at, remove}
use pelikan.Ziplist.Lists.{Lists, nentry_lem, length-le-span}
use pelikan.Ziplist.Locate.{resolve, located, adjust_pos, adjust_within, adjust_below, skip_lem}
use pelikan.Ziplist.Shrink.{cut}

-- Where a removal starts, and how many entries it takes: a negative count reaches back from the
-- entry at the index.
abbrev pub resolve_range : ℤ → ℤ → ℕ → Option (ℕ × ℕ)
resolve_range idx (pos zero) n = some (0, 0)
resolve_range idx (pos (suc k)) n = elim (resolve idx n) [
  | none ↦ none
  | some i ↦ if leb (i + suc k) n then some (i, suc k) else none
]
resolve_range idx (negsuc k) n = elim (resolve idx n) [
  | none ↦ none
  | some i ↦ if leb k i then some (i - k, suc k) else none
]

-- What the removal of a range answers and leaves.
abbrev pub Removed : Ziplist → List Blob → Status × Option Ziplist → Option (ℕ × ℕ) → Type 0
Removed zl xs answer none = answer ≡ (eoob, some zl)
Removed zl xs answer (some r) =
    (zl' : Ziplist) × (rest : Bytes) × (answer ≡ (ok, some zl'))
    × Lists zl' (take r.0 xs ++ drop (r.0 + r.1) xs) rest

-- What `adjust` makes of an index.
unfoldable pub Adjusted : ℤ → ℕ → Option ℕ → Type 0
Adjusted idx n none = (ltb_ℤ (adjust idx n) (pos 0) || leb_ℤ (pos n) (adjust idx n)) ≡ true
Adjusted idx n (some i) = (adjust idx n ≡ pos i) × (i < n)

pub adjusted : (idx : ℤ) (n : ℕ) → Adjusted idx n (resolve idx n)
unfolding Adjusted
adjusted (pos i) n = elim (Bool-cases (ltb i n)) [
  | inl lt ↦ rw lt (adjust_pos i n, ltb→lt i n lt)
  | inr ge ↦ rw (ge, adjust_pos i n) (ground arith)
]
adjusted (negsuc i) n = elim (Bool-cases (ltb i n)) [
  | inl lt ↦ rw lt (adjust_within i n lt, omega (arith, ltb→lt i n lt))
  | inr ge ↦ rw (ge, adjust_below i n ge) (ground arith)
]

OutOf : ℤ → ℕ → ℕ → Type 0
OutOf j n k =
    ((ltb_ℤ j (pos 0) || ltb_ℤ (pos n) j) || leb_ℤ (pos n) (j +ℤ pos (suc k) -ℤ pos 1)) ≡ true

forward_out : (j : ℤ) (n k : ℕ) → (ltb_ℤ j (pos 0) || leb_ℤ (pos n) j) ≡ true → OutOf j n k
unfolding OutOf
forward_out (pos i) n k h = ground arith
forward_out (negsuc i) n k h = ground arith

backward_out :
    (j : ℤ) (n k : ℕ)
    → (ltb_ℤ j (pos 0) || leb_ℤ (pos n) j) ≡ true
    → OutOf (j -ℤ pos (suc k) +ℤ pos 1) n k
unfolding OutOf
backward_out (pos i) n k h = ground arith
backward_out (negsuc i) n k h = ground arith

long_out : (i k n : ℕ) → leb (i + suc k) n ≡ false → OutOf (pos i) n k
unfolding OutOf
long_out i k n h = ground arith

early_out : (i k n : ℕ) → leb k i ≡ false → OutOf (pos i -ℤ pos (suc k) +ℤ pos 1) n k
unfolding OutOf
early_out i k n h = ground arith

-- The ends of a range are not wrapped around.
range_end :
    (j : ℤ) (k : ℕ)
    → pos_part j < 2 ^ 62
    → neg_part j < 2 ^ 62
    → k < 2 ^ 61
    → wrap64 (wrap64 (j +ℤ pos (suc k)) -ℤ pos 1) ≡ j +ℤ pos (suc k) -ℤ pos 1
range_end j k p n s =
    let sum = sub_ℕ (pos_part j + suc k) (neg_part j + 0) in
    let hp = pos_part-sub_ℕ (pos_part j + suc k) (neg_part j + 0) in
    let hn = neg_part-sub_ℕ (pos_part j + suc k) (neg_part j + 0) in
    rw (wrap64-sub_ℕ (pos_part j + suc k) (neg_part j + 0) (omega (arith, p, s)) (omega (arith, n)))
      (wrap64-sub_ℕ (pos_part sum + 0) (neg_part sum + 1) (omega (arith, p, s, hp))
        (omega (arith, n, hn)))

range_start :
    (j : ℤ) (k : ℕ)
    → pos_part j < 2 ^ 62
    → neg_part j < 2 ^ 62
    → k < 2 ^ 61
    → wrap64 (wrap64 (j -ℤ pos (suc k)) +ℤ pos 1) ≡ j -ℤ pos (suc k) +ℤ pos 1
range_start j k p n s =
    let sum = sub_ℕ (pos_part j + 0) (neg_part j + suc k) in
    let hp = pos_part-sub_ℕ (pos_part j + 0) (neg_part j + suc k) in
    let hn = neg_part-sub_ℕ (pos_part j + 0) (neg_part j + suc k) in
    rw (wrap64-sub_ℕ (pos_part j + 0) (neg_part j + suc k) (omega (arith, p)) (omega (arith, n, s)))
      (wrap64-sub_ℕ (pos_part sum + 1) (neg_part sum + 0) (omega (arith, p, hp))
        (omega (arith, n, s, hn)))

adjust_near :
    (idx : ℤ) (n : ℕ)
    → (pos_part (adjust idx n) ≤ pos_part idx + n) × (neg_part (adjust idx n) ≤ neg_part idx)
unfolding adjust
adjust_near (pos i) n = (ground arith, ground arith)
adjust_near (negsuc i) n = (ground arith, ground arith)

-- The index that a range which reaches back starts at.
start_near :
    (j : ℤ) (k : ℕ)
    → (pos_part (j -ℤ pos (suc k) +ℤ pos 1) ≤ pos_part j + 1)
      × (neg_part (j -ℤ pos (suc k) +ℤ pos 1) ≤ neg_part j + suc k)
start_near j k = (ground arith, ground arith)

module _ {zl : Ziplist} {xs : List Blob} {rest : Bytes} (h : Lists zl xs rest) where
  short : length xs < 2 ^ 32
  short = omega (arith, h.fits, length-le-span xs h.valid)

  remove_within :
      (s k : ℕ)
      → s + suc k ≤ length xs
      → Removed zl xs (remove_at zl (pos s) (pos (suc k))) (some (s, suc k))
  unfolding remove_at
  remove_within s k le = (
    _,
    _,
    rw
        (
          nentry_lem h,
          range_end (pos s) k (omega (arith, le, short)) (omega arith) (omega (arith, le, short)),
          inside,
          located h (pos s) s (adjust_pos s (length xs)) (omega arith),
          skip_lem h (suc k) s le,
        )
        refl,
    cut h s (suc k) le,
  )
    where
      inside :
          ((ltb_ℤ (pos s) (pos 0) || ltb_ℤ (pos (length xs)) (pos s))
            || leb_ℤ (pos (length xs)) (pos s +ℤ pos (suc k) -ℤ pos 1))
          ≡ false
      inside = ground arith

  remove_outside :
      (idx : ℤ) (k : ℕ)
      → pos_part idx < 2 ^ 62
      → neg_part idx < 2 ^ 62
      → k < 2 ^ 61
      → ((ltb_ℤ idx (pos 0) || ltb_ℤ (pos (length xs)) idx)
          || leb_ℤ (pos (length xs)) (idx +ℤ pos (suc k) -ℤ pos 1))
        ≡ true
      → remove_at zl idx (pos (suc k)) ≡ (eoob, some zl)
  unfolding remove_at OutOf
  remove_outside idx k p n s out = rw (nentry_lem h, range_end idx k p n s, out)

  remove-forward :
      (idx : ℤ) (k : ℕ)
      → remove (some zl) idx (pos (suc k)) ≡ remove_at zl (adjust idx (length xs)) (pos (suc k))
  unfolding remove
  remove-forward idx k = rw (nentry_lem h) (ground arith)

  remove-backward :
      (idx : ℤ) (k : ℕ)
      → IsNear idx
      → k < 2 ^ 61 - 1
      → remove (some zl) idx (negsuc k)
        ≡ remove_at zl (adjust idx (length xs) -ℤ pos (suc k) +ℤ pos 1) (pos (suc k))
  unfolding remove
  remove-backward idx k near s =
      let n = adjust_near idx (length xs) in
      rw
        (
          nentry_lem h,
          wrap64_pos (suc k) (omega (arith, s)),
          range_start (adjust idx (length xs)) k (omega (arith, near.0, n.0, short))
              (omega (arith, near.1, n.1)) (omega (arith, s)),
        )
        (ground arith)

  refused_forward :
      (idx : ℤ) (k : ℕ)
      → IsNear idx
      → k < 2 ^ 61
      → OutOf (adjust idx (length xs)) (length xs) k
      → remove (some zl) idx (pos (suc k)) ≡ (eoob, some zl)
  unfolding OutOf
  refused_forward idx k near s out =
      let n = adjust_near idx (length xs) in
      remove-forward idx k
      ∙ remove_outside (adjust idx (length xs)) k (omega (arith, near.0, n.0, short))
          (omega (arith, near.1, n.1)) s out

  refused_backward :
      (idx : ℤ) (k : ℕ)
      → IsNear idx
      → k < 2 ^ 61 - 1
      → OutOf (adjust idx (length xs) -ℤ pos (suc k) +ℤ pos 1) (length xs) k
      → remove (some zl) idx (negsuc k) ≡ (eoob, some zl)
  unfolding OutOf
  refused_backward idx k near s out =
      let n = adjust_near idx (length xs) in
      let m = start_near (adjust idx (length xs)) k in
      remove-backward idx k near s
      ∙ remove_outside (adjust idx (length xs) -ℤ pos (suc k) +ℤ pos 1) k
          (omega (arith, near.0, n.0, m.0, short)) (omega (arith, near.1, n.1, m.1, s))
          (omega (arith, s)) out

  remove_none : (idx : ℤ) → remove (some zl) idx (pos zero) ≡ (ok, some zl)
  unfolding remove
  remove_none idx = refl

  start_of : (i k : ℕ) → k ≤ i → pos i -ℤ pos (suc k) +ℤ pos 1 ≡ pos (i - k)
  start_of i k le = ground arith

  -- `ziplist_remove` takes out as many entries as the count says, from the index on or for a
  -- negative count back from it, and refuses a range that is not in the list with EOOB and no
  -- change, where the index and the count are between -2^61 and 2^61, so that the code does not
  -- overflow.
  pub remove-Lists :
      (idx count : ℤ)
      → IsNear idx
      → IsNear count
      → Removed zl xs (remove (some zl) idx count) (resolve_range idx count (length xs))
  unfolding Adjusted
  remove-Lists idx (pos zero) near few = (zl, rest, remove_none idx, h)
  remove-Lists idx (pos (suc k)) near few =
      forward (resolve idx (length xs)) (adjusted idx (length xs))
    where
      forward :
          (r : Option ℕ)
          → Adjusted idx (length xs) r
          → Removed zl xs (remove (some zl) idx (pos (suc k))) (elim r [
            | none ↦ none
            | some i ↦ if leb (i + suc k) (length xs) then some (i, suc k) else none
          ])
      forward none out =
          refused_forward idx k near (omega (arith, few.0))
            (forward_out (adjust idx (length xs)) (length xs) k out)
      forward (some i) (e, lt) = elim (Bool-cases (leb (i + suc k) (length xs))) [
        | inl le ↦
            rw (le, remove-forward idx k, e) (remove_within i k (leb→le (i + suc k) (length xs) le))
        | inr gt ↦
            rw gt (
              refused_forward idx k near (omega (arith, few.0))
                (rw e (long_out i k (length xs) gt)))
      ]
  remove-Lists idx (negsuc k) near few =
      backward (resolve idx (length xs)) (adjusted idx (length xs))
    where
      backward :
          (r : Option ℕ)
          → Adjusted idx (length xs) r
          → Removed zl xs
              (remove (some zl) idx (negsuc k))
              (elim r [ none ↦ none | some i ↦ if leb k i then some (i - k, suc k) else none ])
      backward none out =
          refused_backward idx k near (omega (arith, few.1))
            (backward_out (adjust idx (length xs)) (length xs) k out)
      backward (some i) (e, lt) = elim (Bool-cases (leb k i)) [
        | inl le ↦
            rw
              (
                le,
                remove-backward idx k near (omega (arith, few.1)),
                e,
                start_of i k (leb→le k i le),
              )
              (remove_within (i - k) k (omega (arith, leb→le k i le)))
        | inr gt ↦ rw gt (
            refused_backward idx k near (omega (arith, few.1))
              (rw e (early_out i k (length xs) gt)))
      ]
