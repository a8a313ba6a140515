-- ===== src/Ziplist/Trim.antt =====
-- `ziplist_trim`.
use pelikan.Common.{
  ℕ, zero, suc, ◌-◌, ◌<◌, ◌^◌, ◌≡◌, refl, sym, ap, true, false, Option, none, some, inl, inr, arith,
  List, length, take, drop, ltb, ◌||◌, Bool-cases, take_all, lt→ltb, ltb→ge,
}
use pelikan.Common.Memory.{Bytes}
use pelikan.Common.Int.{
  ℤ, pos, negsuc, neg, ltb_ℤ, leb_ℤ, ◌+ℤ◌, ◌-ℤ◌, survivors, neg_part, wrap64_pos,
}
use pelikan.Blob.{Blob}
use pelikan.Ziplist.{Ziplist, Status, ok, eoob, adjust}
use pelikan.Ziplist.Edit.{truncate, truncated, count_of, trim_end, trim_start, trim}
use pelikan.Ziplist.Lists.{Lists, nentry_lem, length-le-span}
use pelikan.Ziplist.Locate.{resolve}
use pelikan.Ziplist.Remove.{Adjusted, adjusted}
use pelikan.Ziplist.Truncate.{truncate-Lists}

-- What a trim leaves of a list: up to `count` values from an index on, or for a count that is not
-- positive up to `- count` values before it.
abbrev pub window : ℕ → ℤ → List Blob → List Blob
window i (pos zero) xs = drop (length (take i xs) - 0) (take i xs)
window i (pos (suc k)) xs = take (suc k) (drop i xs)
window i (negsuc k) xs = drop (length (take i xs) - suc k) (take i xs)

-- What a trim answers and leaves.
abbrev pub Trimmed : Ziplist → List Blob → ℤ → Status × Option Ziplist → Option ℕ → Type 0
Trimmed zl xs count answer none = answer ≡ (eoob, some zl)
Trimmed zl xs count answer (some i) =
    (zl' : Ziplist) × (rest : Bytes) × (answer ≡ (ok, some zl'))
    × Lists zl' (window i count xs) rest

neg_part-neg : (k : ℕ) → neg_part (neg (pos k)) ≡ k
neg_part-neg zero = refl
neg_part-neg (suc k) = refl

-- The list has fewer than 2^32 values.
short : {zl : Ziplist} {xs : List Blob} {rest : Bytes} → Lists zl xs rest → length xs < 2 ^ 32
short {zl} {xs} h = omega (arith, h.fits, length-le-span xs h.valid)

survivors-neg : (d : ℕ) (xs : List Blob) → survivors (neg (pos d)) xs ≡ take (length xs - d) xs
survivors-neg zero xs = sym (take_all (length xs - 0) xs (omega arith))
survivors-neg (suc d) xs = refl

truncated_lem :
    (zl zl' : Ziplist) (count : ℤ)
    → truncate (some zl) count ≡ (ok, some zl')
    → truncated zl count ≡ zl'
unfolding truncated
truncated_lem zl zl' count e = rw (truncated, e)

truncated-Lists :
    {zl : Ziplist} {xs : List Blob} {rest : Bytes}
    → Lists zl xs rest
    → (count : ℤ) → neg_part count < 2 ^ 63
    → (rest' : Bytes) × Lists (truncated zl count) (survivors count xs) rest'
truncated-Lists h count b =
    let (zl', rest', done, held) = truncate-Lists h count b in
    (rest', rw (truncated_lem _ zl' count done) held)

count_lem :
    {zl : Ziplist} {xs : List Blob} {rest : Bytes}
    → Lists zl xs rest
    → count_of zl ≡ pos (length xs)
unfolding count_of
count_lem h = ap pos (nentry_lem h)

shorter : (k n : ℕ) → ltb k n ≡ true → ltb_ℤ (pos k) (pos n) ≡ true
shorter k n h = ground arith

longer : (k n : ℕ) → ltb k n ≡ false → ltb_ℤ (pos k) (pos n) ≡ false
longer k n h = ground arith

difference : (k n : ℕ) → ltb k n ≡ true → pos n -ℤ pos k ≡ pos (n - k)
difference k n h = ground arith

kept : (k n : ℕ) → ltb k n ≡ true → n - (n - k) ≡ k
kept k n h = ground arith

-- Keeping the first `k`, and the last `k`, of a list, all of it where it is not longer.
keep_first :
    {zl : Ziplist} {xs : List Blob} {rest : Bytes}
    → Lists zl xs rest
    → (k : ℕ) → (rest' : Bytes) × Lists (trim_end zl (pos k)) (take k xs) rest'
unfolding trim_end
keep_first {zl} {xs} {rest} h k = elim (Bool-cases (ltb k (length xs))) [
  | inl lt ↦
      let (rest', held) =
        truncated-Lists h (neg (pos (length xs - k)))
          (omega (arith, neg_part-neg (length xs - k), short h)) in
      (
        rest',
        rw (count_lem h, shorter k (length xs) lt, difference k (length xs) lt)
            (rw (survivors-neg (length xs - k) xs, kept k (length xs) lt) at held),
      )
  | inr ge ↦
      (rest, rw (count_lem h, longer k (length xs) ge, take_all k xs (ltb→ge k (length xs) ge)) h)
]

keep_last :
    {zl : Ziplist} {xs : List Blob} {rest : Bytes}
    → Lists zl xs rest
    → (k : ℕ) → k < 2 ^ 63
    → (rest' : Bytes) × Lists (trim_start zl (neg (pos k))) (drop (length xs - k) xs) rest'
unfolding trim_start
keep_last {zl} {xs} {rest} h k b = elim (Bool-cases (ltb k (length xs))) [
  | inl lt ↦
      let (rest', held) = truncated-Lists h (pos (length xs - k)) (omega arith) in
      (
        rest',
        rw
            (
              count_lem h,
              neg_neg k,
              wrap64_pos k b,
              shorter k (length xs) lt,
              sum_neg k (length xs) lt,
            )
            held,
      )
  | inr ge ↦
      let e : length xs - k ≡ 0 = ground arith in
      (rest, rw (count_lem h, neg_neg k, wrap64_pos k b, longer k (length xs) ge, e) h)
]
  where
    neg_neg : (k : ℕ) → neg (neg (pos k)) ≡ pos k
    neg_neg zero = refl
    neg_neg (suc k) = refl

    sum_neg : (k n : ℕ) → ltb k n ≡ true → pos n +ℤ neg (pos k) ≡ pos (n - k)
    sum_neg zero n h = ground arith
    sum_neg (suc k) n h = ground arith

module _ {zl : Ziplist} {xs : List Blob} {rest : Bytes} (h : Lists zl xs rest) where
  trim_out :
      (idx count : ℤ)
      → (ltb_ℤ (adjust idx (length xs)) (pos 0) || leb_ℤ (pos (length xs)) (adjust idx (length xs)))
        ≡ true
      → trim (some zl) idx count ≡ (eoob, some zl)
  unfolding trim
  trim_out idx count out = rw (nentry_lem h, count_lem h, out)

  inside :
      (i : ℕ) → i < length xs → (ltb_ℤ (pos i) (pos 0) || leb_ℤ (pos (length xs)) (pos i)) ≡ false
  inside i lt = ground arith

  trim_forward :
      (idx : ℤ) (i k : ℕ)
      → adjust idx (length xs) ≡ pos i
      → i < length xs
      → Trimmed zl xs (pos (suc k)) (trim (some zl) idx (pos (suc k))) (some i)
  unfolding trim
  trim_forward idx i k e lt =
      let (r, held) = truncated-Lists h (pos i) (omega arith) in
      let (r', final) = keep_first held (suc k) in
      (_, r', rw (nentry_lem h, e, count_lem h, inside i lt, positive k) refl, final)
    where
      positive : (k : ℕ) → ltb_ℤ (pos 0) (pos (suc k)) ≡ true
      positive k = ground arith

  trim_backward :
      (idx : ℤ) (i k : ℕ)
      → adjust idx (length xs) ≡ pos i
      → i < length xs
      → k < 2 ^ 63
      → (zl' : Ziplist) × (rest' : Bytes) × (trim (some zl) idx (neg (pos k)) ≡ (ok, some zl'))
        × Lists zl' (drop (length (take i xs) - k) (take i xs)) rest'
  unfolding trim
  trim_backward idx i k e lt b =
      let (r, held) =
        truncated-Lists h (neg (pos (length xs - i)))
          (omega (arith, neg_part-neg (length xs - i), short h)) in
      let held' =
        rw (survivors-neg (length xs - i) xs, kept i (length xs) (lt→ltb i (length xs) lt)) at
          held in
      let (r', final) = keep_last held' k b in
      (
        _,
        r',
        rw
            (
              nentry_lem h,
              e,
              count_lem h,
              inside i lt,
              negative k,
              difference i (length xs) (lt→ltb i (length xs) lt),
            )
            refl,
        final,
      )
    where
      negative : (k : ℕ) → ltb_ℤ (pos 0) (neg (pos k)) ≡ false
      negative zero = refl
      negative (suc k) = ground arith

  trimmed :
      (idx count : ℤ) (r : Option ℕ)
      → neg_part count < 2 ^ 63
      → Adjusted idx (length xs) r
      → Trimmed zl xs count (trim (some zl) idx count) r
  unfolding Adjusted
  trimmed idx count none b out = trim_out idx count out
  trimmed idx (pos zero) (some i) b (e, lt) = trim_backward idx i 0 e lt (omega arith)
  trimmed idx (pos (suc k)) (some i) b (e, lt) = trim_forward idx i k e lt
  trimmed idx (negsuc k) (some i) b (e, lt) = trim_backward idx i (suc k) e lt b

  -- `ziplist_trim` leaves up to `count` values from the index on, or up to `- count` values before
  -- it, and refuses an index out of range with EOOB and no change, where the count is above
  -- INT64_MIN, whose negation overflows.
  pub trim-Lists :
      (idx count : ℤ)
      → neg_part count < 2 ^ 63
      → Trimmed zl xs count (trim (some zl) idx count) (resolve idx (length xs))
  trim-Lists idx count b = trimmed idx count (resolve idx (length xs)) b (adjusted idx (length xs))
