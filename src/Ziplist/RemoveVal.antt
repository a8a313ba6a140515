-- ===== src/Ziplist/RemoveVal.antt =====
-- `ziplist_remove_val`: its inner loop, one round of the outer loop, and the empty list.
use pelikan.Common.{
  ℕ, zero, suc, ◌+◌, ◌-◌, ◌%◌, ◌≤◌, ◌<◌, ◌≡◌, ◌≢◌, refl, sym, ap, ◌∙◌, true, false, ◌&&◌, Option,
  none, some, inl, inr, arith, List, [], ◌++◌, length, take, drop, get_or, ltb, ◌==◌, Bool-cases,
  ==_eq, ==_lt, ge→ltb, lt→ltb, take-append-drop,
}
use pelikan.Common.Words.{u32_mod}
use pelikan.Common.Memory.{Bytes, slice, bytes_eq}
use pelikan.Common.Int.{pos, pos_part, neg_part, ltb_ℤ}
use pelikan.Blob.{Blob, invalid}
use pelikan.Ziplist.{Ziplist, Status, ok, zipentry_len, nentry, nend, ziplist_tail}
use pelikan.Ziplist.Edit.{remove_range}
use pelikan.Ziplist.Codec.{IsEntry, entry_bytes}
use pelikan.Ziplist.Lists.{Lists, offset, span, nentry_lem, nend_lem}
use pelikan.Ziplist.Walk.{ziplist_tail_lem, offset_mono}
use pelikan.Ziplist.Grow.{IsEntry-refused, span-append}
use pelikan.Ziplist.Shrink.{cut}
use pelikan.Ziplist.Compare.{agrees, encoded_lem}
use pelikan.Ziplist.Find.{FirstFrom, FirstFrom-suc, agrees_at, agrees_back, next_place, no_both}
use pelikan.Ziplist.Values.{seek, remove_loop, remove_val}

abbrev pub place_of : List Blob → Option ℕ → Option (ℕ × ℕ)
place_of xs none = none
place_of xs (some i) = some (offset xs i, i)

module _ {zl : Ziplist} {xs : List Blob} {rest : Bytes} (h : Lists zl xs rest) (v : Blob)
    (hv : IsEntry v) where
  -- From an entry on, the inner loop comes to the first entry of the value.
  seek_forward :
      (fuel i : ℕ)
      → i < length xs
      → length xs ≤ i + fuel
      → (r : Option ℕ) × (seek true zl (entry_bytes v) fuel (offset xs i)
          ≡ (elim r [ none ↦ none | some k ↦ some (offset xs k) ]))
        × FirstFrom v xs i (place_of xs r)
  unfolding seek
  seek_forward zero i lt le = absurd (omega arith)
  seek_forward (suc fuel) i lt le =
      elim (Bool-cases (agrees zl (entry_bytes v) (nend zl + 1 - offset xs i) (offset xs i))) [
        | inl same ↦ (
          some i,
          rw same refl,
          (refl, omega arith, lt, agrees_at h v hv i lt same, λ j le' lt'. absurd (omega arith)),
        )
        | inr other ↦ elim (Bool-cases (suc i == length xs)) [
          | inl last ↦ (
            none,
            rw
                (
                  other,
                  ==_eq (offset xs i) (ziplist_tail zl) (sym (ziplist_tail_lem h i (ground arith))),
                )
                refl,
            FirstFrom-suc v xs i none (differs other) (λ j le' lt'. absurd (ground arith)),
          )
          | inr more ↦
              let (r, e, f) = seek_forward fuel (suc i) (ground arith) (omega arith) in
              (
                r,
                rw (other, before_tail more, next_place h v hv i lt) e,
                FirstFrom-suc v xs i (place_of xs r) (differs other) f,
              )
        ]
      ]
    where
      differs :
          agrees zl (entry_bytes v) (nend zl + 1 - offset xs i) (offset xs i) ≡ false
          → get_or xs i invalid ≢ v
      differs other same = no_both _ (agrees_back h v hv i lt same) other

      before_tail : (suc i == length xs) ≡ false → (offset xs i == ziplist_tail zl) ≡ false
      before_tail more =
          let e : suc (length xs - 1) ≡ length xs = omega arith in
          let l : i < length xs - 1 = ground arith in
          ==_lt (offset xs i) (ziplist_tail zl) (
            omega (
              arith,
              ziplist_tail_lem h (length xs - 1) e,
              offset_mono h i (length xs - 1) l (omega arith),
            ))

-- What the removal of one entry by its value answers and leaves, for the place of the entry.
abbrev pub RemovedOne : Ziplist → List Blob → Status × Option (ℕ × Ziplist) → Option ℕ → Type 0
RemovedOne zl xs answer none = answer ≡ (ok, some (0, zl))
RemovedOne zl xs answer (some i) =
    (zl' : Ziplist) × (rest : Bytes) × (answer ≡ (ok, some (1, zl')))
    × Lists zl' (take i xs ++ drop (suc i) xs) rest

loop_none :
    (buf : Bytes) (left z n : ℕ) (zl : Ziplist)
    → seek true zl buf (nentry zl + 1) z ≡ none
    → remove_loop true buf (suc left) zl z n ≡ some (n, zl)
unfolding remove_loop
loop_none buf left z n zl e = rw (remove_loop, e) refl

loop_some :
    (buf : Bytes) (left z n at : ℕ) (zl : Ziplist)
    → seek true zl buf (nentry zl + 1) z ≡ some at
    → ltb (nend zl + 1) (at + zipentry_len zl at) ≡ false
    → remove_loop true buf (suc left) zl z n
      ≡ remove_loop true buf left (remove_range zl at (at + zipentry_len zl at) 1) at (n + 1)
unfolding remove_loop
loop_some buf left z n at zl e fits = rw (remove_loop, e, fits) refl

loop_over :
    (buf : Bytes) (left z n at : ℕ) (zl : Ziplist)
    → seek true zl buf (nentry zl + 1) z ≡ some at
    → ltb (nend zl + 1) (at + zipentry_len zl at) ≡ true
    → remove_loop true buf (suc left) zl z n ≡ none
unfolding remove_loop
loop_over buf left z n at zl e over = rw (remove_loop, e, over) refl

loop_end : (buf : Bytes) (z n : ℕ) (zl : Ziplist) → remove_loop true buf 0 zl z n ≡ some (n, zl)
unfolding remove_loop
loop_end buf z n zl = refl

remove_val-forward :
    (zl : Ziplist) (v : Blob) (k : ℕ)
    → IsEntry v
    → suc k < u32_mod
    → remove_val (some zl) v (pos (suc k)) ≡ (ok, remove_loop true (entry_bytes v) (suc k) zl 8 0)
unfolding remove_val
remove_val-forward zl v k hv fits =
    rw (IsEntry-refused v hv, encoded_lem v hv, positive k, some_of k, small k fits) refl
  where
    positive : (k : ℕ) → ltb_ℤ (pos 0) (pos (suc k)) ≡ true
    positive k = ground arith

    some_of : (k : ℕ) → (pos_part (pos (suc k)) == 0 && neg_part (pos (suc k)) == 0) ≡ false
    some_of k = ground arith

    small : (k : ℕ) → suc k < u32_mod → suc k % u32_mod ≡ suc k
    small k h = omega arith

module _ {zl : Ziplist} {xs : List Blob} {rest : Bytes} (h : Lists zl xs rest) (v : Blob)
    (hv : IsEntry v) where
  one_round :
      (r : Option ℕ)
      → seek true zl (entry_bytes v) (nentry zl + 1) 8
        ≡ (elim r [ none ↦ none | some k ↦ some (offset xs k) ])
      → FirstFrom v xs 0 (place_of xs r)
      → RemovedOne zl xs (ok, remove_loop true (entry_bytes v) 1 zl 8 0) r
  one_round none e f = ap (λ t. (ok, t)) (loop_none (entry_bytes v) 0 8 0 zl e)
  one_round (some i) e f = (
    remove_range zl (offset xs i) (offset xs (suc i)) 1,
    _,
    ap (λ t. (ok, t))
        (loop_some (entry_bytes v) 0 8 0 (offset xs i) zl e within ∙ loop_end _ _ _ _ ∙ ends),
    rw one at (cut h i 1 (omega (arith, f.2))),
  )
    where
      place : offset xs i + zipentry_len zl (offset xs i) ≡ offset xs (suc i)
      place = next_place h v hv i f.2

      one : i + 1 ≡ suc i
      one = omega arith

      ends :
          ◌≡◌ {A = Option (ℕ × Ziplist)}
            (some (
              0 + 1,
              remove_range zl (offset xs i) (offset xs i + zipentry_len zl (offset xs i)) 1,
            ))
            (some (1, remove_range zl (offset xs i) (offset xs (suc i)) 1))
      ends = ap {A = ℕ} (λ t. some (1, remove_range zl (offset xs i) t 1)) place

      whole : span xs ≡ span (take (suc i) xs) + span (drop (suc i) xs)
      whole =
          ap span (sym (take-append-drop (suc i) xs))
          ∙ span-append (take (suc i) xs) (drop (suc i) xs)

      within : ltb (nend zl + 1) (offset xs i + zipentry_len zl (offset xs i)) ≡ false
      within = ge→ltb _ _ (omega (arith, place, nend_lem h, whole))

  -- From a list that is not empty `ziplist_remove_val` with the count 1 removes the first entry of the
  -- value, and nothing where the list does not have the value.
  pub remove_val-RemovedOne :
      1 ≤ length xs
      → (r : Option ℕ) × FirstFrom v xs 0 (place_of xs r)
        × RemovedOne zl xs (remove_val (some zl) v (pos 1)) r
  remove_val-RemovedOne some_entry =
      let (r, e, f) =
        seek_forward h v hv (nentry zl + 1) 0 (omega arith) (omega (arith, nentry_lem h)) in
      (r, f, rw (remove_val-forward zl v 0 hv (omega arith)) (one_round r e f))

-- No bytes are compared where no room is left.
seek_nothing :
    (zl : Ziplist) (buf : Bytes) (z : ℕ)
    → 1 ≤ length buf
    → nend zl + 1 - z ≡ 0
    → seek true zl buf 1 z ≡ some z
unfolding seek slice bytes_eq
seek_nothing zl buf z l e = rw (e, lt→ltb 0 (length buf) l) refl

-- On an empty list the comparison of no bytes finds an entry where there is none, and the call does
-- not get as far as an answer, whatever the count above 0, where the bytes behind the list do not
-- read as an entry of size 0.
pub remove_val_empty :
    {zl : Ziplist} {rest : Bytes}
    → Lists zl [] rest
    → (v : Blob) (k : ℕ) → IsEntry v
    → suc k < u32_mod
    → 1 ≤ zipentry_len zl 8
    → remove_val (some zl) v (pos (suc k)) ≡ (ok, none)
remove_val_empty {zl} h v k hv fits over =
    remove_val-forward zl v k hv fits
    ∙ ap (λ t. (ok, t))
        (loop_over (entry_bytes v) k 8 0 8 zl found (lt→ltb _ _ (omega (arith, nend_lem h))))
  where
    add_one : nentry zl + 1 ≡ 1
    add_one = omega (arith, nentry_lem h)

    no_room : nend zl + 1 - 8 ≡ 0
    no_room = omega (arith, nend_lem h)

    found : seek true zl (entry_bytes v) (nentry zl + 1) 8 ≡ some 8
    found = rw add_one (seek_nothing zl (entry_bytes v) 8 (omega arith) no_room)
