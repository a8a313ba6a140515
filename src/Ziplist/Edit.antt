-- ===== src/Ziplist/Edit.antt =====
-- The functions of ziplist.c that search for a value, and those that change the list.
use pelikan.Common.{
  ℕ, zero, suc, ◌+◌, ◌-◌, ◌&&◌, ◌||◌, Option, none, some, ltb, ◌==◌, if◌then◌else◌, length,
  replicate,
}
use pelikan.Common.Words.{add32, sub32}
use pelikan.Common.Memory.{Bytes, slice, memmove, byte, bytes_eq}
use pelikan.Common.Int.{ℤ, pos, neg, pos_part, neg_part, leb_ℤ, ltb_ℤ, ◌+ℤ◌, ◌-ℤ◌, wrap64}
use pelikan.Blob.{Blob}
use pelikan.Ziplist.{
  Ziplist, Status, ok, enotfound, eoob, einvalid, error, encode_size, zipentry_len, zipentry_get,
  refused, zipentry_encode, nentry, nend, set_nentry, set_nend, ziplist_head, reset, skip, adjust,
  locate, fromright,
}

-- The search loop of `ziplist_find`: `left` entries are to be compared, `z` is the entry at `i`, and
-- the value is encoded in `buf`.
unfoldable pub find_from : Ziplist → Bytes → ℕ → ℕ → ℕ → Option (ℕ × ℕ)
find_from zl buf zero i z = none
find_from zl buf (suc left) i z =
    let n = if ltb (nend zl + 1 - z) (length buf) then nend zl + 1 - z else length buf in
    let rest = find_from zl buf left (i + 1) (z + zipentry_len zl z) in
    if bytes_eq (slice z n zl) (slice 0 n buf) then some (z, i) else rest

-- The value as it is encoded at the start of the static buffer.
unfoldable pub encoded : Blob → Bytes
encoded val = slice 0 (encode_size val) (zipentry_encode 0 val (replicate 255 0))

-- The entry and its index; both are NULL and -1 where the value is not found.
unfoldable pub find : Option Ziplist → Blob → Status × Option (ℕ × ℕ)
find none val = (error, none)
find (some zl) val =
    let found = find_from zl (encoded val) (nentry zl) 0 ziplist_head in
    if refused val
    then (einvalid, none)
    else (elim found [ none ↦ (enotfound, none) | some r ↦ (ok, some r) ])

-- `_ziplist_remove`: the entries from `begin` up to `end`, `count` of them.
unfoldable pub remove_range : Ziplist → ℕ → ℕ → ℕ → Ziplist
remove_range zl begin end count =
    let moved = memmove begin end (nend zl + 1 - end) zl in
    let fewer = set_nentry (sub32 (nentry moved) count) moved in
    set_nend (sub32 (nend fewer) (end - begin)) fewer

-- The second half of `ziplist_remove`, where the count is positive.
unfoldable pub remove_at : Ziplist → ℤ → ℤ → Status × Option Ziplist
remove_at zl idx count =
    let n = pos (nentry zl) in
    if (ltb_ℤ idx (pos 0) || ltb_ℤ n idx) || leb_ℤ n (wrap64 (wrap64 (idx +ℤ count) -ℤ pos 1))
    then (eoob, some zl)
    else (elim (locate (some zl) idx).1 [
      | none ↦ (error, some zl)
      | some begin ↦
          (ok, some (remove_range zl begin (skip zl (pos_part count) begin) (pos_part count)))
    ])

unfoldable pub remove : Option Ziplist → ℤ → ℤ → Status × Option Ziplist
remove none idx count = (error, none)
remove (some zl) idx count =
    let i = adjust idx (nentry zl) in
    let back = wrap64 (neg count) in
    if pos_part count == 0 && neg_part count == 0
    then (ok, some zl)
    else if ltb_ℤ count (pos 0)
    then remove_at zl (wrap64 (wrap64 (i -ℤ back) +ℤ pos 1)) back
    else remove_at zl i count

-- `_ziplist_add`: the header after the value is written at `ze`.
unfoldable pub add : Ziplist → ℕ → Blob → Ziplist
add zl ze val =
    let written = zipentry_encode ze val zl in
    let more = set_nentry (add32 (nentry written) 1) written in
    set_nend (add32 (nend more) (encode_size val)) more

unfoldable pub insert : Option Ziplist → Blob → ℤ → Status × Option Ziplist
insert none val idx = (error, none)
insert (some zl) val idx =
    let n = nentry zl in
    let i = adjust idx n in
    let sz = encode_size val in
    if refused val
    then (einvalid, some zl)
    else if ltb_ℤ i (pos 0) || ltb_ℤ (pos n) i
    then (eoob, some zl)
    else if pos_part i == n
    then (ok, some (add zl (nend zl + 1) val))
    else (elim (locate (some zl) i).1 [
      | none ↦ (error, some zl)
      | some ze ↦ (ok, some (add (memmove (ze + sz) ze (nend zl + 1 - ze) zl) ze val))
    ])

unfoldable pub push : Option Ziplist → Blob → Status × Option Ziplist
push none val = (error, none)
push (some zl) val =
    if refused val then (einvalid, some zl) else (ok, some (add zl (nend zl + 1) val))

-- The value is what goes through `val`, and the new list.
unfoldable pub pop : Option Ziplist → Status × Option Blob × Option Ziplist
pop none = (error, none, none)
pop (some zl) =
    let ze = fromright zl 0 in
    let last = byte (nend zl) zl in
    let fewer = set_nentry (sub32 (nentry zl) 1) zl in
    if nentry zl == 0
    then (eoob, none, some zl)
    else (ok, some (zipentry_get zl (some ze)).1, some (set_nend (sub32 (nend fewer) last) fewer))

unfoldable pub truncate : Option Ziplist → ℤ → Status × Option Ziplist
truncate none count = (error, none)
truncate (some zl) count =
    let n = pos (nentry zl) in
    let c = neg_part count in
    if pos_part count == 0 && neg_part count == 0
    then (ok, some zl)
    else if leb_ℤ n count || leb_ℤ n (wrap64 (neg count))
    then reset (some zl)
    else if ltb_ℤ (pos 0) count
    then (elim (locate (some zl) count).1 [
      | none ↦ (error, some zl)
      | some end ↦ (ok, some (remove_range zl ziplist_head end (pos_part count)))
    ])
    else (elim (locate (some zl) (n -ℤ pos c)).1 [
      | none ↦ (error, some zl)
      | some begin ↦ (ok, some (remove_range zl begin (nend zl + 1) c))
    ])

-- The list that a truncation leaves, whose status the code asserts to be OK.
unfoldable pub truncated : Ziplist → ℤ → Ziplist
truncated zl count = elim (truncate (some zl) count).1 [ none ↦ zl | some zl' ↦ zl' ]

unfoldable pub count_of : Ziplist → ℤ
count_of zl = pos (nentry zl)

-- Truncating to `count` entries from the end, and to `- count` entries from the beginning.
unfoldable pub trim_end : Ziplist → ℤ → Ziplist
trim_end zl count =
    if ltb_ℤ count (count_of zl) then truncated zl (neg (count_of zl -ℤ count)) else zl

unfoldable pub trim_start : Ziplist → ℤ → Ziplist
trim_start zl count =
    if ltb_ℤ (wrap64 (neg count)) (count_of zl) then truncated zl (count_of zl +ℤ count) else zl

unfoldable pub trim : Option Ziplist → ℤ → ℤ → Status × Option Ziplist
trim none idx count = (error, none)
trim (some zl) idx count =
    let i = adjust idx (nentry zl) in
    if ltb_ℤ i (pos 0) || leb_ℤ (count_of zl) i
    then (eoob, some zl)
    else if ltb_ℤ (pos 0) count
    then (ok, some (trim_end (truncated zl i) count))
    else (ok, some (trim_start (truncated zl (neg (count_of zl -ℤ i))) count))
