-- ===== src/Ziplist/Values.antt =====
-- `ziplist_remove_val` of ziplist.c: removing entries by their value.
use pelikan.Common.{
  ℕ, zero, suc, ◌+◌, ◌-◌, ◌%◌, Bool, ◌&&◌, Option, none, some, ltb, ◌==◌, if◌then◌else◌,
}
use pelikan.Common.Words.{u32_mod}
use pelikan.Common.Memory.{Bytes, byte}
use pelikan.Common.Int.{ℤ, pos, pos_part, neg_part, ltb_ℤ}
use pelikan.Blob.{Blob}
use pelikan.Ziplist.{
  Ziplist, Status, ok, einvalid, error, zipentry_len, nentry, nend, refused, ziplist_head,
  ziplist_tail,
}
use pelikan.Ziplist.Edit.{encoded, remove_range}
use pelikan.Ziplist.Compare.{agrees}

-- The inner loop: the entry that agrees with the encoded value, from `z` on or from `z` back; none is
-- the jump to `done`.
unfoldable pub seek : Bool → Ziplist → Bytes → ℕ → ℕ → Option ℕ
seek forward zl buf zero z = none
seek forward zl buf (suc fuel) z =
    let after = seek forward zl buf fuel (z + zipentry_len zl z) in
    let before = seek forward zl buf fuel (z - byte (z - 1) zl) in
    if agrees zl buf (nend zl + 1 - z) z
    then some z
    else if forward
    then (if z == ziplist_tail zl then none else after)
    else (if z == ziplist_head then none else before)

-- The outer loop, with the rounds that are left: the number of entries that were removed and the
-- list; none where an entry reaches over the end of the list, so that the size that is given to
-- `memmove` is negative.
unfoldable pub remove_loop : Bool → Bytes → ℕ → Ziplist → ℕ → ℕ → Option (ℕ × Ziplist)
remove_loop forward buf zero zl z nrem = some (nrem, zl)
remove_loop forward buf (suc left) zl z nrem = elim (seek forward zl buf (nentry zl + 1) z) [
  | none ↦ some (nrem, zl)
  | some at ↦
      let next = at + zipentry_len zl at in
      let rest = remove_loop forward buf left (remove_range zl at next 1) at (nrem + 1) in
      if ltb (nend zl + 1) next then none else rest
]

-- The number of entries that were removed and the list, where the call gets as far. `atmost` is a
-- `uint32_t`.
unfoldable pub remove_val : Option Ziplist → Blob → ℤ → Status × Option (ℕ × Ziplist)
remove_val none val count = (error, none)
remove_val (some zl) val count =
    let forward = ltb_ℤ (pos 0) count in
    let atmost = (if forward then pos_part count else neg_part count) % u32_mod in
    let z = if forward then ziplist_head else ziplist_tail zl in
    if refused val
    then (einvalid, none)
    else if pos_part count == 0 && neg_part count == 0
    then (ok, some (0, zl))
    else (ok, remove_loop forward (encoded val) atmost zl z 0)
