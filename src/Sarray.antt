-- ===== src/Sarray.antt =====
-- data_structure/sarray/sarray.c: a sorted array of unsigned integers of one width. The 8-byte
-- header is the two fields, the body the bytes behind it. A pointer that may be NULL is an option;
-- an out parameter that is written is a further result. Integers are little-endian, and a plain
-- `char` is signed, as on the platforms the program is built for.
pub mod Holds
pub mod Lookup
pub mod Update
pub mod Remove
pub mod Truncate
pub mod Limits
mod Tests
use pelikan.Common.{
  ℕ, ◌+◌, ◌-◌, ◌*◌, Bool, true, false, not, ◌&&◌, ◌||◌, Option, none, some, leb, ltb, ◌==◌,
  if◌then◌else◌,
}
use pelikan.Common.Words.{u64_mod, add32, sub32, mul32}
use pelikan.Common.Memory.{Bytes, load, store, memmove}
use pelikan.Common.Int.{ℤ, pos, neg, pos_part, neg_part, leb_ℤ, ltb_ℤ}
use pelikan.Search

pub data Status : Type 0 where
  ok enotfound eoob einvalid edup error : Status

pub record Sarray : Type 0 where
  pub nentry : ℕ
  pub esize : ℕ
  pub body : Bytes

unfoldable pub size : Sarray → ℕ
size sa = add32 8 (mul32 sa.esize sa.nentry)

unfoldable pub position : ℕ → ℕ → ℕ
position esize idx = mul32 esize idx

unfoldable pub validate_range : ℕ → ℕ → Bool
validate_range esize val =
    if esize == 8
    then true
    else if esize == 4
    then leb val 0xffff_ffff
    else if esize == 2
    then leb val 0xffff
    else if esize == 1
    then leb val 0xff
    else false

-- The `uint64_t` that a signed byte converts to.
unfoldable pub sign_extend : ℕ → ℕ
sign_extend b = if ltb b 128 then b else u64_mod - 256 + b

unfoldable pub get_value : ℕ → ℕ → Bytes → ℕ
get_value p esize body =
    if esize == 8
    then load 8 p body
    else if esize == 4
    then load 4 p body
    else if esize == 2
    then load 2 p body
    else if esize == 1
    then sign_extend (load 1 p body)
    else 0

unfoldable pub set_value : ℕ → ℕ → ℕ → Bytes → Bytes
set_value p esize val body =
    if esize == 8
    then store 8 p val body
    else if esize == 4
    then store 4 p val body
    else if esize == 2
    then store 2 p val body
    else if esize == 1
    then store 1 p val body
    else body

-- The value of the entry at an index, as the searches read it.
unfoldable pub entry : Sarray → ℕ → ℕ
entry sa i = get_value (position sa.esize i) sa.esize sa.body

unfoldable pub locate : Sarray → ℕ → Bool × ℕ
locate sa val = Search.locate (entry sa) sa.nentry sa.esize val

unfoldable pub init : Option Sarray → ℕ → Status × Option Sarray
init none esize = (error, none)
init (some sa) esize =
    if not (esize == 1) && not (esize == 2) && not (esize == 4) && not (esize == 8)
    then (einvalid, some sa)
    else (ok, some (record sa { nentry = 0; esize = esize }))

-- `idx` is unsigned: the adjustment of a negative one does nothing.
unfoldable pub value : Option Sarray → ℕ → Status × Option ℕ
value none idx = (error, none)
value (some sa) idx = if leb sa.nentry idx then (eoob, none) else (ok, some (entry sa idx))

-- `_locate` writes `idx` also where the value is not found.
unfoldable pub index : Option Sarray → ℕ → Status × Option ℕ
index none val = (error, none)
index (some sa) val =
    if not (validate_range sa.esize val)
    then (einvalid, none)
    else let (found, idx) = locate sa val in (if found then ok else enotfound, some idx)

unfoldable pub insert : Option Sarray → ℕ → Status × Option Sarray
insert none val = (error, none)
insert (some sa) val =
    if not (validate_range sa.esize val)
    then (einvalid, some sa)
    else let (found, idx) = locate sa val in
      let p = position sa.esize idx in
      let moved = memmove (p + sa.esize) p (mul32 sa.esize (sub32 sa.nentry idx)) sa.body in
      if found then (edup, some sa) else (
        ok,
        some (record sa { nentry = add32 sa.nentry 1; body = set_value p sa.esize val moved }),
      )

unfoldable pub remove : Option Sarray → ℕ → Status × Option Sarray
remove none val = (error, none)
remove (some sa) val =
    if not (validate_range sa.esize val)
    then (einvalid, some sa)
    else let (found, idx) = locate sa val in
      let p = position sa.esize idx in
      if found
      then (
        ok,
        some (record sa {
          nentry = sub32 sa.nentry 1;
          body = memmove p (p + sa.esize) (mul32 sa.esize (sub32 (sub32 sa.nentry idx) 1)) sa.body;
        }),
      )
      else (enotfound, some sa)

-- The products with `count` are taken in `int64_t`. Where `count` is added to the `uint32_t` it is
-- negative and smaller in size.
unfoldable pub truncate : Option Sarray → ℤ → Status × Option Sarray
truncate none count = (error, none)
truncate (some sa) count =
    let n = pos sa.nentry in
    if pos_part count == 0 && neg_part count == 0
    then (ok, some sa)
    else if leb_ℤ n count || leb_ℤ n (neg count)
    then init (some sa) sa.esize
    else if ltb_ℤ (pos 0) count
    then (
      ok,
      some (record sa {
        nentry = sub32 sa.nentry (pos_part count);
        body =
            memmove 0 (sa.esize * pos_part count) (sa.esize * (sa.nentry - pos_part count)) sa.body;
      }),
    )
    else (ok, some (record sa { nentry = sub32 sa.nentry (neg_part count) }))
