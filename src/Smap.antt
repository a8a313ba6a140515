-- ===== src/Smap.antt =====
-- data_structure/smap/smap.c: a map from unsigned integers of one width to values of one size, in
-- ascending order of the keys. The 8-byte header is the three fields, the body the bytes behind it.
-- A pointer that may be NULL is an option; an out parameter that is written is a further result.
pub mod Maps
pub mod Lookup
pub mod Update
pub mod Remove
pub mod Truncate
pub mod RoundTrip
mod Tests
use pelikan.Common.{
  ℕ, zero, suc, ◌+◌, ◌-◌, ◌*◌, ◌/◌, Bool, true, false, not, ◌&&◌, ◌||◌, Option, none, some, leb,
  ◌==◌, if◌then◌else◌, length,
}
use pelikan.Common.Words.{add32, sub32, mul32}
use pelikan.Common.Memory.{Bytes, load, store, slice, splice, memmove}
use pelikan.Common.Int.{ℤ, pos, negsuc, neg, pos_part, neg_part, leb_ℤ, ltb_ℤ}
use pelikan.Search

pub data Status : Type 0 where
  ok enotfound eoob einvalid edup error : Status

pub record Smap : Type 0 where
  pub nentry : ℕ
  pub ksize : ℕ
  pub vsize : ℕ
  pub body : Bytes

-- The size of an entry, aligned to the key. No sum wraps: the sizes are `uint16_t`.
unfoldable pub entry_size : ℕ → ℕ → ℕ
entry_size ksize vsize = (ksize * 2 + vsize - 1) / ksize * ksize

abbrev pub esize : Smap → ℕ
esize sm = entry_size sm.ksize sm.vsize

unfoldable pub size : Smap → ℕ
size sm = add32 8 (mul32 (esize sm) sm.nentry)

unfoldable pub position : ℕ → ℕ → ℕ
position esize idx = mul32 esize idx

unfoldable pub validate_range : ℕ → ℕ → Bool
validate_range ksize key =
    if ksize == 8
    then true
    else if ksize == 4
    then leb key 0xffff_ffff
    else if ksize == 2
    then leb key 0xffff
    else if ksize == 1
    then leb key 0xff
    else false

unfoldable pub get_key : ℕ → ℕ → Bytes → ℕ
get_key p ksize body =
    if ksize == 8
    then load 8 p body
    else if ksize == 4
    then load 4 p body
    else if ksize == 2
    then load 2 p body
    else if ksize == 1
    then load 1 p body
    else 0

unfoldable pub set_key : ℕ → ℕ → ℕ → Bytes → Bytes
set_key p ksize key body =
    if ksize == 8
    then store 8 p key body
    else if ksize == 4
    then store 4 p key body
    else if ksize == 2
    then store 2 p key body
    else if ksize == 1
    then store 1 p key body
    else body

-- The key of the entry at an index, as the searches read it.
unfoldable pub key_of : Smap → ℕ → ℕ
key_of sm i = get_key (position (esize sm) i) sm.ksize sm.body

unfoldable pub locate : Smap → ℕ → Bool × ℕ
locate sm key = Search.locate (key_of sm) sm.nentry (esize sm) key

unfoldable pub init : Option Smap → ℕ → ℕ → Status × Option Smap
init none ksize vsize = (error, none)
init (some sm) ksize vsize =
    if not (ksize == 1) && not (ksize == 2) && not (ksize == 4) && not (ksize == 8)
    then (einvalid, some sm)
    else (ok, some (record sm { nentry = 0; ksize = ksize; vsize = vsize }))

-- The key and the bytes of the value. `idx` is unsigned: the adjustment of a negative one does
-- nothing.
unfoldable pub keyval : Option Smap → ℕ → Status × Option (ℕ × Bytes)
keyval none idx = (error, none)
keyval (some sm) idx =
    let entry = position (esize sm) idx in
    if leb sm.nentry idx
    then (eoob, none)
    else (ok, some (get_key entry sm.ksize sm.body, slice (entry + sm.ksize) sm.vsize sm.body))

-- `_locate` writes `idx` also where the key is not found.
unfoldable pub index : Option Smap → ℕ → Status × Option ℕ
index none key = (error, none)
index (some sm) key =
    if not (validate_range sm.ksize key)
    then (einvalid, none)
    else let (found, idx) = locate sm key in (if found then ok else enotfound, some idx)

unfoldable pub insert : Option Smap → ℕ → Bytes → Status × Option Smap
insert none key val = (error, none)
insert (some sm) key val =
    let (found, idx) = locate sm key in
    let p = position (esize sm) idx in
    let moved = memmove (p + esize sm) p (mul32 (esize sm) (sub32 sm.nentry idx)) sm.body in
    if not (validate_range sm.ksize key)
    then (einvalid, some sm)
    else if not (length val == sm.vsize)
    then (einvalid, some sm)
    else if found
    then (edup, some sm)
    else (
      ok,
      some (record sm {
        nentry = add32 sm.nentry 1;
        body = splice (p + sm.ksize) val (set_key p sm.ksize key moved);
      }),
    )

unfoldable pub remove : Option Smap → ℕ → Status × Option Smap
remove none key = (error, none)
remove (some sm) key =
    let (found, idx) = locate sm key in
    let p = position (esize sm) idx in
    if not (validate_range sm.ksize key)
    then (einvalid, some sm)
    else if found
    then (
      ok,
      some (record sm {
        nentry = sub32 sm.nentry 1;
        body = memmove p (p + esize sm) (mul32 (esize sm) (sub32 (sub32 sm.nentry idx) 1)) sm.body;
      }),
    )
    else (enotfound, some sm)

-- The products with `count` are taken in `int64_t`. Where `count` is added to the `uint32_t` it is
-- negative and smaller in size.
unfoldable pub truncate : Option Smap → ℤ → Status × Option Smap
truncate none count = (error, none)
truncate (some sm) count =
    let n = pos sm.nentry in
    if pos_part count == 0 && neg_part count == 0
    then (ok, some sm)
    else if leb_ℤ n count || leb_ℤ n (neg count)
    then (ok, some (record sm { nentry = 0 }))
    else if ltb_ℤ (pos 0) count
    then (
      ok,
      some (record sm {
        nentry = sub32 sm.nentry (pos_part count);
        body =
            memmove 0 (esize sm * pos_part count) (esize sm * (sm.nentry - pos_part count)) sm.body;
      }),
    )
    else (ok, some (record sm { nentry = sub32 sm.nentry (neg_part count) }))
