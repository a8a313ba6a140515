-- ===== src/Ziplist.antt =====
-- data_structure/ziplist/ziplist.c. The list is its memory, header included: the number of entries
-- at offset 0, the offset of the last byte at 4, little-endian, and the entries from 8 on. A pointer
-- is an offset into the memory; a pointer that may be NULL is an option; an out parameter that is
-- written is a further result.
pub mod Edit
pub mod Codec
pub mod Decode
pub mod Lists
pub mod Locate
pub mod Walk
pub mod Grow
pub mod Insert
pub mod Shrink
pub mod Remove
pub mod Ends
pub mod Truncate
pub mod Trim
pub mod Compare
pub mod Find
pub mod Values
pub mod RemoveVal
pub mod Entry
mod Tests
use Prim.Native.Nat.{Ordering}
use pelikan.Common.{
  ℕ, zero, suc, ◌+◌, ◌-◌, ◌*◌, ◌/◌, ◌%◌, ◌^◌, Bool, true, false, not, ◌&&◌, ◌||◌, Option, none,
  some, leb, ltb, ◌==◌, if◌then◌else◌, List, [], ◌∷◌, length, drop, get_or,
}
use pelikan.Common.Words.{u64_mod, add32, sub32}
use pelikan.Common.Memory.{Bytes, load, store, slice, splice, memmove, byte, set_byte}
use pelikan.Common.Int.{ℤ, pos, negsuc, neg, pos_part, neg_part, leb_ℤ, ltb_ℤ, ◌+ℤ◌, ◌-ℤ◌}
use pelikan.Blob.{Blob, invalid, int, str, blob_compare}

pub data Status : Type 0 where
  ok enotfound eoob einvalid error : Status

abbrev pub u16_max : ℕ
u16_max = 2 ^ 16 - 1

abbrev pub u24_max : ℕ
u24_max = 2 ^ 24 - 1

abbrev pub u56_max : ℕ
u56_max = 2 ^ 56 - 1

-- The size of the entry of a value, a `uint8_t`. Every caller has refused an invalid value.
unfoldable pub encode_size : Blob → ℕ
encode_size invalid = 0
encode_size (str s) = (3 + length s) % 256
encode_size (int v) =
    if leb v 250
    then 2
    else if leb v u16_max
    then 4
    else if leb v u24_max
    then 5
    else if leb v u56_max
    then 9
    else 10

unfoldable pub zipentry_len : Bytes → ℕ → ℕ
zipentry_len m ze =
    let b = byte ze m in
    if leb b 250
    then 2
    else if b == 251
    then 4
    else if b == 252
    then 5
    else if b == 253
    then 9
    else if b == 254
    then 10
    else (3 + byte (ze + 1) m) % 256

unfoldable pub zipentry_int : Bytes → ℕ → ℕ
zipentry_int m ze =
    let b = byte ze m in
    if leb b 250
    then b
    else if b == 251
    then load 2 (ze + 1) m
    else if b == 252
    then load 4 ze m / 256
    else if b == 253
    then load 8 ze m / 256
    else if b == 254
    then load 8 (ze + 1) m
    else u64_mod - 1

unfoldable pub zipentry_str : Bytes → ℕ → Bytes
zipentry_str m ze = slice (ze + 2) (byte (ze + 1) m) m

unfoldable pub zipentry_get : Bytes → Option ℕ → Status × Blob
zipentry_get m none = (error, invalid)
zipentry_get m (some ze) =
    if byte ze m == 255 then (ok, str (zipentry_str m ze)) else (ok, int (zipentry_int m ze))

-- The test that refuses a value of no type, or a text that is too long.
unfoldable pub refused : Blob → Bool
refused invalid = true
refused (int v) = false
refused (str s) = ltb 252 (length s)

unfoldable pub zipentry_size : Blob → Status × Option ℕ
zipentry_size val = if refused val then (einvalid, none) else (ok, some (encode_size val))

-- The sign of the comparison of an entry with a value.
unfoldable pub zipentry_compare : Bytes → ℕ → Blob → Ordering
zipentry_compare m ze val = blob_compare (zipentry_get m (some ze)).1 val

-- The bytes before the last of an entry.
unfoldable pub encode_value : ℕ → Blob → Bytes → Bytes
encode_value ze invalid m = m
encode_value ze (str s) m = splice (ze + 2) s (set_byte (ze + 1) (length s) (set_byte ze 255 m))
encode_value ze (int v) m =
    if leb v 250
    then set_byte ze v m
    else if leb v u16_max
    then store 2 (ze + 1) v (set_byte ze 251 m)
    else if leb v u24_max
    then store 4 ze (v * 256 + 252) m
    else if leb v u56_max
    then store 8 ze (v * 256 + 253) m
    else store 8 (ze + 1) v (set_byte ze 254 m)

unfoldable pub zipentry_encode : ℕ → Blob → Bytes → Bytes
zipentry_encode ze val m =
    let len = encode_size val in set_byte (ze + len - 1) len (encode_value ze val m)

unfoldable pub zipentry_set : Option ℕ → Blob → Bytes → Status × Bytes
zipentry_set none val m = (error, m)
zipentry_set (some ze) val m = if refused val then (einvalid, m) else (ok, zipentry_encode ze val m)

abbrev pub Ziplist : Type 0
Ziplist = Bytes

abbrev pub header_size : ℕ
header_size = 8

unfoldable pub nentry : Ziplist → ℕ
nentry zl = load 4 0 zl

unfoldable pub nend : Ziplist → ℕ
nend zl = load 4 4 zl

unfoldable pub set_nentry : ℕ → Ziplist → Ziplist
set_nentry n zl = store 4 0 n zl

unfoldable pub set_nend : ℕ → Ziplist → Ziplist
set_nend n zl = store 4 4 n zl

unfoldable pub size : Ziplist → ℕ
size zl = add32 (nend zl) 1

abbrev pub ziplist_head : ℕ
ziplist_head = header_size

unfoldable pub ziplist_tail : Ziplist → ℕ
ziplist_tail zl = nend zl + 1 - byte (nend zl) zl

unfoldable pub reset : Option Ziplist → Status × Option Ziplist
reset none = (error, none)
reset (some zl) = (ok, some (set_nend (header_size - 1) (set_nentry 0 zl)))

unfoldable pub prev : Ziplist → ℕ → Status × Option ℕ
prev zl curr = if curr == ziplist_head then (eoob, none) else (ok, some (curr - byte (curr - 1) zl))

unfoldable pub next : Ziplist → ℕ → Status × Option ℕ
next zl curr =
    if curr == ziplist_tail zl then (eoob, none) else (ok, some (curr + zipentry_len zl curr))

-- `for (; idx > 0; idx--, ze += _zipentry_len(ze));`
unfoldable pub skip : Ziplist → ℕ → ℕ → ℕ
skip zl zero ze = ze
skip zl (suc idx) ze = skip zl idx (ze + zipentry_len zl ze)

unfoldable pub fromleft : Ziplist → ℕ → ℕ
fromleft zl idx = skip zl idx ziplist_head

-- `for (; idx > 0; idx--, p -= *p);`
unfoldable pub skip_back : Ziplist → ℕ → ℕ → ℕ
skip_back zl zero p = p
skip_back zl (suc idx) p = skip_back zl idx (p - byte p zl)

unfoldable pub fromright : Ziplist → ℕ → ℕ
fromright zl idx = let p = skip_back zl idx (nend zl) in p + 1 - byte p zl

-- `idx += (idx < 0) * nentry`
unfoldable pub adjust : ℤ → ℕ → ℤ
adjust idx n = if ltb_ℤ idx (pos 0) then idx +ℤ pos n else idx

unfoldable pub locate : Option Ziplist → ℤ → Status × Option ℕ
locate none idx = (error, none)
locate (some zl) idx =
    let n = nentry zl in
    let i = adjust idx n in
    let at = pos_part i in
    if ltb_ℤ i (pos 0) || leb_ℤ (pos n) i
    then (eoob, none)
    else if ltb (at * 3) n
    then (ok, some (fromleft zl at))
    else (ok, some (fromright zl (n - 1 - at)))
