-- ===== src/Resp.antt =====
-- protocol/data/resp/token.c and token.h: the elements of RESP, read from and written to a buffer. A
-- buffer that is read is its readable bytes, from `rpos` to `wpos`, and reading returns those that
-- are left. A buffer that is written is its bytes and the size that is left for writing. The buffer
-- library and the printing of an integer are parameters.
pub mod Buffer
pub mod Compose
pub mod Wire
pub mod Parse
pub mod RoundTrip
pub mod Commands
pub mod Message
pub mod Request
pub mod Response
pub mod Elements
pub mod Attributes
pub mod Accepts
pub mod Settled
pub mod Verbs
pub mod Meaning
pub mod Limits
pub mod Refusals
pub mod Replies
pub mod Exchange
pub mod Room
mod Tests
use pelikan.Common.{
  ℕ, zero, suc, ◌+◌, ◌-◌, ◌*◌, ◌/◌, ◌%◌, ◌^◌, Bool, true, false, not, ◌&&◌, ◌||◌, Option, none,
  some, leb, ltb, ◌==◌, if◌then◌else◌, List, [], ◌∷◌, ◌++◌, length, take, drop, get_or,
}
use pelikan.Common.Memory.{Bytes}
use pelikan.Common.Int.{ℤ, pos, negsuc, neg, pos_part, neg_part, ltb_ℤ, ◌+ℤ◌, wrap64}

pub data ParseStatus : Type 0 where
  parse_ok eunfin eempty eoversize einvalid eother : ParseStatus

pub data ComposeStatus : Type 0 where
  compose_ok compose_eunfin enomem compose_einvalid compose_eother : ComposeStatus

pub data Element : Type 0 where
  elem_str : Bytes → Element
  elem_err : Bytes → Element
  elem_int : ℤ → Element
  elem_bulk : Bytes → Element
  elem_array : ℤ → Element
  elem_attrib : ℤ → Element
  elem_nil : Element
  elem_null : Element

abbrev pub cr : ℕ
cr = 13

abbrev pub lf : ℕ
lf = 10

abbrev pub crlf : Bytes
crlf = cr ∷ lf ∷ []

abbrev pub minus : ℕ
minus = 45

abbrev pub str_maxlen : ℕ
str_maxlen = 255

abbrev pub bulk_maxlen : ℕ
bulk_maxlen = 512 * 2 ^ 20

abbrev pub int64_max : ℤ
int64_max = pos (2 ^ 63 - 1)

abbrev pub int64_min : ℤ
int64_min = negsuc (2 ^ 63 - 1)

-- `line_end`: two bytes at least, and CRLF the first two.
unfoldable pub line_end : Bytes → Bool
line_end [] = false
line_end (a ∷ []) = false
line_end (a ∷ b ∷ rest) = a == cr && b == lf

-- The rest of a simple string of which `len` bytes were read: the string and the bytes left.
unfoldable pub read_str_from : ℕ → Bytes → ParseStatus × Bytes × Bytes
read_str_from len [] = (eunfin, [], [])
read_str_from len (c ∷ cs) =
    let (status, s, left) = read_str_from (len + 1) cs in
    if line_end (c ∷ cs)
    then (parse_ok, [], drop 2 (c ∷ cs))
    else if ltb str_maxlen (len + 1)
    then (eoversize, c ∷ [], c ∷ cs)
    else (status, c ∷ s, left)

unfoldable pub read_str : Bytes → ParseStatus × Bytes × Bytes
read_str buf = read_str_from 0 buf

unfoldable pub is_digit : ℕ → Bool
is_digit c = leb 48 c && leb c 57

abbrev pub times10 : ℤ → ℤ
times10 (pos n) = pos (n * 10)
times10 (negsuc n) = neg (pos (suc n * 10))

-- Division by 10, towards 0.
abbrev pub quot10 : ℤ → ℤ
quot10 (pos n) = pos (n / 10)
quot10 (negsuc n) = neg (pos (suc n / 10))

abbrev pub signed : Bool → ℕ → ℤ
signed negative n = if negative then neg (pos n) else pos n

-- The loop of `_read_int`, where `len` digits are read and `num` is their value so far.
unfoldable pub read_digits : Bool → ℤ → ℤ → ℤ → ℕ → Bytes → ParseStatus × ℤ × Bytes
read_digits negative min max num len [] = (eunfin, num, [])
read_digits negative min max num len (c ∷ cs) =
    let more =
      read_digits negative min max (wrap64 (times10 num +ℤ signed negative (c - 48))) (len + 1)
        cs in
    if is_digit c
    then (if ltb_ℤ num (quot10 min) || ltb_ℤ (quot10 max) num
        then (einvalid, num, c ∷ cs)
        else more)
    else if len == 0 || not (c == cr)
    then (einvalid, num, c ∷ cs)
    else if line_end (c ∷ cs)
    then (if ltb_ℤ max num || ltb_ℤ num min
        then (einvalid, num, drop 2 (c ∷ cs))
        else (parse_ok, num, drop 2 (c ∷ cs)))
    else (eunfin, num, c ∷ cs)

-- Where no byte is left the code looks at the byte behind the readable ones, which is taken here not to
-- be a minus sign.
unfoldable pub read_int : ℤ → ℤ → Bytes → ParseStatus × ℤ × Bytes
read_int min max [] = (eunfin, pos 0, [])
read_int min max (c ∷ cs) =
    if c == minus
    then read_digits true min max (pos 0) 0 cs
    else read_digits false min max (pos 0) 0 (c ∷ cs)

-- The payload of a bulk string of `len` bytes, and the CRLF behind it.
unfoldable pub read_payload : ℕ → Bytes → ParseStatus × Bytes × Bytes
read_payload len buf =
    let rest = drop len buf in
    if leb (len + 2) (length buf)
    then (if line_end rest
        then (parse_ok, take len buf, drop 2 rest)
        else if get_or rest 0 0 == cr
        then (eunfin, take len buf, rest)
        else (einvalid, take len buf, rest))
    else (eunfin, [], buf)

-- The bulk string whose length was read.
abbrev pub bulk_of : ParseStatus × ℤ × Bytes → ParseStatus × Bytes × Bytes
bulk_of (parse_ok, len, rest) =
    if ltb_ℤ len (pos 0) then (eempty, [], rest) else read_payload (pos_part len) rest
bulk_of (status, len, rest) = (status, [], rest)

unfoldable pub read_bulk : Bytes → ParseStatus × Bytes × Bytes
read_bulk buf = bulk_of (read_int (negsuc 0) (pos bulk_maxlen) buf)

unfoldable pub token_is_array : Bytes → Bool
token_is_array [] = false
token_is_array (c ∷ cs) = c == 42

unfoldable pub token_is_attrib : Bytes → Bool
token_is_attrib [] = false
token_is_attrib (c ∷ cs) = c == 124

-- The element, and the bytes left; where the status is not OK the buffer is rewound to `whole`.
abbrev pub finish :
    {A : Type 0}
    → Bytes
    → (A → Element)
    → ParseStatus × A × Bytes
    → ParseStatus × Option Element × Bytes
finish whole make (parse_ok, a, rest) = (parse_ok, some (make a), rest)
finish whole make (status, a, rest) = (status, none, whole)

-- An empty bulk string is the nil element.
abbrev pub finish_bulk : Bytes → ParseStatus × Bytes × Bytes → ParseStatus × Option Element × Bytes
finish_bulk whole (eempty, s, rest) = (parse_ok, some elem_nil, rest)
finish_bulk whole (status, s, rest) = finish whole elem_bulk (status, s, rest)

unfoldable pub read_null : Bytes → Bytes → ParseStatus × Option Element × Bytes
read_null whole buf =
    if leb 2 (length buf)
    then (if line_end buf then (parse_ok, some elem_null, drop 2 buf) else (einvalid, none, whole))
    else (eunfin, none, whole)

-- An unknown type is refused without rewinding.
unfoldable pub parse_element : Bytes → ParseStatus × Option Element × Bytes
parse_element [] = (eunfin, none, [])
parse_element (c ∷ cs) =
    if c == 43
    then finish (c ∷ cs) elem_str (read_str cs)
    else if c == 45
    then finish (c ∷ cs) elem_err (read_str cs)
    else if c == 58
    then finish (c ∷ cs) elem_int (read_int int64_min int64_max cs)
    else if c == 36
    then finish_bulk (c ∷ cs) (read_bulk cs)
    else if c == 42
    then finish (c ∷ cs) elem_array (read_int (negsuc 0) (pos (2 ^ 32 - 1)) cs)
    else if c == 124
    then finish (c ∷ cs) elem_attrib (read_int (pos 1) (pos (2 ^ 31 - 1)) cs)
    else if c == 95
    then read_null (c ∷ cs) cs
    else (einvalid, none, cs)
