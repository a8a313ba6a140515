-- ===== src/Resp/Compose.antt =====
-- `compose_element` of token.c, over the operations of the buffer library.
use pelikan.Time.{to_i32}
use pelikan.Common.Words.{u32_mod}
use pelikan.Common.{ℕ, zero, suc, ◌+◌, none, some, ltb, if◌then◌else◌, [], ◌∷◌, length, ◌%◌}
use pelikan.Common.Memory.{Bytes}
use pelikan.Common.Int.{ℤ, pos, negsuc}
use pelikan.Resp.{
  Element, elem_str, elem_err, elem_int, elem_bulk, elem_array, elem_attrib, elem_nil, elem_null,
  ComposeStatus, compose_ok, enomem, crlf,
}
use pelikan.Resp.Buffer.{BufferOps}

-- "$-1" and "_", with their CRLF.
abbrev pub nil_str : Bytes
nil_str = 36 ∷ 45 ∷ 49 ∷ crlf

abbrev pub null_str : Bytes
null_str = 95 ∷ crlf

module _ {B : Type 0} (ops : BufferOps B) where
  -- The `while` loop. Each round adds room, so that `n` rounds are enough.
  unfoldable pub check_from : ℕ → B → ℕ → ComposeStatus × B
  check_from zero buf n = (compose_ok, buf)
  check_from (suc fuel) buf n =
      if ltb (ops.wsize buf) n
      then (elim (ops.double buf) [ none ↦ (enomem, buf) | some larger ↦ check_from fuel larger n ])
      else (compose_ok, buf)

  -- The argument is a `uint32_t`.
  unfoldable pub check_buf_size : B → ℕ → ComposeStatus × B
  unfolding check_from
  check_buf_size buf n = check_from (n % u32_mod) buf (n % u32_mod)

  unfoldable pub writeln_int : B → ℤ → B × ℕ
  writeln_int buf val =
      ((ops.write (ops.put buf (ops.print_int val)) crlf).0, length (ops.print_int val) + 2)

  unfoldable pub writeln_bstr : B → Bytes → B × ℕ
  writeln_bstr buf s = ((ops.write (ops.write buf s).0 crlf).0, length s + 2)

  -- The room that is asked for, a `size_t`; the sum for a bulk string is one of `uint32_t` values.
  unfoldable pub estimate : Element → ℕ
  estimate (elem_str s) = 3 + length s
  estimate (elem_err s) = 3 + length s
  estimate (elem_int z) = 3 + ops.int64_maxlen
  estimate (elem_array z) = 3 + ops.int64_maxlen
  estimate (elem_attrib z) = 3 + ops.int64_maxlen
  estimate (elem_bulk s) = 3 + (length s + ops.int64_maxlen + 2) % u32_mod
  estimate elem_nil = 3 + 2
  estimate elem_null = 3

  unfoldable pub tagged_int : B → ℕ → ℤ → B × ℕ
  tagged_int buf tag val =
      let (b, n) = ops.write buf (tag ∷ []) in let (b', m) = writeln_int b val in (b', n + m)

  unfoldable pub tagged_bstr : B → ℕ → Bytes → B × ℕ
  tagged_bstr buf tag s =
      let (b, n) = ops.write buf (tag ∷ []) in let (b', m) = writeln_bstr b s in (b', n + m)

  unfoldable pub write_element : B → Element → B × ℕ
  write_element b (elem_array z) = tagged_int b 42 z
  write_element b (elem_attrib z) = tagged_int b 124 z
  write_element b (elem_str s) = tagged_bstr b 43 s
  write_element b (elem_err s) = tagged_bstr b 45 s
  write_element b (elem_int z) = tagged_int b 58 z
  write_element b (elem_bulk s) =
      let (b1, n) = tagged_int b 36 (pos (length s)) in
      let (b2, m) = writeln_bstr b1 s in (b2, n + m)
  write_element b elem_nil = ((ops.write b nil_str).0, 5)
  write_element b elem_null = ((ops.write b null_str).0, 3)

  -- The number of bytes that were written, or the error, as an `int`.
  unfoldable pub compose_element : B → Element → ComposeStatus × ℤ × B
  compose_element buf el =
      let (status, ready) = check_buf_size buf (estimate el) in
      let (b, n) = write_element ready el in
      elim status [ compose_ok ↦ (compose_ok, to_i32 (pos n), b) | _ ↦ (enomem, negsuc 1, ready) ]
