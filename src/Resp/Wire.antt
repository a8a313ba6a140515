-- ===== src/Resp/Wire.antt =====
-- The bytes of an element of RESP, and `compose_element`, which writes them.
use pelikan.Common.Words.{u32_mod}
use pelikan.Time.Expiry.{to_i32_pos}
use pelikan.Time.{to_i32}
use pelikan.Common.{
  ℕ, zero, suc, ◌+◌, ◌≤◌, ◌<◌, ◌≡◌, refl, ap, ◌∙◌, Option, none, some, inl, inr, arith, [], ◌∷◌,
  ◌++◌, append_assoc, length, length-append, ltb, Bool-cases, ltb→lt, ltb→ge, ◌-◌, ◌^◌, ◌%◌,
}
use pelikan.Common.Memory.{Bytes}
use pelikan.Common.Int.{ℤ, pos, negsuc}
use pelikan.Resp.{
  Element, elem_str, elem_err, elem_int, elem_bulk, elem_array, elem_attrib, elem_nil, elem_null,
  ComposeStatus, compose_ok, compose_eunfin, enomem, compose_einvalid, compose_eother, crlf,
}
use pelikan.Resp.Buffer.{BufferOps, BufferLaws}
use pelikan.Resp.Compose.{
  nil_str, null_str, check_from, check_buf_size, writeln_int, writeln_bstr, estimate, tagged_int,
  tagged_bstr, write_element, compose_element,
}

abbrev pub line : ℕ → Bytes → Bytes
line tag text = tag ∷ (text ++ crlf)

-- The bytes of an element, for a printing of integers.
abbrev pub wire : (ℤ → Bytes) → Element → Bytes
wire print (elem_str s) = line 43 s
wire print (elem_err s) = line 45 s
wire print (elem_int z) = line 58 (print z)
wire print (elem_bulk s) = line 36 (print (pos (length s))) ++ (s ++ crlf)
wire print (elem_array z) = line 42 (print z)
wire print (elem_attrib z) = line 124 (print z)
wire print elem_nil = nil_str
wire print elem_null = null_str

-- No text of an element is so long that its bytes are more than an `int` counts.
abbrev pub IsWritable : Element → Type 0
IsWritable (elem_str s) = length s < 2 ^ 31 - 128
IsWritable (elem_err s) = length s < 2 ^ 31 - 128
IsWritable (elem_bulk s) = length s < 2 ^ 31 - 128
IsWritable _ = Unit

module _ {B : Type 0} {ops : BufferOps B} (laws : BufferLaws ops) where
  -- The contents stay, and with the status OK there is room for `n` bytes; otherwise the buffer cannot
  -- grow.
  abbrev Ready : ℕ → B → ComposeStatus × B → Type 0
  Ready n buf (compose_ok, b) = (n ≤ ops.wsize b) × (laws.contents b ≡ laws.contents buf)
  Ready n buf (enomem, b) = (laws.contents b ≡ laws.contents buf) × (ops.double b ≡ none)
  Ready n buf (status, b) = ⊥

  Ready-double :
      (n : ℕ) (buf larger : B) (r : ComposeStatus × B)
      → laws.contents larger ≡ laws.contents buf
      → Ready n larger r
      → Ready n buf r
  Ready-double n buf larger (compose_ok, b) e h = (h.0, h.1 ∙ e)
  Ready-double n buf larger (enomem, b) e h = (h.0 ∙ e, h.1)
  Ready-double n buf larger (compose_eunfin, b) e h = absurd h
  Ready-double n buf larger (compose_einvalid, b) e h = absurd h
  Ready-double n buf larger (compose_eother, b) e h = absurd h

  check_from_lem :
      (fuel n : ℕ) (buf : B) → n ≤ fuel + ops.wsize buf → Ready n buf (check_from ops fuel buf n)
  unfolding check_from
  check_from_lem zero n buf h = (omega arith, refl)
  check_from_lem (suc fuel) n buf h = elim (Bool-cases (ltb (ops.wsize buf) n)) [
    | inl short ↦ rw short (
        grown (λ larger le. check_from_lem fuel n larger le) (ltb→lt (ops.wsize buf) n short)
          (ops.double buf) refl)
    | inr fits ↦ rw fits (ltb→ge (ops.wsize buf) n fits, refl)
  ]
    where
      grown :
          ((larger : B)
            → n ≤ fuel + ops.wsize larger
            → Ready n larger (check_from ops fuel larger n))
          → ops.wsize buf < n
          → (d : Option B) → ops.double buf ≡ d
          → Ready n buf
              (elim d [ none ↦ (enomem, buf) | some larger ↦ check_from ops fuel larger n ])
      grown next short none e = (refl, e)
      grown next short (some larger) e =
          Ready-double n buf larger _ (laws.contents-double buf larger e)
            (next larger (omega (arith, laws.wsize-double buf larger e)))

  check_buf_size_lem : (buf : B) (n : ℕ) → n < u32_mod → Ready n buf (check_buf_size ops buf n)
  unfolding check_buf_size
  check_buf_size_lem buf n h =
      let e : n % u32_mod ≡ n = omega arith in rw e (check_from_lem n n buf (omega arith))

  estimate_small : (el : Element) → IsWritable el → estimate ops el < u32_mod
  unfolding estimate
  estimate_small (elem_str s) h = omega (arith, h)
  estimate_small (elem_err s) h = omega (arith, h)
  estimate_small (elem_int z) h = omega (arith, laws.int64_maxlen-small)
  estimate_small (elem_bulk s) h =
      let e : (length s + ops.int64_maxlen + 2) % u32_mod ≡ length s + ops.int64_maxlen + 2 =
        omega (arith, h, laws.int64_maxlen-small) in
      rw e (omega (arith, h, laws.int64_maxlen-small))
  estimate_small (elem_array z) h = omega (arith, laws.int64_maxlen-small)
  estimate_small (elem_attrib z) h = omega (arith, laws.int64_maxlen-small)
  estimate_small elem_nil h = omega arith
  estimate_small elem_null h = omega arith

  printed_small : (z : ℤ) → length (ops.print_int z ++ crlf) < 64
  printed_small z = omega (
    arith,
    length-append (ops.print_int z) crlf,
    laws.length-print_int z,
    laws.int64_maxlen-small,
  )

  wire_small : (el : Element) → IsWritable el → length (wire ops.print_int el) < 2 ^ 31
  wire_small (elem_str s) h = omega (arith, h, length-append s crlf)
  wire_small (elem_err s) h = omega (arith, h, length-append s crlf)
  wire_small (elem_int z) h = omega (arith, printed_small z)
  wire_small (elem_bulk s) h = omega (
    arith,
    h,
    printed_small (pos (length s)),
    length-append s crlf,
    length-append (ops.print_int (pos (length s)) ++ crlf) (s ++ crlf),
  )
  wire_small (elem_array z) h = omega (arith, printed_small z)
  wire_small (elem_attrib z) h = omega (arith, printed_small z)
  wire_small elem_nil h = omega arith
  wire_small elem_null h = omega arith

  -- A write of `bs`.
  abbrev Wrote : B → Bytes → B × ℕ → Type 0
  Wrote b bs (b', n) =
      (laws.contents b' ≡ laws.contents b ++ bs)
      × (n ≡ length bs)
      × (ops.wsize b' + length bs ≡ ops.wsize b)

  Wrote-then :
      (b b1 b2 : B) (n m : ℕ) (bs cs : Bytes)
      → Wrote b bs (b1, n)
      → Wrote b1 cs (b2, m)
      → Wrote b (bs ++ cs) (b2, n + m)
  Wrote-then b b1 b2 n m bs cs h k = (
    k.0 ∙ ap (λ t. t ++ cs) h.0 ∙ append_assoc (laws.contents b) bs cs,
    omega (arith, length-append bs cs, h.1, k.1),
    omega (arith, length-append bs cs, h.2, k.2),
  )

  wrote : (b : B) (bs : Bytes) → length bs ≤ ops.wsize b → Wrote b bs (ops.write b bs)
  wrote b bs h = (laws.contents-write b bs h, laws.count-write b bs h, laws.wsize-write b bs h)

  Wrote-int :
      (b : B) (z : ℤ)
      → length (ops.print_int z) + 2 ≤ ops.wsize b
      → Wrote b (ops.print_int z ++ crlf) (writeln_int ops b z)
  unfolding writeln_int
  Wrote-int b z h =
      let put : Wrote b (ops.print_int z) (ops.put b (ops.print_int z), length (ops.print_int z)) =
        (
          laws.contents-put b (ops.print_int z) (omega arith),
          refl,
          laws.wsize-put b (ops.print_int z) (omega arith),
        ) in
      let ends =
        wrote (ops.put b (ops.print_int z)) crlf
          (omega (arith, laws.wsize-put b (ops.print_int z) (omega arith))) in
      Wrote-then b _ _ (length (ops.print_int z)) 2 (ops.print_int z) crlf put
        (ends.0, refl, ends.2)

  Wrote-bstr :
      (b : B) (s : Bytes) → length s + 2 ≤ ops.wsize b → Wrote b (s ++ crlf) (writeln_bstr ops b s)
  unfolding writeln_bstr
  Wrote-bstr b s h =
      let first = wrote b s (omega arith) in
      let ends = wrote (ops.write b s).0 crlf (omega (arith, laws.wsize-write b s (omega arith))) in
      Wrote-then b _ _ (length s) 2 s crlf (first.0, refl, first.2) (ends.0, refl, ends.2)

  tagged_int_lem :
      (b : B) (tag : ℕ) (z : ℤ)
      → length (ops.print_int z) + 3 ≤ ops.wsize b
      → Wrote b (line tag (ops.print_int z)) (tagged_int ops b tag z)
  unfolding tagged_int
  tagged_int_lem b tag z h =
      Wrote-then b _ _ _ _ (tag ∷ []) (ops.print_int z ++ crlf) (wrote b (tag ∷ []) (omega arith)) (
        Wrote-int (ops.write b (tag ∷ [])).0 z
          (omega (arith, laws.wsize-write b (tag ∷ []) (omega arith))))

  tagged_bstr_lem :
      (b : B) (tag : ℕ) (s : Bytes)
      → length s + 3 ≤ ops.wsize b
      → Wrote b (line tag s) (tagged_bstr ops b tag s)
  unfolding tagged_bstr
  tagged_bstr_lem b tag s h =
      Wrote-then b _ _ _ _ (tag ∷ []) (s ++ crlf) (wrote b (tag ∷ []) (omega arith)) (
        Wrote-bstr (ops.write b (tag ∷ [])).0 s
          (omega (arith, laws.wsize-write b (tag ∷ []) (omega arith))))

  write_element_lem :
      (b : B) (el : Element)
      → IsWritable el
      → estimate ops el ≤ ops.wsize b
      → Wrote b (wire ops.print_int el) (write_element ops b el)
  unfolding write_element estimate
  write_element_lem b (elem_str s) w h = tagged_bstr_lem b 43 s (omega arith)
  write_element_lem b (elem_err s) w h = tagged_bstr_lem b 45 s (omega arith)
  write_element_lem b (elem_int z) w h =
      tagged_int_lem b 58 z (omega (arith, laws.length-print_int z))
  write_element_lem b (elem_array z) w h =
      tagged_int_lem b 42 z (omega (arith, laws.length-print_int z))
  write_element_lem b (elem_attrib z) w h =
      tagged_int_lem b 124 z (omega (arith, laws.length-print_int z))
  write_element_lem b (elem_bulk s) w h =
      let e : (length s + ops.int64_maxlen + 2) % u32_mod ≡ length s + ops.int64_maxlen + 2 =
        omega (arith, w, laws.int64_maxlen-small) in
      let first =
        tagged_int_lem b 36 (pos (length s))
          (omega (arith, h, e, laws.length-print_int (pos (length s)))) in
      Wrote-then b _ _ _ _ (line 36 (ops.print_int (pos (length s)))) (s ++ crlf) first (
        Wrote-bstr _ s (
          omega (
            arith,
            h,
            e,
            first.2,
            length-append (ops.print_int (pos (length s))) crlf,
            laws.length-print_int (pos (length s)),
          )))
  write_element_lem b elem_nil w h = let r = wrote b nil_str (omega arith) in (r.0, refl, r.2)
  write_element_lem b elem_null w h = let r = wrote b null_str (omega arith) in (r.0, refl, r.2)

  -- What `compose_element` answers and leaves.
  abbrev pub Composed : B → Element → ComposeStatus × ℤ × B → Type 0
  Composed buf el (compose_ok, n, b) =
      (laws.contents b ≡ laws.contents buf ++ wire ops.print_int el)
      × (n ≡ pos (length (wire ops.print_int el)))
  Composed buf el (enomem, n, b) =
      (laws.contents b ≡ laws.contents buf) × (ops.double b ≡ none) × (n ≡ negsuc 1)
  Composed buf el (status, n, b) = ⊥

  -- Where the buffer library keeps its laws, and a text of the element is shorter than 2^31 - 128
  -- bytes, `compose_element` appends the bytes of the element and returns their number, or answers
  -- that there is no memory and leaves the contents as they are, in a buffer that cannot be doubled.
  pub compose_element_lem :
      (buf : B) (el : Element) → IsWritable el → Composed buf el (compose_element ops buf el)
  unfolding compose_element
  compose_element_lem buf el w =
      composed (check_buf_size ops buf (estimate ops el))
        (check_buf_size_lem buf (estimate ops el) (estimate_small el w))
    where
      composed :
          (r : ComposeStatus × B)
          → Ready (estimate ops el) buf r
          → Composed buf el (elim r.0 [
            | compose_ok ↦ (
              compose_ok,
              to_i32 (pos (write_element ops r.1 el).1),
              (write_element ops r.1 el).0,
            )
            | _ ↦ (enomem, negsuc 1, r.1)
          ])
      composed (compose_ok, b) (room, same) =
          let r = write_element_lem b el w room in
          (
            r.0 ∙ ap (λ t. t ++ wire ops.print_int el) same,
            ap (λ n. to_i32 (pos n)) r.1
                ∙ to_i32_pos (length (wire ops.print_int el)) (wire_small el w),
          )
      composed (enomem, b) (same, full) = (same, full, refl)
      composed (compose_eunfin, b) h = absurd h
      composed (compose_einvalid, b) h = absurd h
      composed (compose_eother, b) h = absurd h
