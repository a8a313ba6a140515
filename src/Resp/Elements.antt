-- ===== src/Resp/Elements.antt =====
-- Lists of elements: their bytes, `parse_range` on them and `compose_tokens`, which writes them.
use pelikan.Time.Expiry.{to_i32_pos}
use pelikan.Time.{to_i32}
use pelikan.Common.{
  ℕ, suc, ◌+◌, ◌≡◌, sym, ap, ◌∙◌, arith, none, some, List, [], ◌∷◌, ◌++◌, append_assoc, length,
  length-append, ◌<◌, ◌^◌, refl, if◌then◌else◌, false,
}
use mathlib.Core.List.{append-nil}
use pelikan.Common.Memory.{Bytes}
use pelikan.Common.Int.{ℤ, negsuc, pos, pos_part, ltb_ℤ, ◌+ℤ◌}
use pelikan.Resp.{
  parse_ok, Element, ComposeStatus, compose_ok, enomem, compose_eunfin, compose_einvalid,
  compose_eother, parse_element, elem_str, elem_err, elem_int, elem_bulk, elem_array, elem_attrib,
  elem_nil, elem_null,
}
use pelikan.Resp.Buffer.{BufferOps, BufferLaws}
use pelikan.Resp.Compose.{compose_element}
use pelikan.Resp.Wire.{wire, Composed, compose_element_lem, IsWritable}
use pelikan.Resp.RoundTrip.{Sendable, parse_element-wire}
use pelikan.Resp.Message.{with_element, parse_range}
use pelikan.Resp.Request.{compose_tokens}

-- The bytes of elements, one behind the other.
abbrev pub wires : (ℤ → Bytes) → List Element → Bytes
wires print [] = []
wires print (el ∷ els) = wire print el ++ wires print els

abbrev pub AllSendable : (ℤ → Bytes) → List Element → Type 0
AllSendable print [] = Unit
AllSendable print (el ∷ els) = Sendable print el × AllSendable print els

pub parse_range_step :
    (print : ℤ → Bytes) (el : Element) (n : ℕ) (token : List Element) (rest : Bytes)
    → Sendable print el
    → parse_range (suc n) token (wire print el ++ rest) ≡ parse_range n (token ++ (el ∷ [])) rest
unfolding parse_range parse_element
parse_range_step print el n token rest h =
    step (wire print el ++ rest) (parse_element-wire print el rest h)
  where
    step :
        (buf : Bytes)
        → parse_element buf ≡ (parse_ok, some el, rest)
        → parse_range (suc n) token buf ≡ parse_range n (token ++ (el ∷ [])) rest
    step [] e = ground (arith, e)
    step (c ∷ cs) e =
        ap
          (with_element (λ status. (status, token, c ∷ cs))
            (λ el' rest'. parse_range n (token ++ (el' ∷ [])) rest'))
          e

pub parse_range-wires :
    (print : ℤ → Bytes) (els token : List Element) (rest : Bytes)
    → AllSendable print els
    → parse_range (length els) token (wires print els ++ rest) ≡ (parse_ok, token ++ els, rest)
unfolding parse_range
parse_range-wires print [] token rest h = ap (λ t. (parse_ok, t, rest)) (sym (append-nil token))
parse_range-wires print (el ∷ els) token rest h =
    rw (append_assoc (wire print el) (wires print els) rest) (
      parse_range_step print el (length els) token (wires print els ++ rest) h.0
      ∙ parse_range-wires print els (token ++ (el ∷ [])) rest h.1
      ∙ ap (λ t. (parse_ok, t, rest)) (append_assoc token (el ∷ []) els))

abbrev pub AllWritable : List Element → Type 0
AllWritable [] = Unit
AllWritable (el ∷ els) = IsWritable el × AllWritable els

Sendable-IsWritable : (print : ℤ → Bytes) (el : Element) → Sendable print el → IsWritable el
Sendable-IsWritable print (elem_str s) h = omega (arith, h.1)
Sendable-IsWritable print (elem_err s) h = omega (arith, h.1)
Sendable-IsWritable print (elem_int z) h = tt
Sendable-IsWritable print (elem_bulk s) h = omega (arith, h.0)
Sendable-IsWritable print (elem_array z) h = tt
Sendable-IsWritable print (elem_attrib z) h = tt
Sendable-IsWritable print elem_nil h = tt
Sendable-IsWritable print elem_null h = tt

pub AllSendable-AllWritable :
    (print : ℤ → Bytes) (els : List Element) → AllSendable print els → AllWritable els
AllSendable-AllWritable print [] h = tt
AllSendable-AllWritable print (el ∷ els) h =
    (Sendable-IsWritable print el h.0, AllSendable-AllWritable print els h.1)

pub positive : (k : ℕ) → ltb_ℤ (pos k) (pos 0) ≡ false
positive k = ground arith

module _ {B : Type 0} {ops : BufferOps B} (laws : BufferLaws ops) where
  -- What `compose_tokens` answers and leaves, where `n` is the number of bytes before: the number
  -- afterwards is the sum, as long as an `int` holds it.
  abbrev pub ComposedAll : ℤ → B → List Element → ComposeStatus × ℤ × B → Type 0
  ComposedAll n buf els (compose_ok, m, b) =
      (laws.contents b ≡ laws.contents buf ++ wires ops.print_int els)
      × ((k : ℕ)
          → n ≡ pos k
          → k + length (wires ops.print_int els) < 2 ^ 31
          → m ≡ pos (k + length (wires ops.print_int els)))
  ComposedAll n buf els (enomem, m, b) = (ops.double b ≡ none) × (m ≡ negsuc 1)
  ComposedAll n buf els (status, m, b) = ⊥

  ComposedAll-cons :
      (n : ℤ) (ret : ℕ) (buf b : B) (el : Element) (els : List Element) (r : ComposeStatus × ℤ × B)
      → Composed laws buf el (compose_ok, pos ret, b)
      → ComposedAll (to_i32 (n +ℤ pos ret)) b els r
      → ComposedAll n buf (el ∷ els) r
  ComposedAll-cons n ret buf b el els (compose_ok, m, b') h k = (
    k.0
        ∙ ap (λ t. t ++ wires ops.print_int els) h.0
        ∙ append_assoc (laws.contents buf) (wire ops.print_int el) (wires ops.print_int els),
    counted,
  )
    where
      counted :
          (j : ℕ)
          → n ≡ pos j
          → j + length (wire ops.print_int el ++ wires ops.print_int els) < 2 ^ 31
          → m ≡ pos (j + length (wire ops.print_int el ++ wires ops.print_int els))
      counted j e small =
          let len = length-append (wire ops.print_int el) (wires ops.print_int els) in
          let size : ret ≡ length (wire ops.print_int el) = ap pos_part h.1 in
          let bound : j + ret < 2 ^ 31 = omega (arith, small, len, size) in
          k.1 (j + ret)
            (ap (λ z. to_i32 (z +ℤ pos ret)) e ∙ ap to_i32 (sum j ret) ∙ to_i32_pos (j + ret) bound)
            (omega (arith, small, len, size))
          ∙ ap pos (omega (arith, len, size))
        where
          sum : (a b : ℕ) → pos a +ℤ pos b ≡ pos (a + b)
          sum a b = ground arith
  ComposedAll-cons n ret buf b el els (enomem, m, b') h k = k
  ComposedAll-cons n ret buf b el els (compose_eunfin, m, b') h k = absurd k
  ComposedAll-cons n ret buf b el els (compose_einvalid, m, b') h k = absurd k
  ComposedAll-cons n ret buf b el els (compose_eother, m, b') h k = absurd k

  -- What follows an element.
  abbrev after_element :
      (ℤ → B → ComposeStatus × ℤ × B) → ComposeStatus × ℤ × B → ComposeStatus × ℤ × B
  after_element more (status, ret, b) =
      let rest = more ret b in if ltb_ℤ ret (pos 0) then (status, ret, b) else rest

  ComposedAll-after :
      (n : ℤ) (buf : B) (el : Element) (els : List Element) (more : ℤ → B → ComposeStatus × ℤ × B)
      (r : ComposeStatus × ℤ × B)
      → ((ret : ℕ) (b : B) → ComposedAll (to_i32 (n +ℤ pos ret)) b els (more (pos ret) b))
      → Composed laws buf el r
      → ComposedAll n buf (el ∷ els) (after_element more r)
  ComposedAll-after n buf el els more (compose_ok, ret, b) rec h =
      rw (h.1, positive (length (wire ops.print_int el)))
        (ComposedAll-cons n (length (wire ops.print_int el)) buf b el els
          (more (pos (length (wire ops.print_int el))) b) (h.0, refl)
          (rec (length (wire ops.print_int el)) b))
  ComposedAll-after n buf el els more (enomem, ret, b) rec h = rw h.2 (h.1, refl)
  ComposedAll-after n buf el els more (compose_eunfin, ret, b) rec h = absurd h
  ComposedAll-after n buf el els more (compose_einvalid, ret, b) rec h = absurd h
  ComposedAll-after n buf el els more (compose_eother, ret, b) rec h = absurd h

  pub compose_tokens_lem :
      (n : ℤ) (buf : B) (els : List Element)
      → AllWritable els
      → ComposedAll n buf els (compose_tokens ops n buf els)
  unfolding compose_tokens
  compose_tokens_lem n buf [] w =
      (sym (append-nil (laws.contents buf)), λ k e small. e ∙ ap pos (omega arith))
  compose_tokens_lem n buf (el ∷ els) w =
      ComposedAll-after n buf el els (λ ret b. compose_tokens ops (to_i32 (n +ℤ ret)) b els)
        (compose_element ops buf el) (λ ret b. compose_tokens_lem (to_i32 (n +ℤ pos ret)) b els w.1)
        (compose_element_lem laws buf el w.0)
