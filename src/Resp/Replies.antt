-- ===== src/Resp/Replies.antt =====
-- `parse_rsp` on the bytes of a response.
use pelikan.Common.{
  ℕ, ◌≡◌, refl, sym, ap, subst, ◌∙◌, Bool, true, false, ◌==◌, some, List, [], ◌∷◌, ◌++◌,
  append_assoc, length, get_or,
}
use pelikan.Common.Memory.{Bytes}
use pelikan.Common.Int.{ℤ, pos, negsuc}
use pelikan.Resp.{
  parse_ok, Element, elem_str, elem_err, elem_int, elem_bulk, elem_array, elem_attrib, elem_nil,
  elem_null, token_is_attrib, token_is_array, parse_element,
}
use pelikan.Resp.Wire.{wire}
use pelikan.Resp.RoundTrip.{Sendable, parse_element-wire}
use pelikan.Resp.Message.{Strings, Attribs, parse_range}
use pelikan.Resp.Elements.{wires, AllSendable, parse_range-wires}
use pelikan.Resp.Attributes.{attribs_wire, SendablePairs, apply_attribs, read_attribs_lem}
use pelikan.Resp.Response.{
  Response, response_reset, elem_type, set_type, rsp_array, rsp_body, rsp_attribs, parse_rsp,
}

-- The tokens of a response: an array and as many elements as it announces, a null array, or one
-- element that is no array.
abbrev pub IsReply : List Element → Type 0
IsReply [] = ⊥
IsReply (elem_array (pos n) ∷ els) = length els ≡ n
IsReply (elem_array (negsuc n) ∷ []) = Unit
IsReply (elem_attrib z ∷ els) = ⊥
IsReply (el ∷ []) = Unit
IsReply (el ∷ e ∷ els) = ⊥

abbrev pub is_null_array : Element → Bool
is_null_array (elem_array (negsuc n)) = true
is_null_array _ = false

-- The response that has these tokens and attributes.
abbrev pub reply_of : List Element → Attribs → Response
reply_of token a = record {
  serror = false;
  type = elem_type (get_or token 0 elem_nil);
  nil = is_null_array (get_or token 0 elem_nil);
  token = token;
  attribs = a;
}

module _ (str : Strings) (print : ℤ → Bytes) where
  parse_rsp_behind :
      (rsp : Response) (ps : List (Element × Element)) (c : ℕ) (cs : Bytes)
      → SendablePairs print ps
      → (c == 124) ≡ false
      → parse_rsp str rsp (attribs_wire print ps ++ (c ∷ cs))
        ≡ rsp_body
            (record rsp { attribs = apply_attribs str rsp.attribs ps })
            (attribs_wire print ps ++ (c ∷ cs))
            (c ∷ cs)
  unfolding parse_rsp token_is_attrib
  parse_rsp_behind rsp [] c cs h plain =
      ap (rsp_attribs rsp (c ∷ cs)) (read_attribs_lem str print [] rsp.attribs (c ∷ cs) h plain)
  parse_rsp_behind rsp (p ∷ ps) c cs h plain =
      ap (rsp_attribs rsp (attribs_wire print (p ∷ ps) ++ (c ∷ cs)))
        (read_attribs_lem str print (p ∷ ps) rsp.attribs (c ∷ cs) h plain)

  reply_single :
      (a : Attribs) (whole : Bytes) (c : ℕ) (cs : Bytes) (el : Element) (rest : Bytes)
      → (c == 42) ≡ false
      → parse_element (c ∷ cs) ≡ (parse_ok, some el, rest)
      → rsp_body (record response_reset { attribs = a }) whole (c ∷ cs)
        ≡ (parse_ok, set_type (record response_reset { token = el ∷ []; attribs = a }), rest)
  unfolding rsp_body parse_range token_is_array response_reset
  reply_single a whole c cs el rest plain e = rw (plain, e) refl

  reply_array :
      (a : Attribs) (whole : Bytes) (els : List Element) (rest : Bytes)
      → AllSendable print (elem_array (pos (length els)) ∷ els)
      → rsp_body
          (record response_reset { attribs = a })
          whole
          (wire print (elem_array (pos (length els))) ++ (wires print els ++ rest))
        ≡ (parse_ok, reply_of (elem_array (pos (length els)) ∷ els) a, rest)
  unfolding rsp_body token_is_array rsp_array set_type response_reset elem_type
  reply_array a whole els rest h =
      rw
        (
          parse_element-wire print (elem_array (pos (length els))) (wires print els ++ rest) h.0,
          parse_range-wires print els (elem_array (pos (length els)) ∷ []) rest h.1,
        )
        refl

  reply_counted :
      (a : Attribs) (whole : Bytes) (n : ℕ) (els : List Element) (rest : Bytes)
      → length els ≡ n
      → AllSendable print (elem_array (pos n) ∷ els)
      → rsp_body
          (record response_reset { attribs = a })
          whole
          (wire print (elem_array (pos n)) ++ (wires print els ++ rest))
        ≡ (parse_ok, reply_of (elem_array (pos n) ∷ els) a, rest)
  reply_counted a whole n els rest i =
      subst
        (λ k.
          AllSendable print (elem_array (pos k) ∷ els)
          → rsp_body (record response_reset { attribs = a }) whole
              (wire print (elem_array (pos k)) ++ (wires print els ++ rest))
            ≡ (parse_ok, reply_of (elem_array (pos k) ∷ els) a, rest))
        i (reply_array a whole els rest)

  reply_null :
      (a : Attribs) (whole : Bytes) (n : ℕ) (rest : Bytes)
      → Sendable print (elem_array (negsuc n))
      → rsp_body
          (record response_reset { attribs = a })
          whole
          (wire print (elem_array (negsuc n)) ++ rest)
        ≡ (parse_ok, reply_of (elem_array (negsuc n) ∷ []) a, rest)
  unfolding rsp_body token_is_array rsp_array response_reset elem_type
  reply_null a whole n rest h = rw (parse_element-wire print (elem_array (negsuc n)) rest h) refl

  -- A response of one element whose first byte is `c`.
  read_single :
      (ps : List (Element × Element)) (c : ℕ) (cs : Bytes) (el : Element) (rest : Bytes)
      → SendablePairs print ps
      → (c == 124) ≡ false
      → (c == 42) ≡ false
      → Sendable print el
      → wire print el ++ rest ≡ c ∷ cs
      → set_type (record response_reset {
        token = el ∷ [];
        attribs = apply_attribs str response_reset.attribs ps;
      })
        ≡ reply_of (el ∷ []) (apply_attribs str response_reset.attribs ps)
      → parse_rsp str response_reset (attribs_wire print ps ++ (wires print (el ∷ []) ++ rest))
        ≡ (parse_ok, reply_of (el ∷ []) (apply_attribs str response_reset.attribs ps), rest)
  read_single ps c cs el rest hp plain single h e typed =
      rw (append_assoc (wire print el) [] rest, e)
        (parse_rsp_behind response_reset ps c cs hp plain
          ∙ reply_single (apply_attribs str response_reset.attribs ps)
              (attribs_wire print ps ++ (c ∷ cs)) c cs el rest single
              (ap parse_element (sym e) ∙ parse_element-wire print el rest h)
          ∙ ap (λ r. (parse_ok, r, rest)) typed)

  pub parse_rsp-wires :
      (ps : List (Element × Element)) (token : List Element) (rest : Bytes)
      → SendablePairs print ps
      → IsReply token
      → AllSendable print token
      → parse_rsp str response_reset (attribs_wire print ps ++ (wires print token ++ rest))
        ≡ (parse_ok, reply_of token (apply_attribs str response_reset.attribs ps), rest)
  unfolding set_type elem_type response_reset
  parse_rsp-wires ps [] rest hp i h = absurd i
  parse_rsp-wires ps (elem_str s ∷ []) rest hp i h =
      read_single ps 43 _ (elem_str s) rest hp refl refl h.0 refl refl
  parse_rsp-wires ps (elem_err s ∷ []) rest hp i h =
      read_single ps 45 _ (elem_err s) rest hp refl refl h.0 refl refl
  parse_rsp-wires ps (elem_int z ∷ []) rest hp i h =
      read_single ps 58 _ (elem_int z) rest hp refl refl h.0 refl refl
  parse_rsp-wires ps (elem_bulk s ∷ []) rest hp i h =
      read_single ps 36 _ (elem_bulk s) rest hp refl refl h.0 refl refl
  parse_rsp-wires ps (elem_nil ∷ []) rest hp i h =
      read_single ps 36 _ elem_nil rest hp refl refl h.0 refl refl
  parse_rsp-wires ps (elem_null ∷ []) rest hp i h =
      read_single ps 95 _ elem_null rest hp refl refl h.0 refl refl
  parse_rsp-wires ps (elem_attrib z ∷ els) rest hp i h = absurd i
  parse_rsp-wires ps (elem_array (negsuc n) ∷ []) rest hp i h =
      rw (append_assoc (wire print (elem_array (negsuc n))) [] rest) (
        parse_rsp_behind response_reset ps 42 _ hp refl
        ∙ reply_null _ (attribs_wire print ps ++ (wire print (elem_array (negsuc n)) ++ rest)) n
            rest h.0)
  parse_rsp-wires ps (elem_array (pos n) ∷ els) rest hp i h =
      rw (append_assoc (wire print (elem_array (pos n))) (wires print els) rest) (
        parse_rsp_behind response_reset ps 42 _ hp refl
        ∙ reply_counted _
            (attribs_wire print ps
              ++ (wire print (elem_array (pos n)) ++ (wires print els ++ rest)))
            n els rest i h)
  parse_rsp-wires ps (elem_array (negsuc n) ∷ e ∷ els) rest hp i h = absurd i
  parse_rsp-wires ps (elem_str s ∷ e ∷ els) rest hp i h = absurd i
  parse_rsp-wires ps (elem_err s ∷ e ∷ els) rest hp i h = absurd i
  parse_rsp-wires ps (elem_int z ∷ e ∷ els) rest hp i h = absurd i
  parse_rsp-wires ps (elem_bulk s ∷ e ∷ els) rest hp i h = absurd i
  parse_rsp-wires ps (elem_nil ∷ e ∷ els) rest hp i h = absurd i
  parse_rsp-wires ps (elem_null ∷ e ∷ els) rest hp i h = absurd i
