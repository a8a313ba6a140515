-- ===== src/Resp/Accepts.antt =====
-- `parse_req` on the bytes of a request.
use pelikan.Resp.Meaning.{attribs_after, apply_attribs_lem}
use pelikan.Resp.Limits.{Keeps}
use pelikan.Resp.Verbs.{ComparesBytes, IsText, IsNamed, find_command_named, text_bstr_of}
use pelikan.Common.{
  ℕ, suc, ◌≡◌, refl, ap, ◌∙◌, List, [], ◌∷◌, ◌++◌, append_assoc, length, ap₂, ◌+◌, ◌-◌, arith,
}
use pelikan.Common.Memory.{Bytes}
use pelikan.Common.Int.{ℤ, pos}
use pelikan.Resp.{parse_ok, Element, elem_array, token_is_attrib}
use pelikan.Resp.Wire.{wire}
use pelikan.Resp.RoundTrip.{parse_element-wire}
use pelikan.Resp.Commands.{Command}
use pelikan.Resp.Message.{Strings, Attribs}
use pelikan.Resp.Elements.{wires, AllSendable, parse_range-wires}
use pelikan.Resp.Attributes.{attribs_wire, SendablePairs, apply_attribs, read_attribs_lem}
use pelikan.Resp.Request.{
  Request, parse_cmd, accept, with_range, parse_array, with_attribs, parse_req, check_narg,
}

-- A request of a type with more tokens and attributes.
abbrev pub with_message : Request → ℕ → List Element → Attribs → Request
with_message req type token a = record req { type = type; token = req.token ++ token; attribs = a }

-- An array with its elements.
abbrev pub array_of : Element → List Element → List Element
array_of el els = elem_array (pos (suc (length els))) ∷ el ∷ els

module _ (str : Strings) (table : List Command) (print : ℤ → Bytes) where
  parse_array_lem :
      (req : Request) (el : Element) (els : List Element) (whole rest : Bytes) (type : ℕ)
      → AllSendable print (el ∷ els)
      → parse_cmd str table (req.token ++ array_of el els) ≡ (parse_ok, type)
      → parse_array str table req whole
          (elem_array (pos (suc (length els))))
          (wires print (el ∷ els) ++ rest)
        ≡ (parse_ok, with_message req type (array_of el els) req.attribs, rest)
  unfolding parse_array
  parse_array_lem req el els whole rest type h e =
      ap (with_range str table req whole) (
        parse_range-wires print (el ∷ els) (req.token ++ (elem_array (pos (suc (length els))) ∷ []))
          rest h
        ∙ ap (λ t. (parse_ok, t, rest))
            (append_assoc req.token (elem_array (pos (suc (length els))) ∷ []) (el ∷ els)))
      ∙ ap (accept str table req whole (req.token ++ array_of el els) rest) e

  with_attribs_lem :
      (req : Request) (a : Attribs) (el : Element) (els : List Element) (whole rest : Bytes)
      (type : ℕ)
      → AllSendable print (array_of el els)
      → parse_cmd str table (req.token ++ array_of el els) ≡ (parse_ok, type)
      → with_attribs str table req whole (parse_ok, a, wires print (array_of el els) ++ rest)
        ≡ (parse_ok, with_message req type (array_of el els) a, rest)
  with_attribs_lem req a el els whole rest type h e =
      rw
        (
          append_assoc (wire print (elem_array (pos (suc (length els))))) (wires print (el ∷ els))
              rest,
          parse_element-wire print (elem_array (pos (suc (length els))))
              (wires print (el ∷ els) ++ rest) h.0,
        )
        (parse_array_lem (record req { attribs = a }) el els whole rest type h.1 e)

  -- A request whose type `parse_cmd` answers, with the attributes as `parse_attrib` takes them.
  pub parse_req-message :
      (req : Request) (ps : List (Element × Element)) (el : Element) (els : List Element)
      (rest : Bytes) (type : ℕ)
      → SendablePairs print ps
      → AllSendable print (array_of el els)
      → parse_cmd str table (req.token ++ array_of el els) ≡ (parse_ok, type)
      → parse_req str table req (attribs_wire print ps ++ (wires print (array_of el els) ++ rest))
        ≡ (
          parse_ok,
          with_message req type (array_of el els) (apply_attribs str req.attribs ps),
          rest,
        )
  unfolding parse_req token_is_attrib
  parse_req-message req [] el els rest type hp h e =
      ap (with_attribs str table req (wires print (array_of el els) ++ rest))
        (read_attribs_lem str print [] req.attribs (wires print (array_of el els) ++ rest) hp refl)
      ∙ with_attribs_lem req req.attribs el els (wires print (array_of el els) ++ rest) rest type h
          e
  parse_req-message req (p ∷ ps) el els rest type hp h e =
      ap
        (with_attribs str table req
          (attribs_wire print (p ∷ ps) ++ (wires print (array_of el els) ++ rest)))
        (read_attribs_lem str print (p ∷ ps) req.attribs (wires print (array_of el els) ++ rest) hp
          refl)
      ∙ with_attribs_lem req (apply_attribs str req.attribs (p ∷ ps)) el els
          (attribs_wire print (p ∷ ps) ++ (wires print (array_of el els) ++ rest)) rest type h e

-- `parse_cmd` on a command and its elements.
parse_cmd_lem :
    (str : Strings)
    → ComparesBytes str
    → (table : List Command) (el : Element) (els : List Element) (verb : Bytes) (n : ℕ)
      (cmd : Command)
    → IsText str el verb
    → IsNamed table n cmd verb
    → Keeps cmd (suc (length els))
    → parse_cmd str table (array_of el els) ≡ (parse_ok, suc n)
unfolding parse_cmd check_narg
parse_cmd_lem str same table el els verb n cmd text named keeps =
    let count : length (array_of el els) - 1 ≡ suc (length els) = omega arith in
    let place : 1 + n ≡ suc n = omega arith in
    rw
      (
        text_bstr_of str el verb text,
        find_command_named str same 1 n table cmd verb named,
        count,
        keeps.0,
        keeps.1,
        place,
      )
      refl

-- Where strings are compared byte by byte, `parse_req` reads a request back: attributes, of which
-- there may be none, and an array with one element at least, where all of them fit the format, the
-- text of the first is the name of a command of the table, and their number keeps its limits. On a
-- request without tokens it sets the type, which is the place of that command, counted from 1, and
-- `ttl` and `flag` to the last integer of the key "ttl" and the last `uint32_t` of the key "flag",
-- as far as there are such; it pushes the tokens and leaves the bytes behind the request.
pub parse_req-wires :
    (str : Strings)
    → ComparesBytes str
    → (table : List Command) (print : ℤ → Bytes) (req : Request) (ps : List (Element × Element))
      (el : Element) (els : List Element) (rest : Bytes) (verb : Bytes) (n : ℕ) (cmd : Command)
    → req.token ≡ []
    → SendablePairs print ps
    → AllSendable print (array_of el els)
    → IsText str el verb
    → IsNamed table n cmd verb
    → Keeps cmd (suc (length els))
    → parse_req str table req (attribs_wire print ps ++ (wires print (array_of el els) ++ rest)) ≡ (
      parse_ok,
      record req { type = suc n; token = array_of el els; attribs = attribs_after req.attribs ps },
      rest,
    )
parse_req-wires str same table print req ps el els rest verb n cmd fresh hp h text named keeps =
    parse_req-message str table print req ps el els rest (suc n) hp h (
      ap (λ t. parse_cmd str table (t ++ array_of el els)) fresh
      ∙ parse_cmd_lem str same table el els verb n cmd text named keeps)
    ∙ ap₂
        (λ t a.
          (parse_ok, record req { type = suc n; token = t ++ array_of el els; attribs = a }, rest))
        fresh (apply_attribs_lem str same req.attribs ps)
