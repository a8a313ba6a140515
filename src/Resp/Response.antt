-- ===== src/Resp/Response.antt =====
-- protocol/data/resp/response.h, response.c, parse.c and compose.c: a response, its parsing and its
-- composing. The pool of responses is left out.
use pelikan.Common.{ℕ, ◌==◌, Bool, true, false, if◌then◌else◌, List, [], ◌∷◌, ◌++◌, get_or}
use pelikan.Common.Memory.{Bytes}
use pelikan.Common.Int.{pos, ℤ}
use pelikan.Resp.{
  ParseStatus, parse_ok, eunfin, Element, elem_str, elem_err, elem_int, elem_bulk, elem_array,
  elem_attrib, elem_nil, elem_null, token_is_array, parse_element, ComposeStatus,
}
use pelikan.Resp.Buffer.{BufferOps}
use pelikan.Resp.Message.{Strings, Attribs, attribs_reset, with_element, read_attribs, parse_range}
use pelikan.Resp.Request.{compose_tokens}

-- `element_type_e`, where 0 is ELEM_UNKNOWN.
unfoldable pub elem_type : Element → ℕ
elem_type (elem_str s) = 1
elem_type (elem_err s) = 2
elem_type (elem_int z) = 3
elem_type (elem_bulk s) = 4
elem_type (elem_array z) = 5
elem_type (elem_attrib z) = 6
elem_type elem_nil = 7
elem_type elem_null = 8

pub record Response : Type 0 where
  pub serror : Bool
  pub type : ℕ
  pub nil : Bool
  pub token : List Element
  pub attribs : Attribs

unfoldable pub response_reset : Response
response_reset = record {
  serror = false;
  type = 0;
  nil = false;
  token = [];
  attribs = attribs_reset;
}

abbrev pub rsp_failed : Bytes → ParseStatus → ParseStatus × Response × Bytes
rsp_failed whole status = (status, response_reset, whole)

abbrev pub with_tokens : Response → List Element → Response
with_tokens rsp token = record rsp { token = token }

abbrev pub with_type : Response → ℕ → Response
with_type rsp type = record rsp { type = type }

abbrev pub nil_response : Response → Response
nil_response rsp = record rsp { nil = true }

-- The type, from the first element where it is not known yet.
unfoldable pub set_type : Response → Response
set_type rsp =
    if rsp.type == 0 then with_type rsp (elem_type (get_or rsp.token 0 elem_nil)) else rsp

abbrev pub finish_range :
    Response → Bytes → ParseStatus × List Element × Bytes → ParseStatus × Response × Bytes
finish_range rsp whole (parse_ok, token, rest) = (parse_ok, set_type (with_tokens rsp token), rest)
finish_range rsp whole (status, token, rest) = rsp_failed whole status

-- What follows the length of an array, which is pushed as the first token.
unfoldable pub rsp_array : Response → Bytes → Element → Bytes → ParseStatus × Response × Bytes
rsp_array rsp whole (elem_array (pos n)) rest =
    finish_range rsp whole (parse_range n (rsp.token ++ (elem_array (pos n) ∷ [])) rest)
rsp_array rsp whole el rest =
    (parse_ok, nil_response (with_tokens rsp (rsp.token ++ (el ∷ []))), rest)

-- Where nothing is behind the attributes they are neither given back nor forgotten.
unfoldable pub rsp_body : Response → Bytes → Bytes → ParseStatus × Response × Bytes
rsp_body rsp whole [] = (eunfin, rsp, [])
rsp_body rsp whole (c ∷ cs) =
    if token_is_array (c ∷ cs)
    then with_element (rsp_failed whole) (rsp_array (with_type rsp 5) whole)
        (parse_element (c ∷ cs))
    else finish_range rsp whole (parse_range 1 rsp.token (c ∷ cs))

abbrev pub rsp_attribs :
    Response → Bytes → ParseStatus × Attribs × Bytes → ParseStatus × Response × Bytes
rsp_attribs rsp whole (parse_ok, a, buf) = rsp_body (record rsp { attribs = a }) whole buf
rsp_attribs rsp whole (status, a, buf) = rsp_failed whole status

unfoldable pub parse_rsp : Strings → Response → Bytes → ParseStatus × Response × Bytes
parse_rsp str rsp [] = (eunfin, rsp, [])
parse_rsp str rsp (c ∷ cs) = rsp_attribs rsp (c ∷ cs) (read_attribs str rsp.attribs (c ∷ cs))

unfoldable pub compose_rsp : {B : Type 0} → BufferOps B → B → Response → ComposeStatus × ℤ × B
compose_rsp ops buf rsp = compose_tokens ops (pos 0) buf rsp.token
