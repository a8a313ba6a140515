-- ===== src/Resp/Request.antt =====
-- protocol/data/resp/request.h, request.c, parse.c and compose.c: a request, its parsing and its
-- composing. The pool of requests is left out.
use pelikan.Time.{to_i32}
use pelikan.Common.{
  ℕ, suc, ◌+◌, ◌-◌, Bool, false, ◌||◌, Option, none, some, if◌then◌else◌, List, [], ◌∷◌, ◌++◌,
  length, get_or,
}
use pelikan.Common.Memory.{Bytes}
use pelikan.Common.Int.{pos, ltb_ℤ, ◌+ℤ◌, ℤ}
use pelikan.Resp.{
  ParseStatus, parse_ok, eunfin, einvalid, Element, elem_str, elem_err, elem_bulk, elem_array,
  elem_nil, parse_element, ComposeStatus, compose_ok,
}
use pelikan.Resp.Buffer.{BufferOps}
use pelikan.Resp.Compose.{compose_element}
use pelikan.Resp.Commands.{Command}
use pelikan.Resp.Message.{Strings, Attribs, attribs_reset, with_element, read_attribs, parse_range}

pub record Request : Type 0 where
  pub noreply : Bool
  pub serror : Bool
  pub cerror : Bool
  pub type : ℕ
  pub token : List Element
  pub attribs : Attribs

abbrev pub req_unknown : ℕ
req_unknown = 0

unfoldable pub request_reset : Request
request_reset = record {
  noreply = false;
  serror = false;
  cerror = false;
  type = req_unknown;
  token = [];
  attribs = attribs_reset;
}

unfoldable pub bstr_of : Strings → Element → Bytes
bstr_of str (elem_str s) = s
bstr_of str (elem_err s) = s
bstr_of str (elem_bulk s) = s
bstr_of str el = str.other_bstr el

-- The search for the verb, where `type` is the place of the first command that is left.
unfoldable pub find_command : Strings → ℕ → List Command → Bytes → Option (ℕ × Command)
find_command str type [] verb = none
find_command str type (cmd ∷ cmds) verb =
    let more = find_command str (type + 1) cmds verb in
    if str.bstring_equal cmd.bstr verb then some (type, cmd) else more

unfoldable pub check_narg : ℕ → Option (ℕ × Command) → ParseStatus × ℕ
check_narg narg none = (einvalid, req_unknown)
check_narg narg (some (type, cmd)) =
    if ltb_ℤ (pos narg) cmd.narg || ltb_ℤ (cmd.narg +ℤ cmd.nopt) (pos narg)
    then (einvalid, type)
    else (parse_ok, type)

-- The type of the request. CMD_OFFSET is 1, and `narg` counts the elements behind the first.
unfoldable pub parse_cmd : Strings → List Command → List Element → ParseStatus × ℕ
parse_cmd str table token =
    check_narg (length token - 1) (find_command str 1 table (bstr_of str (get_or token 1 elem_nil)))

module _ (str : Strings) (table : List Command) where
  abbrev pub failed : Bytes → ParseStatus → ParseStatus × Request × Bytes
  failed whole status = (status, request_reset, whole)

  -- The last step, on the status of `_parse_cmd`.
  abbrev pub accept :
      Request → Bytes → List Element → Bytes → ParseStatus × ℕ → ParseStatus × Request × Bytes
  accept req whole token rest (parse_ok, type) =
      (parse_ok, record req { type = type; token = token }, rest)
  accept req whole token rest (status, type) = failed whole status

  abbrev pub with_range :
      Request → Bytes → ParseStatus × List Element × Bytes → ParseStatus × Request × Bytes
  with_range req whole (parse_ok, token, rest) =
      accept req whole token rest (parse_cmd str table token)
  with_range req whole (status, token, rest) = failed whole status

  -- The first element behind the attributes, whose status is OK: one that is no array, or an array
  -- without elements, goes to the label `error` with that status.
  unfoldable pub parse_array : Request → Bytes → Element → Bytes → ParseStatus × Request × Bytes
  parse_array req whole (elem_array (pos (suc n))) rest =
      with_range req whole (parse_range (suc n) (req.token ++ (elem_array (pos (suc n)) ∷ [])) rest)
  parse_array req whole el rest = failed whole parse_ok

  abbrev pub with_attribs :
      Request → Bytes → ParseStatus × Attribs × Bytes → ParseStatus × Request × Bytes
  with_attribs req whole (parse_ok, a, buf) =
      with_element (failed whole)
        (λ el rest. parse_array (record req { attribs = a }) whole el rest) (parse_element buf)
  with_attribs req whole (status, a, buf) = failed whole status

  -- The status, the request, and the bytes that are left.
  unfoldable pub parse_req : Request → Bytes → ParseStatus × Request × Bytes
  parse_req req [] = (eunfin, req, [])
  parse_req req (c ∷ cs) = with_attribs req (c ∷ cs) (read_attribs str req.attribs (c ∷ cs))

module _ {B : Type 0} (ops : BufferOps B) where
  -- The number of bytes so far is `n`; both are an `int`, and a negative one is an error.
  unfoldable pub compose_tokens : ℤ → B → List Element → ComposeStatus × ℤ × B
  compose_tokens n buf [] = (compose_ok, n, buf)
  compose_tokens n buf (el ∷ els) =
      let (status, ret, b) = compose_element ops buf el in
      let rest = compose_tokens (to_i32 (n +ℤ ret)) b els in
      if ltb_ℤ ret (pos 0) then (status, ret, b) else rest

  unfoldable pub compose_req : B → Request → ComposeStatus × ℤ × B
  unfolding compose_tokens
  compose_req buf req = compose_tokens (pos 0) buf req.token
