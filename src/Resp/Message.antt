-- ===== src/Resp/Message.antt =====
-- protocol/data/resp/parse.c and attribute.c: what requests and responses share, the attributes in
-- front of a message and a range of elements. The comparison of strings of the base library is a
-- parameter.
use pelikan.Common.{
  ℕ, zero, suc, ◌-◌, ◌^◌, Bool, ◌||◌, Option, some, if◌then◌else◌, List, [], ◌∷◌, ◌++◌,
}
use pelikan.Common.Memory.{Bytes}
use pelikan.Common.Int.{ℤ, pos, pos_part, ltb_ℤ}
use pelikan.Resp.{
  ParseStatus, parse_ok, eunfin, Element, elem_str, elem_int, elem_attrib, int64_min,
  token_is_attrib, parse_element,
}

-- `bstring_compare` finds no difference, and the string that is read from the union of an element
-- that holds none.
pub record Strings : Type 0 where
  pub bstring_equal : Bytes → Bytes → Bool
  pub other_bstr : Element → Bytes

pub data AttribType : Type 0 where
  attrib_unknown attrib_ttl attrib_flag attrib_sentinel : AttribType

-- The fields `ttl` and `flag` of a request or a response.
pub record Attribs : Type 0 where
  pub ttl : ℤ
  pub flag : ℤ

abbrev pub attribs_reset : Attribs
attribs_reset = record { ttl = int64_min; flag = int64_min }

abbrev pub ttl_str : Bytes
ttl_str = 116 ∷ 116 ∷ 108 ∷ []

abbrev pub flag_str : Bytes
flag_str = 102 ∷ 108 ∷ 97 ∷ 103 ∷ []

-- What follows an element: `next` on it and the bytes behind it, or `fail` on the status.
abbrev pub with_element :
    {A : Type 0}
    → (ParseStatus → A)
    → (Element → Bytes → A)
    → ParseStatus × Option Element × Bytes
    → A
with_element fail next (parse_ok, some el, rest) = next el rest
with_element fail next (status, el, rest) = fail status

module _ (str : Strings) where
  unfoldable pub find_attrib : Bytes → AttribType
  find_attrib key =
      if str.bstring_equal [] key
      then attrib_unknown
      else if str.bstring_equal ttl_str key
      then attrib_ttl
      else if str.bstring_equal flag_str key
      then attrib_flag
      else attrib_sentinel

  unfoldable pub lookup_attrib_key : Element → AttribType
  lookup_attrib_key (elem_str key) = find_attrib key
  lookup_attrib_key _ = attrib_unknown

  unfoldable pub set_attrib : Attribs → Element → AttribType → Attribs
  set_attrib a (elem_int num) attrib_ttl = record a { ttl = num }
  set_attrib a (elem_int num) attrib_flag =
      if ltb_ℤ (pos (2 ^ 32 - 1)) num || ltb_ℤ num (pos 0) then a else record a { flag = num }
  set_attrib a val _ = a

  -- `_parse_req_attrib`, and `_parse_rsp_attrib`, which is the same.
  unfoldable pub parse_attrib : Attribs → Element → Element → Attribs
  parse_attrib a key val = set_attrib a val (lookup_attrib_key key)

  -- The loop over the attributes.
  unfoldable pub parse_attribs : ℕ → Attribs → Bytes → ParseStatus × Attribs × Bytes
  parse_attribs zero a buf = (parse_ok, a, buf)
  parse_attribs (suc n) a buf =
      with_element (λ status. (status, a, buf))
        (λ key behind.
          with_element (λ status. (status, a, buf))
            (λ val rest. parse_attribs n (parse_attrib a key val) rest) (parse_element behind))
        (parse_element buf)

  abbrev pub attrib_num : Element → ℕ
  attrib_num (elem_attrib num) = pos_part num
  attrib_num _ = 0

  -- The attributes, if present.
  unfoldable pub read_attribs : Attribs → Bytes → ParseStatus × Attribs × Bytes
  read_attribs a buf =
      if token_is_attrib buf
      then with_element (λ status. (status, a, buf))
          (λ attrib rest. parse_attribs (attrib_num attrib) a rest) (parse_element buf)
      else (parse_ok, a, buf)

-- `nelem` more elements are pushed.
unfoldable pub parse_range : ℕ → List Element → Bytes → ParseStatus × List Element × Bytes
parse_range zero token buf = (parse_ok, token, buf)
parse_range (suc n) token [] = (eunfin, token, [])
parse_range (suc n) token (c ∷ cs) =
    with_element (λ status. (status, token, c ∷ cs))
      (λ el rest. parse_range n (token ++ (el ∷ [])) rest) (parse_element (c ∷ cs))
