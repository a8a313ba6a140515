-- ===== src/Resp/Refusals.antt =====
-- What `parse_req` answers, on every branch.
use pelikan.Resp.Verbs.{ComparesBytes}
use pelikan.Common.{ℕ, zero, suc, ◌==◌, ◌≡◌, ◌⊎◌, refl, false, some, List, ◌∷◌, ◌++◌, length}
use pelikan.Common.Memory.{Bytes}
use pelikan.Common.Int.{ℤ, pos, negsuc}
use pelikan.Resp.{
  ParseStatus, parse_ok, Element, elem_str, elem_err, elem_int, elem_bulk, elem_array, elem_attrib,
  elem_nil, elem_null, token_is_attrib, parse_element,
}
use pelikan.Resp.Wire.{wire}
use pelikan.Resp.RoundTrip.{Sendable, parse_element-wire}
use pelikan.Resp.Commands.{Command}
use pelikan.Resp.Message.{Strings, read_attribs}
use pelikan.Resp.Request.{Request, request_reset, parse_array, parse_req}
use pelikan.Resp.Limits.{Obeys}

module _ (str : Strings) (same : ComparesBytes str) (table : List Command) where
  -- What `parse_req` answers where there is a byte to read.
  abbrev pub Answered : Request → Bytes → ParseStatus × Request × Bytes → Type 0
  Answered req whole (parse_ok, q, left) =
      ((q ≡ request_reset) × (left ≡ whole))
      ⊎ ((n : ℕ) × (els : List Element) × (q.token ≡ req.token ++ (elem_array (pos (suc n)) ∷ els))
          × (length els ≡ suc n)
          × Obeys str table q.token q.type)
  Answered req whole (status, q, left) = (q ≡ request_reset) × (left ≡ whole)

module _ (str : Strings) (table : List Command) where
  -- Neither attributes nor an array of one element at least.
  abbrev pub NoRequest : Element → Type 0
  NoRequest (elem_array (pos (suc n))) = ⊥
  NoRequest (elem_attrib z) = ⊥
  NoRequest _ = Unit

  parse_array_stuck :
      (req : Request) (whole : Bytes) (el : Element) (rest : Bytes)
      → NoRequest el
      → parse_array str table req whole el rest ≡ (parse_ok, request_reset, whole)
  unfolding parse_array
  parse_array_stuck req whole (elem_array (pos (suc n))) rest h = absurd h
  parse_array_stuck req whole (elem_array (pos zero)) rest h = refl
  parse_array_stuck req whole (elem_array (negsuc n)) rest h = refl
  parse_array_stuck req whole (elem_str s) rest h = refl
  parse_array_stuck req whole (elem_err s) rest h = refl
  parse_array_stuck req whole (elem_int z) rest h = refl
  parse_array_stuck req whole (elem_bulk s) rest h = refl
  parse_array_stuck req whole (elem_attrib z) rest h = absurd h
  parse_array_stuck req whole elem_nil rest h = refl
  parse_array_stuck req whole elem_null rest h = refl

  stuck_at :
      (req : Request) (c : ℕ) (cs : Bytes) (el : Element) (rest : Bytes)
      → NoRequest el
      → (c == 124) ≡ false
      → parse_element (c ∷ cs) ≡ (parse_ok, some el, rest)
      → parse_req str table req (c ∷ cs) ≡ (parse_ok, request_reset, c ∷ cs)
  unfolding parse_req read_attribs token_is_attrib
  stuck_at req c cs el rest n plain e = rw (plain, e) (parse_array_stuck req (c ∷ cs) el rest n)

  -- Where the bytes start with an element that is no attribute and no array of one element at least,
  -- `parse_req` answers OK, resets the request and reads nothing.
  pub parse_req_stuck :
      (print : ℤ → Bytes) (req : Request) (el : Element) (rest : Bytes)
      → Sendable print el
      → NoRequest el
      → parse_req str table req (wire print el ++ rest)
        ≡ (parse_ok, request_reset, wire print el ++ rest)
  unfolding parse_req
  parse_req_stuck print req (elem_str s) rest h n =
      stuck_at req 43 _ (elem_str s) rest n refl (parse_element-wire print (elem_str s) rest h)
  parse_req_stuck print req (elem_err s) rest h n =
      stuck_at req 45 _ (elem_err s) rest n refl (parse_element-wire print (elem_err s) rest h)
  parse_req_stuck print req (elem_int z) rest h n =
      stuck_at req 58 _ (elem_int z) rest n refl (parse_element-wire print (elem_int z) rest h)
  parse_req_stuck print req (elem_bulk s) rest h n =
      stuck_at req 36 _ (elem_bulk s) rest n refl (parse_element-wire print (elem_bulk s) rest h)
  parse_req_stuck print req (elem_array z) rest h n =
      stuck_at req 42 _ (elem_array z) rest n refl (parse_element-wire print (elem_array z) rest h)
  parse_req_stuck print req (elem_attrib z) rest h n = absurd n
  parse_req_stuck print req elem_nil rest h n =
      stuck_at req 36 _ elem_nil rest n refl (parse_element-wire print elem_nil rest h)
  parse_req_stuck print req elem_null rest h n =
      stuck_at req 95 _ elem_null rest n refl (parse_element-wire print elem_null rest h)
