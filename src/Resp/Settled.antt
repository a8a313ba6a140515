-- ===== src/Resp/Settled.antt =====
-- The status of `parse_element` is OK just where it gives an element.
use pelikan.Common.{
  Bool, true, false, ◌==◌, Option, none, some, leb, if◌then◌else◌, [], ◌∷◌, length,
}
use pelikan.Common.Memory.{Bytes}
use pelikan.Resp.{
  ParseStatus, parse_ok, eunfin, eempty, eoversize, einvalid, eother, Element, line_end, finish,
  finish_bulk, read_null, parse_element,
}
use pelikan.Resp.Message.{with_element}

abbrev pub IsError : ParseStatus → Type 0
IsError parse_ok = ⊥
IsError _ = Unit

abbrev pub Settled : ParseStatus × Option Element × Bytes → Type 0
Settled (parse_ok, none, rest) = ⊥
Settled (parse_ok, some el, rest) = Unit
Settled _ = Unit

-- A property of what follows an element.
pub with_element_ind :
    {A : Type 0} (P : A → Type 0) (fail : ParseStatus → A) (next : Element → Bytes → A)
    (r : ParseStatus × Option Element × Bytes)
    → Settled r
    → ((status : ParseStatus) → IsError status → P (fail status))
    → ((el : Element) (rest : Bytes) → P (next el rest))
    → P (with_element fail next r)
with_element_ind P fail next (parse_ok, some el, rest) h f g = g el rest
with_element_ind P fail next (parse_ok, none, rest) h f g = absurd h
with_element_ind P fail next (eunfin, el, rest) h f g = f eunfin tt
with_element_ind P fail next (eempty, el, rest) h f g = f eempty tt
with_element_ind P fail next (eoversize, el, rest) h f g = f eoversize tt
with_element_ind P fail next (einvalid, el, rest) h f g = f einvalid tt
with_element_ind P fail next (eother, el, rest) h f g = f eother tt

finish-Settled :
    {A : Type 0} (whole : Bytes) (make : A → Element) (r : ParseStatus × A × Bytes)
    → Settled (finish whole make r)
finish-Settled whole make (parse_ok, a, rest) = tt
finish-Settled whole make (eunfin, a, rest) = tt
finish-Settled whole make (eempty, a, rest) = tt
finish-Settled whole make (eoversize, a, rest) = tt
finish-Settled whole make (einvalid, a, rest) = tt
finish-Settled whole make (eother, a, rest) = tt

finish_bulk-Settled :
    (whole : Bytes) (r : ParseStatus × Bytes × Bytes) → Settled (finish_bulk whole r)
finish_bulk-Settled whole (parse_ok, a, rest) = tt
finish_bulk-Settled whole (eunfin, a, rest) = tt
finish_bulk-Settled whole (eempty, a, rest) = tt
finish_bulk-Settled whole (eoversize, a, rest) = tt
finish_bulk-Settled whole (einvalid, a, rest) = tt
finish_bulk-Settled whole (eother, a, rest) = tt

Settled-if :
    (test : Bool) (r s : ParseStatus × Option Element × Bytes)
    → Settled r
    → Settled s
    → Settled (if test then r else s)
Settled-if true r s h k = h
Settled-if false r s h k = k

read_null-Settled : (whole buf : Bytes) → Settled (read_null whole buf)
unfolding read_null
read_null-Settled whole buf =
    Settled-if (leb 2 (length buf)) _ _ (Settled-if (line_end buf) _ _ tt tt) tt

pub parse_element-Settled : (buf : Bytes) → Settled (parse_element buf)
unfolding parse_element
parse_element-Settled [] = tt
parse_element-Settled (c ∷ cs) = Settled-if (c == 43) _ _ (finish-Settled (c ∷ cs) _ _) (
    Settled-if (c == 45) _ _ (finish-Settled (c ∷ cs) _ _) (
      Settled-if (c == 58) _ _ (finish-Settled (c ∷ cs) _ _) (
        Settled-if (c == 36) _ _ (finish_bulk-Settled (c ∷ cs) _) (
          Settled-if (c == 42) _ _ (finish-Settled (c ∷ cs) _ _) (
            Settled-if (c == 124) _ _ (finish-Settled (c ∷ cs) _ _)
              (Settled-if (c == 95) _ _ (read_null-Settled (c ∷ cs) cs) tt))))))
