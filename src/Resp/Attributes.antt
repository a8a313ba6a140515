-- ===== src/Resp/Attributes.antt =====
-- The attributes in front of a message, and what reading them leaves.
use pelikan.Common.{◌≡◌, refl, false, List, [], ◌∷◌, ◌++◌, append_assoc, length}
use pelikan.Common.Memory.{Bytes}
use pelikan.Common.Int.{ℤ, pos}
use pelikan.Resp.{parse_ok, Element, elem_attrib, token_is_attrib}
use pelikan.Resp.Wire.{wire}
use pelikan.Resp.RoundTrip.{Sendable, parse_element-wire}
use pelikan.Resp.Message.{Strings, Attribs, parse_attrib, parse_attribs, read_attribs}

abbrev pub pairs_wire : (ℤ → Bytes) → List (Element × Element) → Bytes
pairs_wire print [] = []
pairs_wire print ((key, val) ∷ ps) = wire print key ++ (wire print val ++ pairs_wire print ps)

-- The attributes of a message, of which there may be none.
abbrev pub attribs_wire : (ℤ → Bytes) → List (Element × Element) → Bytes
attribs_wire print [] = []
attribs_wire print (p ∷ ps) =
    wire print (elem_attrib (pos (length (p ∷ ps)))) ++ pairs_wire print (p ∷ ps)

abbrev pub AllPaired : (ℤ → Bytes) → List (Element × Element) → Type 0
AllPaired print [] = Unit
AllPaired print ((key, val) ∷ ps) = Sendable print key × Sendable print val × AllPaired print ps

abbrev pub SendablePairs : (ℤ → Bytes) → List (Element × Element) → Type 0
SendablePairs print [] = Unit
SendablePairs print (p ∷ ps) =
    Sendable print (elem_attrib (pos (length (p ∷ ps)))) × AllPaired print (p ∷ ps)

abbrev pub apply_attribs : Strings → Attribs → List (Element × Element) → Attribs
apply_attribs str a [] = a
apply_attribs str a ((key, val) ∷ ps) = apply_attribs str (parse_attrib str a key val) ps

module _ (str : Strings) (print : ℤ → Bytes) where
  parse_attribs_lem :
      (ps : List (Element × Element)) (a : Attribs) (rest : Bytes)
      → AllPaired print ps
      → parse_attribs str (length ps) a (pairs_wire print ps ++ rest)
        ≡ (parse_ok, apply_attribs str a ps, rest)
  unfolding parse_attribs
  parse_attribs_lem [] a rest h = refl
  parse_attribs_lem ((key, val) ∷ ps) a rest h =
      rw
        (
          append_assoc (wire print key) (wire print val ++ pairs_wire print ps) rest,
          append_assoc (wire print val) (pairs_wire print ps) rest,
          parse_element-wire print key (wire print val ++ (pairs_wire print ps ++ rest)) h.0,
          parse_element-wire print val (pairs_wire print ps ++ rest) h.1,
        )
        (parse_attribs_lem ps (parse_attrib str a key val) rest h.2)

  pub read_attribs_lem :
      (ps : List (Element × Element)) (a : Attribs) (rest : Bytes)
      → SendablePairs print ps
      → token_is_attrib rest ≡ false
      → read_attribs str a (attribs_wire print ps ++ rest)
        ≡ (parse_ok, apply_attribs str a ps, rest)
  unfolding read_attribs token_is_attrib
  read_attribs_lem [] a rest h none = rw none refl
  read_attribs_lem (p ∷ ps) a rest h none =
      rw
        (
          append_assoc (wire print (elem_attrib (pos (length (p ∷ ps)))))
              (pairs_wire print (p ∷ ps)) rest,
          parse_element-wire print (elem_attrib (pos (length (p ∷ ps))))
              (pairs_wire print (p ∷ ps) ++ rest) h.0,
        )
        (parse_attribs_lem (p ∷ ps) a rest h.1)
