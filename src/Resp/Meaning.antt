-- ===== src/Resp/Meaning.antt =====
-- What the attributes of a message mean, and `parse_attrib`, which takes them one by one.
use pelikan.Common.{
  ℕ, ◌^◌, ◌≡◌, refl, sym, ap, subst, ◌∙◌, inl, inr, arith, Bool, false, Bool-cases, ltb,
  if◌then◌else◌, List, [], ◌∷◌,
}
use pelikan.Common.Memory.{Bytes, bytes_eq, bytes_eq_sound, bytes_eq-same}
use pelikan.Common.Int.{ℤ, pos, negsuc}
use pelikan.Resp.{
  Element, elem_str, elem_err, elem_int, elem_bulk, elem_array, elem_attrib, elem_nil, elem_null,
}
use pelikan.Resp.Message.{
  Strings, Attribs, ttl_str, flag_str, attrib_unknown, attrib_ttl, attrib_flag, attrib_sentinel,
  find_attrib, lookup_attrib_key, set_attrib, parse_attrib,
}
use pelikan.Resp.Attributes.{apply_attribs}
use pelikan.Resp.Verbs.{ComparesBytes}

-- "ttl" and "flag".
abbrev pub is_ttl : Element → Bool
is_ttl (elem_str key) = bytes_eq (116 ∷ 116 ∷ 108 ∷ []) key
is_ttl _ = false

abbrev pub is_flag : Element → Bool
is_flag (elem_str key) = bytes_eq (102 ∷ 108 ∷ 97 ∷ 103 ∷ []) key
is_flag _ = false

-- An integer, and one that fits a `uint32_t`, in place of the value before.
abbrev pub or_int : ℤ → Element → ℤ
or_int z (elem_int num) = num
or_int z _ = z

abbrev pub or_word : ℤ → Element → ℤ
or_word z (elem_int (pos n)) = if ltb n (2 ^ 32) then pos n else z
or_word z _ = z

-- The last integer under the key "ttl", and the last one under the key "flag" that is a `uint32_t`, or
-- else what was there before.
abbrev pub ttl_after : ℤ → List (Element × Element) → ℤ
ttl_after z [] = z
ttl_after z ((key, val) ∷ ps) = ttl_after (if is_ttl key then or_int z val else z) ps

abbrev pub flag_after : ℤ → List (Element × Element) → ℤ
flag_after z [] = z
flag_after z ((key, val) ∷ ps) = flag_after (if is_flag key then or_word z val else z) ps

abbrev pub attribs_after : Attribs → List (Element × Element) → Attribs
attribs_after a ps = record { ttl = ttl_after a.ttl ps; flag = flag_after a.flag ps }

bytes_eq_cons : (c : ℕ) (cs : Bytes) → bytes_eq [] (c ∷ cs) ≡ false
unfolding bytes_eq
bytes_eq_cons c cs = refl

module _ (str : Strings) (same : ComparesBytes str) where
  set_none : (a : Attribs) (val : Element) → set_attrib str a val attrib_unknown ≡ a
  unfolding set_attrib
  set_none a (elem_str s) = refl
  set_none a (elem_err s) = refl
  set_none a (elem_int z) = refl
  set_none a (elem_bulk s) = refl
  set_none a (elem_array z) = refl
  set_none a (elem_attrib z) = refl
  set_none a elem_nil = refl
  set_none a elem_null = refl

  set_other : (a : Attribs) (val : Element) → set_attrib str a val attrib_sentinel ≡ a
  unfolding set_attrib
  set_other a (elem_str s) = refl
  set_other a (elem_err s) = refl
  set_other a (elem_int z) = refl
  set_other a (elem_bulk s) = refl
  set_other a (elem_array z) = refl
  set_other a (elem_attrib z) = refl
  set_other a elem_nil = refl
  set_other a elem_null = refl

  set_ttl :
      (a : Attribs) (val : Element)
      → set_attrib str a val attrib_ttl ≡ record a { ttl = or_int a.ttl val }
  unfolding set_attrib
  set_ttl a (elem_str s) = refl
  set_ttl a (elem_err s) = refl
  set_ttl a (elem_int z) = refl
  set_ttl a (elem_bulk s) = refl
  set_ttl a (elem_array z) = refl
  set_ttl a (elem_attrib z) = refl
  set_ttl a elem_nil = refl
  set_ttl a elem_null = refl

  set_flag :
      (a : Attribs) (val : Element)
      → set_attrib str a val attrib_flag ≡ record a { flag = or_word a.flag val }
  unfolding set_attrib
  set_flag a (elem_str s) = refl
  set_flag a (elem_err s) = refl
  set_flag a (elem_int (pos n)) = elim (Bool-cases (ltb n (2 ^ 32))) [
    | inl lt ↦ ground arith
    | inr ge ↦ ground arith
  ]
  set_flag a (elem_int (negsuc n)) = ground arith
  set_flag a (elem_bulk s) = refl
  set_flag a (elem_array z) = refl
  set_flag a (elem_attrib z) = refl
  set_flag a elem_nil = refl
  set_flag a elem_null = refl

  equal_lem : (a b : Bytes) → str.bstring_equal a b ≡ bytes_eq a b
  equal_lem a b = elim (Bool-cases (bytes_eq a b)) [
    | inl e ↦ (same a b).1 (bytes_eq_sound a b e) ∙ sym e
    | inr d ↦ elim (Bool-cases (str.bstring_equal a b)) [
      | inl e ↦ e ∙ sym (bytes_eq-same a) ∙ ap (λ t. bytes_eq a t) ((same a b).0 e)
      | inr e ↦ e ∙ sym d
    ]
  ]

  -- The attributes after one pair.
  abbrev stepped : Attribs → Element → Element → Attribs
  stepped a key val = record {
    ttl = if is_ttl key then or_int a.ttl val else a.ttl;
    flag = if is_flag key then or_word a.flag val else a.flag;
  }

  abbrev AtKey : Attribs → Element → Bytes → Type 0
  AtKey a val key = set_attrib str a val (find_attrib str key) ≡ stepped a (elem_str key) val

  at_ttl : (a : Attribs) (val : Element) → AtKey a val ttl_str
  unfolding find_attrib bytes_eq
  at_ttl a val = rw (equal_lem [] ttl_str, equal_lem ttl_str ttl_str) (set_ttl a val)

  at_flag : (a : Attribs) (val : Element) → AtKey a val flag_str
  unfolding find_attrib bytes_eq
  at_flag a val =
      rw (equal_lem [] flag_str, equal_lem ttl_str flag_str, equal_lem flag_str flag_str)
        (set_flag a val)

  at_none : (a : Attribs) (val : Element) → AtKey a val []
  unfolding find_attrib bytes_eq
  at_none a val = rw (equal_lem [] []) (set_none a val)

  at_other :
      (a : Attribs) (val : Element) (c : ℕ) (cs : Bytes)
      → bytes_eq ttl_str (c ∷ cs) ≡ false
      → bytes_eq flag_str (c ∷ cs) ≡ false
      → AtKey a val (c ∷ cs)
  unfolding find_attrib
  at_other a val c cs d e =
      rw
        (
          equal_lem [] (c ∷ cs),
          equal_lem ttl_str (c ∷ cs),
          equal_lem flag_str (c ∷ cs),
          empty,
          d,
          e,
        )
        (set_other a val)
    where
      empty : bytes_eq [] (c ∷ cs) ≡ false
      empty = bytes_eq_cons c cs

  parse_attrib-str : (a : Attribs) (key : Bytes) (val : Element) → AtKey a val key
  parse_attrib-str a [] val = at_none a val
  parse_attrib-str a (c ∷ cs) val = elim (Bool-cases (bytes_eq ttl_str (c ∷ cs))) [
    | inl e ↦ subst (AtKey a val) (bytes_eq_sound ttl_str (c ∷ cs) e) (at_ttl a val)
    | inr d ↦ elim (Bool-cases (bytes_eq flag_str (c ∷ cs))) [
      | inl e ↦ subst (AtKey a val) (bytes_eq_sound flag_str (c ∷ cs) e) (at_flag a val)
      | inr e ↦ at_other a val c cs d e
    ]
  ]

  parse_attrib_lem :
      (a : Attribs) (key val : Element) → parse_attrib str a key val ≡ stepped a key val
  unfolding parse_attrib lookup_attrib_key
  parse_attrib_lem a (elem_str key) val = parse_attrib-str a key val
  parse_attrib_lem a (elem_err s) val = set_none a val
  parse_attrib_lem a (elem_int z) val = set_none a val
  parse_attrib_lem a (elem_bulk s) val = set_none a val
  parse_attrib_lem a (elem_array z) val = set_none a val
  parse_attrib_lem a (elem_attrib z) val = set_none a val
  parse_attrib_lem a elem_nil val = set_none a val
  parse_attrib_lem a elem_null val = set_none a val

  pub apply_attribs_lem :
      (a : Attribs) (ps : List (Element × Element)) → apply_attribs str a ps ≡ attribs_after a ps
  apply_attribs_lem a [] = refl
  apply_attribs_lem a ((key, val) ∷ ps) =
      ap (λ b. apply_attribs str b ps) (parse_attrib_lem a key val)
      ∙ apply_attribs_lem (stepped a key val) ps
