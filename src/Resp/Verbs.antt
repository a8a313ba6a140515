-- ===== src/Resp/Verbs.antt =====
-- The command that a verb names, and `find_command`, which searches it.
use pelikan.Common.{
  ℕ, zero, suc, ◌+◌, ◌≡◌, ◌≢◌, refl, ap, ◌∙◌, subst, inl, inr, arith, true, false, Bool-cases,
  Option, none, some, List, [], ◌∷◌, ◌↔◌,
}
use pelikan.Common.Memory.{Bytes}
use pelikan.Resp.{Element, elem_str, elem_err, elem_bulk}
use pelikan.Resp.Commands.{Command}
use pelikan.Resp.Message.{Strings}
use pelikan.Resp.Request.{bstr_of, find_command}

-- `bstring_compare` finds no difference just where the strings are the same.
abbrev pub ComparesBytes : Strings → Type 0
ComparesBytes str = (a b : Bytes) → (str.bstring_equal a b ≡ true) ↔ (a ≡ b)

-- The command at a place of the table has this name, and none before it has.
abbrev pub IsNamed : List Command → ℕ → Command → Bytes → Type 0
IsNamed [] n cmd verb = ⊥
IsNamed (c ∷ cs) zero cmd verb = (c ≡ cmd) × (c.bstr ≡ verb)
IsNamed (c ∷ cs) (suc n) cmd verb = (c.bstr ≢ verb) × IsNamed cs n cmd verb

-- The text of an element.
abbrev pub IsText : Strings → Element → Bytes → Type 0
IsText str (elem_str s) verb = s ≡ verb
IsText str (elem_err s) verb = s ≡ verb
IsText str (elem_bulk s) verb = s ≡ verb
IsText str el verb = str.other_bstr el ≡ verb

pub bstr_of-IsText : (str : Strings) (el : Element) → IsText str el (bstr_of str el)
unfolding bstr_of
bstr_of-IsText str (elem_str s) = refl
bstr_of-IsText str (elem_err s) = refl
bstr_of-IsText str (Element.elem_int z) = refl
bstr_of-IsText str (elem_bulk s) = refl
bstr_of-IsText str (Element.elem_array z) = refl
bstr_of-IsText str (Element.elem_attrib z) = refl
bstr_of-IsText str Element.elem_nil = refl
bstr_of-IsText str Element.elem_null = refl

pub text_bstr_of :
    (str : Strings) (el : Element) (verb : Bytes) → IsText str el verb → bstr_of str el ≡ verb
unfolding bstr_of
text_bstr_of str (elem_str s) verb e = e
text_bstr_of str (elem_err s) verb e = e
text_bstr_of str (Element.elem_int z) verb e = e
text_bstr_of str (elem_bulk s) verb e = e
text_bstr_of str (Element.elem_array z) verb e = e
text_bstr_of str (Element.elem_attrib z) verb e = e
text_bstr_of str Element.elem_nil verb e = e
text_bstr_of str Element.elem_null verb e = e

-- What the search finds from the place `k` on.
abbrev FoundAt : ℕ → List Command → Bytes → Option (ℕ × Command) → Type 0
FoundAt k table verb none = Unit
FoundAt k table verb (some (type, cmd)) = (n : ℕ) × (type ≡ k + n) × IsNamed table n cmd verb

module _ (str : Strings) (same : ComparesBytes str) where
  bstring_differs : (a b : Bytes) → a ≢ b → str.bstring_equal a b ≡ false
  bstring_differs a b d = elim (Bool-cases (str.bstring_equal a b)) [
    | inl e ↦ absurd (d ((same a b).0 e))
    | inr e ↦ e
  ]

  FoundAt-later :
      (k : ℕ) (c : Command) (cs : List Command) (verb : Bytes) (r : Option (ℕ × Command))
      → c.bstr ≢ verb
      → FoundAt (k + 1) cs verb r
      → FoundAt k (c ∷ cs) verb r
  FoundAt-later k c cs verb none d h = tt
  FoundAt-later k c cs verb (some (type, cmd)) d (n, e, h) = (suc n, omega (arith, e), (d, h))

  find_command-FoundAt :
      (k : ℕ) (table : List Command) (verb : Bytes)
      → FoundAt k table verb (find_command str k table verb)
  unfolding find_command
  find_command-FoundAt k [] verb = tt
  find_command-FoundAt k (c ∷ cs) verb = elim (Bool-cases (str.bstring_equal c.bstr verb)) [
    | inl e ↦ rw e (zero, omega arith, (refl, (same c.bstr verb).0 e))
    | inr e ↦ rw e (
        FoundAt-later k c cs verb _ (λ d. ground (arith, e, (same c.bstr verb).1 d))
          (find_command-FoundAt (k + 1) cs verb))
  ]

  -- The place of a command in the table, counted from 1, is its type.
  pub find_command_sound :
      (table : List Command) (verb : Bytes) (type : ℕ) (cmd : Command)
      → find_command str 1 table verb ≡ some (type, cmd)
      → (n : ℕ) × (type ≡ suc n) × IsNamed table n cmd verb
  find_command_sound table verb type cmd e =
      let (n, k, h) = subst (FoundAt 1 table verb) e (find_command-FoundAt 1 table verb) in
      (n, omega (arith, k), h)

  pub find_command_named :
      (k n : ℕ) (table : List Command) (cmd : Command) (verb : Bytes)
      → IsNamed table n cmd verb
      → find_command str k table verb ≡ some (k + n, cmd)
  unfolding find_command
  find_command_named k n [] cmd verb h = absurd h
  find_command_named k zero (c ∷ cs) cmd verb h =
      rw ((same c.bstr verb).1 h.1)
        (ap some (ap (λ i. (i, c)) (omega arith) ∙ ap (λ d. (k + zero, d)) h.0))
  find_command_named k (suc n) (c ∷ cs) cmd verb h =
      rw (bstring_differs c.bstr verb h.0)
        (find_command_named (k + 1) n cs cmd verb h.1 ∙ ap (λ i. some (i, cmd)) (omega arith))
