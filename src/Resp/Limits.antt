-- ===== src/Resp/Limits.antt =====
-- How many elements `parse_range` pushes, and the limits of a command on them.
use pelikan.Resp.Verbs.{IsText, IsNamed}
use pelikan.Common.{
  ℕ, zero, suc, ◌-◌, ◌≡◌, refl, sym, ◌∙◌, inl, inr, arith, false, Bool-cases, Option, none, some,
  List, [], ◌∷◌, ◌++◌, append_assoc, length, get_or,
}
use mathlib.Core.List.{append-nil}
use pelikan.Common.Memory.{Bytes}
use pelikan.Common.Int.{pos, ltb_ℤ, ◌+ℤ◌}
use pelikan.Resp.{
  ParseStatus, parse_ok, eunfin, eempty, eoversize, einvalid, eother, Element, elem_nil,
  parse_element,
}
use pelikan.Resp.Commands.{Command}
use pelikan.Resp.Settled.{IsError, with_element_ind, parse_element-Settled}
use pelikan.Resp.Message.{Strings, parse_range}
use pelikan.Resp.Request.{check_narg}

-- `n` elements were pushed.
abbrev pub Ranged : ℕ → List Element → ParseStatus × List Element × Bytes → Type 0
Ranged n token (parse_ok, t, rest) = (els : List Element) × (t ≡ token ++ els) × (length els ≡ n)
Ranged n token _ = Unit

Ranged-push :
    (n : ℕ) (token : List Element) (el : Element) (r : ParseStatus × List Element × Bytes)
    → Ranged n (token ++ (el ∷ [])) r
    → Ranged (suc n) token r
Ranged-push n token el (parse_ok, t, rest) (els, e, k) =
    (el ∷ els, e ∙ append_assoc token (el ∷ []) els, omega (arith, k))
Ranged-push n token el (eunfin, t, rest) h = tt
Ranged-push n token el (eempty, t, rest) h = tt
Ranged-push n token el (eoversize, t, rest) h = tt
Ranged-push n token el (einvalid, t, rest) h = tt
Ranged-push n token el (eother, t, rest) h = tt

Ranged-error :
    (n : ℕ) (token : List Element) (rest : Bytes) (status : ParseStatus)
    → IsError status
    → Ranged n token (status, token, rest)
Ranged-error n token rest parse_ok h = absurd h
Ranged-error n token rest eunfin h = tt
Ranged-error n token rest eempty h = tt
Ranged-error n token rest eoversize h = tt
Ranged-error n token rest einvalid h = tt
Ranged-error n token rest eother h = tt

pub parse_range-Ranged :
    (n : ℕ) (token : List Element) (buf : Bytes) → Ranged n token (parse_range n token buf)
unfolding parse_range
parse_range-Ranged zero token buf = ([], sym (append-nil token), refl)
parse_range-Ranged (suc n) token [] = tt
parse_range-Ranged (suc n) token (c ∷ cs) =
    with_element_ind (λ r. Ranged (suc n) token r) _ _ (parse_element (c ∷ cs))
      (parse_element-Settled (c ∷ cs)) (λ status h. Ranged-error (suc n) token (c ∷ cs) status h)
      (λ el rest. Ranged-push n token el _ (parse_range-Ranged n (token ++ (el ∷ [])) rest))

-- The number of elements behind the array keeps the limits of a command.
abbrev pub Keeps : Command → ℕ → Type 0
Keeps cmd narg =
    (ltb_ℤ (pos narg) cmd.narg ≡ false) × (ltb_ℤ (cmd.narg +ℤ cmd.nopt) (pos narg) ≡ false)

-- The type is the place of a command, counted from 1, whose name is the text of the first element
-- behind the array, and whose limits the number of elements keeps.
abbrev pub Obeys : Strings → List Command → List Element → ℕ → Type 0
Obeys str table token type =
    (n : ℕ) × (cmd : Command) × (verb : Bytes) × (type ≡ suc n)
    × IsText str (get_or token 1 elem_nil) verb
    × IsNamed table n cmd verb
    × Keeps cmd (length token - 1)

abbrev pub Checked : ℕ → Option (ℕ × Command) → ParseStatus × ℕ → Type 0
Checked narg found (parse_ok, type) =
    (cmd : Command) × (found ≡ some (type, cmd))
    × (ltb_ℤ (pos narg) cmd.narg ≡ false)
    × (ltb_ℤ (cmd.narg +ℤ cmd.nopt) (pos narg) ≡ false)
Checked narg found _ = Unit

pub check_narg-Checked :
    (narg : ℕ) (found : Option (ℕ × Command)) → Checked narg found (check_narg narg found)
unfolding check_narg
check_narg-Checked narg none = tt
check_narg-Checked narg (some (type, cmd)) = elim (Bool-cases (ltb_ℤ (pos narg) cmd.narg)) [
  | inl few ↦ rw few tt
  | inr enough ↦ elim (Bool-cases (ltb_ℤ (cmd.narg +ℤ cmd.nopt) (pos narg))) [
    | inl many ↦ rw (enough, many) tt
    | inr fits ↦ rw (enough, fits) (cmd, refl, enough, fits)
  ]
]
