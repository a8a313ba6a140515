-- ===== src/Sarray/Holds.antt =====
-- When a sorted array holds a list of values, and how its entries are then read.
use pelikan.Common.{
  Bool-cases, ==_iff, ℕ, zero, suc, ◌*◌, ◌^◌, ◌≤◌, ◌<◌, ◌≡◌, inl, inr, refl, arith, List, [], ◌∷◌,
  ◌++◌, length, get_or, ◌==◌, lt→ltb, if◌then◌else◌,
}
use pelikan.Common.Words.{IsWidth, mul32_exact}
use pelikan.Common.Memory.{Bytes, slice, load, le_bytes, length-le_bytes, le_value-le_bytes}
use pelikan.Search.Layout.{body_of, Sized, slice-at}
use pelikan.Search.Sorted.{IsSorted, key_at}
use pelikan.Sarray.{Sarray, get_value, sign_extend, position, entry}

-- Below this a value of that width is read back. One-byte values are read through a signed `char`.
abbrev pub limit : ℕ → ℕ
limit e = if e == 1 then 128 else 256 ^ e

abbrev pub AllBelow : ℕ → List ℕ → Type 0
AllBelow b [] = Unit
AllBelow b (x ∷ xs) = (x < b) × AllBelow b xs

-- The body is the values in ascending order, little-endian, and then `rest`.
pub record Holds (sa : Sarray) (xs : List ℕ) (rest : Bytes) : Type 0 where
  pub entries : sa.body ≡ body_of (le_bytes sa.esize) xs ++ rest
  pub count : sa.nentry ≡ length xs
  pub width : IsWidth sa.esize
  pub sorted : IsSorted (λ x. x) xs
  pub readable : AllBelow (limit sa.esize) xs
  pub fits : sa.esize * length xs < 2 ^ 31

pub le_bytes-Sized : (e : ℕ) (xs : List ℕ) → Sized (le_bytes e) e xs
le_bytes-Sized e [] = tt
le_bytes-Sized e (x ∷ xs) = (length-le_bytes e x, le_bytes-Sized e xs)

pub AllBelow-at : (b i : ℕ) (xs : List ℕ) → AllBelow b xs → i < length xs → get_or xs i 0 < b
AllBelow-at b i [] h lt = absurd (omega arith)
AllBelow-at b zero (x ∷ xs) h lt = h.0
AllBelow-at b (suc i) (x ∷ xs) h lt = AllBelow-at b i xs h.1 (omega arith)

pub key_at-eq-get_or : (xs : List ℕ) (i : ℕ) → key_at (λ x. x) xs i ≡ get_or xs i 0
key_at-eq-get_or [] i = refl
key_at-eq-get_or (x ∷ xs) zero = refl
key_at-eq-get_or (x ∷ xs) (suc i) = key_at-eq-get_or xs i

pub limit-le : (e : ℕ) → limit e ≤ 256 ^ e
limit-le e = elim (Bool-cases (e == 1)) [
  | inl one ↦ rw one (rw ((==_iff e 1).0 one) (omega arith))
  | inr other ↦ rw other (omega arith)
]

get_value-load :
    (p e : ℕ) (body : Bytes)
    → IsWidth e
    → get_value p e body ≡ (if e == 1 then sign_extend (load 1 p body) else load e p body)
unfolding get_value
get_value-load p e body (inl w) = rw w
get_value-load p e body (inr (inl w)) = rw w
get_value-load p e body (inr (inr (inl w))) = rw w
get_value-load p e body (inr (inr (inr w))) = rw w

sign_extend_small : (b : ℕ) → b < 128 → sign_extend b ≡ b
unfolding sign_extend
sign_extend_small b h = rw (lt→ltb b 128 h)

load_lem :
    (p e x : ℕ) (body : Bytes) → x < 256 ^ e → slice p e body ≡ le_bytes e x → load e p body ≡ x
unfolding load
load_lem p e x body h s = rw s (le_value-le_bytes e x h)

-- A value below the limit is read back from its bytes.
pub get_value_lem :
    (p e x : ℕ) (body : Bytes)
    → IsWidth e
    → x < limit e
    → slice p e body ≡ le_bytes e x
    → get_value p e body ≡ x
get_value_lem p e x body w h s = elim (Bool-cases (e == 1)) [
  | inl one ↦
      let e1 = (==_iff e 1).0 one in
      let small : x < 128 = rw one at h in
      rw (get_value-load p e body w, one, load_lem p 1 x body (omega arith) (rw e1 at s))
        (sign_extend_small x small)
  | inr other ↦
      let small : x < 256 ^ e = rw other at h in
      rw (get_value-load p e body w, other) (load_lem p e x body small s)
]

pub position_lem :
    {sa : Sarray} {xs : List ℕ} {rest : Bytes} (i : ℕ)
    → Holds sa xs rest
    → i ≤ length xs
    → position sa.esize i ≡ sa.esize * i
unfolding position
position_lem {sa} {xs} i h le = mul32_exact sa.esize i (grind (arith, h.fits))

pub entry_lem :
    {sa : Sarray} {xs : List ℕ} {rest : Bytes} (i : ℕ)
    → Holds sa xs rest
    → i < length xs
    → entry sa i ≡ get_or xs i 0
unfolding entry
entry_lem {sa} {xs} {rest} i h lt =
    get_value_lem (position sa.esize i) sa.esize (get_or xs i 0) sa.body h.width
      (AllBelow-at (limit sa.esize) i xs h.readable lt)
      (rw (position_lem i h (omega arith), h.entries) exact)
  where
    exact :
        slice (sa.esize * i) sa.esize (body_of (le_bytes sa.esize) xs ++ rest)
        ≡ le_bytes sa.esize (get_or xs i 0)
    exact =
        rw length-le_bytes at
          (slice-at (le_bytes sa.esize) sa.esize i xs 0 rest (le_bytes-Sized sa.esize xs) lt)
