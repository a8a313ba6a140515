-- ===== src/Common/Memory.antt =====
-- Byte memory: a region is a list of bytes, a pointer an offset into it. Integers are stored
-- little-endian, and the copies of the C library are cuts and joins of lists. A write is only
-- meant inside the region; its callers have that as a hypothesis.
use Prim.Native.Nat.{ℕ, zero, suc, ◌+◌, ◌*◌, ◌/◌, ◌%◌, ◌^◌, ◌≤◌, ◌<◌}
use mathlib.Core.Path.{◌≡◌, refl, sym, ap, ap₂, ◌∙◌}
use mathlib.Core.List.{List, [], ◌∷◌, ◌++◌, append_assoc}
use native.Mathlib.Omega.{arith}
use native.Mathlib.Nat.{pow-suc}
use mathlib.Core.Logic.{inl, inr}
use mathlib.Core.Bool.{Bool, true, false, ◌&&◌}
use pelikan.Common.Tests.{◌==◌, ==_iff, ==_eq, Bool-cases}
use pelikan.Common.Lists.{
  length, take, drop, get_or, length-append, take-append, drop-append, drop-add, length-drop,
  length-take,
}

abbrev pub Bytes : Type 0
Bytes = List ℕ

-- The `n` bytes at `p`.
unfoldable pub slice : ℕ → ℕ → Bytes → Bytes
slice p n m = take n (drop p m)

-- `memcpy` of `bs` to `p`.
unfoldable pub splice : ℕ → Bytes → Bytes → Bytes
splice p bs m = take p m ++ (bs ++ drop (p + length bs) m)

-- `memmove(dst, src, n)`.
unfoldable pub memmove : ℕ → ℕ → ℕ → Bytes → Bytes
memmove dst src n m = splice dst (slice src n m) m

unfoldable pub le_bytes : ℕ → ℕ → Bytes
le_bytes zero v = []
le_bytes (suc n) v = v % 256 ∷ le_bytes n (v / 256)

unfoldable pub le_value : Bytes → ℕ
le_value [] = 0
le_value (b ∷ bs) = b + 256 * le_value bs

-- The unsigned integer of `n` bytes at `p`, read and written.
unfoldable pub load : ℕ → ℕ → Bytes → ℕ
load n p m = le_value (slice p n m)

unfoldable pub store : ℕ → ℕ → ℕ → Bytes → Bytes
store n p v m = splice p (le_bytes n v) m

-- One byte at `p`.
unfoldable pub byte : ℕ → Bytes → ℕ
byte p m = get_or (drop p m) 0 0

unfoldable pub set_byte : ℕ → ℕ → Bytes → Bytes
set_byte p b m = splice p (b % 256 ∷ []) m

-- `memcmp` of two parts of one length finds no difference.
unfoldable pub bytes_eq : Bytes → Bytes → Bool
bytes_eq [] [] = true
bytes_eq (a ∷ as') (b ∷ bs) = a == b && bytes_eq as' bs
bytes_eq _ _ = false

pub length-le_bytes : (n v : ℕ) → length (le_bytes n v) ≡ n
unfolding le_bytes
length-le_bytes zero v = refl
length-le_bytes (suc n) v = ap suc (length-le_bytes n (v / 256))

pub le_value-le_bytes : (n v : ℕ) → v < 256 ^ n → le_value (le_bytes n v) ≡ v
unfolding le_bytes le_value
le_value-le_bytes zero v h = omega arith
le_value-le_bytes (suc n) v h = omega (arith, le_value-le_bytes n (v / 256) (quotient n v h))
  where
    quotient : (n v : ℕ) → v < 256 ^ suc n → v / 256 < 256 ^ n
    quotient n v h = let e = pow-suc 256 n in omega arith

pub slice-append :
    (P Q R : Bytes) (p n : ℕ) → p ≡ length P → n ≡ length Q → slice p n (P ++ (Q ++ R)) ≡ Q
unfolding slice
slice-append P Q R p n hp hn = rw (drop-append p P (Q ++ R) hp) (take-append n Q R hn)

pub splice-append :
    (P G R V : Bytes) (p : ℕ)
    → p ≡ length P
    → length V ≡ length G
    → splice p V (P ++ (G ++ R)) ≡ P ++ (V ++ R)
unfolding splice
splice-append P G R V p hp hv =
    ap₂ (λ a b. a ++ (V ++ b)) (take-append p P (G ++ R) hp)
      (drop-add p (length V) _
        ∙ ap (drop (length V)) (drop-append p P (G ++ R) hp)
        ∙ drop-append (length V) G R hv)

pub length-splice :
    (p : ℕ) (V m : Bytes) → p + length V ≤ length m → length (splice p V m) ≡ length m
unfolding splice
length-splice p V m h = omega (
  arith,
  length-append (take p m) (V ++ drop (p + length V) m),
  length-append V (drop (p + length V) m),
  length-take p m (omega arith),
  length-drop (p + length V) m,
)

pub byte-append : (P R : Bytes) (b p : ℕ) → p ≡ length P → byte p (P ++ (b ∷ R)) ≡ b
unfolding byte
byte-append P R b p hp = rw (drop-append p P (b ∷ R) hp)

pub store_lem : (n p v : ℕ) (m : Bytes) → store n p v m ≡ splice p (le_bytes n v) m
unfolding store
store_lem n p v m = refl

pub set_byte_lem : (p b : ℕ) (m : Bytes) → b < 256 → set_byte p b m ≡ splice p (b ∷ []) m
unfolding set_byte
set_byte_lem p b m h = ap (λ (c : ℕ). splice p (c ∷ []) m) (omega arith)

pub byte_behind : (P R : Bytes) (a b p : ℕ) → p ≡ suc (length P) → byte p (P ++ (a ∷ (b ∷ R))) ≡ b
byte_behind P R a b p hp =
    ap (byte p) (sym (append_assoc P (a ∷ []) (b ∷ R)))
    ∙ byte-append (P ++ (a ∷ [])) R b p (omega (arith, length-append P (a ∷ [])))

pub le_value_cons : (b : ℕ) (bs : Bytes) → le_value (b ∷ bs) ≡ b + 256 * le_value bs
unfolding le_value
le_value_cons b bs = refl

pub bytes_eq_sound : (a b : Bytes) → bytes_eq a b ≡ true → a ≡ b
unfolding bytes_eq
bytes_eq_sound [] [] h = refl
bytes_eq_sound [] (b ∷ bs) h = absurd (ground (arith, h))
bytes_eq_sound (a ∷ as') [] h = absurd (ground (arith, h))
bytes_eq_sound (a ∷ as') (b ∷ bs) h = elim (Bool-cases (a == b)) [
  | inl e ↦ ap₂ (λ x t. x ∷ t) ((==_iff a b).0 e) (bytes_eq_sound as' bs (rw e at h))
  | inr d ↦ absurd (ground (arith, rw d at h))
]

pub bytes_eq-same : (a : Bytes) → bytes_eq a a ≡ true
unfolding bytes_eq
bytes_eq-same [] = refl
bytes_eq-same (x ∷ as') = rw (==_eq x x refl, bytes_eq-same as')
