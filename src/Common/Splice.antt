-- ===== src/Common/Splice.antt =====
-- Moves and writes inside a region that is cut into parts: inserting, removing and overwriting.
use Prim.Native.Nat.{ℕ, ◌+◌, ◌-◌, ◌≤◌}
use mathlib.Core.Path.{◌≡◌, refl, sym, ap, ap₂, ◌∙◌}
use mathlib.Core.List.{◌++◌, append_assoc}
use native.Mathlib.Omega.{arith}
use pelikan.Common.Lists.{
  length, take, drop, length-append, take-append, drop-append, drop-add, length-drop, length-take,
  take-append_add, take-append-drop, slice_within, drop_behind,
}
use pelikan.Common.Memory.{Bytes, slice, splice, memmove, slice-append, splice-append}

-- Moving `Q` up by `e` leaves the first bytes behind it as they were.
pub memmove_up :
    (P Q G R : Bytes) (p n e : ℕ)
    → p ≡ length P
    → n ≡ length Q
    → e ≡ length G
    → memmove (p + e) p n (P ++ (Q ++ (G ++ R))) ≡ P ++ (take e (Q ++ (G ++ R)) ++ (Q ++ R))
unfolding memmove splice
memmove_up P Q G R p n e hp hn he =
    ap₂ (λ a b. a ++ b) (take-append_add p e P _ hp) (ap₂ (λ a b. a ++ b) moved rest)
    ∙ append_assoc P _ _
  where
    moved : slice p n (P ++ (Q ++ (G ++ R))) ≡ Q
    moved = slice-append P Q (G ++ R) p n hp hn

    behind : drop (length Q + e) (Q ++ (G ++ R)) ≡ R
    behind =
        drop-add (length Q) e _
        ∙ ap (drop e) (drop-append (length Q) Q (G ++ R) refl)
        ∙ drop-append e G R he

    rest : drop (p + e + length (slice p n (P ++ (Q ++ (G ++ R))))) (P ++ (Q ++ (G ++ R))) ≡ R
    rest = rw moved (
        ap (λ (k : ℕ). drop k (P ++ (Q ++ (G ++ R)))) (regroup p e (length Q))
        ∙ drop-add p (length Q + e) _
        ∙ ap (drop (length Q + e)) (drop-append p P _ hp)
        ∙ behind)
      where
        regroup : (a b c : ℕ) → a + b + c ≡ a + (c + b)
        regroup a b c = omega arith

-- Moving `Q` up by the length of a gap and writing `V` before it inserts `V`.
pub insert_lem :
    (P Q G R V : Bytes) (p n e : ℕ)
    → p ≡ length P
    → n ≡ length Q
    → e ≡ length G
    → length V ≡ e
    → splice p V (memmove (p + e) p n (P ++ (Q ++ (G ++ R)))) ≡ P ++ (V ++ (Q ++ R))
insert_lem P Q G R V p n e hp hn he hv = rw (memmove_up P Q G R p n e hp hn he) (
    splice-append P (take e (Q ++ (G ++ R))) (Q ++ R) V p hp
      (hv ∙ sym (length-take e (Q ++ (G ++ R)) fits)))
  where
    fits : e ≤ length (Q ++ (G ++ R))
    fits = omega (arith, length-append Q (G ++ R), length-append G R)

-- Moving `Q` down over `V` removes `V`.
pub remove_lem :
    (P V Q R : Bytes) (p n e : ℕ)
    → p ≡ length P
    → e ≡ length V
    → n ≡ length Q
    → memmove p (p + e) n (P ++ (V ++ (Q ++ R))) ≡ P ++ (Q ++ drop n (V ++ (Q ++ R)))
unfolding memmove splice slice
remove_lem P V Q R p n e hp he hn =
    ap₂ (λ a b. a ++ b) (take-append p P _ hp) (ap₂ (λ a b. a ++ b) moved rest)
  where
    moved : slice (p + e) n (P ++ (V ++ (Q ++ R))) ≡ Q
    moved =
        ap (take n) (drop-add p e _ ∙ ap (drop e) (drop-append p P _ hp) ∙ drop-append e V _ he)
        ∙ take-append n Q R hn

    rest :
        drop (p + length (slice (p + e) n (P ++ (V ++ (Q ++ R))))) (P ++ (V ++ (Q ++ R)))
        ≡ drop n (V ++ (Q ++ R))
    rest = rw (moved, ← hn) (drop-add p n _ ∙ ap (drop n) (drop-append p P _ hp))

-- Writing over the start of a part leaves the rest of the part.
pub splice_start :
    (P S R V : Bytes) (p v : ℕ)
    → p ≡ length P
    → length V ≡ v
    → v ≤ length S
    → splice p V (P ++ (S ++ R)) ≡ P ++ (V ++ (drop v S ++ R))
splice_start P S R V p v hp hv hs =
    ap (λ t. splice p V (P ++ t))
      (ap (λ t. t ++ R) (sym (take-append-drop v S)) ∙ append_assoc _ _ R)
    ∙ splice-append P (take v S) (drop v S ++ R) V p hp (hv ∙ sym (length-take v S hs))

-- Two writes, one behind the other.
pub splice_two :
    (P S R K V : Bytes) (p k v : ℕ)
    → p ≡ length P
    → length K ≡ k
    → length V ≡ v
    → k + v ≤ length S
    → splice (p + k) V (splice p K (P ++ (S ++ R))) ≡ P ++ (K ++ (V ++ (drop v (drop k S) ++ R)))
splice_two P S R K V p k v hp hk hv hs =
    ap (splice (p + k) V)
      (splice_start P S R K p k hp hk (omega arith) ∙ sym (append_assoc P K (drop k S ++ R)))
    ∙ splice_start (P ++ K) (drop k S) R V (p + k) v (omega (arith, length-append P K)) hv
        (omega (arith, length-drop k S))
    ∙ append_assoc P K _

-- Two writes, one behind the other, are one.
pub splice_merge :
    (P S R K V : Bytes) (p q : ℕ)
    → p ≡ length P
    → q ≡ p + length K
    → length K + length V ≤ length S
    → splice q V (splice p K (P ++ (S ++ R))) ≡ splice p (K ++ V) (P ++ (S ++ R))
splice_merge P S R K V p q hp hq hs =
    ap (λ (at : ℕ). splice at V (splice p K (P ++ (S ++ R)))) hq
    ∙ splice_two P S R K V p (length K) (length V) hp refl refl hs
    ∙ ap (λ t. P ++ (K ++ (V ++ (t ++ R)))) (sym (drop-add (length K) (length V) S))
    ∙ ap (λ t. P ++ t) (sym (append_assoc K V _))
    ∙ sym (splice_start P S R (K ++ V) p (length K + length V) hp (length-append K V) hs)

-- What was written is read back; what stands apart from a write is as before.
pub slice-splice :
    (p n : ℕ) (V m : Bytes) → p ≤ length m → length V ≡ n → slice p n (splice p V m) ≡ V
unfolding slice splice
slice-splice p n V m h e =
    ap (take n) (drop-append p (take p m) _ (sym (length-take p m h))) ∙ take-append n V _ (sym e)

pub slice-splice_before :
    (p n q : ℕ) (V m : Bytes) → p + n ≤ q → q ≤ length m → slice p n (splice q V m) ≡ slice p n m
unfolding slice splice
slice-splice_before p n q V m h k = slice_within p n q m _ h k

pub slice-splice_behind :
    (p n q : ℕ) (V m : Bytes)
    → q + length V ≤ p
    → q + length V ≤ length m
    → slice p n (splice q V m) ≡ slice p n m
unfolding slice splice
slice-splice_behind p n q V m h k = ap (take n) (
    drop_behind p q (length V) (take q m) V _ (sym (length-take q m (omega arith))) refl h
    ∙ sym (drop-add (q + length V) (p - (q + length V)) m)
    ∙ ap (λ (k : ℕ). drop k m) (regroup p (q + length V) h))
  where
    regroup : (p q : ℕ) → q ≤ p → q + (p - q) ≡ p
    regroup p q h = omega arith
