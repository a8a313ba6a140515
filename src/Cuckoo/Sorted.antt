-- ===== src/Cuckoo/Sorted.antt =====
-- storage/cuckoo/cuckoo.c: the order of the candidates, `_sort_candidate`, under both policies.
use mathlib.Core.List.{Memᴰ, Permᴰ}
use mathlib.Core.List.Permᴰ
use pelikan.Common.{
  ℕ, zero, suc, ◌%◌, ◌<◌, ◌≡◌, ◌⊎◌, refl, sym, subst, ◌∙◌, inl, inr, true, false, Bool-cases, List,
  [], ◌∷◌, ◌++◌, append-nil, arith, ltb→lt, ltb→ge, le→leb, leb→le,
}
use pelikan.Common.Int.{leb_ℤ, ltb_ℤ}
use pelikan.Cuckoo.Chunk.{Item, Policy, random_policy, expire_policy}
use pelikan.Cuckoo.Candidates.{degree, sift, sort_from, back_to_front, rotate, sort_candidate}

module _ {ℓ} {A : Type ℓ} where
  pub perm-mem : {a : A} {xs ys : List A} → Permᴰ xs ys → Memᴰ a xs → Memᴰ a ys
  perm-mem Permᴰ.nil m = m
  perm-mem (Permᴰ.cons e d) (Memᴰ.head p) = Memᴰ.head (p ∙ e)
  perm-mem (Permᴰ.cons e d) (Memᴰ.tail m) = Memᴰ.tail (perm-mem d m)
  perm-mem (Permᴰ.swap e f) (Memᴰ.head p) = Memᴰ.tail (Memᴰ.head (p ∙ e))
  perm-mem (Permᴰ.swap e f) (Memᴰ.tail (Memᴰ.head p)) = Memᴰ.head (p ∙ f)
  perm-mem (Permᴰ.swap e f) (Memᴰ.tail (Memᴰ.tail m)) = Memᴰ.tail (Memᴰ.tail m)
  perm-mem (Permᴰ.trans d f) m = perm-mem f (perm-mem d m)

  perm_prepend : (xs : List A) {ys zs : List A} → Permᴰ ys zs → Permᴰ (xs ++ ys) (xs ++ zs)
  perm_prepend [] d = d
  perm_prepend (x ∷ xs) d = Permᴰ.cons refl (perm_prepend xs d)

  perm_middle : (xs : List A) (a : A) (ys : List A) → Permᴰ (xs ++ (a ∷ ys)) (a ∷ (xs ++ ys))
  perm_middle [] a ys = Permᴰ.refl (a ∷ ys)
  perm_middle (x ∷ xs) a ys =
      Permᴰ.trans (Permᴰ.cons refl (perm_middle xs a ys)) (Permᴰ.swap refl refl)

module _ (ds : ℕ → Item) where
  perm-sift : (o : ℕ) (ps : List ℕ) → Permᴰ (sift ds o ps) (o ∷ ps)
  unfolding sift
  perm-sift o [] = Permᴰ.refl (o ∷ [])
  perm-sift o (p ∷ ps) = elim (Bool-cases (ltb_ℤ (ds o).expire (ds p).expire)) [
    | inl e ↦ rw e (Permᴰ.trans (Permᴰ.cons refl (perm-sift o ps)) (Permᴰ.swap refl refl))
    | inr e ↦ rw e (Permᴰ.refl (o ∷ p ∷ ps))
  ]

  perm-sort_from : (sorted os : List ℕ) → Permᴰ (sort_from ds sorted os) (os ++ sorted)
  unfolding sort_from
  perm-sort_from sorted [] = Permᴰ.refl sorted
  perm-sort_from sorted (o ∷ os) =
      Permᴰ.trans (perm-sort_from (sift ds o sorted) os)
        (Permᴰ.trans (perm_prepend os (perm-sift o sorted)) (perm_middle os o sorted))

  perm-back_to_front : (xs acc : List ℕ) → Permᴰ (back_to_front xs acc) (xs ++ acc)
  unfolding back_to_front
  perm-back_to_front [] acc = Permᴰ.refl acc
  perm-back_to_front (x ∷ xs) acc =
      Permᴰ.trans (perm-back_to_front xs (x ∷ acc)) (perm_middle xs x acc)

  -- One item expires no later than another.
  abbrev pub Before : ℕ → ℕ → Type 0
  Before o p = leb_ℤ (ds o).expire (ds p).expire ≡ true

  -- Ascending and, read from the end, descending times of expiry.
  abbrev pub IsAscending : List ℕ → Type 0
  IsAscending [] = Unit
  IsAscending (o ∷ os) = ((p : ℕ) → Memᴰ p os → Before o p) × IsAscending os

  abbrev IsDescending : List ℕ → Type 0
  IsDescending [] = Unit
  IsDescending (o ∷ os) = ((p : ℕ) → Memᴰ p os → Before p o) × IsDescending os

  Before-of_ltb : (o p : ℕ) → ltb_ℤ (ds o).expire (ds p).expire ≡ true → Before o p
  Before-of_ltb o p h = le→leb _ _ (omega (arith, ltb→lt _ _ h))

  Before-of_not-ltb : (o p : ℕ) → ltb_ℤ (ds o).expire (ds p).expire ≡ false → Before p o
  Before-of_not-ltb o p h = le→leb _ _ (omega (arith, ltb→ge _ _ h))

  Before-trans : (o p q : ℕ) → Before o p → Before p q → Before o q
  Before-trans o p q h k = le→leb _ _ (omega (arith, leb→le _ _ h, leb→le _ _ k))

  sift-IsDescending : (o : ℕ) (ps : List ℕ) → IsDescending ps → IsDescending (sift ds o ps)
  unfolding sift
  sift-IsDescending o [] h = (λ p m. elim m [ ], tt)
  sift-IsDescending o (p ∷ ps) h = elim (Bool-cases (ltb_ℤ (ds o).expire (ds p).expire)) [
    | inl e ↦ rw e (above e, sift-IsDescending o ps h.1)
    | inr e ↦ rw e (below e, h)
  ]
    where
      above :
          ltb_ℤ (ds o).expire (ds p).expire ≡ true → (q : ℕ) → Memᴰ q (sift ds o ps) → Before q p
      above e q m = elim (perm-mem (perm-sift o ps) m) [
        | Memᴰ.head r ↦ subst (λ s. Before s p) (sym r) (Before-of_ltb o p e)
        | Memᴰ.tail t ↦ h.0 q t
      ]

      below : ltb_ℤ (ds o).expire (ds p).expire ≡ false → (q : ℕ) → Memᴰ q (p ∷ ps) → Before q o
      below e q m = elim m [
        | Memᴰ.head r ↦ subst (λ s. Before s o) (sym r) (Before-of_not-ltb o p e)
        | Memᴰ.tail t ↦ Before-trans q p o (h.0 q t) (Before-of_not-ltb o p e)
      ]

  sort_from-IsDescending :
      (sorted os : List ℕ) → IsDescending sorted → IsDescending (sort_from ds sorted os)
  unfolding sort_from
  sort_from-IsDescending sorted [] h = h
  sort_from-IsDescending sorted (o ∷ os) h =
      sort_from-IsDescending (sift ds o sorted) os (sift-IsDescending o sorted h)

  back_to_front-IsAscending :
      (xs acc : List ℕ)
      → IsDescending xs
      → IsAscending acc
      → ((x a : ℕ) → Memᴰ x xs → Memᴰ a acc → Before x a)
      → IsAscending (back_to_front xs acc)
  unfolding back_to_front
  back_to_front-IsAscending [] acc h k b = k
  back_to_front-IsAscending (x ∷ xs) acc h k b =
      back_to_front-IsAscending xs (x ∷ acc) h.1 (λ a m. b x a (Memᴰ.head refl) m, k)
        λ y a m n. elim n [
          | Memᴰ.head r ↦ subst (λ s. Before y s) (sym r) (h.0 y m)
          | Memᴰ.tail t ↦ b y a (Memᴰ.tail m) t
        ]

rotate-cases : (j : ℕ) → j < 4 → (j ≡ 0) ⊎ ((j ≡ 1) ⊎ ((j ≡ 2) ⊎ (j ≡ 3)))
rotate-cases zero h = inl refl
rotate-cases (suc zero) h = inr (inl refl)
rotate-cases (suc (suc zero)) h = inr (inr (inl refl))
rotate-cases (suc (suc (suc zero))) h = inr (inr (inr refl))
rotate-cases (suc (suc (suc (suc j)))) h = absurd (omega arith)

perm-rotate :
    (a b c d j : ℕ) → j < 4 → Permᴰ (rotate degree j (a ∷ b ∷ c ∷ d ∷ [])) (a ∷ b ∷ c ∷ d ∷ [])
unfolding rotate
perm-rotate a b c d j h = elim (rotate-cases j h) [
  | inl e ↦ rw e (Permᴰ.refl (a ∷ b ∷ c ∷ d ∷ []))
  | inr (inl e) ↦ rw e (perm_middle (b ∷ c ∷ d ∷ []) a [])
  | inr (inr (inl e)) ↦ rw e (
      Permᴰ.trans (perm_middle (c ∷ d ∷ []) a (b ∷ []))
        (Permᴰ.cons refl (perm_middle (c ∷ d ∷ []) b [])))
  | inr (inr (inr e)) ↦ rw e (Permᴰ.symm (perm_middle (a ∷ b ∷ c ∷ []) d []))
]

module _ (random : ℕ) (ds : ℕ → Item) (a b c d : ℕ) where
  abbrev offset : List ℕ
  offset = a ∷ b ∷ c ∷ d ∷ []

  pub perm-sort_candidate :
      (policy : Policy) → Permᴰ (sort_candidate policy random ds offset) offset
  unfolding sort_candidate
  perm-sort_candidate random_policy = perm-rotate a b c d (random % degree) (omega arith)
  perm-sort_candidate expire_policy =
      Permᴰ.trans (perm-back_to_front ds _ [])
        (subst (λ xs. Permᴰ xs offset) (sym (append-nil _)) (perm-sort_from ds [] offset))

-- Where the policy is to evict what expires first, the order of the candidates lists the four
-- slots of a key, as often as they are among them, in ascending order of expiry.
pub sort_candidate-IsAscending :
    (random : ℕ) (ds : ℕ → Item) (a b c d : ℕ)
    → Permᴰ (sort_candidate expire_policy random ds (a ∷ b ∷ c ∷ d ∷ [])) (a ∷ b ∷ c ∷ d ∷ [])
      × IsAscending ds (sort_candidate expire_policy random ds (a ∷ b ∷ c ∷ d ∷ []))
unfolding sort_candidate
sort_candidate-IsAscending random ds a b c d = (
  perm-sort_candidate random ds a b c d expire_policy,
  back_to_front-IsAscending ds _ [] (sort_from-IsDescending ds [] (a ∷ b ∷ c ∷ d ∷ []) tt) tt
      λ x y m n. elim n [ ],
)
