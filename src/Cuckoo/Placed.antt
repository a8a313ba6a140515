-- ===== src/Cuckoo/Placed.antt =====
-- storage/cuckoo/cuckoo.c: the invariant of the table, and lookups in terms of it.
use mathlib.Core.List.{Memᴰ}
use mathlib.Core.Option.{some-injective, none-ne-some}
use mathlib.Core.Bool.{true≢false}
use pelikan.Common.{
  ℕ, ◌+◌, ◌≡◌, ◌≢◌, ◌↔◌, ◌⊎◌, refl, sym, ap, subst, ◌∙◌, inl, inr, true, false, Bool-cases, Option,
  none, some, List, [], ◌∷◌, arith, length, ==_eq, ==_iff, ◌==◌, gt→leb, ltb→lt, leb→le, le→leb,
}
use pelikan.Common.Memory.{Bytes}
use pelikan.Common.Int.{pos, leb_ℤ, ltb_ℤ}
use pelikan.Time.{Clock}
use pelikan.Cuckoo.{Table, put, hit, find_hit, find_free, get}
use pelikan.Cuckoo.Chunk.{Config, Item, item_key, item_valid, item_delete}
use pelikan.Cuckoo.Candidates.{Hash, hash}
use pelikan.Cuckoo.Keys.{Keyed, hit_valid, hit_key}

abbrev pub Memory : Type 0
Memory = ℕ → Item

-- Every chunk has its size and room for its key; a valid item stands in a slot of its key; no two
-- slots hold valid items with one key.
pub record Placed (cfg : Config) (murmur3 : Hash) (c : Clock) (ds : Memory) : Type 0 where
  pub sized : (o : ℕ) → 6 + length (ds o).payload ≡ cfg.item_size
  pub keyed : (o : ℕ) → Keyed cfg (ds o)
  pub placed :
      (o : ℕ) → item_valid c (ds o) ≡ true → Memᴰ o (hash cfg murmur3 (item_key cfg (ds o)))
  pub unique :
      (o p : ℕ)
      → item_valid c (ds o) ≡ true
      → item_valid c (ds p) ≡ true
      → item_key cfg (ds o) ≡ item_key cfg (ds p)
      → o ≡ p

-- The item is in a slot as the item of the key.
abbrev pub Stored : Config → Clock → Memory → Bytes → Item → Type 0
Stored cfg c ds key it = (o : ℕ) × (ds o ≡ it) × (hit cfg c it key ≡ true)

-- After the first second of the process.
abbrev pub IsStarted : Clock → Type 0
IsStarted c = ltb_ℤ (pos 0) c.proc_sec ≡ true

pub put_same : (ds : Memory) (o : ℕ) (it : Item) → put ds o it o ≡ it
unfolding put
put_same ds o it = rw (==_eq o o refl)

pub put_other : (ds : Memory) (o p : ℕ) (it : Item) → p ≢ o → put ds o it p ≡ ds p
unfolding put
put_other ds o p it h = elim (Bool-cases (p == o)) [
  | inl e ↦ absurd (h ((==_iff p o).0 e))
  | inr e ↦ rw e
]

-- A deleted item is not valid.
pub invalid-delete : (c : Clock) (it : Item) → IsStarted c → item_valid c (item_delete it) ≡ false
unfolding item_valid item_delete
invalid-delete c it h = gt→leb _ _ (omega (arith, ltb→lt _ _ h))

-- An item that is valid later is valid now.
pub valid_earlier :
    (c d : Clock) (it : Item)
    → leb_ℤ c.proc_sec d.proc_sec ≡ true
    → item_valid d it ≡ true
    → item_valid c it ≡ true
unfolding item_valid
valid_earlier c d it h v = le→leb _ _ (omega (arith, leb→le _ _ h, leb→le _ _ v))

pub Option-cases {ℓ} : {A : Type ℓ} (m : Option A) → (m ≡ none) ⊎ ((a : A) × (m ≡ some a))
Option-cases none = inl refl
Option-cases (some a) = inr (a, refl)

module _ (cfg : Config) (murmur3 : Hash) (c : Clock) (ds : Memory) where
  -- What the loops over the offsets find.
  pub find_hit_sound :
      (key : Bytes) (os : List ℕ) (o : ℕ)
      → find_hit cfg c ds key os ≡ some o
      → (hit cfg c (ds o) key ≡ true) × Memᴰ o os
  unfolding find_hit
  find_hit_sound key [] o h = absurd (ground (arith, h))
  find_hit_sound key (p ∷ os) o h = elim (Bool-cases (hit cfg c (ds p) key)) [
    | inl e ↦
        let q = some-injective p o (rw e at h) in
        (subst (λ s. hit cfg c (ds s) key ≡ true) q e, Memᴰ.head (sym q))
    | inr e ↦ let r = find_hit_sound key os o (rw e at h) in (r.0, Memᴰ.tail r.1)
  ]

  find_hit-none :
      (key : Bytes) (os : List ℕ)
      → find_hit cfg c ds key os ≡ none
      → (o : ℕ) → Memᴰ o os
      → hit cfg c (ds o) key ≡ false
  unfolding find_hit
  find_hit-none key [] h o m = elim m [ ]
  find_hit-none key (p ∷ os) h o m = elim (Bool-cases (hit cfg c (ds p) key)) [
    | inl e ↦ absurd (ground (arith, rw e at h))
    | inr e ↦ elim m [
      | Memᴰ.head q ↦ subst (λ s. hit cfg c (ds s) key ≡ false) (sym q) e
      | Memᴰ.tail t ↦ find_hit-none key os (rw e at h) o t
    ]
  ]

  pub find_free-some :
      (os : List ℕ) (o : ℕ) → find_free c ds os ≡ some o → (item_valid c (ds o) ≡ false) × Memᴰ o os
  unfolding find_free
  find_free-some [] o h = absurd (ground (arith, h))
  find_free-some (p ∷ os) o h = elim (Bool-cases (item_valid c (ds p))) [
    | inl e ↦ let r = find_free-some os o (rw e at h) in (r.0, Memᴰ.tail r.1)
    | inr e ↦
        let q = some-injective p o (rw e at h) in
        (subst (λ s. item_valid c (ds s) ≡ false) q e, Memᴰ.head (sym q))
  ]

  pub find_free-none :
      (os : List ℕ) → find_free c ds os ≡ none → (o : ℕ) → Memᴰ o os → item_valid c (ds o) ≡ true
  unfolding find_free
  find_free-none [] h o m = elim m [ ]
  find_free-none (p ∷ os) h o m = elim (Bool-cases (item_valid c (ds p))) [
    | inl e ↦ elim m [
      | Memᴰ.head q ↦ subst (λ s. item_valid c (ds s) ≡ true) (sym q) e
      | Memᴰ.tail t ↦ find_free-none os (rw e at h) o t
    ]
    | inr e ↦ absurd (ground (arith, rw e at h))
  ]

  -- A lookup finds the slot of a stored key.
  find_hit_complete :
      (key : Bytes) (o : ℕ)
      → Placed cfg murmur3 c ds
      → hit cfg c (ds o) key ≡ true
      → find_hit cfg c ds key (hash cfg murmur3 key) ≡ some o
  find_hit_complete key o inv h =
      elim (Option-cases (find_hit cfg c ds key (hash cfg murmur3 key))) [
        | inl e ↦ absurd (true≢false (sym h ∙ find_hit-none key _ e o at_key))
        | inr (p, e) ↦
            e
            ∙ ap some (
                inv.unique p o (hit_valid _ _ _ _ (found p e).0) valid
                  (hit_key cfg c (ds p) key (found p e).0 ∙ sym (hit_key cfg c (ds o) key h)))
      ]
    where
      valid : item_valid c (ds o) ≡ true
      valid = hit_valid cfg c (ds o) key h

      at_key : Memᴰ o (hash cfg murmur3 key)
      at_key =
          subst (λ k. Memᴰ o (hash cfg murmur3 k)) (hit_key cfg c (ds o) key h) (inv.placed o valid)

      found :
          (p : ℕ)
          → find_hit cfg c ds key (hash cfg murmur3 key) ≡ some p
          → (hit cfg c (ds p) key ≡ true) × Memᴰ p (hash cfg murmur3 key)
      found p e = find_hit_sound key _ p e

-- In a table that satisfies the invariant, a lookup answers a slot exactly when that slot holds a
-- valid item with the key, wherever it is in the table.
pub get_iff :
    (cfg : Config) (murmur3 : Hash) (c : Clock) (t : Table) (key : Bytes) (o : ℕ)
    → Placed cfg murmur3 c t.ds
    → (get cfg murmur3 c t key ≡ some o) ↔ (hit cfg c (t.ds o) key ≡ true)
unfolding get
get_iff cfg murmur3 c t key o inv = (
  λ e. (find_hit_sound cfg murmur3 c t.ds key _ o e).0,
  find_hit_complete cfg murmur3 c t.ds key o inv,
)

pub get-none :
    (cfg : Config) (murmur3 : Hash) (c : Clock) (t : Table) (key : Bytes)
    → Placed cfg murmur3 c t.ds
    → get cfg murmur3 c t key ≡ none
    → (o : ℕ) → hit cfg c (t.ds o) key ≡ false
get-none cfg murmur3 c t key inv e o = elim (Bool-cases (hit cfg c (t.ds o) key)) [
  | inl h ↦ absurd (none-ne-some o (sym e ∙ (get_iff cfg murmur3 c t key o inv).1 h))
  | inr h ↦ h
]
