-- ===== src/Cuckoo/Room.antt =====
-- storage/cuckoo/cuckoo.c: the slot that `cuckoo_insert` writes to, by `_select_candidate` where no
-- slot of the key is free.
use mathlib.Core.List.{Memᴰ}
use pelikan.Common.{
  ℕ, zero, suc, ◌%◌, ◌<◌, ◌≡◌, ◌⊎◌, refl, inl, inr, Bool, Bool-cases, List, [], ◌∷◌, arith, length,
  get_or,
}
use pelikan.Common.Memory.{Bytes}
use pelikan.Common.Int.{ℤ, pos, ltb_ℤ}
use pelikan.Time.{Clock, int32_max}
use pelikan.Cuckoo.{find_free, make_room, take_slot}
use pelikan.Cuckoo.Chunk.{Config, Policy, random_policy, expire_policy}
use pelikan.Cuckoo.Candidates.{Hash, hash, hash_from, degree, select_from, select_candidate}
use pelikan.Cuckoo.Placed.{Memory, Placed, Option-cases, find_free-some}
use pelikan.Cuckoo.Displaced.{start, Freed, displace_lem}

get_or_mem : (os : List ℕ) (i d : ℕ) → i < length os → Memᴰ (get_or os i d) os
get_or_mem [] i d h = absurd (omega arith)
get_or_mem (o ∷ os) zero d h = Memᴰ.head refl
get_or_mem (o ∷ os) (suc i) d h = Memᴰ.tail (get_or_mem os i d (omega arith))

module _ (ds : Memory) where
  select_from_mem :
      (os : List ℕ) (min : ℤ) (selected : ℕ)
      → (select_from ds os min selected ≡ selected) ⊎ Memᴰ (select_from ds os min selected) os
  unfolding select_from
  select_from_mem [] min selected = inl refl
  select_from_mem (o ∷ os) min selected = elim (Bool-cases (ltb_ℤ (ds o).expire min)) [
    | inl e ↦ rw e (elim (select_from_mem os (ds o).expire o) [
      | inl q ↦ inr (Memᴰ.head q)
      | inr m ↦ inr (Memᴰ.tail m)
    ])
    | inr e ↦
        rw e (elim (select_from_mem os min selected) [ inl q ↦ inl q | inr m ↦ inr (Memᴰ.tail m) ])
  ]

  pub select_candidate_mem :
      (policy : Policy) (random a b c d : ℕ)
      → Memᴰ (select_candidate policy random ds (a ∷ b ∷ c ∷ d ∷ [])) (a ∷ b ∷ c ∷ d ∷ [])
  unfolding select_candidate
  select_candidate_mem random_policy random a b c d = get_or_mem _ (random % degree) 0 (omega arith)
  select_candidate_mem expire_policy random a b c d =
      elim (select_from_mem (a ∷ b ∷ c ∷ d ∷ []) (pos int32_max) a) [
        | inl q ↦ Memᴰ.head q
        | inr m ↦ m
      ]

module _ (cfg : Config) (murmur3 : Hash) (c : Clock) (random : ℕ → ℕ) (ds : Memory) where
  -- The slot is among those of the key, and the table is as after a displacement.
  pub record Roomy (key : Bytes) (r : ℕ × (Memory × Bool)) : Type 0 where
    pub fits : Memᴰ r.0 (hash cfg murmur3 key)
    pub freed : Freed cfg murmur3 c random ds r.0 r.1

  selected :
      (key : Bytes)
      → Memᴰ
          (select_candidate cfg.policy (random 0) ds (hash cfg murmur3 key))
          (hash cfg murmur3 key)
  unfolding hash hash_from
  selected key = select_candidate_mem ds cfg.policy (random 0) _ _ _ _

  pub make_room_lem :
      (key : Bytes)
      → Placed cfg murmur3 c ds
      → Roomy key (make_room cfg murmur3 c random ds (hash cfg murmur3 key))
  unfolding make_room take_slot
  make_room_lem key inv = elim (Option-cases (find_free c ds (hash cfg murmur3 key))) [
    | inl e ↦
        rw e (record { fits = selected key; freed = displace_lem cfg murmur3 c random ds _ inv })
    | inr (o, e) ↦
        let (free, m) = find_free-some cfg murmur3 c ds (hash cfg murmur3 key) o e in
        rw e (record {
          fits = m;
          freed = record {
            last = o;
            along = start cfg murmur3 c random ds o inv;
            free = λ h. free;
          };
        })
  ]
