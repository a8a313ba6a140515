-- ===== src/Cuckoo/Displaced.antt =====
-- storage/cuckoo/cuckoo.c: `cuckoo_displace` frees a slot, and at most one item is lost.
use mathlib.Core.List.{Memᴰ, Permᴰ}
use mathlib.Core.List.Permᴰ
use mathlib.Core.List.Memᴰ
use mathlib.Core.Bool.{true≢false}
use pelikan.Common.{
  ℕ, suc, ◌≡◌, ◌≢◌, ◌⊎◌, refl, sym, ap, subst, ◌∙◌, inl, inr, Bool, true, false, some, List, [],
  ◌∷◌,
}
use pelikan.Common.Memory.{Bytes}
use pelikan.Time.{Clock}
use pelikan.Cuckoo.{
  put, clear, hit, find_free, next_candidate, find_path, advance, move_path, displace,
}
use pelikan.Cuckoo.Chunk.{Config, Item, item_key, item_valid, item_delete, item_vlen}
use pelikan.Cuckoo.Candidates.{Hash, hash, hash_from, sort_candidate}
use pelikan.Cuckoo.Sorted.{perm-mem, perm-sort_candidate}
use pelikan.Cuckoo.Placed.{
  Memory, Placed, Stored, put_same, put_other, Option-cases, find_free-some, find_free-none,
}
use pelikan.Cuckoo.Moves.{
  PlacedBut, StoredBut, but_of_Placed, moved, move_placed, move_stored, move_back, ℕ-cases,
  fill_but, fill_stored, fill_back,
}

module _ (cfg : Config) (murmur3 : Hash) (c : Clock) (random : ℕ → ℕ) (ds : Memory) where
  abbrev slots : ℕ → List ℕ
  slots o = hash cfg murmur3 (item_key cfg (ds o))

  -- The paths that the search finds: one step to a free slot, or two steps.
  data Trace (a : ℕ) : List ℕ × Bool → Type 0 where
    one : (e : ℕ) → item_valid c (ds e) ≡ false → Memᴰ e (slots a) → Trace a (e ∷ a ∷ [], false)
    two :
        (b e : ℕ) (evict : Bool)
        → item_valid c (ds b) ≡ true
        → Memᴰ b (slots a)
        → Memᴰ e (slots b)
        → (evict ≡ false → item_valid c (ds e) ≡ false)
        → Trace a (e ∷ b ∷ a ∷ [], evict)

  -- A candidate of the next step is among the slots of the key.
  first_of :
      (path xs : List ℕ) (y : ℕ) (ys : List ℕ)
      → Permᴰ xs (y ∷ ys)
      → (o : ℕ) × (next_candidate path xs ≡ some o) × Memᴰ o (y ∷ ys)
  unfolding next_candidate
  first_of path [] y ys d = absurd (Memᴰ.not-nil (perm-mem (Permᴰ.symm d) (Memᴰ.head refl)))
  first_of path (x ∷ xs) y ys d = (x, refl, perm-mem d (Memᴰ.head refl))

  candidate_mem :
      (key : Bytes) (r : ℕ) (path : List ℕ)
      → (o : ℕ) × (next_candidate path (sort_candidate cfg.policy r ds (hash cfg murmur3 key))
          ≡ some o)
        × Memᴰ o (hash cfg murmur3 key)
  unfolding hash hash_from
  candidate_mem key r path = first_of path _ _ _ (perm-sort_candidate r ds _ _ _ _ cfg.policy)

  abbrev search : ℕ → ℕ → ℕ → List ℕ → List ℕ × Bool
  search = find_path cfg murmur3 c random ds

  second_step :
      (a b step : ℕ)
      → item_valid c (ds b) ≡ true
      → Memᴰ b (slots a)
      → Trace a (search 1 step b (b ∷ a ∷ []))
  unfolding find_path advance
  second_step a b step v m = elim (Option-cases (find_free c ds (slots b))) [
    | inl e ↦
        let (o, q, n) = candidate_mem (item_key cfg (ds b)) (random step) (b ∷ a ∷ []) in
        rw (e, q) (two b o true v m n λ f. absurd (true≢false f))
    | inr (o, e) ↦
        let (free, n) = find_free-some cfg murmur3 c ds (slots b) o e in
        rw e (two b o false v m n λ f. free)
  ]

  search_lem : (a step : ℕ) → Trace a (search 2 step a (a ∷ []))
  unfolding find_path advance
  search_lem a step = elim (Option-cases (find_free c ds (slots a))) [
    | inl e ↦
        let (o, q, n) = candidate_mem (item_key cfg (ds a)) (random step) (a ∷ []) in
        rw (e, q) (second_step a o (suc step) (find_free-none cfg murmur3 c ds (slots a) e o n) n)
    | inr (o, e) ↦
        let (free, n) = find_free-some cfg murmur3 c ds (slots a) o e in rw e (one o free n)
  ]

  -- A table along the way: the invariant holds outside of the hole, what was stored is stored or was in
  -- the last slot of the path, and nothing else is.
  pub record Along (last hole : ℕ) (cur : Memory) : Type 0 where
    pub rest : PlacedBut cfg murmur3 c hole cur
    pub kept :
        (key : Bytes) (it : Item)
        → Stored cfg c ds key it
        → StoredBut cfg c hole cur key it ⊎ (hit cfg c (ds last) key ≡ true)
    pub old : (key : Bytes) (it : Item) → StoredBut cfg c hole cur key it → Stored cfg c ds key it

  pub start : (last : ℕ) → Placed cfg murmur3 c ds → Along last last ds
  start last inv = record {
    rest = but_of_Placed cfg murmur3 c ds last inv;
    kept = λ key it s. elim (ℕ-cases s.0 last) [
      | inl e ↦ inr (subst (λ x. hit cfg c x key ≡ true) (sym s.1 ∙ ap ds e) s.2)
      | inr n ↦ inl (s.0, n, s.1, s.2)
    ];
    old = λ key it s. (s.0, s.2, s.3);
  }

  onward :
      (last p q : ℕ) (cur : Memory)
      → Along last p cur
      → Memᴰ p (hash cfg murmur3 (item_key cfg (cur q)))
      → Along last q (moved cfg murmur3 c cur p q)
  onward last p q cur h fits = record {
    rest = move_placed cfg murmur3 c cur p q h.rest fits;
    kept = λ key it s. elim (h.kept key it s) [
      | inl k ↦ inl (move_stored cfg murmur3 c cur p q key it k)
      | inr k ↦ inr k
    ];
    old = λ key it s. h.old key it (move_back cfg murmur3 c cur p q key it s);
  }

  -- What is in the hole does not matter.
  emptied : (last hole : ℕ) (cur : Memory) → Along last hole cur → Along last hole (clear cur hole)
  unfolding clear item_delete item_vlen
  emptied last hole cur h = record {
    rest =
        fill_but cfg murmur3 c cur hole (item_delete (cur hole)) h.rest (h.rest.sized hole)
          (h.rest.keyed hole);
    kept = λ key it s. elim (h.kept key it s) [
      | inl k ↦ inl (fill_stored cfg murmur3 c cur hole (item_delete (cur hole)) key it k)
      | inr k ↦ inr k
    ];
    old = λ key it s.
        h.old key it (fill_back cfg murmur3 c cur hole (item_delete (cur hole)) key it s);
  }

  -- The slot is free after a displacement; the invariant holds outside of it; every item is still
  -- stored, but for the one in the last slot of the path, which is evicted or was not valid.
  pub record Freed (a : ℕ) (r : Memory × Bool) : Type 0 where
    pub last : ℕ
    pub along : Along last a r.0
    pub free : r.1 ≡ false → item_valid c (ds last) ≡ false

  module _ (a : ℕ) (inv : Placed cfg murmur3 c ds) where
    freed : (r : List ℕ × Bool) → Trace a r → Freed a (move_path ds r.0, r.1)
    unfolding move_path
    freed r (one e free m) = record {
      last = e;
      along = emptied e a _ (onward e e a ds (start e inv) m);
      free = λ h. free;
    }
    freed r (two b e evict v m n free) = record {
      last = e;
      along =
          emptied e a _ (onward e b a _ (onward e e b ds (start e inv) n) (behind (ℕ-cases a e)));
      free = free;
    }
      where
        behind : (a ≡ e) ⊎ (a ≢ e) → Memᴰ b (hash cfg murmur3 (item_key cfg (put ds e (ds b) a)))
        behind (inl q) =
            subst (λ it. Memᴰ b (hash cfg murmur3 (item_key cfg it)))
              (sym (ap (put ds e (ds b)) q ∙ put_same ds e (ds b))) (inv.placed b v)
        behind (inr q) =
            subst (λ it. Memᴰ b (hash cfg murmur3 (item_key cfg it)))
              (sym (put_other ds e a (ds b) q)) m

    pub displace_lem : Freed a (displace cfg murmur3 c random ds a)
    unfolding displace
    displace_lem = freed _ (search_lem a 1)
