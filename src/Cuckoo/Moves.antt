-- ===== src/Cuckoo/Moves.antt =====
-- storage/cuckoo/cuckoo.c: moving items along a path, one slot at a time. Between two moves one slot,
-- the hole, holds an item that is dead: it was copied, or it is evicted.
use mathlib.Core.Bool.{true≢false}
use mathlib.Core.List.{Memᴰ}
use pelikan.Common.{
  ℕ, ◌+◌, ◌≡◌, ◌≢◌, ◌⊎◌, sym, ap, subst, ◌∙◌, inl, inr, true, Bool-cases, ◌==◌, ==_iff, ==_eq,
  length,
}
use pelikan.Common.Memory.{Bytes}
use pelikan.Time.{Clock}
use pelikan.Cuckoo.{put, hit}
use pelikan.Cuckoo.Chunk.{Config, Item, item_key, item_valid}
use pelikan.Cuckoo.Candidates.{Hash, hash}
use pelikan.Cuckoo.Keys.{Keyed}
use pelikan.Cuckoo.Placed.{Memory, Placed, put_same, put_other}

pub ℕ-cases : (a b : ℕ) → (a ≡ b) ⊎ (a ≢ b)
ℕ-cases a b = elim (Bool-cases (a == b)) [
  | inl e ↦ inl ((==_iff a b).0 e)
  | inr e ↦ inr λ q. true≢false (sym (==_eq a b q) ∙ e)
]

-- The invariant outside of the hole.
pub record PlacedBut (cfg : Config) (murmur3 : Hash) (c : Clock) (hole : ℕ) (ds : Memory)
    : Type 0 where
  pub sized : (o : ℕ) → 6 + length (ds o).payload ≡ cfg.item_size
  pub keyed : (o : ℕ) → Keyed cfg (ds o)
  pub placed :
      (o : ℕ)
      → o ≢ hole
      → item_valid c (ds o) ≡ true
      → Memᴰ o (hash cfg murmur3 (item_key cfg (ds o)))
  pub unique :
      (o p : ℕ)
      → o ≢ hole
      → p ≢ hole
      → item_valid c (ds o) ≡ true
      → item_valid c (ds p) ≡ true
      → item_key cfg (ds o) ≡ item_key cfg (ds p)
      → o ≡ p

abbrev pub StoredBut : Config → Clock → ℕ → Memory → Bytes → Item → Type 0
StoredBut cfg c hole ds key it = (o : ℕ) × (o ≢ hole) × (ds o ≡ it) × (hit cfg c it key ≡ true)

module _ (cfg : Config) (murmur3 : Hash) (c : Clock) where
  pub but_of_Placed : (ds : Memory) (p : ℕ) → Placed cfg murmur3 c ds → PlacedBut cfg murmur3 c p ds
  but_of_Placed ds p inv = record {
    sized = inv.sized;
    keyed = inv.keyed;
    placed = λ o n v. inv.placed o v;
    unique = λ o q n m v w e. inv.unique o q v w e;
  }

  -- The item in `q` moves into the hole, and its slot is the hole.
  module _ (ds : Memory) (p q : ℕ) where
    abbrev pub moved : Memory
    moved = put ds p (ds q)

    -- Where the item in a slot was before the move.
    source : (o : ℕ) → o ≢ q → ((o ≡ p) × (moved o ≡ ds q) × (q ≢ p)) ⊎ ((o ≢ p) × (moved o ≡ ds o))
    source o n = elim (ℕ-cases o p) [
      | inl e ↦ inl (e, ap moved e ∙ put_same ds p (ds q), λ r. n (e ∙ sym r))
      | inr e ↦ inr (e, put_other ds p o (ds q) e)
    ]

    -- Any fact about all chunks is kept.
    everywhere : (P : Item → Type 0) → ((o : ℕ) → P (ds o)) → (o : ℕ) → P (moved o)
    everywhere P h o = elim (ℕ-cases o p) [
      | inl e ↦ subst P (sym (ap moved e ∙ put_same ds p (ds q))) (h q)
      | inr e ↦ subst P (sym (put_other ds p o (ds q) e)) (h o)
    ]

    before :
        PlacedBut cfg murmur3 c p ds
        → {x y : Item} → item_valid c x ≡ true
        → item_valid c y ≡ true
        → item_key cfg x ≡ item_key cfg y
        → (a b : ℕ) → a ≢ p
        → b ≢ p
        → x ≡ ds a
        → y ≡ ds b
        → a ≡ b
    before inv v w e a b na nb ma mb =
        inv.unique a b na nb (ap (item_valid c) (sym ma) ∙ v) (ap (item_valid c) (sym mb) ∙ w)
          (ap (item_key cfg) (sym ma) ∙ e ∙ ap (item_key cfg) mb)

    pub move_placed :
        PlacedBut cfg murmur3 c p ds
        → Memᴰ p (hash cfg murmur3 (item_key cfg (ds q)))
        → PlacedBut cfg murmur3 c q moved
    move_placed inv fits = record {
      sized = everywhere (λ it. 6 + length it.payload ≡ cfg.item_size) inv.sized;
      keyed = everywhere (Keyed cfg) inv.keyed;
      placed = λ o n v. elim (source o n) [
        | inl (e, m, d) ↦
            subst (λ s. Memᴰ s (hash cfg murmur3 (item_key cfg (moved o)))) (sym e)
              (subst (λ it. Memᴰ p (hash cfg murmur3 (item_key cfg it))) (sym m) fits)
        | inr (e, m) ↦
            subst (λ it. Memᴰ o (hash cfg murmur3 (item_key cfg it))) (sym m)
              (inv.placed o e (ap (item_valid c) (sym m) ∙ v))
      ];
      unique = λ a b n m v w e. elim (source a n) [
        | inl (ra, ma, da) ↦ elim (source b m) [
          | inl (rb, mb, db) ↦ ra ∙ sym rb
          | inr (rb, mb) ↦ absurd (m (sym (before inv v w e q b da rb ma mb)))
        ]
        | inr (ra, ma) ↦ elim (source b m) [
          | inl (rb, mb, db) ↦ absurd (n (before inv v w e a q ra db ma mb))
          | inr (rb, mb) ↦ before inv v w e a b ra rb ma mb
        ]
      ];
    }

    pub move_stored :
        (key : Bytes) (it : Item) → StoredBut cfg c p ds key it → StoredBut cfg c q moved key it
    move_stored key it (o, n, e, h) = elim (ℕ-cases o q) [
      | inl r ↦ (p, λ s. n (r ∙ sym s), put_same ds p (ds q) ∙ ap ds (sym r) ∙ e, h)
      | inr r ↦ (o, r, put_other ds p o (ds q) n ∙ e, h)
    ]

    pub move_back :
        (key : Bytes) (it : Item) → StoredBut cfg c q moved key it → StoredBut cfg c p ds key it
    move_back key it (o, n, e, h) = elim (source o n) [
      | inl (r, m, d) ↦ (q, d, sym m ∙ e, h)
      | inr (r, m) ↦ (o, r, sym m ∙ e, h)
    ]

  -- An item is written into the hole.
  module _ (ds : Memory) (p : ℕ) (x : Item) where
    abbrev pub filled : Memory
    filled = put ds p x

    filled-cases : (o : ℕ) → ((o ≡ p) × (filled o ≡ x)) ⊎ ((o ≢ p) × (filled o ≡ ds o))
    filled-cases o = elim (ℕ-cases o p) [
      | inl e ↦ inl (e, ap filled e ∙ put_same ds p x)
      | inr n ↦ inr (n, put_other ds p o x n)
    ]

    everywhere_filled : (P : Item → Type 0) → ((o : ℕ) → P (ds o)) → P x → (o : ℕ) → P (filled o)
    everywhere_filled P h k o = elim (filled-cases o) [
      | inl (e, m) ↦ subst P (sym m) k
      | inr (n, m) ↦ subst P (sym m) (h o)
    ]

    pub fill_stored :
        (key : Bytes) (it : Item) → StoredBut cfg c p ds key it → StoredBut cfg c p filled key it
    fill_stored key it (o, n, e, h) = (o, n, put_other ds p o x n ∙ e, h)

    pub fill_back :
        (key : Bytes) (it : Item) → StoredBut cfg c p filled key it → StoredBut cfg c p ds key it
    fill_back key it (o, n, e, h) = (o, n, sym (put_other ds p o x n) ∙ e, h)

    module _ (inv : PlacedBut cfg murmur3 c p ds) (size : 6 + length x.payload ≡ cfg.item_size)
        (key : Keyed cfg x) where
      outside : (o : ℕ) → o ≢ p → filled o ≡ ds o
      outside o n = put_other ds p o x n

      pub fill_but : PlacedBut cfg murmur3 c p filled
      fill_but = record {
        sized = everywhere_filled (λ it. 6 + length it.payload ≡ cfg.item_size) inv.sized size;
        keyed = everywhere_filled (Keyed cfg) inv.keyed key;
        placed = λ o n v.
            subst (λ it. Memᴰ o (hash cfg murmur3 (item_key cfg it))) (sym (outside o n))
              (inv.placed o n (ap (item_valid c) (sym (outside o n)) ∙ v));
        unique = λ a b n m v w e.
            inv.unique a b n m (ap (item_valid c) (sym (outside a n)) ∙ v)
              (ap (item_valid c) (sym (outside b m)) ∙ w)
              (ap (item_key cfg) (sym (outside a n)) ∙ e ∙ ap (item_key cfg) (outside b m));
      }

      -- The item belongs there, and no other has its key.
      pub fill-Placed :
          (item_valid c x ≡ true → Memᴰ p (hash cfg murmur3 (item_key cfg x)))
          → ((o : ℕ)
              → o ≢ p
              → item_valid c x ≡ true
              → item_valid c (ds o) ≡ true
              → item_key cfg (ds o) ≢ item_key cfg x)
          → Placed cfg murmur3 c filled
      fill-Placed fits fresh = record {
        sized = fill_but.sized;
        keyed = fill_but.keyed;
        placed = λ o v. elim (filled-cases o) [
          | inl (e, m) ↦
              subst (λ s. Memᴰ s (hash cfg murmur3 (item_key cfg (filled o)))) (sym e)
                (subst (λ it. Memᴰ p (hash cfg murmur3 (item_key cfg it))) (sym m)
                  (fits (ap (item_valid c) (sym m) ∙ v)))
          | inr (n, m) ↦ fill_but.placed o n v
        ];
        unique = λ a b v w e. elim (filled-cases a) [
          | inl (ra, ma) ↦ elim (filled-cases b) [
            | inl (rb, mb) ↦ ra ∙ sym rb
            | inr (nb, mb) ↦ absurd (
                fresh b nb (ap (item_valid c) (sym ma) ∙ v) (ap (item_valid c) (sym mb) ∙ w)
                  (ap (item_key cfg) (sym mb) ∙ sym e ∙ ap (item_key cfg) ma))
          ]
          | inr (na, ma) ↦ elim (filled-cases b) [
            | inl (rb, mb) ↦ absurd (
                fresh a na (ap (item_valid c) (sym mb) ∙ w) (ap (item_valid c) (sym ma) ∙ v)
                  (ap (item_key cfg) (sym ma) ∙ e ∙ ap (item_key cfg) mb))
            | inr (nb, mb) ↦ fill_but.unique a b na nb v w e
          ]
        ];
      }
