-- ===== src/Cuckoo/Changed.antt =====
-- storage/cuckoo/cuckoo.c: writing to the slot of a stored key, and `cuckoo_delete`.
use mathlib.Core.List.{Memᴰ}
use mathlib.Core.Bool.{true≢false}
use mathlib.Core.Option.{none-ne-some}
use pelikan.Common.{
  ℕ, ◌+◌, ◌≡◌, ◌≢◌, ◌↔◌, refl, sym, ap, subst, ◌∙◌, inl, inr, true, none, some, length,
}
use pelikan.Common.Memory.{Bytes}
use pelikan.Time.{Clock}
use pelikan.Cuckoo.{Table, hit, put, clear, get, delete, delete_at}
use pelikan.Cuckoo.Chunk.{Config, Item, item_key, item_valid, item_delete, item_vlen}
use pelikan.Cuckoo.Candidates.{Hash, hash}
use pelikan.Cuckoo.Keys.{Keyed, hit_valid, hit_key}
use pelikan.Cuckoo.Placed.{
  Placed, Stored, IsStarted, Option-cases, get_iff, put_same, put_other, invalid-delete,
}
use pelikan.Cuckoo.Moves.{but_of_Placed, fill-Placed, ℕ-cases}
use pelikan.Cuckoo.Lookup.{lookup, lookup_same}

-- The item of a key is overwritten by one with the same key.
module _ (cfg : Config) (murmur3 : Hash) (c : Clock) (t : Table) (key : Bytes) (o : ℕ)
    (inv : Placed cfg murmur3 c t.ds) (found : hit cfg c (t.ds o) key ≡ true) (x : Item) (cas : ℕ)
    (size : 6 + length x.payload ≡ cfg.item_size) (keyed : Keyed cfg x)
    (same : item_key cfg x ≡ item_key cfg (t.ds o)) where
  abbrev pub over : Table
  over = record { ds = put t.ds o x; cas_val = cas }

  valid : item_valid c (t.ds o) ≡ true
  valid = hit_valid cfg c (t.ds o) key found

  pub over-Placed : Placed cfg murmur3 c over.ds
  over-Placed =
      fill-Placed cfg murmur3 c t.ds o x (but_of_Placed cfg murmur3 c t.ds o inv) size keyed
        (λ v. subst (λ k. Memᴰ o (hash cfg murmur3 k)) (sym same) (inv.placed o valid))
        λ b n v w e. n (inv.unique b o w valid (e ∙ same))

  pub over_other :
      (other : Bytes) → other ≢ key → lookup cfg murmur3 c over other ≡ lookup cfg murmur3 c t other
  over_other other differs = lookup_same cfg murmur3 c t over other inv over-Placed to from
    where
      to : (it : Item) → Stored cfg c t.ds other it → Stored cfg c over.ds other it
      to it (b, e, h) = elim (ℕ-cases b o) [
        | inl q ↦ absurd (
            differs (
              sym (
                hit_key cfg c (t.ds o) other
                  (subst (λ y. hit cfg c y other ≡ true) (sym e ∙ ap t.ds q) h))
              ∙ hit_key cfg c (t.ds o) key found))
        | inr n ↦ (b, put_other t.ds o b x n ∙ e, h)
      ]

      from : (it : Item) → Stored cfg c over.ds other it → Stored cfg c t.ds other it
      from it (b, e, h) = elim (ℕ-cases b o) [
        | inl q ↦ absurd (
            differs (
              sym (
                hit_key cfg c x other (
                  subst (λ y. hit cfg c y other ≡ true) (sym e ∙ ap over.ds q ∙ put_same t.ds o x)
                    h))
              ∙ same
              ∙ hit_key cfg c (t.ds o) key found))
        | inr n ↦ (b, sym (put_other t.ds o b x n) ∙ e, h)
      ]

module _ (cfg : Config) (murmur3 : Hash) (c : Clock) (t : Table) (key : Bytes)
    (inv : Placed cfg murmur3 c t.ds) where
  pub hit_at : (o : ℕ) → get cfg murmur3 c t key ≡ some o → hit cfg c (t.ds o) key ≡ true
  hit_at o e = (get_iff cfg murmur3 c t key o inv).0 e

  module _ (started : IsStarted c) where
    cleared-Placed :
        (o : ℕ) → get cfg murmur3 c t key ≡ some o → Placed cfg murmur3 c (clear t.ds o)
    unfolding clear item_delete item_key item_vlen
    cleared-Placed o e =
        over-Placed cfg murmur3 c t key o inv (hit_at o e) (item_delete (t.ds o)) t.cas_val
          (inv.sized o) (inv.keyed o) refl

    cleared_other :
        (o : ℕ) (other : Bytes)
        → get cfg murmur3 c t key ≡ some o
        → other ≢ key
        → lookup cfg murmur3 c (record t { ds = clear t.ds o }) other ≡ lookup cfg murmur3 c t other
    unfolding clear item_delete item_key item_vlen
    cleared_other o other e differs =
        over_other cfg murmur3 c t key o inv (hit_at o e) (item_delete (t.ds o)) t.cas_val
          (inv.sized o) (inv.keyed o) refl other differs

    cleared_none :
        (o : ℕ)
        → get cfg murmur3 c t key ≡ some o
        → get cfg murmur3 c (record t { ds = clear t.ds o }) key ≡ none
    unfolding clear
    cleared_none o e =
        elim (Option-cases (get cfg murmur3 c (record t { ds = clear t.ds o }) key)) [
          | inl g ↦ g
          | inr (b, g) ↦
              let h =
                (get_iff cfg murmur3 c (record t { ds = clear t.ds o }) key b
                    (cleared-Placed o e)).0
                  g in
              elim (ℕ-cases b o) [
                | inl q ↦ absurd (
                    true≢false (
                      sym (hit_valid cfg c _ key h)
                      ∙ ap (λ s. item_valid c (clear t.ds o s)) q
                      ∙ ap (item_valid c) (put_same t.ds o (item_delete (t.ds o)))
                      ∙ invalid-delete c (t.ds o) started))
                | inr n ↦
                    let k =
                      subst (λ y. hit cfg c y key ≡ true)
                        (put_other t.ds o b (item_delete (t.ds o)) n) h in
                    absurd (
                      n (
                        inv.unique b o (hit_valid cfg c _ key k)
                          (hit_valid cfg c _ key (hit_at o e))
                          (hit_key cfg c _ key k ∙ sym (hit_key cfg c _ key (hit_at o e)))))
              ]
        ]

    -- A deletion keeps the invariant, leaves no item of the key, answers whether there was one, and
    -- leaves the lookup of every other key as it was.
    pub delete_lem :
        (other : Bytes)
        → other ≢ key
        → Placed cfg murmur3 c (delete cfg murmur3 c t key).1.ds
          × (get cfg murmur3 c (delete cfg murmur3 c t key).1 key ≡ none)
          × (((delete cfg murmur3 c t key).0 ≡ true)
              ↔ ((o : ℕ) × (get cfg murmur3 c t key ≡ some o)))
          × (lookup cfg murmur3 c (delete cfg murmur3 c t key).1 other
              ≡ lookup cfg murmur3 c t other)
    unfolding delete delete_at
    delete_lem other differs = elim (Option-cases (get cfg murmur3 c t key)) [
      | inl e ↦
          rw e
            (inv, e, (λ h. absurd (true≢false (sym h)), λ p. absurd (none-ne-some p.0 p.1)), refl)
      | inr (o, e) ↦ rw e (
        cleared-Placed o e,
        cleared_none o e,
        (λ h. (o, refl), λ h. refl),
        cleared_other o other e differs,
      )
    ]

    pub delete-Placed : Placed cfg murmur3 c (delete cfg murmur3 c t key).1.ds
    unfolding delete delete_at
    delete-Placed = elim (Option-cases (get cfg murmur3 c t key)) [
      | inl e ↦ rw e inv
      | inr (o, e) ↦ rw e (cleared-Placed o e)
    ]
