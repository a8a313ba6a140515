-- ===== src/Cuckoo/Lookup.antt =====
-- storage/cuckoo/cuckoo.c: the item that `cuckoo_get` answers, as the contents of the table.
use mathlib.Core.Option
use mathlib.Core.Option.{some-injective, none-ne-some}
use pelikan.Common.{ℕ, ◌≡◌, sym, ap, subst, ◌∙◌, inl, inr, true, Option, none, some}
use pelikan.Common.Memory.{Bytes}
use pelikan.Time.{Clock}
use pelikan.Cuckoo.{Table, hit, get}
use pelikan.Cuckoo.Chunk.{Config, Item}
use pelikan.Cuckoo.Candidates.{Hash}
use pelikan.Cuckoo.Placed.{Placed, Stored, Option-cases, get_iff}

unfoldable pub lookup : Config → Hash → Clock → Table → Bytes → Option Item
lookup cfg murmur3 c t key = Option.map t.ds (get cfg murmur3 c t key)

module _ (cfg : Config) (murmur3 : Hash) (c : Clock) (t : Table) (key : Bytes) where
  pub lookup-get :
      (o : ℕ) → get cfg murmur3 c t key ≡ some o → lookup cfg murmur3 c t key ≡ some (t.ds o)
  unfolding lookup
  lookup-get o e = ap (Option.map t.ds) e

  pub lookup-none : get cfg murmur3 c t key ≡ none → lookup cfg murmur3 c t key ≡ none
  unfolding lookup
  lookup-none e = ap (Option.map t.ds) e

  module _ (inv : Placed cfg murmur3 c t.ds) where
    pub stored_of_lookup :
        (it : Item) → lookup cfg murmur3 c t key ≡ some it → Stored cfg c t.ds key it
    stored_of_lookup it e = elim (Option-cases (get cfg murmur3 c t key)) [
      | inl g ↦ absurd (none-ne-some it (sym (lookup-none g) ∙ e))
      | inr (o, g) ↦
          let same = some-injective _ _ (sym (lookup-get o g) ∙ e) in
          (
            o,
            same,
            subst (λ x. hit cfg c x key ≡ true) same ((get_iff cfg murmur3 c t key o inv).0 g),
          )
    ]

    pub lookup_of_stored :
        (it : Item) → Stored cfg c t.ds key it → lookup cfg murmur3 c t key ≡ some it
    lookup_of_stored it (o, e, h) =
        lookup-get o
          ((get_iff cfg murmur3 c t key o inv).1 (subst (λ x. hit cfg c x key ≡ true) (sym e) h))
        ∙ ap some e

-- Two tables that store the same items for a key answer alike.
pub lookup_same :
    (cfg : Config) (murmur3 : Hash) (c : Clock) (t u : Table) (key : Bytes)
    → Placed cfg murmur3 c t.ds
    → Placed cfg murmur3 c u.ds
    → ((it : Item) → Stored cfg c t.ds key it → Stored cfg c u.ds key it)
    → ((it : Item) → Stored cfg c u.ds key it → Stored cfg c t.ds key it)
    → lookup cfg murmur3 c u key ≡ lookup cfg murmur3 c t key
lookup_same cfg murmur3 c t u key inv inv' to from =
    elim (Option-cases (lookup cfg murmur3 c t key)) [
      | inr (it, e) ↦
          lookup_of_stored cfg murmur3 c u key inv' it
            (to it (stored_of_lookup cfg murmur3 c t key inv it e))
          ∙ sym e
      | inl e ↦ elim (Option-cases (lookup cfg murmur3 c u key)) [
        | inl f ↦ f ∙ sym e
        | inr (it, f) ↦ absurd (
            none-ne-some it (
              sym e
              ∙ lookup_of_stored cfg murmur3 c t key inv it
                  (from it (stored_of_lookup cfg murmur3 c u key inv' it f))))
      ]
    ]
