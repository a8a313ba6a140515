-- ===== src/Cuckoo/Inserted.antt =====
-- storage/cuckoo/cuckoo.c: what an insertion does to the contents of the table.
use mathlib.Core.Bool.{true≢false}
use pelikan.Common.{
  ℕ, ◌+◌, ◌≡◌, ◌≢◌, ◌⊎◌, sym, ap, subst, ◌∙◌, inl, inr, true, false, none, some, if◌then◌else◌,
  Bool-cases, length, ◌≤◌, ◌<◌,
}
use pelikan.Common.Memory.{Bytes}
use pelikan.Common.Int.{ℤ}
use pelikan.Time.{Clock}
use pelikan.Cuckoo.{Table, vlen, hit, make_room, insert, get}
use pelikan.Cuckoo.Chunk.{Config, Item, Val, cas_len, item_cas, item_val, capped, next_cas}
use pelikan.Cuckoo.Candidates.{Hash, hash}
use pelikan.Cuckoo.Keys.{expire_set, item_val-set, item_cas-set, hit_valid, hit_key}
use pelikan.Cuckoo.Placed.{Placed, Stored, get_iff, put_same}
use pelikan.Cuckoo.Lookup.{lookup, lookup_same}
use pelikan.Cuckoo.Written.{IsStorable}
use pelikan.Cuckoo.Insert.{
  Fits, refused-cases, IsAlive, slot, old, new, room_new, written, insert_lem, roomy,
  written-Placed, written_hit, appears, remains,
}

module _ (cfg : Config) (murmur3 : Hash) (c : Clock) (random : ℕ → ℕ) (t : Table) (key : Bytes)
    (val : Val) (expire : ℤ) (inv : Placed cfg murmur3 c t.ds) (fits : Fits cfg key val)
    (absent : get cfg murmur3 c t key ≡ none) where
  abbrev after : Table
  after = (insert cfg murmur3 c random t key val expire).1

  abbrev at : ℕ
  at = slot cfg murmur3 c random t key val expire inv fits

  after_lem : after.ds ≡ written cfg murmur3 c random t key val expire inv fits
  after_lem = ap (λ r. r.1.ds) (insert_lem cfg murmur3 c random t key val expire inv fits)

  -- Inserting an absent key keeps the invariant of the table: every valid item in a slot of its key,
  -- no key twice, also where items are displaced and one is evicted.
  pub insert-Placed : Placed cfg murmur3 c (insert cfg murmur3 c random t key val expire).1.ds
  insert-Placed =
      subst (Placed cfg murmur3 c) (sym after_lem)
        (written-Placed cfg murmur3 c random t key val expire inv fits absent)

  after_at : after.ds at ≡ new cfg murmur3 c random t key val expire inv fits
  after_at = ap (λ ds. ds at) after_lem ∙ put_same _ at _

  -- On a table that satisfies the invariant, an item of an absent key that is inserted, fits a chunk,
  -- and whose time of expiry, capped, is not before the current second, its key shorter than 256 bytes and its value a number below 2^64 or a text that is not
  -- empty and shorter than 256 bytes, is found in the slot that the insertion answers, with its value,
  -- with the time of expiry, capped, and the next cas.
  pub get-insert :
      IsAlive cfg c expire
      → (o : ℕ) × ((insert cfg murmur3 c random t key val expire).0 ≡ some o)
        × (get cfg murmur3 c (insert cfg murmur3 c random t key val expire).1 key ≡ some o)
        × (item_val cfg ((insert cfg murmur3 c random t key val expire).1.ds o) ≡ val)
        × (((insert cfg murmur3 c random t key val expire).1.ds o).expire ≡ capped cfg c expire)
        × (item_cas cfg ((insert cfg murmur3 c random t key val expire).1.ds o)
            ≡ (if cfg.cas_enabled then next_cas cfg t.cas_val else 1))
  get-insert alive = (
    at,
    ap (λ r. r.0) (insert_lem cfg murmur3 c random t key val expire inv fits),
    (get_iff cfg murmur3 c after key at insert-Placed).1 (
        subst (λ ds. hit cfg c (ds at) key ≡ true) (sym after_lem)
          (written_hit cfg murmur3 c random t key val expire inv fits absent alive)),
    ap (item_val cfg) after_at
        ∙ item_val-set cfg c t.cas_val chunk key val expire fits.short room fits.storable,
    ap (λ it. it.expire) after_at ∙ expire_set cfg c t.cas_val chunk key val expire,
    ap (item_cas cfg) after_at ∙ item_cas-set cfg c t.cas_val chunk key val expire fits.short room,
  )
    where
      chunk : Item
      chunk = old cfg murmur3 c random t key val expire inv fits

      room : cas_len cfg + length key + vlen val ≤ length chunk.payload
      room = room_new cfg murmur3 c random t key val expire inv fits

  abbrev lost : Item
  lost = t.ds (roomy cfg murmur3 c random t key val expire inv fits).freed.last

  -- A key that was not in the last slot of the path is looked up as before.
  same_but :
      (other : Bytes)
      → other ≢ key
      → hit cfg c lost other ≡ false
      → lookup cfg murmur3 c after other ≡ lookup cfg murmur3 c t other
  same_but other differs safe =
      lookup_same cfg murmur3 c t after other inv insert-Placed
        (λ it s.
          subst (λ ds. Stored cfg c ds other it) (sym after_lem)
            (elim (remains cfg murmur3 c random t key val expire inv fits absent other differs it
              s) [ inl k ↦ k | inr h ↦ absurd (true≢false (sym h ∙ safe)) ]))
        (λ it s.
          appears cfg murmur3 c random t key val expire inv fits absent other differs it
            (subst (λ ds. Stored cfg c ds other it) after_lem s))

  -- An insertion that evicts nothing, since a slot of the key or of a displaced item is free, leaves
  -- the lookup of every other key as it was.
  pub lookup-insert_other :
      (other : Bytes)
      → other ≢ key
      → (make_room cfg murmur3 c random t.ds (hash cfg murmur3 key)).1.1 ≡ false
      → lookup cfg murmur3 c (insert cfg murmur3 c random t key val expire).1 other
        ≡ lookup cfg murmur3 c t other
  lookup-insert_other other differs free = elim (Bool-cases (hit cfg c lost other)) [
    | inl h ↦ absurd (
        true≢false (
          sym (hit_valid cfg c lost other h)
          ∙ (roomy cfg murmur3 c random t key val expire inv fits).freed.free free))
    | inr h ↦ same_but other differs h
  ]

  -- Whatever an insertion displaces, of two different other keys one at least is looked up as before:
  -- at most one item is lost.
  pub insert_loses_one :
      (a b : Bytes)
      → a ≢ key
      → b ≢ key
      → a ≢ b
      → (lookup cfg murmur3 c (insert cfg murmur3 c random t key val expire).1 a
          ≡ lookup cfg murmur3 c t a)
        ⊎ (lookup cfg murmur3 c (insert cfg murmur3 c random t key val expire).1 b
            ≡ lookup cfg murmur3 c t b)
  insert_loses_one a b na nb differ = elim (Bool-cases (hit cfg c lost a)) [
    | inl h ↦ elim (Bool-cases (hit cfg c lost b)) [
      | inl k ↦ absurd (differ (sym (hit_key cfg c lost a h) ∙ hit_key cfg c lost b k))
      | inr k ↦ inr (same_but b nb k)
    ]
    | inr h ↦ inl (same_but a na h)
  ]

-- An insertion keeps the invariant, whether the item fits or is refused.
pub insert-Placed_any :
    (cfg : Config) (murmur3 : Hash) (c : Clock) (random : ℕ → ℕ) (t : Table) (key : Bytes)
    (val : Val) (expire : ℤ)
    → Placed cfg murmur3 c t.ds
    → length key < 256
    → IsStorable val
    → get cfg murmur3 c t key ≡ none
    → Placed cfg murmur3 c (insert cfg murmur3 c random t key val expire).1.ds
unfolding insert
insert-Placed_any cfg murmur3 c random t key val expire inv short storable absent =
    elim (refused-cases cfg (length key) val short storable) [
      | inl r ↦ rw r inv
      | inr room ↦
          insert-Placed cfg murmur3 c random t key val expire inv
            (record { short = short; storable = storable; room = room }) absent
    ]
