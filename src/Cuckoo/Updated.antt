-- ===== src/Cuckoo/Updated.antt =====
-- storage/cuckoo/cuckoo.c: `cuckoo_update`.
use pelikan.Common.{
  ℕ, ◌+◌, ◌≡◌, ◌≢◌, refl, sym, ap, subst, ◌∙◌, true, some, if◌then◌else◌, length, ◌≤◌, arith,
  ge→ltb, inl, inr,
}
use pelikan.Common.Words.{add32, add32_exact}
use pelikan.Common.Memory.{Bytes}
use pelikan.Common.Int.{ℤ, leb_ℤ}
use pelikan.Time.{Clock}
use pelikan.Cuckoo.{Table, vlen, hit, put, get, update}
use pelikan.Cuckoo.Chunk.{
  Config, Item, Val, val_pos, item_key, item_valid, item_cas, item_val, item_overhead, item_update,
  capped, next_cas,
}
use pelikan.Cuckoo.Candidates.{Hash}
use pelikan.Cuckoo.Written.{
  IsStorable, updated, expire_update, length-update, item_val-update, item_cas-update,
  item_vlen-update,
}
use pelikan.Cuckoo.Keys.{Keyed, key_updated, updated-Keyed, hit_key, key_hit}
use pelikan.Cuckoo.Placed.{Placed, get_iff, put_same}
use pelikan.Cuckoo.Lookup.{lookup}
use pelikan.Cuckoo.Changed.{over, over-Placed, over_other, hit_at}
use pelikan.Cuckoo.Insert.{IsAlive, vlen_bound, refused-cases}

module _ (cfg : Config) (murmur3 : Hash) (c : Clock) (t : Table) (key : Bytes)
    (inv : Placed cfg murmur3 c t.ds) (o : ℕ) (val : Val) (expire : ℤ)
    (found : get cfg murmur3 c t key ≡ some o) (storable : IsStorable val)
    (room : (t.ds o).klen + vlen val + item_overhead cfg ≤ cfg.item_size) where
  abbrev relabelled : Item
  relabelled = record (t.ds o) { expire = capped cfg c expire }

  abbrev item : Item
  item = updated cfg t.cas_val relabelled val

  there : hit cfg c (t.ds o) key ≡ true
  there = hit_at cfg murmur3 c t key inv o found

  enough : add32 (t.ds o).klen (vlen val) + item_overhead cfg ≤ cfg.item_size
  enough = omega (
    arith,
    room,
    add32_exact (t.ds o).klen (vlen val) (omega (arith, (inv.keyed o).1, vlen_bound val storable)),
  )

  room_item : val_pos cfg relabelled + vlen val ≤ length relabelled.payload
  unfolding val_pos item_overhead
  room_item = omega (arith, room, inv.sized o)

  sized_item : 6 + length item.payload ≡ cfg.item_size
  sized_item = omega (arith, length-update cfg t.cas_val relabelled val room_item, inv.sized o)

  item-Keyed : Keyed cfg item
  item-Keyed =
      updated-Keyed cfg t.cas_val relabelled val room_item
        (item_vlen-update cfg t.cas_val relabelled val storable) (inv.keyed o).1

  key_item : item_key cfg item ≡ item_key cfg (t.ds o)
  unfolding item_key
  key_item = key_updated cfg t.cas_val relabelled val room_item

  abbrev after : Table
  after =
      over cfg murmur3 c t key o inv there item (item_update cfg c t.cas_val (t.ds o) val expire).0
        sized_item item-Keyed key_item

  after-Placed : Placed cfg murmur3 c after.ds
  after-Placed =
      over-Placed cfg murmur3 c t key o inv there item
        (item_update cfg c t.cas_val (t.ds o) val expire).0 sized_item item-Keyed key_item

  update_eq : update cfg c t o val expire ≡ (true, after)
  unfolding update item_update
  update_eq = rw (ge→ltb _ _ enough)

  expire_item : item.expire ≡ capped cfg c expire
  expire_item = expire_update cfg t.cas_val relabelled val

  hit_item : IsAlive cfg c expire → hit cfg c item key ≡ true
  unfolding item_valid
  hit_item alive =
      key_hit cfg c item key item-Keyed (ap (leb_ℤ c.proc_sec) expire_item ∙ alive)
        (key_item ∙ hit_key cfg c (t.ds o) key there)

  -- On a table that satisfies the invariant, an update of the item that the lookup of a key answers
  -- succeeds where the value fits the chunk, is a number below 2^64 or a text that is not empty and
  -- shorter than 256 bytes, and its time of expiry, capped, is not before the current second; the key
  -- is found in the same slot with the new value, the time of expiry, capped, and the next cas, and every
  -- other key is looked up as before.
  pub get-update :
      (other : Bytes)
      → other ≢ key
      → IsAlive cfg c expire
      → ((update cfg c t o val expire).0 ≡ true)
        × (get cfg murmur3 c (update cfg c t o val expire).1 key ≡ some o)
        × (item_val cfg ((update cfg c t o val expire).1.ds o) ≡ val)
        × (((update cfg c t o val expire).1.ds o).expire ≡ capped cfg c expire)
        × (item_cas cfg ((update cfg c t o val expire).1.ds o)
            ≡ (if cfg.cas_enabled then next_cas cfg t.cas_val else 1))
        × (lookup cfg murmur3 c (update cfg c t o val expire).1 other
            ≡ lookup cfg murmur3 c t other)
  get-update other differs alive = rw update_eq (
    refl,
    (get_iff cfg murmur3 c after key o after-Placed).1
        (subst (λ x. hit cfg c x key ≡ true) (sym same) (hit_item alive)),
    ap (item_val cfg) same ∙ item_val-update cfg t.cas_val relabelled val room_item storable,
    ap (λ it. it.expire) same ∙ expire_item,
    ap (item_cas cfg) same ∙ item_cas-update cfg t.cas_val relabelled val room_item,
    over_other cfg murmur3 c t key o inv there item
        (item_update cfg c t.cas_val (t.ds o) val expire).0 sized_item item-Keyed key_item other
        differs,
  )
    where
      same : put t.ds o item o ≡ item
      same = put_same t.ds o item

-- An update keeps the invariant, whether the value fits or is refused.
pub update-Placed :
    (cfg : Config) (murmur3 : Hash) (c : Clock) (t : Table) (key : Bytes)
    → Placed cfg murmur3 c t.ds
    → (o : ℕ) (val : Val) (expire : ℤ) → get cfg murmur3 c t key ≡ some o
    → IsStorable val
    → Placed cfg murmur3 c (update cfg c t o val expire).1.ds
unfolding update
update-Placed cfg murmur3 c t key inv o val expire found storable =
    elim (refused-cases cfg (t.ds o).klen val (inv.keyed o).1 storable) [
      | inl r ↦ rw r inv
      | inr room ↦
          subst (λ r. Placed cfg murmur3 c r.1.ds)
            (sym (update_eq cfg murmur3 c t key inv o val expire found storable room))
            (after-Placed cfg murmur3 c t key inv o val expire found storable room)
    ]
