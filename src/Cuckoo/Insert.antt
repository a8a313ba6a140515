-- ===== src/Cuckoo/Insert.antt =====
-- storage/cuckoo/cuckoo.c: `cuckoo_insert`.
use mathlib.Core.List.{Memᴰ}
use mathlib.Core.Bool.{true≢false}
use pelikan.Common.{
  ℕ, ◌+◌, ◌<◌, ◌≤◌, ◌≡◌, ◌≢◌, ◌⊎◌, refl, sym, ap, subst, ◌∙◌, inl, inr, Bool, true, Bool-cases,
  arith, length, none, some, ltb, ge→ltb, ltb→ge,
}
use pelikan.Common.Words.{add32, add32_exact}
use pelikan.Common.Memory.{Bytes}
use pelikan.Common.Int.{ℤ, leb_ℤ}
use pelikan.Time.{Clock}
use pelikan.Cuckoo.{Table, vlen, put, hit, make_room, insert, get}
use pelikan.Cuckoo.Chunk.{
  Config, Item, Val, vint, vstr, cas_len, item_overhead, item_key, item_valid, item_set, capped,
}
use pelikan.Cuckoo.Candidates.{Hash, hash}
use pelikan.Cuckoo.Written.{IsStorable}
use pelikan.Cuckoo.Keys.{Keyed, fresh, expire_set, length-set, key_set, set-Keyed, hit_key, key_hit}
use pelikan.Cuckoo.Placed.{Memory, Placed, Stored, get-none, put_same, put_other}
use pelikan.Cuckoo.Moves.{fill-Placed, ℕ-cases}
use pelikan.Cuckoo.Displaced.{Along}
use pelikan.Cuckoo.Room.{Roomy, make_room_lem}

-- What fits into a chunk, with a key whose length its one byte can hold.
pub record Fits (cfg : Config) (key : Bytes) (val : Val) : Type 0 where
  pub short : length key < 256
  pub storable : IsStorable val
  pub room : length key + vlen val + item_overhead cfg ≤ cfg.item_size

pub vlen_bound : (val : Val) → IsStorable val → vlen val < 256
unfolding vlen
vlen_bound (vint n) h = omega arith
vlen_bound (vstr s) h = h.1

-- What the size test of an update or an insertion tells.
pub refused-cases :
    (cfg : Config) (k : ℕ) (val : Val)
    → k < 256
    → IsStorable val
    → (ltb cfg.item_size (add32 k (vlen val) + item_overhead cfg) ≡ true)
      ⊎ (k + vlen val + item_overhead cfg ≤ cfg.item_size)
refused-cases cfg k val h s =
    elim (Bool-cases (ltb cfg.item_size (add32 k (vlen val) + item_overhead cfg))) [
      | inl e ↦ inl e
      | inr e ↦ inr (
          omega
            (arith, ltb→ge _ _ e, add32_exact k (vlen val) (omega (arith, h, vlen_bound val s))))
    ]

-- An item that is written now is valid.
abbrev pub IsAlive : Config → Clock → ℤ → Type 0
IsAlive cfg c expire = leb_ℤ c.proc_sec (capped cfg c expire) ≡ true

module _ (cfg : Config) (murmur3 : Hash) (c : Clock) (random : ℕ → ℕ) (t : Table) (key : Bytes)
    (val : Val) (expire : ℤ) (inv : Placed cfg murmur3 c t.ds) (fits : Fits cfg key val) where
  abbrev pub room : ℕ × (Memory × Bool)
  room = make_room cfg murmur3 c random t.ds (hash cfg murmur3 key)

  pub roomy : Roomy cfg murmur3 c random t.ds key room
  roomy = make_room_lem cfg murmur3 c random t.ds key inv

  -- the slot, and the chunk that is overwritten
  abbrev pub slot : ℕ
  slot = room.0

  abbrev pub old : Item
  old = room.1.0 slot

  abbrev pub new : Item
  new = fresh cfg c t.cas_val old key val expire

  enough : (add32 (length key) (vlen val) + item_overhead cfg) ≤ cfg.item_size
  enough = omega (
    arith,
    fits.room,
    add32_exact (length key) (vlen val) (omega (arith, fits.short, vlen_bound val fits.storable)),
  )

  pub insert_lem : insert cfg murmur3 c random t key val expire ≡ (
    some slot,
    record {
      ds = put room.1.0 slot new;
      cas_val = (item_set cfg c t.cas_val old key val expire).0;
    },
  )
  unfolding insert
  insert_lem = rw (ge→ltb _ _ enough)

  along : Along cfg murmur3 c random t.ds roomy.freed.last slot room.1.0
  along = roomy.freed.along

  pub room_new : cas_len cfg + length key + vlen val ≤ length old.payload
  unfolding item_overhead
  room_new = omega (arith, fits.room, along.rest.sized slot)

  abbrev pub written : Memory
  written = put room.1.0 slot new

  key_new : item_key cfg new ≡ key
  key_new = key_set cfg c t.cas_val old key val expire fits.short room_new

  new-Keyed : Keyed cfg new
  new-Keyed = set-Keyed cfg c t.cas_val old key val expire fits.short room_new fits.storable

  sized_new : 6 + length new.payload ≡ cfg.item_size
  sized_new = omega (
    arith,
    length-set cfg c t.cas_val old key val expire fits.short room_new,
    along.rest.sized slot,
  )

  -- The lookup before the insertion finds nothing.
  module _ (absent : get cfg murmur3 c t key ≡ none) where
    not_stored : (it : Item) → Stored cfg c t.ds key it → ⊥
    not_stored it (o, e, h) = true≢false (
        sym (subst (λ x. hit cfg c x key ≡ true) (sym e) h)
        ∙ get-none cfg murmur3 c t key inv absent o)

    pub written-Placed : Placed cfg murmur3 c written
    written-Placed =
        fill-Placed cfg murmur3 c room.1.0 slot new along.rest sized_new new-Keyed
          (λ v. subst (λ k. Memᴰ slot (hash cfg murmur3 k)) (sym key_new) roomy.fits)
          λ o n v w e. not_stored (room.1.0 o) (
            along.old key (room.1.0 o)
              (o, n, refl, key_hit cfg c _ key (along.rest.keyed o) w (e ∙ key_new)))

    -- The new item is found.
    pub written_hit : IsAlive cfg c expire → hit cfg c (written slot) key ≡ true
    unfolding item_valid
    written_hit alive =
        subst (λ it. hit cfg c it key ≡ true) (sym (put_same room.1.0 slot new))
          (key_hit cfg c new key new-Keyed
            (ap (leb_ℤ c.proc_sec) (expire_set cfg c t.cas_val old key val expire) ∙ alive) key_new)

    -- Other keys: nothing appears, and what is lost was in the last slot of the path.
    module _ (other : Bytes) (differs : other ≢ key) where
      pub appears : (it : Item) → Stored cfg c written other it → Stored cfg c t.ds other it
      appears it (o, e, h) = elim (ℕ-cases o slot) [
        | inl q ↦ absurd (
            differs (
              sym (
                hit_key cfg c new other (
                  subst (λ x. hit cfg c x other ≡ true)
                    (sym e ∙ ap written q ∙ put_same room.1.0 slot new) h))
              ∙ key_new))
        | inr n ↦ along.old other it (o, n, sym (put_other room.1.0 slot o new n) ∙ e, h)
      ]

      pub remains :
          (it : Item)
          → Stored cfg c t.ds other it
          → Stored cfg c written other it ⊎ (hit cfg c (t.ds roomy.freed.last) other ≡ true)
      remains it s = elim (along.kept other it s) [
        | inl (o, n, e, h) ↦ inl (o, put_other room.1.0 slot o new n ∙ e, h)
        | inr h ↦ inr h
      ]
