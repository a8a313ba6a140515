-- ===== src/Slimcache/Counters.antt =====
-- server/slimcache/data/process.c: incr and decr.
use pelikan.Common.{
  ℕ, ◌+◌, ◌-◌, ◌≤◌, ◌<◌, ◌%◌, ◌^◌, arith, ◌≡◌, ◌≢◌, refl, sym, ap, subst, ◌∙◌, true, Option, some,
  if◌then◌else◌, ltb, length, ge→ltb,
}
use pelikan.Common.Words.{u64_mod}
use pelikan.Common.Memory.{Bytes}
use pelikan.Common.Int.{leb_ℤ}
use pelikan.Time.{Clock}
use pelikan.Cuckoo.{Table, vlen, hit}
use pelikan.Cuckoo.Chunk.{
  Config, Item, Val, vint, vstr, item_key, item_valid, item_val, is_int, item_value_int, val_pos,
  item_value_update,
}
use pelikan.Cuckoo.Written.{updated, length-update, expire_update, item_val-update}
use pelikan.Cuckoo.Keys.{Keyed, key_updated, updated-Keyed, hit_valid, hit_key, key_hit}
use pelikan.Cuckoo.Placed.{Placed, get_iff, put_same}
use pelikan.Cuckoo.Changed.{over-Placed, over_other, hit_at}
use pelikan.Cuckoo.Lookup.{lookup}
use pelikan.Slimcache.{
  Server, numeric, table_get, write_number, count_at, process_incr, process_decr,
}
use pelikan.Slimcache.Safe.{number_room, item_vlen-number}

module _ (sv : Server) (c : Clock) (t : Table) (key : Bytes) (o n : ℕ)
    (inv : Placed sv.config sv.murmur3 c t.ds) (found : table_get sv c t key ≡ some o)
    (int : is_int (t.ds o) ≡ true) where
  abbrev it : Item
  it = updated sv.config t.cas_val (t.ds o) (vint n)

  room : val_pos sv.config (t.ds o) + vlen (vint n) ≤ length (t.ds o).payload
  room = number_room sv.config (t.ds o) n (inv.keyed o) int

  number-Keyed : Keyed sv.config it
  number-Keyed =
      updated-Keyed sv.config t.cas_val (t.ds o) (vint n) room
        (item_vlen-number sv.config t.cas_val (t.ds o) n) (inv.keyed o).1

  number_key : item_key sv.config it ≡ item_key sv.config (t.ds o)
  number_key = key_updated sv.config t.cas_val (t.ds o) (vint n) room

  number_sized : 6 + length it.payload ≡ sv.config.item_size
  number_sized =
      omega (arith, inv.sized o, length-update sv.config t.cas_val (t.ds o) (vint n) room)

  there : hit sv.config c (t.ds o) key ≡ true
  unfolding table_get
  there = hit_at sv.config sv.murmur3 c t key inv o found

  abbrev counted : Table
  counted = (write_number sv c t o n).1

  counted-Placed : Placed sv.config sv.murmur3 c counted.ds
  unfolding write_number
  counted-Placed =
      over-Placed sv.config sv.murmur3 c t key o inv there it
        (item_value_update sv.config t.cas_val (t.ds o) (vint n)).0 number_sized number-Keyed
        number_key

  counted_other :
      (other : Bytes)
      → other ≢ key
      → lookup sv.config sv.murmur3 c counted other ≡ lookup sv.config sv.murmur3 c t other
  unfolding write_number
  counted_other other differs =
      over_other sv.config sv.murmur3 c t key o inv there it
        (item_value_update sv.config t.cas_val (t.ds o) (vint n)).0 number_sized number-Keyed
        number_key other differs

  counted_at : counted.ds o ≡ it
  unfolding write_number
  counted_at = put_same t.ds o it

  counted_expire : (counted.ds o).expire ≡ (t.ds o).expire
  counted_expire =
      ap (λ x. x.expire) counted_at ∙ expire_update sv.config t.cas_val (t.ds o) (vint n)

  counted_hit : hit sv.config c it key ≡ true
  unfolding item_valid
  counted_hit =
      key_hit sv.config c it key number-Keyed
        (ap (leb_ℤ c.proc_sec) (expire_update sv.config t.cas_val (t.ds o) (vint n))
          ∙ hit_valid sv.config c (t.ds o) key there)
        (number_key ∙ hit_key sv.config c (t.ds o) key there)

  counted_get : table_get sv c counted key ≡ some o
  unfolding table_get
  counted_get =
      (get_iff sv.config sv.murmur3 c counted key o counted-Placed).1
        (subst (λ x. hit sv.config c x key ≡ true) (sym counted_at) counted_hit)

  counted_val : n < 256 ^ 8 → item_val sv.config (counted.ds o) ≡ vint n
  counted_val h =
      ap (item_val sv.config) counted_at
      ∙ item_val-update sv.config t.cas_val (t.ds o) (vint n) room h

  counted_int : is_int (counted.ds o) ≡ true
  unfolding is_int item_value_update
  counted_int = ap is_int counted_at

number_answer :
    (sv : Server) (c : Clock) (t : Table) (o n : ℕ) → (write_number sv c t o n).0 ≡ numeric n
unfolding write_number
number_answer sv c t o n = refl

-- The answer to a counter request on a number, and the table after it.
count_found :
    (sv : Server) (c : Clock) (t : Table) (f : ℕ → ℕ) (m : Option ℕ) (o : ℕ)
    → m ≡ some o
    → is_int (t.ds o) ≡ true
    → count_at sv c t f m ≡ write_number sv c t o (f (item_value_int sv.config (t.ds o)))
unfolding count_at
count_found sv c t f m o e i = rw (e, i)

-- An incr of a stored number answers the sum mod 2^64 and stores it in the same slot, with the time of
-- expiry as it was; every other key is looked up as before.
pub process_incr_lem :
    (sv : Server) (c : Clock) (t : Table) (key other : Bytes) (o delta : ℕ)
    → Placed sv.config sv.murmur3 c t.ds
    → table_get sv c t key ≡ some o
    → is_int (t.ds o) ≡ true
    → other ≢ key
    → ((process_incr sv c t key delta).0
        ≡ numeric ((item_value_int sv.config (t.ds o) + delta) % u64_mod))
      × (table_get sv c (process_incr sv c t key delta).1 key ≡ some o)
      × (item_val sv.config ((process_incr sv c t key delta).1.ds o)
          ≡ vint ((item_value_int sv.config (t.ds o) + delta) % u64_mod))
      × (((process_incr sv c t key delta).1.ds o).expire ≡ (t.ds o).expire)
      × (lookup sv.config sv.murmur3 c (process_incr sv c t key delta).1 other
          ≡ lookup sv.config sv.murmur3 c t other)
unfolding process_incr
process_incr_lem sv c t key other o delta inv e i differs =
    rw (count_found sv c t (λ v. (v + delta) % u64_mod) _ o e i) (
      number_answer sv c t o sum,
      counted_get sv c t key o sum inv e i,
      counted_val sv c t key o sum inv e i (omega arith),
      counted_expire sv c t key o sum inv e i,
      counted_other sv c t key o sum inv e i other differs,
    )
  where
    sum : ℕ
    sum = (item_value_int sv.config (t.ds o) + delta) % u64_mod

as_number : Val → ℕ
as_number (vint n) = n
as_number (vstr s) = 0

number_of_val :
    (cfg : Config) (it : Item) (n : ℕ)
    → is_int it ≡ true
    → item_val cfg it ≡ vint n
    → item_value_int cfg it ≡ n
unfolding item_val as_number
number_of_val cfg it n i e = ap as_number (rw i at e)

undone :
    (v w delta : ℕ)
    → w ≡ (v + delta) % u64_mod
    → v + delta < u64_mod
    → (if ltb w delta then 0 else w - delta) ≡ v
undone v w delta e h = rw (ge→ltb w delta (omega arith)) (omega arith)

-- A decr by what an incr has added answers the number before it, unless the sum has wrapped around.
pub process_decr-incr :
    (sv : Server) (c : Clock) (t : Table) (key : Bytes) (o delta : ℕ)
    → Placed sv.config sv.murmur3 c t.ds
    → table_get sv c t key ≡ some o
    → is_int (t.ds o) ≡ true
    → item_value_int sv.config (t.ds o) + delta < u64_mod
    → (process_decr sv c (process_incr sv c t key delta).1 key delta).0
      ≡ numeric (item_value_int sv.config (t.ds o))
unfolding process_incr process_decr
process_decr-incr sv c t key o delta inv e i small =
    rw (count_found sv c t (λ v. (v + delta) % u64_mod) _ o e i) (
      ap (λ r. r.0)
        (count_found sv c after (λ v. if ltb v delta then 0 else v - delta) _ o
          (counted_get sv c t key o sum inv e i) (counted_int sv c t key o sum inv e i))
      ∙ number_answer sv c after o _
      ∙ ap numeric (undone (item_value_int sv.config (t.ds o)) _ delta summed small))
  where
    sum : ℕ
    sum = (item_value_int sv.config (t.ds o) + delta) % u64_mod

    after : Table
    after = (write_number sv c t o sum).1

    summed : item_value_int sv.config (after.ds o) ≡ sum
    summed =
        number_of_val sv.config (after.ds o) sum (counted_int sv c t key o sum inv e i)
          (counted_val sv c t key o sum inv e i (omega arith))
