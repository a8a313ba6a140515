-- ===== src/Slimcache/Safe.antt =====
-- server/slimcache/data/process.c: every request keeps the invariant of the table.
use pelikan.Common.{
  ℕ, ◌+◌, ◌^◌, ◌≤◌, ◌<◌, arith, ◌≡◌, refl, sym, subst, inl, inr, Bool, true, false, Bool-cases,
  Option, none, some, length,
}
use pelikan.Common.Memory.{Bytes}
use pelikan.Common.Int.{ℤ}
use pelikan.Time.{Clock}
use pelikan.Cuckoo
use pelikan.Cuckoo.{Table, vlen, put}
use pelikan.Cuckoo.Chunk.{Config, Item, vint, item_vlen, is_int, val_pos, item_value_update}
use pelikan.Cuckoo.Written.{IsStorable, updated, length-update}
use pelikan.Cuckoo.Keys.{Keyed, key_updated, updated-Keyed}
use pelikan.Cuckoo.Placed.{Placed, Option-cases}
use pelikan.Cuckoo.Inserted.{insert-Placed_any}
use pelikan.Cuckoo.Changed.{over-Placed, hit_at}
use pelikan.Cuckoo.Updated.{update-Placed}
use pelikan.Slimcache.{
  Server, value_of, get_value, table_get, update_answer, insert_answer, rewrite_item, add_item,
  write_number, count_at,
}

-- The reader of decimal numbers answers `uint64_t` values.
abbrev pub ReadsWords : Server → Type 0
ReadsWords sv = (str : Bytes) (n : ℕ) → sv.atou64 str ≡ some n → n < 256 ^ 8

-- A text that the table can store: not empty, and its length a byte.
abbrev pub IsShort : Bytes → Type 0
IsShort str = (1 ≤ length str) × (length str < 256)

pub number_room :
    (cfg : Config) (it : Item) (n : ℕ)
    → Keyed cfg it
    → is_int it ≡ true
    → val_pos cfg it + vlen (vint n) ≤ length it.payload
unfolding val_pos is_int item_vlen vlen
number_room cfg it n k i = let h = rw i at k in omega (arith, h)

table-update_answer : (r : Bool × Table) → (update_answer r).1 ≡ r.1
unfolding update_answer
table-update_answer (true, t) = refl
table-update_answer (false, t) = refl

table-insert_answer : (r : Option ℕ × Table) → (insert_answer r).1 ≡ r.1
unfolding insert_answer
table-insert_answer (none, t) = refl
table-insert_answer (some o, t) = refl

pub item_vlen-number :
    (cfg : Config) (cas : ℕ) (it : Item) (n : ℕ)
    → item_vlen (updated cfg cas it (vint n)) ≡ vlen (vint n)
unfolding item_vlen vlen item_value_update
item_vlen-number cfg cas it n = refl

module _ (sv : Server) (c : Clock) (reads : ReadsWords sv) where
  pub value-IsStorable : (str : Bytes) → IsShort str → IsStorable (get_value sv str)
  unfolding get_value value_of
  value-IsStorable str h = elim (Option-cases (sv.atou64 str)) [
    | inl e ↦ rw e h
    | inr (n, e) ↦ rw e (reads str n e)
  ]

  abbrev pub Safe : Table → Type 0
  Safe t = Placed sv.config sv.murmur3 c t.ds

  pub rewrite_item-Safe :
      (t : Table) (key str : Bytes) (expiry : ℤ) (o : ℕ)
      → Safe t
      → IsShort str
      → table_get sv c t key ≡ some o
      → Safe (rewrite_item sv c t str expiry o).1
  unfolding rewrite_item table_get
  rewrite_item-Safe t key str expiry o inv h e =
      subst Safe (sym (table-update_answer (Cuckoo.update _ c t o (get_value sv str) _))) (
        update-Placed sv.config sv.murmur3 c t key inv o (get_value sv str) _ e
          (value-IsStorable str h))

  pub add_item-Safe :
      (random : ℕ → ℕ) (t : Table) (key str : Bytes) (expiry : ℤ)
      → Safe t
      → length key < 256
      → IsShort str
      → table_get sv c t key ≡ none
      → Safe (add_item sv c random t key str expiry).1
  unfolding add_item table_get
  add_item-Safe random t key str expiry inv k h e =
      subst Safe (sym (table-insert_answer (Cuckoo.insert _ _ c random t key (get_value sv str) _)))
        (insert-Placed_any sv.config sv.murmur3 c random t key (get_value sv str) _ inv k
          (value-IsStorable str h) e)

  -- A number fits where the value is one.
  write_number-Safe :
      (t : Table) (key : Bytes) (o n : ℕ)
      → Safe t
      → table_get sv c t key ≡ some o
      → is_int (t.ds o) ≡ true
      → Safe (write_number sv c t o n).1
  unfolding write_number table_get
  write_number-Safe t key o n inv e i =
      over-Placed sv.config sv.murmur3 c t key o inv (hit_at sv.config sv.murmur3 c t key inv o e)
        (updated sv.config t.cas_val (t.ds o) (vint n))
        (item_value_update sv.config t.cas_val (t.ds o) (vint n)).0
        (omega (arith, inv.sized o, length-update sv.config t.cas_val (t.ds o) (vint n) room))
        (updated-Keyed sv.config t.cas_val (t.ds o) (vint n) room number_length (inv.keyed o).1)
        (key_updated sv.config t.cas_val (t.ds o) (vint n) room)
    where
      room : val_pos sv.config (t.ds o) + vlen (vint n) ≤ length (t.ds o).payload
      room = number_room sv.config (t.ds o) n (inv.keyed o) i

      number_length : item_vlen (updated sv.config t.cas_val (t.ds o) (vint n)) ≡ vlen (vint n)
      number_length = item_vlen-number sv.config t.cas_val (t.ds o) n

  pub count_at-Safe :
      (t : Table) (key : Bytes) (f : ℕ → ℕ)
      → Safe t
      → Safe (count_at sv c t f (table_get sv c t key)).1
  unfolding count_at
  count_at-Safe t key f inv = elim (Option-cases (table_get sv c t key)) [
    | inl e ↦ rw e inv
    | inr (o, e) ↦ elim (Bool-cases (is_int (t.ds o))) [
      | inl i ↦ rw (e, i) (write_number-Safe t key o _ inv e i)
      | inr i ↦ rw (e, i) inv
    ]
  ]
