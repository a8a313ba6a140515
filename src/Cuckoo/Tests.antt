-- ===== src/Cuckoo/Tests.antt =====
-- The theorems about the cuckoo table at concrete tables of two chunks.
use mathlib.Core.List.{Permᴰ}
use pelikan.Common.{
  ℕ, ◌+◌, ◌≤◌, ◌≡◌, ◌≢◌, ◌↔◌, ◌⊎◌, refl, ap, true, false, none, some, [], ◌∷◌, arith, get_or,
}
use pelikan.Common.Memory.{Bytes, bytes_eq, slice, splice, store, le_bytes}
use pelikan.Common.Words.{add32}
use pelikan.Common.Int.{pos}
use pelikan.Time.{Clock, delta2proc_sec, to_i32, to_u32, as_signed}
use pelikan.Cuckoo.{
  Table, vlen, put, hit, find_hit, find_free, reset, get, make_room, take_slot, insert, update,
  delete,
}
use pelikan.Cuckoo.Chunk.{
  Config, vint, vstr, expire_policy, cas_len, item_overhead, val_pos, item_matched, item_valid,
  item_cas, item_value_int, item_val, next_cas, stamp, item_value_update, capped, item_update,
  item_set,
}
use pelikan.Cuckoo.Candidates.{Hash, hash, hash_from, sort_candidate}
use pelikan.Cuckoo.Placed.{Placed, get_iff}
use pelikan.Cuckoo.Lookup.{lookup}
use pelikan.Cuckoo.Insert.{Fits, IsAlive}
use pelikan.Cuckoo.Inserted.{insert-Placed, get-insert, lookup-insert_other, insert_loses_one}
use pelikan.Cuckoo.Changed.{delete_lem}
use pelikan.Cuckoo.Updated.{get-update}
use pelikan.Cuckoo.Sorted.{IsAscending, sort_candidate-IsAscending}
use pelikan.Cuckoo.Written.{updated, item_val-misread}
use pelikan.Cuckoo.Steady.{reset-Placed}

abbrev config : Config
config = record {
  item_size = 32;
  max_nitem = 2;
  policy = expire_policy;
  cas_enabled = true;
  max_ttl = pos 1000;
}

-- A hash of the first byte.
abbrev first_byte : Hash
first_byte key v = get_or key 0 0 + v

abbrev clock : Clock
clock = record { time_start = pos 1700000000; proc_sec = pos 5 }

abbrev draws : ℕ → ℕ
draws n = n

abbrev a : Bytes
a = 97 ∷ []

abbrev b : Bytes
b = 98 ∷ []

abbrev d : Bytes
d = 100 ∷ 49 ∷ []

abbrev empty : Table
empty =
    reset config (record {
      ds = λ o. record { expire = pos 7; klen = 9; vlen = 9; payload = [] };
      cas_val = 6;
    })

empty-Placed : Placed config first_byte clock empty.ds
unfolding cas_len
empty-Placed = reset-Placed config first_byte clock _ (omega arith) refl

a-Fits : Fits config a (vint 300)
unfolding cas_len item_overhead vlen
a-Fits = record { short = omega arith; storable = omega arith; room = omega arith }

absent_a : get config first_byte clock empty a ≡ none
unfolding get find_hit hash hash_from hit item_valid reset
absent_a = refl

abbrev one : Table
one = (insert config first_byte clock draws empty a (vint 300) (pos 60)).1

b-Fits : Fits config b (vstr (120 ∷ 121 ∷ []))
unfolding cas_len item_overhead vlen
b-Fits = record { short = omega arith; storable = omega arith; room = omega arith }

absent_b : get config first_byte clock one b ≡ none
unfolding get find_hit hash hash_from hit item_valid reset insert make_room take_slot find_free
    item_set item_update item_value_update put add32 vlen item_overhead cas_len item_matched
    bytes_eq splice slice store stamp next_cas val_pos le_bytes capped delta2proc_sec to_i32 to_u32
    as_signed
absent_b = refl

abbrev two : Table
two = (insert config first_byte clock draws one b (vstr (120 ∷ 121 ∷ [])) (pos 50)).1

one-Placed : Placed config first_byte clock one.ds
one-Placed =
    insert-Placed config first_byte clock draws empty a (vint 300) (pos 60) empty-Placed a-Fits
      absent_a

two-Placed : Placed config first_byte clock two.ds
two-Placed =
    insert-Placed config first_byte clock draws one b (vstr (120 ∷ 121 ∷ [])) (pos 50) one-Placed
      b-Fits absent_b

d-Fits : Fits config d (vint 7)
unfolding cas_len item_overhead vlen
d-Fits = record { short = omega arith; storable = omega arith; room = omega arith }

absent_d : get config first_byte clock two d ≡ none
unfolding get find_hit hash hash_from hit item_valid reset insert make_room take_slot find_free
    item_set item_update item_value_update put add32 vlen item_overhead cas_len item_matched
    bytes_eq splice slice store stamp next_cas val_pos le_bytes capped delta2proc_sec to_i32 to_u32
    as_signed
absent_d = refl

d-IsAlive : IsAlive config clock (pos 70)
unfolding capped delta2proc_sec to_i32 to_u32 as_signed
d-IsAlive = refl

a≢b : a ≢ b
a≢b q = absurd (omega (arith, ap (λ k. get_or k 0 0) q))

a≢d : a ≢ d
a≢d q = absurd (omega (arith, ap (λ k. get_or k 0 0) q))

b≢d : b ≢ d
b≢d q = absurd (omega (arith, ap (λ k. get_or k 0 0) q))

b≢a : b ≢ a
b≢a q = absurd (omega (arith, ap (λ k. get_or k 0 0) q))

free_b : (make_room config first_byte clock draws one.ds (hash config first_byte b)).1.1 ≡ false
unfolding get find_hit hash hash_from hit item_valid reset insert make_room take_slot find_free
    item_set item_update item_value_update put add32 vlen item_overhead cas_len item_matched
    bytes_eq splice slice store stamp next_cas val_pos le_bytes capped delta2proc_sec to_i32 to_u32
    as_signed
free_b = refl

found_a : get config first_byte clock two a ≡ some 0
unfolding get find_hit hash hash_from hit item_valid reset insert make_room take_slot find_free
    item_set item_update item_value_update put add32 vlen item_overhead cas_len item_matched
    bytes_eq splice slice store stamp next_cas val_pos le_bytes capped delta2proc_sec to_i32 to_u32
    as_signed
found_a = refl

room_a : (two.ds 0).klen + vlen (vint 8) + item_overhead config ≤ config.item_size
unfolding get find_hit hash hash_from hit item_valid reset insert make_room take_slot find_free
    item_set item_update item_value_update put add32 vlen item_overhead cas_len item_matched
    bytes_eq splice slice store stamp next_cas val_pos le_bytes capped delta2proc_sec to_i32 to_u32
    as_signed
room_a = omega arith

a-IsAlive : IsAlive config clock (pos 90)
unfolding capped delta2proc_sec to_i32 to_u32 as_signed
a-IsAlive = refl

-- The table is full: an item is displaced.
insert-Placed_example :
    Placed config first_byte clock
      (insert config first_byte clock draws two d (vint 7) (pos 70)).1.ds
insert-Placed_example =
    insert-Placed config first_byte clock draws two d (vint 7) (pos 70) two-Placed d-Fits absent_d

get-insert_example :
    (o : ℕ) × ((insert config first_byte clock draws two d (vint 7) (pos 70)).0 ≡ some o)
    × (get config first_byte clock
          (insert config first_byte clock draws two d (vint 7) (pos 70)).1
          d
        ≡ some o)
    × (item_val config ((insert config first_byte clock draws two d (vint 7) (pos 70)).1.ds o)
        ≡ vint 7)
    × (((insert config first_byte clock draws two d (vint 7) (pos 70)).1.ds o).expire
        ≡ capped config clock (pos 70))
    × (item_cas config ((insert config first_byte clock draws two d (vint 7) (pos 70)).1.ds o)
        ≡ next_cas config two.cas_val)
get-insert_example =
    get-insert config first_byte clock draws two d (vint 7) (pos 70) two-Placed d-Fits absent_d
      d-IsAlive

lookup-insert_example :
    lookup config first_byte clock
      (insert config first_byte clock draws one b (vstr (120 ∷ 121 ∷ [])) (pos 50)).1
      a
    ≡ lookup config first_byte clock one a
lookup-insert_example =
    lookup-insert_other config first_byte clock draws one b (vstr (120 ∷ 121 ∷ [])) (pos 50)
      one-Placed b-Fits absent_b a a≢b free_b

loses_one_example :
    (lookup config first_byte clock
        (insert config first_byte clock draws two d (vint 7) (pos 70)).1
        a
      ≡ lookup config first_byte clock two a)
    ⊎ (lookup config first_byte clock
          (insert config first_byte clock draws two d (vint 7) (pos 70)).1
          b
        ≡ lookup config first_byte clock two b)
loses_one_example =
    insert_loses_one config first_byte clock draws two d (vint 7) (pos 70) two-Placed d-Fits
      absent_d a b a≢d b≢d a≢b

get_iff_example :
    (get config first_byte clock two b ≡ some 1) ↔ (hit config clock (two.ds 1) b ≡ true)
get_iff_example = get_iff config first_byte clock two b 1 two-Placed

delete_example :
    Placed config first_byte clock (delete config first_byte clock two a).1.ds
    × (get config first_byte clock (delete config first_byte clock two a).1 a ≡ none)
    × (((delete config first_byte clock two a).0 ≡ true)
        ↔ ((o : ℕ) × (get config first_byte clock two a ≡ some o)))
    × (lookup config first_byte clock (delete config first_byte clock two a).1 b
        ≡ lookup config first_byte clock two b)
delete_example = delete_lem config first_byte clock two a two-Placed refl b b≢a

update_example :
    ((update config clock two 0 (vint 8) (pos 90)).0 ≡ true)
    × (get config first_byte clock (update config clock two 0 (vint 8) (pos 90)).1 a ≡ some 0)
    × (item_val config ((update config clock two 0 (vint 8) (pos 90)).1.ds 0) ≡ vint 8)
    × (((update config clock two 0 (vint 8) (pos 90)).1.ds 0).expire ≡ capped config clock (pos 90))
    × (item_cas config ((update config clock two 0 (vint 8) (pos 90)).1.ds 0)
        ≡ next_cas config two.cas_val)
    × (lookup config first_byte clock (update config clock two 0 (vint 8) (pos 90)).1 b
        ≡ lookup config first_byte clock two b)
update_example =
    get-update config first_byte clock two a two-Placed 0 (vint 8) (pos 90) found_a (omega arith)
      room_a b b≢a a-IsAlive

sort_example :
    Permᴰ (sort_candidate expire_policy 0 two.ds (1 ∷ 0 ∷ 1 ∷ 0 ∷ [])) (1 ∷ 0 ∷ 1 ∷ 0 ∷ [])
    × IsAscending two.ds (sort_candidate expire_policy 0 two.ds (1 ∷ 0 ∷ 1 ∷ 0 ∷ []))
sort_example = sort_candidate-IsAscending 0 two.ds 1 0 1 0

misread_example :
    (item_val config (updated config 6 (two.ds 0) (vstr []))
      ≡ vint (item_value_int config (updated config 6 (two.ds 0) (vstr []))))
    × (item_val config (updated config 6 (two.ds 0) (vstr [])) ≢ vstr [])
misread_example = item_val-misread config 6 (two.ds 0) [] refl
