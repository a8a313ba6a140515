-- ===== src/Slimcache/Tests.antt =====
-- The theorems about the requests at a concrete server with a table of eight chunks.
use mathlib.Core.Option.{none-ne-some, some-injective}
use pelikan.Common.{
  ℕ, ◌+◌, ◌-◌, ◌%◌, ◌<◌, ◌≡◌, ◌≢◌, refl, ap, true, false, Bool-cases, Option, none, some, [], ◌∷◌,
  arith, get_or, if◌then◌else◌, ltb, ltb→lt, inl, inr, length,
}
use pelikan.Common.Memory.{Bytes, bytes_eq, slice, splice, load, store, le_bytes, le_value}
use pelikan.Common.Words.{add32, u64_mod}
use pelikan.Common.Int.{pos}
use pelikan.Time.{Clock, time_delta, convert_proc_sec, delta2proc_sec, to_i32, to_u32, as_signed}
use pelikan.Cuckoo
use pelikan.Cuckoo.{Table, vlen, put, clear, hit, find_hit, find_free, reset, make_room, take_slot}
use pelikan.Cuckoo.Chunk.{
  Config, vint, random_policy, cas_len, item_overhead, val_pos, item_matched, item_valid, is_int,
  item_value_int, item_val, next_cas, stamp, item_value_update, capped, item_update, item_set,
}
use pelikan.Cuckoo.Candidates.{hash, hash_from}
use pelikan.Cuckoo.Placed.{Placed}
use pelikan.Cuckoo.Lookup.{lookup}
use pelikan.Cuckoo.Insert.{Fits, IsAlive}
use pelikan.Cuckoo.Steady.{HoldsNumber, reset-Placed}
use pelikan.Slimcache.{
  Server, value, numeric, stored, exists, end, set, table_get, get_value, value_of, expiry_of,
  set_at, add_item, insert_answer, process_get, process_gets, process_set, process_cas,
  process_incr, process_request,
}
use pelikan.Slimcache.Safe.{ReadsWords}
use pelikan.Slimcache.Requests.{process_set-Safe}
use pelikan.Slimcache.Reachable.{booted, served, passed, Reaches-Placed}
use pelikan.Slimcache.Answers.{get-set, cas-set_stale}
use pelikan.Slimcache.Counters.{process_incr_lem}

abbrev config : Config
config = record {
  item_size = 40;
  max_nitem = 8;
  policy = random_policy;
  cas_enabled = true;
  max_ttl = pos 1000;
}

-- A reader of single digits.
abbrev digit : Bytes → Option ℕ
digit [] = none
digit (c ∷ []) = if ltb c 48 then none else if ltb c 58 then some (c - 48) else none
digit (c ∷ d ∷ s) = none

abbrev server : Server
server = record {
  config = config;
  time_type = time_delta;
  allow_flush = false;
  murmur3 = λ key v. get_or key 0 0 + v;
  atou64 = digit;
}

digit-ReadsWords : ReadsWords server
digit-ReadsWords [] n e = absurd (none-ne-some n e)
digit-ReadsWords (c ∷ d ∷ s) n e = absurd (none-ne-some n e)
digit-ReadsWords (c ∷ []) n e = elim (Bool-cases (ltb c 48)) [
  | inl h ↦ absurd (none-ne-some n (rw h at e))
  | inr h ↦ elim (Bool-cases (ltb c 58)) [
    | inl l ↦ omega (arith, some-injective (c - 48) n (rw (h, l) at e), ltb→lt c 58 l)
    | inr l ↦ absurd (none-ne-some n (rw (h, l) at e))
  ]
]

abbrev clock : Clock
clock = record { time_start = pos 1700000000; proc_sec = pos 5 }

abbrev later : Clock
later = record { time_start = pos 1700000000; proc_sec = pos 9 }

abbrev draws : ℕ → ℕ
draws n = n + 3

abbrev any : Table
any = record { ds = λ o. record { expire = pos 7; klen = 9; vlen = 9; payload = [] }; cas_val = 6 }

abbrev empty : Table
empty = reset config any

abbrev k : Bytes
k = 107 ∷ 49 ∷ []

abbrev seven : Bytes
seven = 55 ∷ []

wide : HoldsNumber config
unfolding cas_len
wide = omega arith

empty-Placed : Placed config server.murmur3 clock empty.ds
empty-Placed = reset-Placed config server.murmur3 clock any wide refl

reaches_example :
    Placed config server.murmur3 later
      (process_request server clock 0 draws empty (set k seven (pos 60))).1.ds
reaches_example =
    Reaches-Placed server later
      (process_request server clock 0 draws empty (set k seven (pos 60))).1 digit-ReadsWords wide
      (passed later
        (served 0 draws (set k seven (pos 60)) (booted clock any refl)
          (omega arith, (omega arith, omega arith)))
        refl)

k-Fits : Fits config k (get_value server seven)
unfolding cas_len item_overhead vlen get_value value_of
k-Fits = record { short = omega arith; storable = omega arith; room = omega arith }

k-IsAlive : IsAlive config clock (expiry_of server clock (pos 60))
unfolding capped delta2proc_sec to_i32 to_u32 as_signed expiry_of convert_proc_sec
k-IsAlive = refl

abbrev holding : Table
holding = (process_set server clock draws empty k seven (pos 60)).1

get_set_example :
    ((process_set server clock draws empty k seven (pos 60)).0 ≡ stored)
    × (process_get server clock holding 1 (k ∷ [])
        ≡ value false k (next_cas config 6) (get_value server seven) ∷ end ∷ [])
    × (process_gets server clock holding 1 (k ∷ [])
        ≡ some (value true k (next_cas config 6) (get_value server seven) ∷ end ∷ []))
unfolding reset
get_set_example = get-set server clock draws empty k seven (pos 60) empty-Placed k-Fits k-IsAlive 0

cas_set_example : process_cas server clock holding k (56 ∷ []) (pos 80) 6 ≡ (exists, holding)
unfolding reset
cas_set_example =
    cas-set_stale server clock draws empty k seven (pos 60) empty-Placed k-Fits k-IsAlive (56 ∷ [])
      (pos 80) 6 refl (omega arith) (omega arith)

holding-Placed : Placed config server.murmur3 clock holding.ds
holding-Placed =
    process_set-Safe server clock digit-ReadsWords empty empty-Placed draws k seven (pos 60)
      (omega arith) (omega arith, omega arith)

abbrev at : ℕ
at = 6

found_k : table_get server clock holding k ≡ some at
unfolding table_get Cuckoo.get find_hit hash hash_from hit item_valid reset Cuckoo.insert make_room
    take_slot find_free item_set item_update item_value_update put add32 vlen item_overhead cas_len
    item_matched bytes_eq splice slice store stamp next_cas val_pos le_bytes capped delta2proc_sec
    to_i32 to_u32 as_signed process_set set_at add_item insert_answer get_value value_of expiry_of
    convert_proc_sec
found_k = refl

number_k : is_int (holding.ds at) ≡ true
unfolding is_int table_get Cuckoo.get find_hit hash hash_from hit item_valid reset Cuckoo.insert
    make_room take_slot find_free item_set item_update item_value_update put add32 vlen
    item_overhead cas_len item_matched bytes_eq splice slice store stamp next_cas val_pos le_bytes
    capped delta2proc_sec to_i32 to_u32 as_signed process_set set_at add_item insert_answer
    get_value value_of expiry_of convert_proc_sec
number_k = refl

seven≢k : seven ≢ k
seven≢k q = absurd (omega (arith, ap length q))

incr_example :
    ((process_incr server clock holding k 5).0
      ≡ numeric ((item_value_int config (holding.ds at) + 5) % u64_mod))
    × (table_get server clock (process_incr server clock holding k 5).1 k ≡ some at)
    × (item_val config ((process_incr server clock holding k 5).1.ds at)
        ≡ vint ((item_value_int config (holding.ds at) + 5) % u64_mod))
    × (((process_incr server clock holding k 5).1.ds at).expire ≡ (holding.ds at).expire)
    × (lookup config server.murmur3 clock (process_incr server clock holding k 5).1 seven
        ≡ lookup config server.murmur3 clock holding seven)
incr_example =
    process_incr_lem server clock holding k seven at 5 holding-Placed found_k number_k seven≢k

small_k : item_value_int config (holding.ds at) + 5 < u64_mod
unfolding item_value_int load le_value table_get Cuckoo.get find_hit hash hash_from hit item_valid
    reset Cuckoo.insert make_room take_slot find_free item_set item_update item_value_update put
    add32 vlen item_overhead cas_len item_matched bytes_eq splice slice store stamp next_cas val_pos
    le_bytes capped delta2proc_sec to_i32 to_u32 as_signed process_set set_at add_item insert_answer
    get_value value_of expiry_of convert_proc_sec
small_k = omega arith
