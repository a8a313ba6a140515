-- ===== src/Cuckoo.antt =====
-- storage/cuckoo/cuckoo.c: the table of chunks and its operations. `ds` maps a slot to its chunk.
-- The clock is read once per call. Metrics are left out.
pub mod Chunk
pub mod Candidates
pub mod Written
pub mod Keys
pub mod Placed
pub mod Sorted
pub mod Moves
pub mod Displaced
pub mod Room
pub mod Lookup
pub mod Insert
pub mod Inserted
pub mod Changed
pub mod Updated
pub mod Steady
mod Tests
use pelikan.Common.{
  ℕ, zero, suc, ◌+◌, Bool, true, false, not, ◌&&◌, Option, none, some, List, [], ◌∷◌, ltb, ◌==◌,
  if◌then◌else◌, length, replicate, ◌-◌,
}
use pelikan.Common.Words.{add32}
use pelikan.Common.Memory.{Bytes}
use pelikan.Common.Int.{ℤ, pos}
use pelikan.Time.{Clock}
use pelikan.Cuckoo.Chunk.{
  Config, Item, Val, vint, vstr, item_overhead, item_key, item_matched, item_valid, item_update,
  item_set, item_delete,
}
use pelikan.Cuckoo.Candidates.{Hash, hash, select_candidate, sort_candidate}

-- The chunks, and the global `cas_val`.
pub record Table : Type 0 where
  pub ds : ℕ → Item
  pub cas_val : ℕ

abbrev pub displace_max : ℕ
displace_max = 2

unfoldable pub vlen : Val → ℕ
vlen (vint n) = 8
vlen (vstr s) = length s

-- A write of a whole chunk.
unfoldable pub put : (ℕ → Item) → ℕ → Item → ℕ → Item
put ds o it p = if p == o then it else ds p

unfoldable pub clear : (ℕ → Item) → ℕ → ℕ → Item
clear ds o = put ds o (item_delete (ds o))

unfoldable pub hit : Config → Clock → Item → Bytes → Bool
hit cfg c it key = item_valid c it && item_matched cfg it key

-- The loops over the offsets: the first slot that holds the key, the first that is not valid.
unfoldable pub find_hit : Config → Clock → (ℕ → Item) → Bytes → List ℕ → Option ℕ
find_hit cfg c ds key [] = none
find_hit cfg c ds key (o ∷ os) =
    let rest = find_hit cfg c ds key os in if hit cfg c (ds o) key then some o else rest

unfoldable pub find_free : Clock → (ℕ → Item) → List ℕ → Option ℕ
find_free c ds [] = none
find_free c ds (o ∷ os) =
    let rest = find_free c ds os in if item_valid c (ds o) then rest else some o

-- The candidate for the next step. The `continue` for an offset on the path belongs to the loop
-- over the path, so that it passes over no candidate.
unfoldable pub next_candidate : List ℕ → List ℕ → Option ℕ
next_candidate path [] = none
next_candidate path (o ∷ os) = some o

-- One step of the path, from the free slot and the candidate that it finds: the slot ends the path,
-- the candidate is the next to be displaced. The answer has the path from its end, and whether the
-- item there is evicted.
unfoldable pub advance : List ℕ → Option ℕ → Option ℕ → (ℕ → List ℕ × Bool) → List ℕ × Bool
advance path (some o) next go = (o ∷ path, false)
advance path none none go = (path, true)
advance path none (some o) go = go o

-- The first number counts the steps left, `random` is the value that the next step draws.
unfoldable pub find_path :
    Config → Hash → Clock → (ℕ → ℕ) → (ℕ → Item) → ℕ → ℕ → ℕ → List ℕ → List ℕ × Bool
find_path cfg murmur3 c random ds zero step displaced path = (path, true)
find_path cfg murmur3 c random ds (suc n) step displaced path =
    let offset = hash cfg murmur3 (item_key cfg (ds displaced)) in
    advance path (find_free c ds offset)
      (next_candidate path (sort_candidate cfg.policy (random step) ds offset))
      (λ o. find_path cfg murmur3 c random ds n (suc step) o (o ∷ path))

-- The items move one slot each towards the end of the path; its first slot is cleared.
unfoldable pub move_path : (ℕ → Item) → List ℕ → ℕ → Item
move_path ds [] = ds
move_path ds (o ∷ []) = clear ds o
move_path ds (o ∷ p ∷ path) = move_path (put ds o (ds p)) (p ∷ path)

unfoldable pub displace : Config → Hash → Clock → (ℕ → ℕ) → (ℕ → Item) → ℕ → (ℕ → Item) × Bool
displace cfg murmur3 c random ds displaced =
    let (path, evict) =
      find_path cfg murmur3 c random ds displace_max 1 displaced (displaced ∷ []) in
    (move_path ds path, evict)

-- `cuckoo_reset`: every byte is 0.
unfoldable pub reset : Config → Table → Table
reset cfg t = record t {
  ds =
      λ o. record { expire = pos 0; klen = 0; vlen = 0; payload = replicate (cfg.item_size - 6) 0 };
}

unfoldable pub get : Config → Hash → Clock → Table → Bytes → Option ℕ
get cfg murmur3 c t key = find_hit cfg c t.ds key (hash cfg murmur3 key)

-- The slot for a new item, the table without what was there, and whether an item was evicted: the
-- free slot, or else the one that a displacement frees.
unfoldable pub take_slot :
    Config → Hash → Clock → (ℕ → ℕ) → (ℕ → Item) → List ℕ → Option ℕ → ℕ × ((ℕ → Item) × Bool)
take_slot cfg murmur3 c random ds offset (some o) = (o, (ds, false))
take_slot cfg murmur3 c random ds offset none =
    let displaced = select_candidate cfg.policy (random 0) ds offset in
    (displaced, displace cfg murmur3 c random ds displaced)

unfoldable pub make_room :
    Config → Hash → Clock → (ℕ → ℕ) → (ℕ → Item) → List ℕ → ℕ × ((ℕ → Item) × Bool)
make_room cfg murmur3 c random ds offset =
    take_slot cfg murmur3 c random ds offset (find_free c ds offset)

-- The slot that was written, with the table.
unfoldable pub insert : Config → Hash → Clock → (ℕ → ℕ) → Table → Bytes → Val → ℤ → Option ℕ × Table
insert cfg murmur3 c random t key val expire =
    if ltb cfg.item_size (add32 (length key) (vlen val) + item_overhead cfg)
    then (none, t)
    else let (o, (ds, evict)) = make_room cfg murmur3 c random t.ds (hash cfg murmur3 key) in
      let (cas, it) = item_set cfg c t.cas_val (ds o) key val expire in
      (some o, record { ds = put ds o it; cas_val = cas })

-- An update of the item in a slot; false is CC_ERROR.
unfoldable pub update : Config → Clock → Table → ℕ → Val → ℤ → Bool × Table
update cfg c t o val expire =
    if ltb cfg.item_size (add32 (t.ds o).klen (vlen val) + item_overhead cfg)
    then (false, t)
    else let (cas, it) = item_update cfg c t.cas_val (t.ds o) val expire in
      (true, record { ds = put t.ds o it; cas_val = cas })

unfoldable pub delete_at : Table → Option ℕ → Bool × Table
delete_at t (some o) = (true, record t { ds = clear t.ds o })
delete_at t none = (false, t)

unfoldable pub delete : Config → Hash → Clock → Table → Bytes → Bool × Table
delete cfg murmur3 c t key = delete_at t (get cfg murmur3 c t key)
