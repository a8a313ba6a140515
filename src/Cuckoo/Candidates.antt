-- ===== src/Cuckoo/Candidates.antt =====
-- storage/cuckoo/cuckoo.c: the slots of a key and the choice among them, `cuckoo_hash`,
-- `_select_candidate`, `_sort_candidate`. murmur3 and `random()` are parameters.
use pelikan.Common.{ℕ, zero, suc, ◌+◌, ◌%◌, List, [], ◌∷◌, if◌then◌else◌, get_or}
use pelikan.Common.Memory.{Bytes}
use pelikan.Common.Int.{ℤ, pos, ltb_ℤ}
use pelikan.Time.{int32_max}
use pelikan.Cuckoo.Chunk.{Config, Item, Policy, random_policy, expire_policy}

abbrev pub degree : ℕ
degree = 4

abbrev pub iv : List ℕ
iv = 0x3ac5d673 ∷ 0x6d7839d0 ∷ 0x2b581cf5 ∷ 0x4dd2be0a ∷ []

-- The hash of the bytes of a key from an initial value.
abbrev pub Hash : Type 0
Hash = Bytes → ℕ → ℕ

unfoldable pub hash_from : Config → Hash → Bytes → List ℕ → List ℕ
hash_from cfg murmur3 key [] = []
hash_from cfg murmur3 key (v ∷ vs) = murmur3 key v % cfg.max_nitem ∷ hash_from cfg murmur3 key vs

unfoldable pub hash : Config → Hash → Bytes → List ℕ
hash cfg murmur3 key = hash_from cfg murmur3 key iv

-- The loop over the offsets with the least time of expiry so far and its slot.
unfoldable pub select_from : (ℕ → Item) → List ℕ → ℤ → ℕ → ℕ
select_from ds [] min selected = selected
select_from ds (o ∷ os) min selected =
    let skip = select_from ds os min selected in
    let take = select_from ds os (ds o).expire o in if ltb_ℤ (ds o).expire min then take else skip

unfoldable pub select_candidate : Policy → ℕ → (ℕ → Item) → List ℕ → ℕ
select_candidate random_policy random ds offset = get_or offset (random % degree) 0
select_candidate expire_policy random ds offset =
    select_from ds offset (pos int32_max) (get_or offset 0 0)

unfoldable pub rotate : ℕ → ℕ → List ℕ → List ℕ
rotate zero j offset = []
rotate (suc n) j offset = get_or offset j 0 ∷ rotate n ((j + 1) % degree) offset

-- The inner loop of the insertion sort: the sorted part is read from its end.
unfoldable pub sift : (ℕ → Item) → ℕ → List ℕ → List ℕ
sift ds o [] = o ∷ []
sift ds o (p ∷ ps) =
    let below = sift ds o ps in if ltb_ℤ (ds o).expire (ds p).expire then p ∷ below else o ∷ p ∷ ps

-- The sorted part from its end, then what is left to sort.
unfoldable pub sort_from : (ℕ → Item) → List ℕ → List ℕ → List ℕ
sort_from ds sorted [] = sorted
sort_from ds sorted (o ∷ os) = sort_from ds (sift ds o sorted) os

unfoldable pub back_to_front : List ℕ → List ℕ → List ℕ
back_to_front [] acc = acc
back_to_front (o ∷ os) acc = back_to_front os (o ∷ acc)

unfoldable pub sort_candidate : Policy → ℕ → (ℕ → Item) → List ℕ → List ℕ
sort_candidate random_policy random ds offset = rotate degree (random % degree) offset
sort_candidate expire_policy random ds offset = back_to_front (sort_from ds [] offset) []
