-- ===== src/Bitset/Tests.antt =====
-- The theorems about bitsets at a bitset of two segments.
use pelikan.Common.{◌+◌, ◌*◌, ◌/◌, ◌^◌, ◌<◌, ◌≡◌, arith, [], ◌∷◌, ◌==◌, if◌then◌else◌}
use pelikan.Common.Memory.{load, le_value, slice}
use pelikan.Bitset.{Bitset, get, set}
use pelikan.Bitset.Access.{get-set_bit, columns_alias}

abbrev sample : Bitset
sample = record { size = 2; col_w = 1; count = 1; body = 4 ∷ 0 ∷ 0 ∷ 0 ∷ 0 ∷ 0 ∷ 0 ∷ 0 ∷ [] }

word : load 4 (4 * (35 / 32)) sample.body < 2 ^ 32
unfolding load le_value slice
word = omega arith

get-set_bit_example : get (set sample 35 1) 2 ≡ (if 2 == 35 then 1 else get sample 2)
get-set_bit_example =
    get-set_bit sample 35 2 1 (omega arith, omega arith) (omega arith) word (omega arith)

columns_alias_example :
    (get sample (2 + 256) ≡ get sample 2) × (set sample (2 + 256) 1 ≡ set sample 2 1)
columns_alias_example = columns_alias sample 2 1
