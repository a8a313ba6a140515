-- ===== src/Cuckoo/Steady.antt =====
-- storage/cuckoo/cuckoo.c: `cuckoo_reset`, and the table as time passes.
use mathlib.Core.Bool.{true≢false}
use pelikan.Common.{
  ℕ, zero, suc, ◌+◌, ◌-◌, ◌≤◌, ◌≡◌, refl, sym, ap, ◌∙◌, true, arith, length, replicate,
}
use pelikan.Common.Memory.{Bytes}
use pelikan.Common.Int.{pos, leb_ℤ}
use pelikan.Time.{Clock}
use pelikan.Cuckoo
use pelikan.Cuckoo.{Table}
use pelikan.Cuckoo.Chunk.{Config, Item, cas_len, item_valid, item_vlen, item_delete}
use pelikan.Cuckoo.Candidates.{Hash}
use pelikan.Cuckoo.Placed.{Placed, IsStarted, invalid-delete, valid_earlier}

-- A chunk has room for its header, the cas and a number.
abbrev pub HoldsNumber : Config → Type 0
HoldsNumber cfg = 6 + cas_len cfg + 8 ≤ cfg.item_size

abbrev zeros : ℕ → Bytes
zeros n = replicate n 0

length-zeros : (n : ℕ) → length (zeros n) ≡ n
length-zeros zero = refl
length-zeros (suc n) = ap suc (length-zeros n)

abbrev blank : Config → Item
blank cfg = record { expire = pos 0; klen = 0; vlen = 0; payload = zeros (cfg.item_size - 6) }

-- The empty table.
pub reset-Placed :
    (cfg : Config) (murmur3 : Hash) (c : Clock) (t : Table)
    → HoldsNumber cfg
    → IsStarted c
    → Placed cfg murmur3 c (Cuckoo.reset cfg t).ds
unfolding Cuckoo.reset item_vlen item_delete
reset-Placed cfg murmur3 c t h s = record {
  sized = λ o. omega (arith, length-zeros (cfg.item_size - 6), h);
  keyed = λ o. (omega (arith, length-zeros (cfg.item_size - 6), h), omega arith);
  placed = λ o v. absurd (true≢false (sym v ∙ invalid-delete c (blank cfg) s));
  unique = λ o p v w e. absurd (true≢false (sym v ∙ invalid-delete c (blank cfg) s));
}

-- What is valid later is valid now.
pub later-Placed :
    (cfg : Config) (murmur3 : Hash) (c d : Clock) (ds : ℕ → Item)
    → leb_ℤ c.proc_sec d.proc_sec ≡ true
    → Placed cfg murmur3 c ds
    → Placed cfg murmur3 d ds
later-Placed cfg murmur3 c d ds h inv = record {
  sized = inv.sized;
  keyed = inv.keyed;
  placed = λ o v. inv.placed o (valid_before (ds o) v);
  unique = λ o p v w e. inv.unique o p (valid_before (ds o) v) (valid_before (ds p) w) e;
}
  where
    valid_before : (it : Item) → item_valid d it ≡ true → item_valid c it ≡ true
    valid_before it v = valid_earlier c d it h v
