-- ===== src/Cuckoo/Chunk.antt =====
-- storage/cuckoo/item.h: one chunk of the table. `payload` is the payload behind the six bytes of the
-- header: the cas where it is enabled, the key, the value.
use pelikan.Common.{ℕ, ◌+◌, ◌%◌, Bool, true, false, not, ◌==◌, if◌then◌else◌, length}
use pelikan.Common.Words.{u64_mod}
use pelikan.Common.Memory.{Bytes, slice, splice, load, store, bytes_eq}
use pelikan.Common.Int.{ℤ, pos, leb_ℤ, ltb_ℤ}
use pelikan.Time
use pelikan.Time.{Clock}

pub data Policy : Type 0 where
  random_policy expire_policy : Policy

-- The options that `cuckoo_setup` reads.
pub record Config : Type 0 where
  pub item_size : ℕ
  pub max_nitem : ℕ
  pub policy : Policy
  pub cas_enabled : Bool
  pub max_ttl : ℤ

pub data Val : Type 0 where
  vint : ℕ → Val
  vstr : Bytes → Val

pub record Item : Type 0 where
  pub expire : ℤ
  pub klen : ℕ
  pub vlen : ℕ
  pub payload : Bytes

unfoldable pub cas_len : Config → ℕ
cas_len cfg = if cfg.cas_enabled then 8 else 0

unfoldable pub item_overhead : Config → ℕ
item_overhead cfg = 6 + cas_len cfg

unfoldable pub val_pos : Config → Item → ℕ
val_pos cfg it = cas_len cfg + it.klen

unfoldable pub item_key : Config → Item → Bytes
item_key cfg it = slice (cas_len cfg) it.klen it.payload

unfoldable pub item_matched : Config → Item → Bytes → Bool
item_matched cfg it key =
    if not (length key == it.klen)
    then false
    else bytes_eq (slice (cas_len cfg) (length key) it.payload) key

unfoldable pub item_valid : Clock → Item → Bool
item_valid c it = leb_ℤ c.proc_sec it.expire

unfoldable pub item_cas : Config → Item → ℕ
item_cas cfg it = if cfg.cas_enabled then load 8 0 it.payload else 1

unfoldable pub item_cas_valid : Config → Item → ℕ → Bool
item_cas_valid cfg it cas =
    if not cfg.cas_enabled then true else if item_cas cfg it == cas then true else false

unfoldable pub item_vlen : Item → ℕ
item_vlen it = if it.vlen == 0 then 8 else it.vlen

-- The empty length marks an integer.
unfoldable pub is_int : Item → Bool
is_int it = it.vlen == 0

unfoldable pub item_value_int : Config → Item → ℕ
item_value_int cfg it = load 8 (val_pos cfg it) it.payload

unfoldable pub item_val : Config → Item → Val
item_val cfg it =
    if is_int it
    then vint (item_value_int cfg it)
    else vstr (slice (val_pos cfg it) (item_vlen it) it.payload)

unfoldable pub next_cas : Config → ℕ → ℕ
next_cas cfg cas_val = if cfg.cas_enabled then (cas_val + 1) % u64_mod else cas_val

unfoldable pub stamp : Config → ℕ → Bytes → Bytes
stamp cfg cas_val payload =
    if cfg.cas_enabled then store 8 0 (next_cas cfg cas_val) payload else payload

-- The item, with the global `cas_val` that it is stamped with and leaves.
unfoldable pub item_value_update : Config → ℕ → Item → Val → ℕ × Item
item_value_update cfg cas_val it (vint n) = (
  next_cas cfg cas_val,
  record it { vlen = 0; payload = store 8 (val_pos cfg it) n (stamp cfg cas_val it.payload) },
)
item_value_update cfg cas_val it (vstr s) = (
  next_cas cfg cas_val,
  record it {
    vlen = length s % 256;
    payload = splice (val_pos cfg it) s (stamp cfg cas_val it.payload);
  },
)

unfoldable pub capped : Config → Clock → ℤ → ℤ
capped cfg c expire =
    let cap = Time.delta2proc_sec c cfg.max_ttl in if ltb_ℤ expire cap then expire else cap

unfoldable pub item_update : Config → Clock → ℕ → Item → Val → ℤ → ℕ × Item
item_update cfg c cas_val it val expire =
    item_value_update cfg cas_val (record it { expire = capped cfg c expire }) val

unfoldable pub item_set : Config → Clock → ℕ → Item → Bytes → Val → ℤ → ℕ × Item
item_set cfg c cas_val it key val expire =
    item_update cfg c cas_val
      (record it { klen = length key % 256; payload = splice (cas_len cfg) key it.payload }) val
      expire

unfoldable pub item_delete : Item → Item
item_delete it = record it { expire = pos 0 }
