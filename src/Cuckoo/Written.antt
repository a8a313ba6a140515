-- ===== src/Cuckoo/Written.antt =====
-- storage/cuckoo/item.h: what the writes of an item leave in its bytes.
use pelikan.Common.{
  ℕ, ◌+◌, ◌%◌, ◌^◌, ◌≤◌, ◌<◌, ◌≡◌, ◌≢◌, refl, sym, ap, ◌∙◌, inl, inr, Bool, true, false, Bool-cases,
  ==_eq, ==_gt, ◌==◌, if◌then◌else◌, arith, length,
}
use mathlib.Core.Bool.{true≢false}
use pelikan.Common.Memory.{
  Bytes, slice, splice, load, store, le_bytes, le_value, length-le_bytes, le_value-le_bytes,
  length-splice,
}
use pelikan.Common.Splice.{slice-splice, slice-splice_before, slice-splice_behind}
use pelikan.Cuckoo.{vlen}
use pelikan.Cuckoo.Chunk.{
  Config, Item, Val, vint, vstr, cas_len, val_pos, item_cas, item_vlen, is_int, item_value_int,
  item_val, next_cas, stamp, item_value_update,
}

-- A value whose length the one byte of the header can hold.
abbrev pub IsStorable : Val → Type 0
IsStorable (vint n) = n < 256 ^ 8
IsStorable (vstr s) = (1 ≤ length s) × (length s < 256)

abbrev pub encoded : Val → Bytes
encoded (vint n) = le_bytes 8 n
encoded (vstr s) = s

length-encoded : (val : Val) → length (encoded val) ≡ vlen val
unfolding vlen
length-encoded (vint n) = length-le_bytes 8 n
length-encoded (vstr s) = refl

module _ (cfg : Config) where
  payload_lem :
      (cas : ℕ) (it : Item) (val : Val)
      → (item_value_update cfg cas it val).1.payload
        ≡ splice (val_pos cfg it) (encoded val) (stamp cfg cas it.payload)
  unfolding item_value_update store
  payload_lem cas it (vint n) = refl
  payload_lem cas it (vstr s) = refl

  cas_len-enabled : cfg.cas_enabled ≡ true → cas_len cfg ≡ 8
  unfolding cas_len
  cas_len-enabled e = rw e

  module _ (cas : ℕ) (m : Bytes) where
    abbrev stamped : Bytes
    stamped = splice 0 (le_bytes 8 (next_cas cfg cas)) m

    stamp-enabled : cfg.cas_enabled ≡ true → stamp cfg cas m ≡ stamped
    unfolding stamp store
    stamp-enabled e = ap (λ b. if b then stamped else m) e

    stamp-disabled : cfg.cas_enabled ≡ false → stamp cfg cas m ≡ m
    unfolding stamp store
    stamp-disabled e = ap (λ b. if b then stamped else m) e

    length-stamp : cas_len cfg ≤ length m → length (stamp cfg cas m) ≡ length m
    length-stamp h = elim (Bool-cases cfg.cas_enabled) [
      | inl e ↦
          ap length (stamp-enabled e)
          ∙ length-splice 0 (le_bytes 8 (next_cas cfg cas)) m
              (omega (arith, h, cas_len-enabled e, length-le_bytes 8 (next_cas cfg cas)))
      | inr e ↦ ap length (stamp-disabled e)
    ]

    slice-stamp :
        (n : ℕ)
        → cas_len cfg ≤ length m
        → slice (cas_len cfg) n (stamp cfg cas m) ≡ slice (cas_len cfg) n m
    slice-stamp n h = elim (Bool-cases cfg.cas_enabled) [
      | inl e ↦
          ap (slice (cas_len cfg) n) (stamp-enabled e)
          ∙ slice-splice_behind (cas_len cfg) n 0 (le_bytes 8 (next_cas cfg cas)) m
              (omega (arith, cas_len-enabled e, length-le_bytes 8 (next_cas cfg cas)))
              (omega (arith, h, cas_len-enabled e, length-le_bytes 8 (next_cas cfg cas)))
      | inr e ↦ ap (slice (cas_len cfg) n) (stamp-disabled e)
    ]

    next_cas_bound : cfg.cas_enabled ≡ true → next_cas cfg cas < 256 ^ 8
    unfolding next_cas
    next_cas_bound e = rw e (omega arith)

pub klen_update :
    (cfg : Config) (cas : ℕ) (it : Item) (val : Val)
    → (item_value_update cfg cas it val).1.klen ≡ it.klen
unfolding item_value_update
klen_update cfg cas it (vint n) = refl
klen_update cfg cas it (vstr s) = refl

pub expire_update :
    (cfg : Config) (cas : ℕ) (it : Item) (val : Val)
    → (item_value_update cfg cas it val).1.expire ≡ it.expire
unfolding item_value_update
expire_update cfg cas it (vint n) = refl
expire_update cfg cas it (vstr s) = refl

pub cas_update :
    (cfg : Config) (cas : ℕ) (it : Item) (val : Val)
    → (item_value_update cfg cas it val).0 ≡ next_cas cfg cas
unfolding item_value_update
cas_update cfg cas it (vint n) = refl
cas_update cfg cas it (vstr s) = refl

item_val_str :
    (cfg : Config) (it : Item)
    → 1 ≤ it.vlen
    → item_val cfg it ≡ vstr (slice (val_pos cfg it) it.vlen it.payload)
unfolding item_val item_vlen is_int item_value_int
item_val_str cfg it h =
    let e : (it.vlen == 0) ≡ false = ==_gt it.vlen 0 h in
    ap
      (λ b.
        if b
        then vint (load 8 (val_pos cfg it) it.payload)
        else vstr (slice (val_pos cfg it) (if b then 8 else it.vlen) it.payload))
      e

-- The write of a value, with the room for it.
module _ (cfg : Config) (cas : ℕ) (it : Item) (val : Val) where
  abbrev pub updated : Item
  updated = (item_value_update cfg cas it val).1

  module _ (room : val_pos cfg it + vlen val ≤ length it.payload) where
    abbrev before : Bytes
    before = stamp cfg cas it.payload

    short : cas_len cfg ≤ length it.payload
    unfolding val_pos
    short = omega (arith, room)

    below : val_pos cfg it + length (encoded val) ≤ length before
    below = omega (arith, room, length-encoded val, length-stamp cfg cas it.payload short)

    pub length-update : length updated.payload ≡ length it.payload
    length-update =
        ap length (payload_lem cfg cas it val)
        ∙ length-splice _ (encoded val) before below
        ∙ length-stamp cfg cas it.payload short

    pub slice-update :
        slice (cas_len cfg) it.klen updated.payload ≡ slice (cas_len cfg) it.klen it.payload
    unfolding val_pos
    slice-update =
        ap (slice (cas_len cfg) it.klen) (payload_lem cfg cas it val)
        ∙ slice-splice_before (cas_len cfg) it.klen (val_pos cfg it) (encoded val) before
            (omega arith) (omega (arith, below))
        ∙ slice-stamp cfg cas it.payload it.klen short

    at_val : slice (val_pos cfg it) (vlen val) updated.payload ≡ encoded val
    at_val =
        ap (slice (val_pos cfg it) (vlen val)) (payload_lem cfg cas it val)
        ∙ slice-splice (val_pos cfg it) (vlen val) (encoded val) before (omega (arith, below))
            (length-encoded val)

    at_cas : cfg.cas_enabled ≡ true → slice 0 8 updated.payload ≡ le_bytes 8 (next_cas cfg cas)
    unfolding val_pos
    at_cas e =
        ap (slice 0 8) (payload_lem cfg cas it val)
        ∙ slice-splice_before 0 8 (val_pos cfg it) (encoded val) before
            (omega (arith, cas_len-enabled cfg e)) (omega (arith, below))
        ∙ ap (slice 0 8) (stamp-enabled cfg cas it.payload e)
        ∙ slice-splice 0 8 _ it.payload (omega arith) (length-le_bytes 8 (next_cas cfg cas))

    pub item_cas-update : item_cas cfg updated ≡ (if cfg.cas_enabled then next_cas cfg cas else 1)
    unfolding item_cas load
    item_cas-update = elim (Bool-cases cfg.cas_enabled) [
      | inl e ↦
          ap (λ b. if b then le_value (slice 0 8 updated.payload) else 1) e
          ∙ ap le_value (at_cas e)
          ∙ le_value-le_bytes 8 (next_cas cfg cas) (next_cas_bound cfg cas it.payload e)
          ∙ sym (ap (λ b. if b then next_cas cfg cas else 1) e)
      | inr e ↦
          ap (λ b. if b then le_value (slice 0 8 updated.payload) else 1) e
          ∙ sym (ap (λ b. if b then next_cas cfg cas else 1) e)
    ]

-- The length of a stored value is read back.
pub item_vlen-update :
    (cfg : Config) (cas : ℕ) (it : Item) (val : Val)
    → IsStorable val
    → item_vlen (item_value_update cfg cas it val).1 ≡ vlen val
unfolding item_value_update item_vlen vlen
item_vlen-update cfg cas it (vint n) h = refl
item_vlen-update cfg cas it (vstr s) h =
    rw (==_gt (length s % 256) 0 (omega (arith, h))) (omega (arith, h))

-- A stored value is read back, its kind with it.
pub item_val-update :
    (cfg : Config) (cas : ℕ) (it : Item) (val : Val)
    → val_pos cfg it + vlen val ≤ length it.payload
    → IsStorable val
    → item_val cfg (updated cfg cas it val) ≡ val
unfolding item_value_update item_val is_int item_value_int item_vlen load val_pos vlen
item_val-update cfg cas it (vint n) room h =
    ap (λ m. vint (le_value m)) (at_val cfg cas it (vint n) room)
    ∙ ap vint (le_value-le_bytes 8 n h)
item_val-update cfg cas it (vstr s) room h =
    item_val_str cfg (updated cfg cas it (vstr s)) (omega (arith, h))
    ∙ ap (λ n. vstr (slice (cas_len cfg + it.klen) n (updated cfg cas it (vstr s)).payload)) small
    ∙ ap vstr (at_val cfg cas it (vstr s) room)
  where
    small : length s % 256 ≡ length s
    small = omega (arith, h)

is_text : Val → Bool
is_text (vint n) = false
is_text (vstr s) = true

-- A text whose length is a multiple of 256, as that of the empty one, is not read back: its length
-- byte is 0, which marks a number, so that a number is read from the eight bytes at its place.
pub item_val-misread :
    (cfg : Config) (cas : ℕ) (it : Item) (s : Bytes)
    → length s % 256 ≡ 0
    → (item_val cfg (updated cfg cas it (vstr s))
        ≡ vint (item_value_int cfg (updated cfg cas it (vstr s))))
      × (item_val cfg (updated cfg cas it (vstr s)) ≢ vstr s)
unfolding item_val is_int item_value_update is_text
item_val-misread cfg cas it s h = (number, λ e. true≢false (sym (ap is_text (sym number ∙ e))))
  where
    number :
        item_val cfg (updated cfg cas it (vstr s))
        ≡ vint (item_value_int cfg (updated cfg cas it (vstr s)))
    number = rw (==_eq (length s % 256) 0 h) refl
