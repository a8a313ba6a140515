-- ===== src/Cuckoo/Keys.antt =====
-- storage/cuckoo/item.h: the key of an item, and the item that `item_set` and `item_update` leave.
use pelikan.Common.{
  ℕ, ◌+◌, ◌%◌, ◌≤◌, ◌<◌, ◌≡◌, refl, sym, ap, subst, ◌∙◌, inl, inr, Bool, true, false, ◌&&◌,
  Bool-cases, ==_eq, ==_iff, ◌==◌, if◌then◌else◌, arith, length, length-take, length-drop, take,
  drop,
}
use pelikan.Common.Memory.{Bytes, slice, splice, length-splice, bytes_eq_sound, bytes_eq-same}
use pelikan.Common.Int.{ℤ}
use pelikan.Common.Splice.{slice-splice}
use pelikan.Time.{Clock}
use pelikan.Cuckoo.{vlen, hit}
use pelikan.Cuckoo.Chunk.{
  Config, Item, Val, cas_len, val_pos, item_key, item_matched, item_cas, item_valid, item_val,
  item_vlen, next_cas, item_value_update, item_update, item_set, capped,
}
use pelikan.Cuckoo.Written.{
  IsStorable, updated, klen_update, expire_update, length-update, slice-update, item_val-update,
  item_cas-update, item_vlen-update,
}

&&-left : (a b : Bool) → (a && b) ≡ true → a ≡ true
&&-left true b h = refl
&&-left false b h = h

&&-right : (a b : Bool) → (a && b) ≡ true → b ≡ true
&&-right true b h = h
&&-right false b h = absurd (ground (arith, h))

-- The key and the value lie inside of the payload, and the length of the key is a byte.
abbrev pub Keyed : Config → Item → Type 0
Keyed cfg it = (cas_len cfg + it.klen + item_vlen it ≤ length it.payload) × (it.klen < 256)

module _ (cfg : Config) (c : Clock) (it : Item) (key : Bytes) where
  pub matched_key : item_matched cfg it key ≡ true → item_key cfg it ≡ key
  unfolding item_matched item_key
  matched_key h = elim (Bool-cases (length key == it.klen)) [
    | inl e ↦
        ap (λ n. slice (cas_len cfg) n it.payload) (sym ((==_iff _ _).0 e))
        ∙ bytes_eq_sound _ _ (rw e at h)
    | inr e ↦ absurd (ground (arith, rw e at h))
  ]

  pub key_matched : Keyed cfg it → item_key cfg it ≡ key → item_matched cfg it key ≡ true
  unfolding item_matched item_key slice
  key_matched k h =
      let long : length key ≡ it.klen =
        sym (ap length h)
        ∙ length-take it.klen _ (omega (arith, length-drop (cas_len cfg) it.payload, k.0)) in
      let same : take (length key) (drop (cas_len cfg) it.payload) ≡ key =
        ap (λ n. take n (drop (cas_len cfg) it.payload)) long ∙ h in
      rw (==_eq _ _ long, same) (bytes_eq-same key)

  -- The length byte of a stored key is the length of the key.
  pub klen_of_key : Keyed cfg it → item_key cfg it ≡ key → it.klen ≡ length key
  unfolding item_key slice
  klen_of_key k h =
      sym (length-take it.klen _ (omega (arith, length-drop (cas_len cfg) it.payload, k.0)))
      ∙ ap length h

  pub hit_valid : hit cfg c it key ≡ true → item_valid c it ≡ true
  unfolding hit
  hit_valid = &&-left _ _

  pub hit_key : hit cfg c it key ≡ true → item_key cfg it ≡ key
  unfolding hit
  hit_key h = matched_key (&&-right (item_valid c it) _ h)

  pub key_hit :
      Keyed cfg it → item_valid c it ≡ true → item_key cfg it ≡ key → hit cfg c it key ≡ true
  unfolding hit
  key_hit k v e = rw (v, key_matched k e)

-- The value is written and the key stays.
module _ (cfg : Config) (cas : ℕ) (it : Item) (val : Val)
    (room : val_pos cfg it + vlen val ≤ length it.payload) where
  pub key_updated : item_key cfg (updated cfg cas it val) ≡ item_key cfg it
  unfolding item_key
  key_updated =
      ap (λ n. slice (cas_len cfg) n (updated cfg cas it val).payload) (klen_update cfg cas it val)
      ∙ slice-update cfg cas it val room

  pub updated-Keyed :
      item_vlen (updated cfg cas it val) ≡ vlen val
      → it.klen < 256
      → Keyed cfg (updated cfg cas it val)
  unfolding val_pos
  updated-Keyed s h = (
    omega (arith, klen_update cfg cas it val, length-update cfg cas it val room, s, room),
    omega (arith, klen_update cfg cas it val, h),
  )

-- A chunk with its key and its time of expiry, before its value is written.
abbrev labelled : Config → Clock → Item → Bytes → ℤ → Item
labelled cfg c it key expire = record it {
  expire = capped cfg c expire;
  klen = length key % 256;
  payload = splice (cas_len cfg) key it.payload;
}

module _ (cfg : Config) (c : Clock) (cas : ℕ) (old : Item) (key : Bytes) (val : Val)
    (expire : ℤ) where
  abbrev pub fresh : Item
  fresh = (item_set cfg c cas old key val expire).1

  set_lem :
      item_set cfg c cas old key val expire
      ≡ item_value_update cfg cas (labelled cfg c old key expire) val
  unfolding item_set item_update
  set_lem = refl

  pub expire_set : fresh.expire ≡ capped cfg c expire
  expire_set =
      ap (λ r. r.1.expire) set_lem ∙ expire_update cfg cas (labelled cfg c old key expire) val

  module _ (short : length key < 256)
      (room : cas_len cfg + length key + vlen val ≤ length old.payload) where
    room_set :
        val_pos cfg (labelled cfg c old key expire) + vlen val
        ≤ length (labelled cfg c old key expire).payload
    unfolding val_pos
    room_set =
        omega
          (arith, room, short, length-splice (cas_len cfg) key old.payload (omega (arith, room)))

    pub length-set : length fresh.payload ≡ length old.payload
    length-set =
        ap (λ r. length r.1.payload) set_lem
        ∙ length-update cfg cas _ val room_set
        ∙ length-splice (cas_len cfg) key old.payload (omega (arith, room))

    key_labelled : item_key cfg (labelled cfg c old key expire) ≡ key
    unfolding item_key
    key_labelled =
        slice-splice (cas_len cfg) _ key old.payload (omega (arith, room)) (omega (arith, short))

    pub key_set : item_key cfg fresh ≡ key
    key_set = ap (λ r. item_key cfg r.1) set_lem ∙ key_updated cfg cas _ val room_set ∙ key_labelled

    pub set-Keyed : IsStorable val → Keyed cfg fresh
    set-Keyed s =
        subst (λ r. Keyed cfg r.1) (sym set_lem)
          (updated-Keyed cfg cas _ val room_set (item_vlen-update cfg cas _ val s) (omega arith))

    pub item_val-set : IsStorable val → item_val cfg fresh ≡ val
    item_val-set h = ap (λ r. item_val cfg r.1) set_lem ∙ item_val-update cfg cas _ val room_set h

    pub item_cas-set : item_cas cfg fresh ≡ (if cfg.cas_enabled then next_cas cfg cas else 1)
    item_cas-set = ap (λ r. item_cas cfg r.1) set_lem ∙ item_cas-update cfg cas _ val room_set
