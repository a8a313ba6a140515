-- ===== src/Smap/RoundTrip.antt =====
-- Insertion into a sorted map, and the lookups after it.
use pelikan.Search.{should_scan}
use pelikan.Common.{
  ℕ, suc, ◌*◌, ◌^◌, ◌<◌, ◌≡◌, inl, inr, refl, ◌∙◌, ap, sym, true, false, Option, some, arith, List,
  [], ◌∷◌, ◌++◌, length, ◌==◌, ==_iff, ltb, Bool-cases, ◌||◌, if◌then◌else◌, ap₂,
}
use pelikan.Common.Words.{u32_mod, u64_mod}
use pelikan.Common.Memory.{Bytes}
use pelikan.Search.Sorted
use pelikan.Search.Sorted.{has_key, has_key-insert}
use pelikan.Smap.{Smap, Status, ok, esize, keyval, index, insert, entry_size}
use pelikan.Smap.Maps.{Entry, key, Maps}
use pelikan.Smap.Lookup.{lookup, KeysBelow, index-eq-lookup, IsComparable}
use pelikan.Smap.Update.{insert-Maps}

-- What an insertion does to the values of all keys.
pub lookup-insert :
    (j : ℕ) (x : Entry) (xs : List Entry)
    → has_key key x.key xs ≡ false
    → lookup j (Sorted.insert key x xs) ≡ (if x.key == j then some x.val else lookup j xs)
lookup-insert j x [] new = refl
lookup-insert j x (y ∷ ys) new = ground (arith, lookup-insert j x ys)

KeysBelow-insert :
    (b : ℕ) (x : Entry) (xs : List Entry)
    → x.key < b
    → KeysBelow b xs
    → KeysBelow b (Sorted.insert key x xs)
KeysBelow-insert b x [] h a = (h, tt)
KeysBelow-insert b x (y ∷ ys) h a = elim (Bool-cases (ltb y.key x.key)) [
  | inl lt ↦ rw lt (a.0, KeysBelow-insert b x ys h a.1)
  | inr ge ↦ rw ge (h, a)
]

answer_of :
    (k : ℕ) (v w : Bytes)
    → some v ≡ some w
    → ◌≡◌ {A = Status × Option (ℕ × Bytes)} (ok, some (k, v)) (ok, some (k, w))
answer_of k v w e = ground arith

-- After a new key that fits its width was inserted, with room for the entry and, where the keys have
-- 8 bytes and are searched by halving, all of them below 2^32, both before and after the insertion, `smap_index` finds it, and `smap_keyval` at the index that it gives returns the key and
-- the value.
pub keyval-index-insert :
    {sm : Smap} {xs : List Entry} {rest : Bytes}
    → Maps sm xs rest
    → (k : ℕ) (val gap behind : Bytes) → rest ≡ gap ++ behind
    → length gap ≡ esize sm
    → esize sm * suc (length xs) < 2 ^ 31
    → IsComparable sm xs
    → (should_scan (suc (length xs)) (esize sm) ≡ false
        → sm.ksize ≡ 8
        → (k < u32_mod) × KeysBelow u32_mod xs)
    → length val ≡ sm.vsize
    → k < 256 ^ sm.ksize
    → k < u64_mod
    → has_key key k xs ≡ false
    → (sm' : Smap) × (idx : ℕ) × (insert (some sm) k val ≡ (ok, some sm'))
      × (index (some sm') k ≡ (ok, some idx))
      × (keyval (some sm') idx ≡ (ok, some (k, val)))
keyval-index-insert {sm} {xs} {rest} h k val gap behind hr hg room before after hv r r64 new =
    let (sm', pad, done, h', hk, hvs) =
      insert-Maps h k val gap behind hr hg room before hv r r64 new in
    let x : Entry = record { key = k; val = val; pad = pad } in
    let same : (k == k) ≡ true = (==_iff k k).1 refl in
    let has : has_key key k (Sorted.insert key x xs) ≡ true =
      has_key-insert key k x xs ∙ ap (λ b. b || has_key key k xs) same in
    let same_size : esize sm' ≡ esize sm = ap₂ entry_size hk hvs in
    let count : suc (length xs) ≡ sm'.nentry = sym (h'.count ∙ Sorted.length-insert key x xs) in
    let halved : should_scan sm'.nentry (esize sm') ≡ false
        → should_scan (suc (length xs)) (esize sm) ≡ false =
      λ e. ap₂ should_scan count (sym same_size) ∙ e in
    let below : IsComparable sm' (Sorted.insert key x xs) = λ e w.
      KeysBelow-insert u32_mod x xs (after (halved e) (sym hk ∙ w)).0
        (after (halved e) (sym hk ∙ w)).1 in
    let (idx, found, value) = index-eq-lookup h' k below (rw hk r) r64 in
    let (v, held, read) = value has in
    let v_eq : some v ≡ some val =
      sym held ∙ lookup-insert k x xs new ∙ ap (λ b. if b then some val else lookup k xs) same in
    (sm', idx, done, found ∙ rw has, read ∙ answer_of k v val v_eq)
