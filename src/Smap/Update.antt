-- ===== src/Smap/Update.antt =====
-- `smap_insert` and the list of entries that the map holds.
use pelikan.Common.{
  ℕ, suc, ◌+◌, ◌-◌, ◌*◌, ◌^◌, ◌≤◌, ◌<◌, ◌≡◌, inl, inr, refl, sym, ap, ◌∙◌, Bool, true, false, some,
  arith, List, [], ◌∷◌, ◌++◌, append_assoc, length, take, drop, ◌==◌, ltb, Bool-cases, ==_iff,
  lt→ltb, length-drop,
}
use pelikan.Common.Words.{
  IsWidth, u64_mod, add32, sub32, mul32, add32_exact, sub32_exact, mul32_exact,
}
use pelikan.Common.Memory.{Bytes, splice, store, memmove, le_bytes, length-le_bytes}
use pelikan.Common.Splice.{splice_two}
use pelikan.Search.Layout.{body_of, length-body_of-take}
use pelikan.Search.Shift.{open_gap, fill_gap}
use pelikan.Search.Sorted
use pelikan.Search.Sorted.{IsSorted, key_at, has_key, insert_at, remove_at}
use pelikan.Search.Position.{IsPosition}
use pelikan.Smap.{
  Smap, ok, edup, esize, entry_size, locate, validate_range, set_key, position, insert,
}
use pelikan.Smap.Maps.{
  Entry, key, encode, AllShaped, Maps, entry_size_bounds, esize_pos, sized, position_lem,
}
use pelikan.Smap.Lookup.{IsComparable, validate_range_lem, locate_lem, found_lem}

set_key_lem :
    (p k v : ℕ) (body : Bytes) → IsWidth k → set_key p k v body ≡ splice p (le_bytes k v) body
unfolding set_key store
set_key_lem p k v body (inl w) = rw w
set_key_lem p k v body (inr (inl w)) = rw w
set_key_lem p k v body (inr (inr (inl w))) = rw w
set_key_lem p k v body (inr (inr (inr w))) = rw w

AllShaped-insert :
    (k v : ℕ) (x : Entry) (xs : List Entry)
    → x.key < 256 ^ k
    → length x.val ≡ v
    → k + v + length x.pad ≡ entry_size k v
    → AllShaped k v xs
    → AllShaped k v (Sorted.insert key x xs)
AllShaped-insert k v x [] h1 h2 h3 a = (h1, h2, h3, tt)
AllShaped-insert k v x (y ∷ ys) h1 h2 h3 a = elim (Bool-cases (ltb y.key x.key)) [
  | inl lt ↦ rw lt (a.0, a.1, a.2, AllShaped-insert k v x ys h1 h2 h3 a.3)
  | inr ge ↦ rw ge (h1, h2, h3, a)
]

pub AllShaped-remove :
    (k v j : ℕ) (xs : List Entry) → AllShaped k v xs → AllShaped k v (Sorted.remove key j xs)
AllShaped-remove k v j [] a = tt
AllShaped-remove k v j (x ∷ xs) a = elim (Bool-cases (x.key == j)) [
  | inl e ↦ rw e a.3
  | inr ne ↦ rw ne (a.0, a.1, a.2, AllShaped-remove k v j xs a.3)
]

module _ {sm : Smap} {xs : List Entry} {rest : Bytes} (h : Maps sm xs rest) where
  pub in_range : (k : ℕ) → k < 256 ^ sm.ksize → k < u64_mod → validate_range sm.ksize k ≡ true
  in_range k r r64 = validate_range_lem sm.ksize k h.width r64 ∙ lt→ltb k (256 ^ sm.ksize) r

  pub count_small : length xs < 2 ^ 31
  count_small = grind (arith, h.fits, esize_pos h)

  -- The bytes from position `i` on move by the size of what stands there.
  pub moved_size :
      (i : ℕ) → i ≤ length xs → mul32 (esize sm) (sub32 sm.nentry i) ≡ esize sm * (length xs - i)
  moved_size i le =
      rw (h.count, sub32_exact (length xs) i le (omega (arith, count_small)))
        (mul32_exact (esize sm) (length xs - i) (grind (arith, h.fits)))

  insert_bytes :
      (k i : ℕ) (val gap behind : Bytes)
      → rest ≡ gap ++ behind
      → length gap ≡ esize sm
      → length val ≡ sm.vsize
      → i ≤ length xs
      → (pad : Bytes) × (sm.ksize + sm.vsize + length pad ≡ esize sm)
        × (splice (position (esize sm) i + sm.ksize) val (
              set_key (position (esize sm) i) sm.ksize k (
                memmove
                  (position (esize sm) i + esize sm)
                  (position (esize sm) i)
                  (mul32 (esize sm) (sub32 sm.nentry i))
                  sm.body))
            ≡ body_of
                (encode sm.ksize)
                (take i xs ++ (record { key = k; val = val; pad = pad } ∷ drop i xs))
              ++ behind)
  insert_bytes k i val gap behind hr hg hv le =
      let e = esize sm in
      let (place, lp, moved) = open_gap (encode sm.ksize) e xs (sized h) i gap behind le hg in
      let pad = drop sm.vsize (drop sm.ksize place) in
      let x : Entry = record { key = k; val = val; pad = pad } in
      let bounds = entry_size_bounds sm.ksize sm.vsize h.width in
      (
        pad,
        omega (
          arith,
          bounds.0,
          lp,
          length-drop sm.vsize (drop sm.ksize place),
          length-drop sm.ksize place,
        ),
        rw
            (
              position_lem h i le,
              moved_size i le,
              set_key_lem _ sm.ksize k _ h.width,
              h.entries,
              hr,
              moved,
            )
            (splice_two (body_of (encode sm.ksize) (take i xs)) place _ (le_bytes sm.ksize k) val
                (e * i) sm.ksize sm.vsize
                (length-body_of-take (encode sm.ksize) e i xs (sized h) le)
                (length-le_bytes sm.ksize k) hv (omega (arith, bounds.0, lp))
              ∙ ap (λ t. body_of (encode sm.ksize) (take i xs) ++ t) (regroup x)
              ∙ fill_gap (encode sm.ksize) e xs (sized h) i x behind),
      )
    where
      regroup :
          (x : Entry)
          → le_bytes sm.ksize x.key
              ++ (x.val ++ (x.pad ++ (body_of (encode sm.ksize) (drop i xs) ++ behind)))
            ≡ encode sm.ksize x ++ (body_of (encode sm.ksize) (drop i xs) ++ behind)
      regroup x =
          ap (λ t. le_bytes sm.ksize x.key ++ t) (sym (append_assoc x.val x.pad _))
          ∙ sym (append_assoc (le_bytes sm.ksize x.key) (x.val ++ x.pad) _)

  pub at-IsPosition :
      (k : ℕ) (b : Bool)
      → IsComparable sm xs
      → has_key key k xs ≡ b
      → IsPosition (key_at key xs) (length xs) k (b, (locate sm k).1)
  at-IsPosition k b c e =
      let p : IsPosition (key_at key xs) (length xs) k ((locate sm k).0, (locate sm k).1) =
        locate_lem h k c in
      rw (sym (found_lem h k c) ∙ e) at p

  -- `smap_insert` of a key that fits the width and that the map does not have puts it with its
  -- value in its place in the order, where the bytes of a free entry follow the map and the keys
  -- are comparable; the bytes behind the free entry stay.
  pub insert-Maps :
      (k : ℕ) (val gap behind : Bytes)
      → rest ≡ gap ++ behind
      → length gap ≡ esize sm
      → esize sm * suc (length xs) < 2 ^ 31
      → IsComparable sm xs
      → length val ≡ sm.vsize
      → k < 256 ^ sm.ksize
      → k < u64_mod
      → has_key key k xs ≡ false
      → (sm' : Smap) × (pad : Bytes) × (insert (some sm) k val ≡ (ok, some sm'))
        × Maps sm' (Sorted.insert key (record { key = k; val = val; pad = pad }) xs) behind
        × (sm'.ksize ≡ sm.ksize)
        × (sm'.vsize ≡ sm.vsize)
  unfolding insert
  insert-Maps k val gap behind hr hg room c hv r r64 new = (
    record sm {
      nentry = add32 sm.nentry 1;
      body = splice (position (esize sm) i + sm.ksize) val (
          set_key (position (esize sm) i) sm.ksize k (
            memmove (position (esize sm) i + esize sm) (position (esize sm) i)
              (mul32 (esize sm) (sub32 sm.nentry i)) sm.body));
    },
    bytes.0,
    rw (in_range k r r64, (==_iff (length val) sm.vsize).1 hv, sym (found_lem h k c) ∙ new),
    record {
      entries =
          bytes.2 ∙ ap (λ ys. body_of (encode sm.ksize) ys ++ behind) (insert_at key x xs i at);
      count =
          rw (h.count, add32_exact (length xs) 1 (omega (arith, count_small)), Sorted.length-insert)
            (omega arith);
      width = h.width;
      sorted = Sorted.insert-IsSorted key x xs h.sorted new;
      shaped = AllShaped-insert sm.ksize sm.vsize x xs r hv bytes.1 h.shaped;
      fits = rw Sorted.length-insert room;
    },
    refl,
    refl,
  )
    where
      i : ℕ
      i = (locate sm k).1

      at : IsPosition (key_at key xs) (length xs) k (false, i)
      at = at-IsPosition k false c new

      bytes :
          (pad : Bytes) × (sm.ksize + sm.vsize + length pad ≡ esize sm)
          × (splice (position (esize sm) i + sm.ksize) val (
                set_key (position (esize sm) i) sm.ksize k (
                  memmove
                    (position (esize sm) i + esize sm)
                    (position (esize sm) i)
                    (mul32 (esize sm) (sub32 sm.nentry i))
                    sm.body))
              ≡ body_of
                  (encode sm.ksize)
                  (take i xs ++ (record { key = k; val = val; pad = pad } ∷ drop i xs))
                ++ behind)
      bytes = insert_bytes k i val gap behind hr hg hv at.in_range

      x : Entry
      x = record { key = k; val = val; pad = bytes.0 }

  -- `smap_insert` of a key that the map has and that fits the width, with a value of the size of
  -- the map and comparable keys, answers EDUP and changes nothing.
  pub insert_known :
      (k : ℕ) (val : Bytes)
      → IsComparable sm xs
      → length val ≡ sm.vsize
      → k < 256 ^ sm.ksize
      → k < u64_mod
      → has_key key k xs ≡ true
      → insert (some sm) k val ≡ (edup, some sm)
  unfolding insert
  insert_known k val c hv r r64 has =
      rw (in_range k r r64, (==_iff (length val) sm.vsize).1 hv, sym (found_lem h k c) ∙ has)
