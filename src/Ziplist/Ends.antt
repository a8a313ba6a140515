-- ===== src/Ziplist/Ends.antt =====
-- `ziplist_pop`.
use pelikan.Common.{
  ℕ, suc, ◌+◌, ◌-◌, ◌≡◌, refl, ap, ap₂, ◌∙◌, some, arith, List, [], ◌∷◌, ◌++◌, append_assoc,
  append-nil, length, length-append, get_or, get_or-append, ==_gt,
}
use pelikan.Common.Words.{sub32, sub32_exact}
use pelikan.Common.Memory.{Bytes, byte}
use pelikan.Search.Layout.{body_of, body_of-append}
use pelikan.Blob.{Blob, invalid}
use pelikan.Ziplist.{
  Ziplist, ok, nentry, nend, set_nentry, set_nend, zipentry_get, encode_size, fromright,
}
use pelikan.Ziplist.Edit.{pop}
use pelikan.Ziplist.Codec.{IsEntry, entry_bytes, length-entry_bytes}
use pelikan.Ziplist.Lists.{
  AllEntries, header, span, offset, Lists, nend-header, set_nentry-header, set_nend-header,
  length-le-span, nentry_lem, nend_lem, offset_all, zipentry_get-at, byte-before,
}
use pelikan.Ziplist.Locate.{fromright_lem}
use pelikan.Ziplist.Grow.{span-append}

AllEntries-init : (xs ys : List Blob) → AllEntries (xs ++ ys) → AllEntries xs
AllEntries-init [] ys h = tt
AllEntries-init (x ∷ xs) ys h = (h.0, AllEntries-init xs ys h.1)

AllEntries-end : (xs : List Blob) (x : Blob) → AllEntries (xs ++ (x ∷ [])) → IsEntry x
AllEntries-end [] x h = h.0
AllEntries-end (y ∷ xs) x h = AllEntries-end xs x h.1

-- The list that `ziplist_pop` leaves.
abbrev left_by_pop : Ziplist → Ziplist
left_by_pop zl =
    let fewer = set_nentry (sub32 (nentry zl) 1) zl in
    set_nend (sub32 (nend fewer) (byte (nend zl) zl)) fewer

module _ {zl : Ziplist} {rest : Bytes} (ys : List Blob) (x : Blob)
    (h : Lists zl (ys ++ (x ∷ [])) rest) where
  count : length (ys ++ (x ∷ [])) ≡ suc (length ys)
  count = omega (arith, length-append ys (x ∷ []))

  at_end : get_or (ys ++ (x ∷ [])) (length ys) invalid ≡ x
  at_end = get_or-append (length ys) ys x invalid refl

  last_entry : zipentry_get zl (some (fromright zl 0)) ≡ (ok, x)
  last_entry = rw (
    ap {A = ℕ} (fromright zl) (zero_left (length ys) _ count),
    fromright_lem h (length ys) (omega (arith, count)),
    zipentry_get-at h (length ys) (omega (arith, count)),
    at_end,
  )
    where
      zero_left : (k m : ℕ) → m ≡ suc k → 0 ≡ m - 1 - k
      zero_left k m e = omega arith

  is_entry : IsEntry x
  is_entry = AllEntries-end ys x h.valid

  whole : span (ys ++ (x ∷ [])) ≡ span ys + encode_size x
  whole = omega (
    arith,
    span-append ys (x ∷ []),
    length-append (entry_bytes x) [],
    length-entry_bytes x is_entry,
  )

  last_size : byte (nend zl) zl ≡ encode_size x
  last_size =
      byte-before h (length ys) (nend zl) (omega (arith, count)) (omega (arith, ending))
      ∙ ap encode_size at_end
    where
      ending : suc (nend zl) ≡ offset (ys ++ (x ∷ [])) (suc (length ys))
      ending =
          let e = ap (offset (ys ++ (x ∷ []))) count in
          omega (arith, nend_lem h, offset_all (ys ++ (x ∷ [])), e)

  left : Lists (left_by_pop zl) ys (entry_bytes x ++ rest)
  left = record {
    memory =
        rw
          (
            last_size,
            nentry_lem h,
            h.memory,
            set_nentry-header (length (ys ++ (x ∷ []))) (7 + span (ys ++ (x ∷ []))) body,
            nend-header (sub32 (length (ys ++ (x ∷ []))) 1) (7 + span (ys ++ (x ∷ []))) body
                (omega (arith, h.fits)),
            set_nend-header (sub32 (length (ys ++ (x ∷ []))) 1) (7 + span (ys ++ (x ∷ []))) body,
            sub32_exact (length (ys ++ (x ∷ []))) 1 (omega (arith, count))
                (omega (arith, h.fits, length-le-span (ys ++ (x ∷ [])) h.valid)),
            sub32_exact (7 + span (ys ++ (x ∷ []))) (encode_size x) (omega (arith, whole))
                (omega (arith, h.fits)),
          )
          (ap₂ (λ a b. a ++ b) (ap₂ header (omega (arith, count)) (omega (arith, whole)))
            (ap (λ t. t ++ rest) (body_of-append entry_bytes ys (x ∷ []))
              ∙ append_assoc (body_of entry_bytes ys) (entry_bytes x ++ []) rest
              ∙ ap (λ t. body_of entry_bytes ys ++ (t ++ rest)) (append-nil (entry_bytes x))));
    valid = AllEntries-init ys (x ∷ []) h.valid;
    fits = omega (arith, h.fits, whole);
  }
    where
      body : Bytes
      body = body_of entry_bytes (ys ++ (x ∷ [])) ++ rest

  -- `ziplist_pop` on a list that is not empty gives the last value, and leaves the list without it.
  pub pop-Lists :
      (zl' : Ziplist) × (pop (some zl) ≡ (ok, some x, some zl'))
      × Lists zl' ys (entry_bytes x ++ rest)
  unfolding pop
  pop-Lists = (
    left_by_pop zl,
    rw (nentry_lem h, count, ==_gt (suc (length ys)) 0 (omega arith), last_entry) refl,
    left,
  )
