-- ===== src/Ziplist/Shrink.antt =====
-- `_ziplist_remove`: removing the middle of a list.
use pelikan.Common.{
  ℕ, ◌+◌, ◌-◌, ◌^◌, ◌≤◌, ◌<◌, ◌≡◌, refl, sym, ap, ap₂, ◌∙◌, arith, List, ◌++◌, append_assoc, length,
  length-append, take, drop, take-append-drop, take-add, drop-add, length-take, length-drop,
}
use pelikan.Common.Words.{sub32, sub32_exact}
use pelikan.Common.Memory.{Bytes, memmove}
use pelikan.Common.Splice.{remove_lem}
use pelikan.Search.Layout.{body_of, body_of-append, body_of-split}
use pelikan.Blob.{Blob}
use pelikan.Ziplist.{Ziplist}
use pelikan.Ziplist.Edit.{remove_range}
use pelikan.Ziplist.Codec.{entry_bytes}
use pelikan.Ziplist.Lists.{
  AllEntries, header, span, offset, Lists, length-header, nentry-header, nend-header,
  set_nentry-header, set_nend-header, length-le-span,
}
use pelikan.Ziplist.Grow.{AllEntries-take, AllEntries-drop, AllEntries-append, span-append}

-- What is behind the list after `vs` was removed before `zs`.
abbrev pub leftover : List Blob → List Blob → Bytes → Bytes
leftover vs zs rest = drop (span zs) (body_of entry_bytes vs ++ (body_of entry_bytes zs ++ rest))

-- Removing the middle of a list in three parts.
shrunk :
    (ys vs zs : List Blob) (rest : Bytes) (n e begin end count : ℕ)
    → AllEntries ys
    → AllEntries zs
    → n ≡ length ys + count + length zs
    → e ≡ 7 + (span ys + span vs + span zs)
    → begin ≡ 8 + span ys
    → end ≡ begin + span vs
    → n < 2 ^ 32
    → e + 1 < 2 ^ 32
    → Lists
        (remove_range
          (header n e
            ++ (body_of entry_bytes ys
                ++ (body_of entry_bytes vs ++ (body_of entry_bytes zs ++ rest))))
          begin
          end
          count)
        (ys ++ zs)
        (leftover vs zs rest)
unfolding remove_range
shrunk ys vs zs rest n e begin end count hy hz hn he hb hend fn fe = record {
  memory =
      rw
        (
          nend-header n e (A ++ (V ++ (Z ++ rest))) (omega arith),
          moved,
          nentry-header n e (A ++ (Z ++ B)) fn,
          set_nentry-header n e (A ++ (Z ++ B)),
          nend-header (sub32 n count) e (A ++ (Z ++ B)) (omega arith),
          set_nend-header (sub32 n count) e (A ++ (Z ++ B)),
          sub32_exact n count (omega arith) fn,
          sub32_exact e (end - begin) (omega arith) (omega arith),
        )
        (ap₂ (λ a b. a ++ b)
          (ap₂ header (omega (arith, length-append ys zs)) (omega (arith, span-append ys zs)))
          (sym (ap (λ t. t ++ B) (body_of-append entry_bytes ys zs) ∙ append_assoc A Z B)));
  valid = AllEntries-append ys zs hy hz;
  fits = omega (arith, span-append ys zs);
}
  where
    A : Bytes
    A = body_of entry_bytes ys

    V : Bytes
    V = body_of entry_bytes vs

    Z : Bytes
    Z = body_of entry_bytes zs

    B : Bytes
    B = leftover vs zs rest

    moved :
        memmove begin end (e + 1 - end) (header n e ++ (A ++ (V ++ (Z ++ rest))))
        ≡ header n e ++ (A ++ (Z ++ B))
    moved =
        ap₂ (λ (to k : ℕ). memmove begin to k (header n e ++ (A ++ (V ++ (Z ++ rest))))) hend
          (omega arith)
        ∙ ap (memmove begin (begin + span vs) (span zs)) (sym (append_assoc (header n e) A _))
        ∙ remove_lem (header n e ++ A) V Z rest begin (span zs) (span vs)
            (omega (arith, length-append (header n e) A, length-header n e)) refl refl
        ∙ append_assoc (header n e) A _

module _ {zl : Ziplist} {xs : List Blob} {rest : Bytes} (h : Lists zl xs rest) where
  -- Removing `c` entries from the one at an index on.
  pub cut :
      (s c : ℕ)
      → s + c ≤ length xs
      → Lists
          (remove_range zl (offset xs s) (offset xs (s + c)) c)
          (take s xs ++ drop (s + c) xs)
          (leftover (take c (drop s xs)) (drop (s + c) xs) rest)
  cut s c le = rw parts (
      shrunk (take s xs) (take c (drop s xs)) (drop (s + c) xs) rest (length xs) (7 + span xs)
        (offset xs s) (offset xs (s + c)) c (AllEntries-take s xs h.valid)
        (AllEntries-drop (s + c) xs h.valid)
        (omega (arith, length-take s xs (omega arith), length-drop (s + c) xs))
        (omega (arith, whole, middle)) refl (omega (arith, middle))
        (omega (arith, h.fits, length-le-span xs h.valid)) (omega (arith, h.fits)))
    where
      middle : span (take (s + c) xs) ≡ span (take s xs) + span (take c (drop s xs))
      middle = ap span (take-add s c xs) ∙ span-append (take s xs) (take c (drop s xs))

      whole : span xs ≡ span (take (s + c) xs) + span (drop (s + c) xs)
      whole =
          ap span (sym (take-append-drop (s + c) xs))
          ∙ span-append (take (s + c) xs) (drop (s + c) xs)

      parts :
          zl
          ≡ header (length xs) (7 + span xs)
            ++ (body_of entry_bytes (take s xs)
                ++ (body_of entry_bytes (take c (drop s xs))
                    ++ (body_of entry_bytes (drop (s + c) xs) ++ rest)))
      parts =
          h.memory
          ∙ ap (λ t. header (length xs) (7 + span xs) ++ t)
              (body_of-split entry_bytes s xs rest
                ∙ ap (λ t. body_of entry_bytes (take s xs) ++ t)
                    (body_of-split entry_bytes c (drop s xs) rest
                      ∙ ap
                          (λ t.
                            body_of entry_bytes (take c (drop s xs))
                            ++ (body_of entry_bytes t ++ rest))
                          (sym (drop-add s c xs))))
