-- ===== src/Ziplist/Grow.antt =====
-- `_ziplist_add` and `ziplist_push`: writing an entry into a gap of its size.
use pelikan.Common.{
  ℕ, zero, suc, ◌+◌, ◌^◌, ◌<◌, ◌≡◌, refl, sym, ap, ap₂, ◌∙◌, false, some, arith, List, [], ◌∷◌,
  ◌++◌, append_assoc, length, length-append, take, drop,
}
use pelikan.Common.Words.{add32, add32_exact}
use pelikan.Common.Memory.{Bytes}
use pelikan.Search.Layout.{body_of, body_of-append}
use pelikan.Blob.{Blob, invalid, int, str}
use pelikan.Ziplist.{Ziplist, ok, encode_size, nend, refused, zipentry_encode}
use pelikan.Ziplist.Edit.{add, push}
use pelikan.Ziplist.Codec.{IsEntry, entry_bytes, zipentry_encode_lem, length-entry_bytes}
use pelikan.Ziplist.Lists.{
  AllEntries, header, span, Lists, length-header, nentry-header, nend-header, set_nentry-header,
  set_nend-header, length-le-span, nend_lem,
}

pub IsEntry-refused : (x : Blob) → IsEntry x → refused x ≡ false
unfolding refused
IsEntry-refused invalid h = absurd h
IsEntry-refused (int v) h = refl
IsEntry-refused (str s) h = ground arith

-- Writing an entry into a gap of its size, and counting it.
add-header :
    (n e : ℕ) (A S R : Bytes) (ze : ℕ) (x : Blob)
    → IsEntry x
    → ze ≡ 8 + length A
    → length S ≡ encode_size x
    → suc n < 2 ^ 32
    → e + encode_size x < 2 ^ 32
    → add (header n e ++ (A ++ (S ++ R))) ze x
      ≡ header (suc n) (e + encode_size x) ++ (A ++ (entry_bytes x ++ R))
unfolding add
add-header n e A S R ze x h hz hs hn he =
    rw
      (
        written,
        nentry-header n e (A ++ (entry_bytes x ++ R)) (omega arith),
        set_nentry-header n e (A ++ (entry_bytes x ++ R)),
        nend-header (add32 n 1) e (A ++ (entry_bytes x ++ R)) (omega arith),
        set_nend-header (add32 n 1) e (A ++ (entry_bytes x ++ R)),
        add32_exact n 1 (omega arith),
        add32_exact e (encode_size x) he,
      )
      (ap (λ (k : ℕ). header k (e + encode_size x) ++ (A ++ (entry_bytes x ++ R))) (omega arith))
  where
    written :
        zipentry_encode ze x (header n e ++ (A ++ (S ++ R)))
        ≡ header n e ++ (A ++ (entry_bytes x ++ R))
    written =
        ap (zipentry_encode ze x) (sym (append_assoc (header n e) A (S ++ R)))
        ∙ zipentry_encode_lem (header n e ++ A) S R ze
            (omega (arith, length-append (header n e) A, length-header n e)) x h hs
        ∙ append_assoc (header n e) A (entry_bytes x ++ R)

pub AllEntries-append : (xs ys : List Blob) → AllEntries xs → AllEntries ys → AllEntries (xs ++ ys)
AllEntries-append [] ys hx hy = hy
AllEntries-append (x ∷ xs) ys hx hy = (hx.0, AllEntries-append xs ys hx.1 hy)

pub AllEntries-take : (n : ℕ) (xs : List Blob) → AllEntries xs → AllEntries (take n xs)
AllEntries-take zero xs h = tt
AllEntries-take (suc n) [] h = tt
AllEntries-take (suc n) (x ∷ xs) h = (h.0, AllEntries-take n xs h.1)

pub AllEntries-drop : (n : ℕ) (xs : List Blob) → AllEntries xs → AllEntries (drop n xs)
AllEntries-drop zero xs h = h
AllEntries-drop (suc n) [] h = tt
AllEntries-drop (suc n) (x ∷ xs) h = AllEntries-drop n xs h.1

pub span-append : (xs ys : List Blob) → span (xs ++ ys) ≡ span xs + span ys
span-append xs ys =
    ap length (body_of-append entry_bytes xs ys)
    ∙ length-append (body_of entry_bytes xs) (body_of entry_bytes ys)

-- The list in two parts, with a gap between them.
pub added :
    (ys zs : List Blob) (x : Blob) (S rest : Bytes) (n e ze : ℕ)
    → AllEntries ys
    → AllEntries zs
    → IsEntry x
    → length S ≡ encode_size x
    → n ≡ length ys + length zs
    → e ≡ 7 + (span ys + span zs)
    → ze ≡ 8 + span ys
    → e + 1 + encode_size x < 2 ^ 32
    → Lists
        (add
          (header n e ++ (body_of entry_bytes ys ++ (S ++ (body_of entry_bytes zs ++ rest))))
          ze
          x)
        (ys ++ x ∷ zs)
        rest
added ys zs x S rest n e ze hy hz h hs hn he hze fit = record {
  memory =
      add-header n e (body_of entry_bytes ys) S (body_of entry_bytes zs ++ rest) ze x h hze hs
        (omega (arith, length-le-span ys hy, length-le-span zs hz)) (omega arith)
      ∙ ap₂ (λ a b. a ++ b) (ap₂ header (sym count) (omega (arith, whole))) (sym body);
  valid = AllEntries-append ys (x ∷ zs) hy (h, hz);
  fits = omega (arith, whole);
}
  where
    whole : span (ys ++ x ∷ zs) ≡ span ys + (encode_size x + span zs)
    whole = omega (
      arith,
      span-append ys (x ∷ zs),
      length-append (entry_bytes x) (body_of entry_bytes zs),
      length-entry_bytes x h,
    )

    count : length (ys ++ x ∷ zs) ≡ suc n
    count = omega (arith, length-append ys (x ∷ zs))

    body :
        body_of entry_bytes (ys ++ x ∷ zs) ++ rest
        ≡ body_of entry_bytes ys ++ (entry_bytes x ++ (body_of entry_bytes zs ++ rest))
    body =
        ap (λ t. t ++ rest) (body_of-append entry_bytes ys (x ∷ zs))
        ∙ append_assoc (body_of entry_bytes ys) (entry_bytes x ++ body_of entry_bytes zs) rest
        ∙ ap (λ t. body_of entry_bytes ys ++ t)
            (append_assoc (entry_bytes x) (body_of entry_bytes zs) rest)

module _ {zl : Ziplist} {xs : List Blob} {rest : Bytes} (h : Lists zl xs rest) (x : Blob)
    (gap behind : Bytes) (hx : IsEntry x) (hr : rest ≡ gap ++ behind)
    (hg : length gap ≡ encode_size x) (fit : 8 + span xs + encode_size x < 2 ^ 32) where
  pub appended : Lists (add zl (nend zl + 1) x) (xs ++ (x ∷ [])) behind
  appended =
      rw (nend_lem h, memory)
        (added xs [] x gap behind (length xs) (7 + span xs) (7 + span xs + 1) h.valid tt hx hg
          (omega arith) (omega arith) (omega arith) (omega arith))
    where
      memory : zl ≡ header (length xs) (7 + span xs) ++ (body_of entry_bytes xs ++ (gap ++ behind))
      memory =
          h.memory ∙ ap (λ t. header (length xs) (7 + span xs) ++ (body_of entry_bytes xs ++ t)) hr

  -- In a region with room for the entry of a value, `ziplist_push` appends the value to the list.
  pub push-Lists :
      (zl' : Ziplist) × (push (some zl) x ≡ (ok, some zl')) × Lists zl' (xs ++ (x ∷ [])) behind
  unfolding push
  push-Lists = (add zl (nend zl + 1) x, rw (IsEntry-refused x hx) refl, appended)
