-- ===== src/Ziplist/Tests.antt =====
-- The theorems about the ziplist at a concrete list.
use pelikan.Common.{ℕ, ◌≡◌, refl, true, Option, none, some, arith, List, [], ◌∷◌, ◌++◌}
use pelikan.Common.Memory.{Bytes, le_bytes, byte}
use pelikan.Common.Int.{pos, negsuc}
use pelikan.Blob.{Blob, invalid, int, str}
use pelikan.Ziplist.{
  Ziplist, ok, enotfound, encode_size, zipentry_len, zipentry_set, zipentry_size, zipentry_get,
  refused, locate,
}
use pelikan.Ziplist.Edit.{insert, remove, trim, find}
use pelikan.Ziplist.Entry.{zipentry_get-set}
use pelikan.Ziplist.Lists.{Lists, offset}
use pelikan.Ziplist.Locate.{locate-eq-resolve}
use pelikan.Ziplist.Insert.{insert-Lists}
use pelikan.Ziplist.Remove.{remove-Lists}
use pelikan.Ziplist.Find.{FirstFrom, find-FirstFrom}
use pelikan.Ziplist.Values.{remove_val}
use pelikan.Ziplist.RemoveVal.{place_of, RemovedOne, remove_val-RemovedOne, remove_val_empty}
use pelikan.Ziplist.Trim.{trim-Lists}

-- 5, the text "A" and 300, and three bytes behind.
abbrev sample : Ziplist
sample =
    3 ∷ 0 ∷ 0 ∷ 0 ∷ 17 ∷ 0 ∷ 0 ∷ 0 ∷ 5 ∷ 2 ∷ 255 ∷ 1 ∷ 65 ∷ 4 ∷ 251 ∷ 44 ∷ 1 ∷ 4 ∷ 0 ∷ 0 ∷ 9 ∷ []

abbrev held : List Blob
held = int 5 ∷ str (65 ∷ []) ∷ int 300 ∷ []

sample-Lists : Lists sample held (0 ∷ 0 ∷ 9 ∷ [])
unfolding le_bytes encode_size
sample-Lists = record {
  memory = refl;
  valid = (omega arith, (omega arith, (omega arith, tt)));
  fits = omega arith;
}

size_of_seven : encode_size (int 7) ≡ 2
unfolding encode_size
size_of_seven = refl

zipentry_get_example :
    (E : Bytes) × (zipentry_size (int 7) ≡ (ok, some 2))
    × (zipentry_set (some 1) (int 7) (9 ∷ 0 ∷ 0 ∷ 8 ∷ []) ≡ (ok, 9 ∷ (E ++ (8 ∷ []))))
    × (zipentry_get (9 ∷ (E ++ (8 ∷ []))) (some 1) ≡ (ok, int 7))
    × (zipentry_len (9 ∷ (E ++ (8 ∷ []))) 1 ≡ 2)
zipentry_get_example =
    zipentry_get-set (9 ∷ []) (0 ∷ 0 ∷ []) (8 ∷ []) 1 (int 7) refl (omega arith)
      (omega (arith, size_of_seven))

refused_invalid : refused invalid ≡ true
unfolding refused
refused_invalid = refl

locate_entry_example : locate (some sample) (negsuc 0) ≡ (ok, some (offset held 2))
locate_entry_example = locate-eq-resolve sample-Lists (negsuc 0)

insert_entry_example :
    (zl' : Ziplist) × (insert (some sample) (int 7) (negsuc 1) ≡ (ok, some zl'))
    × Lists zl' (int 5 ∷ int 7 ∷ str (65 ∷ []) ∷ int 300 ∷ []) (9 ∷ [])
unfolding le_bytes
insert_entry_example =
    insert-Lists sample-Lists (int 7) (0 ∷ 0 ∷ []) (9 ∷ []) (omega arith) refl
      (omega (arith, size_of_seven)) (omega (arith, size_of_seven)) (negsuc 1)

remove_range_example :
    (zl' : Ziplist) × (rest : Bytes) × (remove (some sample) (pos 1) (negsuc 1) ≡ (ok, some zl'))
    × Lists zl' (int 300 ∷ []) rest
remove_range_example =
    remove-Lists sample-Lists (pos 1) (negsuc 1) (omega arith, omega arith)
      (omega arith, omega arith)

trim_example :
    (zl' : Ziplist) × (rest' : Bytes) × (trim (some sample) (pos 2) (negsuc 0) ≡ (ok, some zl'))
    × Lists zl' (str (65 ∷ []) ∷ []) rest'
trim_example = trim-Lists sample-Lists (pos 2) (negsuc 0) (omega arith)

find_example :
    (r : Option (ℕ × ℕ)) × (find (some sample) (int 300)
      ≡ (elim r [ none ↦ (enotfound, none) | some p ↦ (ok, some p) ]))
    × FirstFrom (int 300) held 0 r
find_example = find-FirstFrom sample-Lists (int 300) (omega arith)

remove_val_example :
    (r : Option ℕ) × FirstFrom (int 300) held 0 (place_of held r)
    × RemovedOne sample held (remove_val (some sample) (int 300) (pos 1)) r
remove_val_example = remove_val-RemovedOne sample-Lists (int 300) (omega arith) (omega arith)

abbrev nothing : Ziplist
nothing = 0 ∷ 0 ∷ 0 ∷ 0 ∷ 7 ∷ 0 ∷ 0 ∷ 0 ∷ 5 ∷ []

nothing-Lists : Lists nothing [] (5 ∷ [])
unfolding le_bytes
nothing-Lists = record { memory = refl; valid = tt; fits = omega arith }

stale_entry : zipentry_len nothing 8 ≡ 2
unfolding zipentry_len byte
stale_entry = refl

remove_val_empty_example : remove_val (some nothing) (int 300) (pos 3) ≡ (ok, none)
remove_val_empty_example =
    remove_val_empty nothing-Lists (int 300) 2 (omega arith) (omega arith)
      (omega (arith, stale_entry))
