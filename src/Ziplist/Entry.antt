-- ===== src/Ziplist/Entry.antt =====
-- Writing an entry and reading it back: `zipentry_size`, `zipentry_set` and `zipentry_get`; and what
-- the operations that take a value refuse.
use pelikan.Common.{ℕ, ◌≡◌, refl, sym, ap, ◌∙◌, true, none, some, ◌++◌, length}
use pelikan.Common.Memory.{Bytes}
use pelikan.Common.Int.{ℤ}
use pelikan.Blob.{Blob}
use pelikan.Ziplist.{
  Ziplist, ok, einvalid, encode_size, refused, zipentry_size, zipentry_set, zipentry_get,
  zipentry_len,
}
use pelikan.Ziplist.Edit.{push, insert, find}
use pelikan.Ziplist.Codec.{IsEntry, entry_bytes, zipentry_encode_lem}
use pelikan.Ziplist.Decode.{zipentry_len_lem, zipentry_get_lem}
use pelikan.Ziplist.Grow.{IsEntry-refused}

-- A 64-bit integer, or a text of at most 252 bytes, that is written to a place of the size that
-- `zipentry_size` tells is read back from there, the size included, and nothing around the place
-- changes.
pub zipentry_get-set :
    (P S R : Bytes) (ze : ℕ) (x : Blob)
    → ze ≡ length P
    → IsEntry x
    → length S ≡ encode_size x
    → (E : Bytes) × (zipentry_size x ≡ (ok, some (length S)))
      × (zipentry_set (some ze) x (P ++ (S ++ R)) ≡ (ok, P ++ (E ++ R)))
      × (zipentry_get (P ++ (E ++ R)) (some ze) ≡ (ok, x))
      × (zipentry_len (P ++ (E ++ R)) ze ≡ length S)
unfolding zipentry_size zipentry_set
zipentry_get-set P S R ze x hz hx room = (
  entry_bytes x,
  rw (IsEntry-refused x hx) (ap {A = ℕ} (λ k. (ok, some k)) (sym room)),
  rw (IsEntry-refused x hx, zipentry_encode_lem P S R ze hz x hx room) refl,
  zipentry_get_lem P R ze hz x hx,
  zipentry_len_lem P R ze hz x hx ∙ sym room,
)

-- A text of more than 252 bytes, or a value of no type, is refused by the operations that take a
-- value, and nothing changes.
pub refuses_value :
    (zl : Ziplist) (x : Blob) (ze : ℕ) (idx : ℤ)
    → refused x ≡ true
    → (zipentry_size x ≡ (einvalid, none))
      × (zipentry_set (some ze) x zl ≡ (einvalid, zl))
      × (push (some zl) x ≡ (einvalid, some zl))
      × (insert (some zl) x idx ≡ (einvalid, some zl))
      × (find (some zl) x ≡ (einvalid, none))
unfolding zipentry_size zipentry_set push insert find
refuses_value zl x ze idx r = (rw r, rw r, rw r, rw r, rw r)
