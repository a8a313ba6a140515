-- ===== src/Slimcache/Requests.antt =====
-- server/slimcache/data/process.c: the empty table, the passing of time and every request keep the
-- invariant of the table.
use pelikan.Common.{
  ℕ, ◌<◌, ◌≡◌, refl, sym, subst, inl, inr, Bool, true, false, Bool-cases, if◌then◌else◌, length,
}
use pelikan.Common.Memory.{Bytes}
use pelikan.Common.Int.{ℤ}
use pelikan.Time.{Clock}
use pelikan.Cuckoo
use pelikan.Cuckoo.{Table, delete}
use pelikan.Cuckoo.Chunk.{item_cas_valid}
use pelikan.Cuckoo.Placed.{Placed, IsStarted, Option-cases}
use pelikan.Cuckoo.Changed.{delete-Placed}
use pelikan.Cuckoo.Steady.{HoldsNumber, reset-Placed}
use pelikan.Slimcache.{
  Server, Request, get, gets, set, add, replace, cas, incr, decr, flush, unknown, Response, ok,
  client_error, table_get, single, set_at, add_at, replace_at, cas_at, delete_answer,
  process_delete, process_set, process_add, process_replace, process_cas, process_incr,
  process_decr, process_flush, process_request,
}
use pelikan.Slimcache.Safe.{ReadsWords, IsShort, rewrite_item-Safe, add_item-Safe, count_at-Safe}

-- Keys of fewer than 256 bytes, and values that are not empty and have fewer than 256 bytes.
abbrev pub IsProper : Request → Type 0
IsProper (get keys) = Unit
IsProper (gets keys) = Unit
IsProper unknown = Unit
IsProper (Request.delete key) = Unit
IsProper (set key str expiry) = (length key < 256) × IsShort str
IsProper (add key str expiry) = (length key < 256) × IsShort str
IsProper (replace key str expiry) = IsShort str
IsProper (cas key str expiry vcas) = IsShort str
IsProper (incr key delta) = Unit
IsProper (decr key delta) = Unit
IsProper flush = Unit

table-single : (r : Response × Table) → (single r).1 ≡ r.1
table-single (r, t) = refl

table-delete_answer : (sv : Server) (c : Clock) (r : Bool × Table) → (delete_answer sv c r).1 ≡ r.1
unfolding delete_answer
table-delete_answer sv c (true, t) = refl
table-delete_answer sv c (false, t) = refl

module _ (sv : Server) (c : Clock) (reads : ReadsWords sv) (t : Table)
    (inv : Placed sv.config sv.murmur3 c t.ds) where
  abbrev pub Sound : Table → Type 0
  Sound u = Placed sv.config sv.murmur3 c u.ds

  pub process_set-Safe :
      (random : ℕ → ℕ) (key str : Bytes) (expiry : ℤ)
      → length key < 256
      → IsShort str
      → Sound (process_set sv c random t key str expiry).1
  unfolding process_set set_at
  process_set-Safe random key str expiry k h = elim (Option-cases (table_get sv c t key)) [
    | inl e ↦ rw e (add_item-Safe sv c reads random t key str expiry inv k h e)
    | inr (o, e) ↦ rw e (rewrite_item-Safe sv c reads t key str expiry o inv h e)
  ]

  process_add_safe :
      (random : ℕ → ℕ) (key str : Bytes) (expiry : ℤ)
      → length key < 256
      → IsShort str
      → Sound (process_add sv c random t key str expiry).1
  unfolding process_add add_at
  process_add_safe random key str expiry k h = elim (Option-cases (table_get sv c t key)) [
    | inl e ↦ rw e (add_item-Safe sv c reads random t key str expiry inv k h e)
    | inr (o, e) ↦ rw e inv
  ]

  process_replace_safe :
      (key str : Bytes) (expiry : ℤ) → IsShort str → Sound (process_replace sv c t key str expiry).1
  unfolding process_replace replace_at
  process_replace_safe key str expiry h = elim (Option-cases (table_get sv c t key)) [
    | inl e ↦ rw e inv
    | inr (o, e) ↦ rw e (rewrite_item-Safe sv c reads t key str expiry o inv h e)
  ]

  process_cas_safe :
      (key str : Bytes) (expiry : ℤ) (vcas : ℕ)
      → IsShort str
      → Sound (process_cas sv c t key str expiry vcas).1
  unfolding process_cas cas_at
  process_cas_safe key str expiry vcas h = elim (Option-cases (table_get sv c t key)) [
    | inl e ↦ rw e inv
    | inr (o, e) ↦ elim (Bool-cases (item_cas_valid sv.config (t.ds o) vcas)) [
      | inl f ↦ rw (e, f) (rewrite_item-Safe sv c reads t key str expiry o inv h e)
      | inr f ↦ rw (e, f) inv
    ]
  ]

  process_delete_safe : (key : Bytes) → IsStarted c → Sound (process_delete sv c t key).1
  unfolding process_delete
  process_delete_safe key s =
      subst Sound (sym (table-delete_answer sv c (delete sv.config sv.murmur3 c t key)))
        (delete-Placed sv.config sv.murmur3 c t key inv s)

  abbrev flushed : Bool → Response × Table
  flushed b = if b then (ok, Cuckoo.reset sv.config t) else (client_error, t)

  process_flush_safe : HoldsNumber sv.config → IsStarted c → Sound (process_flush sv c t).1
  unfolding process_flush
  process_flush_safe h s = by_option sv.allow_flush
    where
      by_option : (b : Bool) → Sound (flushed b).1
      by_option true = reset-Placed sv.config sv.murmur3 c t h s
      by_option false = inv

  pub process_request-Safe :
      (left : ℕ) (random : ℕ → ℕ) (r : Request)
      → HoldsNumber sv.config
      → IsStarted c
      → IsProper r
      → Sound (process_request sv c left random t r).1
  unfolding process_request process_incr process_decr
  process_request-Safe left random (get keys) n s p = inv
  process_request-Safe left random (gets keys) n s p = inv
  process_request-Safe left random unknown n s p = inv
  process_request-Safe left random (Request.delete key) n s p =
      subst Sound (sym (table-single (process_delete sv c t key))) (process_delete_safe key s)
  process_request-Safe left random (set key str expiry) n s p =
      subst Sound (sym (table-single (process_set sv c random t key str expiry)))
        (process_set-Safe random key str expiry p.0 p.1)
  process_request-Safe left random (add key str expiry) n s p =
      subst Sound (sym (table-single (process_add sv c random t key str expiry)))
        (process_add_safe random key str expiry p.0 p.1)
  process_request-Safe left random (replace key str expiry) n s p =
      subst Sound (sym (table-single (process_replace sv c t key str expiry)))
        (process_replace_safe key str expiry p)
  process_request-Safe left random (cas key str expiry vcas) n s p =
      subst Sound (sym (table-single (process_cas sv c t key str expiry vcas)))
        (process_cas_safe key str expiry vcas p)
  process_request-Safe left random (incr key delta) n s p =
      subst Sound (sym (table-single (process_incr sv c t key delta)))
        (count_at-Safe sv c reads t key _ inv)
  process_request-Safe left random (decr key delta) n s p =
      subst Sound (sym (table-single (process_decr sv c t key delta)))
        (count_at-Safe sv c reads t key _ inv)
  process_request-Safe left random flush n s p =
      subst Sound (sym (table-single (process_flush sv c t))) (process_flush_safe n s)
