-- ===== src/Slimcache/Reachable.antt =====
-- server/slimcache/data/process.c: the tables that a run of the server reaches.
use pelikan.Common.{ℕ, ◌≡◌, true, arith, leb→le, ltb→lt, lt→ltb}
use pelikan.Common.Int.{leb_ℤ}
use pelikan.Time.{Clock}
use pelikan.Cuckoo
use pelikan.Cuckoo.{Table}
use pelikan.Cuckoo.Placed.{Placed, IsStarted}
use pelikan.Slimcache.{Server, Request, process_request}
use pelikan.Slimcache.Safe.{ReadsWords}
use pelikan.Cuckoo.Steady.{HoldsNumber, reset-Placed, later-Placed}
use pelikan.Slimcache.Requests.{IsProper, process_request-Safe}

-- The tables that a run of the server reaches, with the clock: the empty table after the first second,
-- then requests and the passing of time in any order.
pub data Reaches (sv : Server) : Clock → Table → Type 0 where
  booted : (c : Clock) (t : Table) → IsStarted c → Reaches sv c (Cuckoo.reset sv.config t)
  served :
      {c : Clock} {t : Table} (left : ℕ) (random : ℕ → ℕ) (r : Request)
      → Reaches sv c t
      → IsProper r
      → Reaches sv c (process_request sv c left random t r).1
  passed :
      {c : Clock} {t : Table} (d : Clock)
      → Reaches sv c t
      → leb_ℤ c.proc_sec d.proc_sec ≡ true
      → Reaches sv d t

pub Reaches-IsStarted : {sv : Server} {c : Clock} {t : Table} → Reaches sv c t → IsStarted c
Reaches-IsStarted (booted c t s) = s
Reaches-IsStarted (served left random r h p) = Reaches-IsStarted h
Reaches-IsStarted (passed {c} d h l) =
    lt→ltb _ _ (omega (arith, leb→le _ _ l, ltb→lt _ _ (Reaches-IsStarted h)))

-- Every table that the server reaches from the empty one, at times after the first second of the
-- process, by requests with keys and values shorter than 256 bytes, the values not empty, satisfies
-- the invariant, where a chunk has room for an item with a number and an empty key and the reader of
-- decimal numbers answers numbers below 2^64: each valid item stands in a slot of its key, no
-- key is stored twice, and every item lies inside of its chunk.
pub Reaches-Placed :
    (sv : Server) (c : Clock) (t : Table)
    → ReadsWords sv
    → HoldsNumber sv.config
    → Reaches sv c t
    → Placed sv.config sv.murmur3 c t.ds
Reaches-Placed sv c t reads n (booted c' t' s) = reset-Placed sv.config sv.murmur3 c' t' n s
Reaches-Placed sv c t reads n (served {c = c'} {t = u} left random r h p) =
    process_request-Safe sv c' reads u (Reaches-Placed sv c' u reads n h) left random r n
      (Reaches-IsStarted h) p
Reaches-Placed sv c t reads n (passed {c = c'} {t = u} d h l) =
    later-Placed sv.config sv.murmur3 c' d u.ds l (Reaches-Placed sv c' u reads n h)
