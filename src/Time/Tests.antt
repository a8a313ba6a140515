-- ===== src/Time/Tests.antt =====
-- The theorems about timestamps at a process that was started in 2023.
use pelikan.Common.{◌+◌, ◌≡◌, arith, leb}
use pelikan.Common.Int.{pos, leb_ℤ}
use pelikan.Time.{memcache2proc_sec}
use pelikan.Time.Expiry.{clock_at, memcache_unix}

memcache_unix_example :
    leb_ℤ (pos 120) (memcache2proc_sec (clock_at 1700000000 20) 1700000100)
    ≡ leb (1700000000 + 120) 1700000100
memcache_unix_example =
    memcache_unix 1700000000 20 1700000100 120 (omega arith) (omega arith) (omega arith)
