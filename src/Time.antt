-- ===== src/Time.antt =====
-- time/time.h: the seconds of the process clock. A timestamp of a client is turned into seconds
-- since the start of the process; `int32_t` results wrap around.
pub mod Expiry
mod Tests
use pelikan.Common.{ℕ, ◌-◌, ◌%◌, ◌^◌, ltb, ◌==◌, if◌then◌else◌}
use pelikan.Common.Words.{u32_mod}
use pelikan.Common.Int.{ℤ, pos, negsuc, ◌+ℤ◌, ◌-ℤ◌}

-- `time_start` and `proc_sec`, which `time_update` refreshes.
pub record Clock : Type 0 where
  pub time_start : ℤ
  pub proc_sec : ℤ

pub data TimeType : Type 0 where
  time_unix time_delta time_memcache : TimeType

abbrev pub int32_max : ℕ
int32_max = 2 ^ 31 - 1

-- The conversions to `uint32_t` and to `int32_t`.
unfoldable pub to_u32 : ℤ → ℕ
to_u32 (pos n) = n % u32_mod
to_u32 (negsuc n) = u32_mod - 1 - n % u32_mod

unfoldable pub as_signed : ℕ → ℤ
as_signed n = if ltb n (2 ^ 31) then pos n else negsuc (u32_mod - 1 - n)

unfoldable pub to_i32 : ℤ → ℤ
to_i32 t = as_signed (to_u32 t)

unfoldable pub unix2proc_sec : Clock → ℕ → ℤ
unix2proc_sec c t = to_i32 (pos t -ℤ c.time_start)

unfoldable pub delta2proc_sec : Clock → ℤ → ℤ
delta2proc_sec c t = to_i32 (t +ℤ c.proc_sec)

abbrev pub memcache_maxdelta_sec : ℕ
memcache_maxdelta_sec = 2592000

unfoldable pub memcache2proc_sec : Clock → ℕ → ℤ
memcache2proc_sec c t =
    if t == 0
    then pos int32_max
    else if ltb memcache_maxdelta_sec t
    then unix2proc_sec c t
    else delta2proc_sec c (to_i32 (pos t))

unfoldable pub convert_proc_sec : TimeType → Clock → ℤ → ℤ
convert_proc_sec time_unix c t = unix2proc_sec c (to_u32 t)
convert_proc_sec time_delta c t = delta2proc_sec c t
convert_proc_sec time_memcache c t = memcache2proc_sec c (to_u32 t)
