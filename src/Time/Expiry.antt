-- ===== src/Time/Expiry.antt =====
-- time/time.h: when an item with a time of expiry from a memcache client is valid.
use pelikan.Common.{
  ℕ, suc, ◌+◌, ◌-◌, ◌%◌, ◌^◌, ◌≤◌, ◌<◌, ◌≡◌, sym, ap, ◌∙◌, inl, inr, true, Bool-cases, arith, leb,
  lt→ltb, ge→ltb, leb→le, leb→gt, le→leb, gt→leb, ==_gt,
}
use pelikan.Common.Words.{u32_mod}
use pelikan.Common.Int.{pos, negsuc, leb_ℤ}
use pelikan.Time.{
  Clock, to_u32, as_signed, to_i32, unix2proc_sec, delta2proc_sec, memcache2proc_sec,
  memcache_maxdelta_sec,
}

pub to_i32_pos : (n : ℕ) → n < 2 ^ 31 → to_i32 (pos n) ≡ pos n
unfolding to_i32 to_u32 as_signed
to_i32_pos n h = let e : n % u32_mod ≡ n = omega arith in rw (e, lt→ltb n (2 ^ 31) h)

to_i32_negsuc : (n : ℕ) → n < 2 ^ 31 → to_i32 (negsuc n) ≡ negsuc n
unfolding to_i32 to_u32 as_signed
to_i32_negsuc n h =
    let e : u32_mod - 1 - n % u32_mod ≡ u32_mod - 1 - n = omega arith in
    rw (e, ge→ltb (u32_mod - 1 - n) (2 ^ 31) (omega arith)) (ap negsuc (omega arith))

-- The clock of a process that was started at `start`.
abbrev pub clock_at : ℕ → ℕ → Clock
clock_at start now = record { time_start = pos start; proc_sec = pos now }

-- Comparisons of two pairs with one difference agree.
leb_same : (a b c d : ℕ) → a + d ≡ c + b → leb a b ≡ leb c d
leb_same a b c d h = elim (Bool-cases (leb a b)) [
  | inl e ↦ e ∙ sym (le→leb c d (omega (arith, leb→le a b e)))
  | inr e ↦ e ∙ sym (gt→leb c d (omega (arith, leb→gt a b e)))
]

after_start :
    (start now t : ℕ)
    → start ≤ t
    → t < start + 2 ^ 31
    → unix2proc_sec (clock_at start now) t ≡ pos (t - start)
unfolding unix2proc_sec
after_start start now t e h =
    ap to_i32 (rw (le→leb (0 + start) (t + 0) (omega arith)) (ap pos (omega arith)))
    ∙ to_i32_pos (t - start) (omega arith)

before_start :
    (start now t : ℕ)
    → t < start
    → start < t + 2 ^ 31
    → unix2proc_sec (clock_at start now) t ≡ negsuc (start - t - 1)
unfolding unix2proc_sec
before_start start now t e h =
    ap to_i32 (rw (gt→leb (0 + start) (t + 0) (omega arith)) (ap negsuc (omega arith)))
    ∙ to_i32_negsuc (start - t - 1) (omega arith)

unix_exact :
    (start now t later : ℕ)
    → t < start + 2 ^ 31
    → start < t + 2 ^ 31
    → leb_ℤ (pos later) (unix2proc_sec (clock_at start now) t) ≡ leb (start + later) t
unix_exact start now t later h k = elim (Bool-cases (leb start t)) [
  | inl e ↦
      ap (leb_ℤ (pos later)) (after_start start now t (leb→le start t e) h)
      ∙ leb_same (later + 0) (t - start + 0) (start + later) t (omega (arith, leb→le start t e))
  | inr e ↦
      ap (leb_ℤ (pos later)) (before_start start now t (leb→gt start t e) k)
      ∙ leb_same (later + suc (start - t - 1)) (0 + 0) (start + later) t
          (omega (arith, leb→gt start t e))
]

from_now :
    (start now t : ℕ)
    → t + now < 2 ^ 31
    → delta2proc_sec (clock_at start now) (pos t) ≡ pos (t + now)
unfolding delta2proc_sec
from_now start now t h =
    ap to_i32 (rw (le→leb (0 + 0) (t + now) (omega arith)) (ap pos (omega arith)))
    ∙ to_i32_pos (t + now) h

-- A memcache timestamp above 30 days, within 2^31 seconds of the start of the process, expires an
-- item exactly when the clock has passed that unix time: at every later second of the process the
-- converted time is still to come exactly if the timestamp is.
pub memcache_unix :
    (start now t later : ℕ)
    → 2592000 < t
    → t < start + 2 ^ 31
    → start < t + 2 ^ 31
    → leb_ℤ (pos later) (memcache2proc_sec (clock_at start now) t) ≡ leb (start + later) t
unfolding memcache2proc_sec
memcache_unix start now t later long h k =
    rw (==_gt t 0 (omega arith), lt→ltb memcache_maxdelta_sec t long)
      (unix_exact start now t later h k)

-- A memcache timestamp of at most 30 days, but not 0, expires an item that many seconds after now,
-- where the sum stays below 2^31; 0 stands for the last second of the clock.
pub memcache_delta :
    (start now t later : ℕ)
    → 1 ≤ t
    → t ≤ 2592000
    → t + now < 2 ^ 31
    → later < 2 ^ 31
    → (leb_ℤ (pos later) (memcache2proc_sec (clock_at start now) t) ≡ leb later (t + now))
      × (leb_ℤ (pos later) (memcache2proc_sec (clock_at start now) 0) ≡ true)
unfolding memcache2proc_sec
memcache_delta start now t later low high sum end = (
  rw (==_gt t 0 low, ge→ltb memcache_maxdelta_sec t high, to_i32_pos t (omega arith))
      (ap (leb_ℤ (pos later)) (from_now start now t sum)
        ∙ leb_same (later + 0) (t + now + 0) later (t + now) (omega arith)),
  le→leb _ _ (omega arith),
)
