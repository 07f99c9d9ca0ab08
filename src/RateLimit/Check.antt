-- ===== src/RateLimit/Check.antt =====
-- core/ratelimit.py: `check_limit`, as two round trips to Redis with nothing in between.
use dsa_api.Base.{ℕ, ◌+◌, ◌-◌, ◌*◌, ◌/◌, Bool, true, false, Option, none, some, leb, if◌then◌else◌}
use dsa_api.RateLimit.Zset.{
  Tick, Entry, Zset, live, zremrangebyscore, zcard, zadd, expire, zrange_first,
}
use dsa_api.Text.{Text}

pub record LimitConfig : Type 0 where
  pub name : Text
  pub window_seconds : ℕ
  pub max_requests : ℕ

pub record LimitDecision : Type 0 where
  pub allowed : Bool
  pub config : LimitConfig
  pub current : ℕ
  pub retry_after : ℕ

-- How many ticks make a second; the clock of the source has at least microseconds.
abbrev pub ticks : ℕ
ticks = 1000000

abbrev pub window : LimitConfig → Tick
window cfg = cfg.window_seconds * ticks

-- `now - cfg.window_seconds`, where a cutoff below zero removes nothing.
abbrev pub cutoff : LimitConfig → Tick → Option Tick
cutoff cfg now = if leb (window cfg) now then some (now - window cfg) else none

-- The first pipeline: drop what has left the window, and count.
unfoldable pub read_phase : LimitConfig → Tick → Zset → Zset × ℕ
read_phase cfg now z = let z' = zremrangebyscore (cutoff cfg now) (live now z) in (z', zcard z')

-- `max(1, int(oldest + window - now))`, in whole seconds rounded down; the score is never so old
-- that the difference is negative.
abbrev pub seconds_left : LimitConfig → Tick → Tick → ℕ
seconds_left cfg oldest now =
    let s = (oldest + window cfg - now) / ticks in if leb 1 s then s else 1

-- The second pipeline: record the request, and renew the key's time.
unfoldable pub write_phase : LimitConfig → Tick → ℕ → Zset → Zset
write_phase cfg now token z =
    expire now ((cfg.window_seconds + 1) * ticks)
      (zadd (record { member = token; score = now }) (live now z))

abbrev pub retry_after_of : LimitConfig → Tick → Option Entry → ℕ
retry_after_of cfg now none = cfg.window_seconds
retry_after_of cfg now (some e) = seconds_left cfg e.score now

-- `token` is the random part of the new member.
unfoldable pub check_limit : LimitConfig → Tick → ℕ → Zset → Zset × LimitDecision
check_limit cfg now token z =
    let (z', count) = read_phase cfg now z in
    if leb cfg.max_requests count
    then (
      z',
      record {
        allowed = false;
        config = cfg;
        current = count;
        retry_after = retry_after_of cfg now (zrange_first z');
      },
    )
    else (
      write_phase cfg now token z',
      record { allowed = true; config = cfg; current = count + 1; retry_after = 0 },
    )
