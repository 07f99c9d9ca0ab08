-- ===== src/RateLimit/Tests.antt =====
-- The limiter at concrete times: three requests in ten seconds.
use dsa_api.Base.{ℕ, ◌≡◌, refl, ◌+◌, ◌*◌, ◌≤◌, ◌<◌, true, false, some, List, [], ◌∷◌, arith}
use dsa_api.Text.{text}
use dsa_api.RateLimit.Zset.{
  Tick, Zset, no_key, live, zremrangebyscore, zcard, insert, zadd, expire, zrange_first,
}
use dsa_api.RateLimit.Check.{LimitConfig, ticks, window, read_phase, write_phase, check_limit}
use dsa_api.RateLimit.Window.{in_window, in_span}
use dsa_api.RateLimit.Spans.{decisions, ideal_decisions, admitted, decisions-eq-ideal_decisions}
use dsa_api.RateLimit.Retry.{retry_refused}
use dsa_api.RateLimit.Race.{Shared, Step, Reach, Reach-zcard-le}

abbrev cfg : LimitConfig
cfg = record { name = text "ten"; window_seconds = 10; max_requests = 3 }

abbrev at : ℕ → Tick
at s = s * ticks

abbrev checks : List (Tick × ℕ)
checks = (at 100, 1) ∷ (at 101, 2) ∷ (at 102, 3) ∷ (at 103, 4) ∷ (at 110, 5) ∷ (at 130, 6) ∷ []

program : Unit {0}
unfolding check_limit read_phase write_phase live zremrangebyscore zcard zadd insert expire
    zrange_first decisions admitted in_window in_span
program = tt

answers : decisions cfg no_key checks ≡ true ∷ true ∷ true ∷ false ∷ true ∷ true ∷ []
unfolding program
answers = refl

decisions-eq-ideal_decisions_example : decisions cfg no_key checks ≡ ideal_decisions cfg [] checks
decisions-eq-ideal_decisions_example = decisions-eq-ideal_decisions cfg (at 99) checks (omega arith)

-- Three requests within the window, the oldest with four and a half seconds to go.
abbrev full_key : Zset
full_key = record {
  entries =
      record { member = 1; score = 94500000 }
      ∷ record { member = 2; score = 96000000 }
      ∷ record { member = 3; score = 97000000 }
      ∷ [];
  expires = some 108000000;
}

full_key-live : (later : Tick) → later < 94500000 + window cfg → live later full_key ≡ full_key
unfolding live
full_key-live later h = ground arith

retry_refused_example :
    ((check_limit cfg 100000000 4 full_key).1.allowed ≡ false)
    × ((check_limit cfg
          (100000000 + (check_limit cfg 100000000 4 full_key).1.retry_after * ticks)
          5
          (check_limit cfg 100000000 4 full_key).0).1.allowed
        ≡ false)
retry_refused_example =
    retry_refused cfg full_key (record { member = 1; score = 94500000 })
      (record { member = 2; score = 96000000 } ∷ record { member = 3; score = 97000000 } ∷ []) refl
      (omega arith) 100000000 4 5 (omega arith) (omega arith) (omega arith) full_key-live

-- Two checks count before either writes: the key ends with one entry more than the maximum.
abbrev one : LimitConfig
one = record cfg { max_requests = 1 }

abbrev idle : Shared
idle = record { key = no_key; pending = 0 }

abbrev both_counted : Shared
both_counted = record {
  key = (read_phase one (at 100) (read_phase one (at 100) no_key).0).0;
  pending = 2;
}

abbrev both_written : Shared
both_written = record {
  key = write_phase one (at 100) 2 (write_phase one (at 100) 1 both_counted.key);
  pending = 0;
}

overshoot : Reach one 2 idle both_written
unfolding program
overshoot =
    Reach.next
      (Reach.next
        (Reach.next (Reach.next Reach.here (Step.pass (at 100) 0 refl (omega arith)))
          (Step.pass (at 100) 0 refl (omega arith)))
        (Step.write (at 100) 1 1 refl))
      (Step.write (at 100) 2 0 refl)

overshoot_count : zcard both_written.key ≡ 2
unfolding program
overshoot_count = refl

Reach-zcard-le_example : zcard both_written.key + 1 ≤ one.max_requests + 2
Reach-zcard-le_example = Reach-zcard-le one 2 (omega arith) overshoot
