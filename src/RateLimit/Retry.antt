-- ===== src/RateLimit/Retry.antt =====
-- `retry_after`: its range, and what a client that waits as long as it says finds.
use dsa_api.Base.{
  ℕ, ◌+◌, ◌-◌, ◌*◌, ◌%◌, ◌≤◌, ◌<◌, ◌≡◌, ◌≢◌, false, Option, none, some, List, [], ◌∷◌, arith,
  length, All,
}
use dsa_api.RateLimit.Zset.{Tick, Entry, Zset, live, zremrangebyscore, zcard, zrange_first}
use dsa_api.RateLimit.Check.{
  LimitConfig, ticks, window, cutoff, seconds_left, retry_after_of, read_phase, check_limit,
}
use dsa_api.RateLimit.Window.{surviving}

-- Scores ascend from the first entry.
abbrev pub IsOldest : Entry → List Entry → Type 0
IsOldest e = All (λ x. e.score ≤ x.score)

module _ (cfg : LimitConfig) where
  -- A refusal asks for at least one second, and for no more than the window if the window is
  -- not empty and the oldest entry is not from the future.
  pub retry_after_bounds :
      (now : Tick) (first : Option Entry)
      → 0 < cfg.window_seconds
      → All (λ e. e.score ≤ now) (elim first [ none ↦ [] | some e ↦ e ∷ [] ])
      → (1 ≤ retry_after_of cfg now first) × (retry_after_of cfg now first ≤ cfg.window_seconds)
  retry_after_bounds now none w h = (w, omega arith)
  retry_after_bounds now (some e) w h = ground arith

  -- While the oldest entry is within the window, nothing is dropped.
  surviving-All :
      (later : Tick) (es : List Entry)
      → All (λ x. later < x.score + window cfg) es
      → surviving (cutoff cfg later) es ≡ es
  surviving-All later [] h = ground arith
  surviving-All later (e ∷ es) h = ground (arith, surviving-All later es h.1)

  young-All :
      (later : Tick) (e : Entry) (es : List Entry)
      → later < e.score + window cfg
      → IsOldest e es
      → All (λ x. later < x.score + window cfg) es
  young-All later e [] h o = tt
  young-All later e (x ∷ es) h o = (omega arith, young-All later e es h o.1)

  module _ (z : Zset) (e : Entry) (es : List Entry) (held : z.entries ≡ e ∷ es)
      (ascending : IsOldest e es) where
    read_phase_all :
        (later : Tick)
        → later < e.score + window cfg
        → live later z ≡ z
        → read_phase cfg later z ≡ (z, length z.entries)
    unfolding read_phase zremrangebyscore zcard
    read_phase_all later y alive =
        let same : surviving (cutoff cfg later) z.entries ≡ z.entries =
          rw held (surviving-All later (e ∷ es) (y, young-All later e es y ascending)) in
        rw alive (ground (arith, same))

    refused :
        (later : Tick) (token : ℕ)
        → later < e.score + window cfg
        → live later z ≡ z
        → cfg.max_requests ≤ length z.entries
        → ((check_limit cfg later token z).0 ≡ z)
          × ((check_limit cfg later token z).1.allowed ≡ false)
          × ((check_limit cfg later token z).1.retry_after ≡ seconds_left cfg e.score later)
    unfolding check_limit zrange_first
    refused later token y alive full = rw (read_phase_all later y alive) (ground (arith, held))

    -- A refused client that waits exactly retry_after seconds is refused again, when nothing
    -- else happens to the key, it does not expire, and the time that the oldest entry has left
    -- is more than a second and no whole number of seconds.
    pub retry_refused :
        (now : Tick) (token token' : ℕ)
        → cfg.max_requests ≤ length z.entries
        → now + ticks ≤ e.score + window cfg
        → (e.score + window cfg - now) % ticks ≢ 0
        → ((later : Tick) → later < e.score + window cfg → live later z ≡ z)
        → let first = check_limit cfg now token z in
          let again = now + first.1.retry_after * ticks in
          (first.1.allowed ≡ false) × ((check_limit cfg again token' first.0).1.allowed ≡ false)
    retry_refused now token token' full long uneven alive =
        let young : now < e.score + window cfg = ground arith in
        let r = refused now token young (alive now young) full in
        let again : Tick = now + seconds_left cfg e.score now * ticks in
        let y : again < e.score + window cfg = ground arith in
        (r.1, rw (r.2, r.0) ((refused again token' y (alive again y) full).1))
