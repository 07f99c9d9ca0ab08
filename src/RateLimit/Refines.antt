-- ===== src/RateLimit/Refines.antt =====
-- `check_limit` against the log of admitted requests: dropping old entries and letting the key
-- expire loses nothing that a later check could count.
use dsa_api.Base.{
  ℕ, ◌+◌, ◌≤◌, ◌≡◌, ◌∙◌, sym, Bool-cases, Option-cases, inl, inr, some, List, [], ◌∷◌, arith, leb,
  ltb, All, if◌then◌else◌,
}
use dsa_api.RateLimit.Zset.{Tick, Zset, live, zremrangebyscore, zcard, zadd, expire}
use dsa_api.RateLimit.Check.{LimitConfig, cutoff, read_phase, write_phase, check_limit}
use dsa_api.RateLimit.Window.{
  in_window, kept, surviving, length-surviving, kept-surviving, kept-insert, in_window_old,
}

-- The key holds what later checks need of the log, whose last check was at `last`.
pub record Represents (cfg : LimitConfig) (last : Tick) (z : Zset) (log : List Tick) : Type 0 where
  pub counted : (now : Tick) → last ≤ now → kept cfg now z.entries ≡ in_window cfg now log
  pub expired :
      (t now : Tick) → z.expires ≡ some t → t ≤ now → last ≤ now → in_window cfg now log ≡ 0
  pub past : All (λ t. t ≤ last) log

pub All-le_trans : (a b : Tick) (ts : List Tick) → a ≤ b → All (λ t. t ≤ a) ts → All (λ t. t ≤ b) ts
All-le_trans a b [] h g = tt
All-le_trans a b (t ∷ ts) h g = (omega arith, All-le_trans a b ts h g.1)

module _ (cfg : LimitConfig) where
  read_phase_entries :
      (now : Tick) (z : Zset)
      → ((read_phase cfg now z).0.entries ≡ surviving (cutoff cfg now) (live now z).entries)
        × ((read_phase cfg now z).0.expires ≡ (live now z).expires)
        × ((read_phase cfg now z).1 ≡ kept cfg now (live now z).entries)
  unfolding read_phase zremrangebyscore zcard
  read_phase_entries now z = ground (arith, length-surviving cfg now (live now z).entries)

  module _ (last : Tick) (z : Zset) (log : List Tick) (now : Tick) (h : Represents cfg last z log)
      (after : last ≤ now) where
    -- An expired key had nothing left to count.
    live-Represents : Represents cfg now (live now z) log
    unfolding live kept
    live-Represents = elim (Option-cases z.expires) [
      | inl e ↦
          rw (e, live)
            (record {
              counted = λ t g. h.counted t (omega arith);
              expired = λ t later q g k. h.expired t later q g (omega arith);
              past = All-le_trans last now log after h.past;
            })
      | inr (t0, e) ↦ elim (Bool-cases (leb t0 now)) [
        | inl p ↦
            rw (e, live)
              (rw p (record {
                counted = λ t g. sym (h.expired t0 t e (ground arith) (omega arith));
                expired = λ t later q g k. cc;
                past = All-le_trans last now log after h.past;
              }))
        | inr p ↦
            rw (e, live)
              (rw p (record {
                counted = λ t g. h.counted t (omega arith);
                expired = λ t later q g k. h.expired t later q g (omega arith);
                past = All-le_trans last now log after h.past;
              }))
      ]
    ]

    -- The first pipeline counts the window, and leaves a key that still represents the log.
    pub read_phase-counts : (read_phase cfg now z).1 ≡ in_window cfg now log
    read_phase-counts = (read_phase_entries now z).2 ∙ live-Represents.counted now (omega arith)

    pub read_phase-Represents : Represents cfg now (read_phase cfg now z).0 log
    read_phase-Represents = record {
      counted = λ t g.
          rw ((read_phase_entries now z).0)
            (kept-surviving cfg now t (live now z).entries g ∙ live-Represents.counted t g);
      expired = λ t later q g k.
          live-Represents.expired t later (sym ((read_phase_entries now z).1) ∙ q) g k;
      past = All-le_trans last now log after h.past;
    }

  -- The second pipeline admits the request into the log.
  pub write_phase-Represents :
      (now : Tick) (z : Zset) (log : List Tick) (token : ℕ)
      → Represents cfg now z log
      → Represents cfg now (write_phase cfg now token z) (now ∷ log)
  unfolding write_phase zadd expire
  write_phase-Represents now z log token h =
      let l = live-Represents now z log now h (omega arith) in
      record {
        counted = λ t g.
            kept-insert cfg t (record { member = token; score = now }) (live now z).entries
            ∙ (unfold kept in_window in ground (arith, l.counted t g));
        expired = λ t later q g k.
            in_window_old cfg now later (now ∷ log) (omega arith, l.past) (ground arith);
        past = (omega arith, l.past);
      }

  module _ (last : Tick) (z : Zset) (log : List Tick) (now : Tick) (token : ℕ)
      (h : Represents cfg last z log) (after : last ≤ now) where
    -- A check admits a request exactly when fewer than the maximum were admitted within the window
    -- that ends now, and it counts them, with itself if it is admitted.
    pub check_limit_lem :
        ((check_limit cfg now token z).1.allowed ≡ ltb (in_window cfg now log) cfg.max_requests)
        × ((check_limit cfg now token z).1.current ≡ (
            if ltb (in_window cfg now log) cfg.max_requests
            then in_window cfg now log + 1
            else in_window cfg now log))
    unfolding check_limit
    check_limit_lem = ground (arith, read_phase-counts last z log now h after)

    -- A check leaves a key that represents the log with the request put in front if it was admitted.
    pub check_limit-Represents :
        Represents cfg now
          (check_limit cfg now token z).0
          (if (check_limit cfg now token z).1.allowed then now ∷ log else log)
    unfolding check_limit
    check_limit-Represents = elim (Bool-cases (leb cfg.max_requests (read_phase cfg now z).1)) [
      | inl p ↦ rw p (read_phase-Represents last z log now h after)
      | inr p ↦ rw p (
          write_phase-Represents now (read_phase cfg now z).0 log token
            (read_phase-Represents last z log now h after))
    ]
