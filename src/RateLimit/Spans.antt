-- ===== src/RateLimit/Spans.antt =====
-- The promise of the limiter over any run of checks that come one after the other.
use mathlib.Core.Path.{ap₂}
use dsa_api.Base.{
  ℕ, ◌+◌, ◌≤◌, ◌<◌, ◌≡◌, refl, sym, ap, ◌∙◌, Bool, Bool-cases, inl, inr, List, [], ◌∷◌, arith, ltb,
  ltb→lt, All, if◌then◌else◌,
}
use dsa_api.RateLimit.Zset.{Tick, Zset, no_key}
use dsa_api.RateLimit.Check.{LimitConfig, window, check_limit}
use dsa_api.RateLimit.Window.{in_window, in_span, kept}
use dsa_api.RateLimit.Refines.{Represents, All-le_trans, check_limit_lem, check_limit-Represents}

-- The admission times, newest first, of the checks of one key; a check is its time and its token.
unfoldable pub admitted : LimitConfig → Zset → List Tick → List (Tick × ℕ) → List Tick
admitted cfg z log [] = log
admitted cfg z log ((now, token) ∷ rest) =
    admitted cfg (check_limit cfg now token z).0
      (if (check_limit cfg now token z).1.allowed then now ∷ log else log) rest

-- The answers to a run of checks of one key.
unfoldable pub decisions : LimitConfig → Zset → List (Tick × ℕ) → List Bool
decisions cfg z [] = []
decisions cfg z ((now, token) ∷ rest) =
    (check_limit cfg now token z).1.allowed ∷ decisions cfg (check_limit cfg now token z).0 rest

-- The same run over the bare log of admitted requests, which forgets nothing.
unfoldable pub ideal_decisions : LimitConfig → List Tick → List (Tick × ℕ) → List Bool
ideal_decisions cfg log [] = []
ideal_decisions cfg log ((now, token) ∷ rest) =
    let ok = ltb (in_window cfg now log) cfg.max_requests in
    ok ∷ ideal_decisions cfg (if ok then now ∷ log else log) rest

-- The clock does not run backwards.
abbrev pub IsForward : Tick → List (Tick × ℕ) → Type 0
IsForward last [] = Unit
IsForward last ((now, token) ∷ rest) = (last ≤ now) × IsForward now rest

-- Each admitted request found fewer than the maximum in its window, and came last.
abbrev IsLimited : LimitConfig → List Tick → Type 0
IsLimited cfg [] = Unit
IsLimited cfg (t ∷ ts) =
    (in_window cfg t ts < cfg.max_requests) × All (λ s. s ≤ t) ts × IsLimited cfg ts

module _ (cfg : LimitConfig) where
  in_span-le-in_window :
      (a t : Tick) (ts : List Tick)
      → t ≤ a + window cfg
      → All (λ s. s ≤ t) ts
      → in_span cfg a ts ≤ in_window cfg t ts
  unfolding in_span in_window
  in_span-le-in_window a t [] h g = omega arith
  in_span-le-in_window a t (s ∷ ts) h g = ground (arith, in_span-le-in_window a t ts h g.1)

  in_span-le : (a : Tick) (ts : List Tick) → IsLimited cfg ts → in_span cfg a ts ≤ cfg.max_requests
  unfolding in_span
  in_span-le a [] h = omega arith
  in_span-le a (t ∷ ts) h =
      ground
        (arith, in_span-le a ts h.2, λ (g : t ≤ a + window cfg). in_span-le-in_window a t ts g h.1)

  admitted-IsLimited :
      (last : Tick) (z : Zset) (log : List Tick) (checks : List (Tick × ℕ))
      → IsForward last checks
      → Represents cfg last z log
      → IsLimited cfg log
      → IsLimited cfg (admitted cfg z log checks)
  unfolding admitted
  admitted-IsLimited last z log [] f h l = l
  admitted-IsLimited last z log ((now, token) ∷ rest) f h l =
      admitted-IsLimited now (check_limit cfg now token z).0 _ rest f.1
        (check_limit-Represents cfg last z log now token h f.0) step
    where
      step : IsLimited cfg (if (check_limit cfg now token z).1.allowed then now ∷ log else log)
      step = elim (Bool-cases (check_limit cfg now token z).1.allowed) [
        | inl p ↦ rw p (
          ltb→lt _ _ (sym ((check_limit_lem cfg last z log now token h f.0).0) ∙ p),
          All-le_trans last now log f.0 h.past,
          l,
        )
        | inr p ↦ rw p l
      ]

  pub start-Represents : (start : Tick) → Represents cfg start no_key []
  unfolding kept in_window
  start-Represents start = record {
    counted = λ now g. refl;
    expired = λ t now e g k. cc;
    past = tt;
  }

  decisions_from :
      (last : Tick) (z : Zset) (log : List Tick) (checks : List (Tick × ℕ))
      → IsForward last checks
      → Represents cfg last z log
      → decisions cfg z checks ≡ ideal_decisions cfg log checks
  unfolding decisions ideal_decisions
  decisions_from last z log [] f h = refl
  decisions_from last z log ((now, token) ∷ rest) f h =
      let e = (check_limit_lem cfg last z log now token h f.0).0 in
      ap₂ ◌∷◌ e (
        decisions_from now (check_limit cfg now token z).0 _ rest f.1
          (check_limit-Represents cfg last z log now token h f.0)
        ∙ ap (λ ok. ideal_decisions cfg (if ok then now ∷ log else log) rest) e)

  -- The answers to any run of checks of a fresh key, at times that do not run backwards, are
  -- those of the ideal limiter, which keeps every admission time for ever.
  pub decisions-eq-ideal_decisions :
      (start : Tick) (checks : List (Tick × ℕ))
      → IsForward start checks
      → decisions cfg no_key checks ≡ ideal_decisions cfg [] checks
  decisions-eq-ideal_decisions start checks f =
      decisions_from start no_key [] checks f (start-Represents start)

  -- However the checks of a fresh key are spread in time, as long as the clock does not run
  -- backwards, no span of the length of the window holds more admitted requests than the
  -- maximum.
  pub admitted-le_max :
      (a start : Tick) (checks : List (Tick × ℕ))
      → IsForward start checks
      → in_span cfg a (admitted cfg no_key [] checks) ≤ cfg.max_requests
  admitted-le_max a start checks f =
      in_span-le a _ (admitted-IsLimited start no_key [] checks f (start-Represents start) tt)
