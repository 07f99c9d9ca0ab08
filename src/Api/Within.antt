-- ===== src/Api/Within.antt =====
-- core/ratelimit.py: logs of admitted times, by what they show in a span.
use dsa_api.Base.{◌≤◌, ◌≡◌, ◌≢◌, refl, Bool, true, false, List, ◌∷◌, arith, if◌then◌else◌}
use dsa_api.RateLimit.Zset.{Tick}
use dsa_api.RateLimit.Check.{LimitConfig}
use dsa_api.RateLimit.Window.{in_span}

false-true : false ≢ true
false-true h = cc

-- A log that shows no more than another in the span from `t` on.
abbrev pub Within : LimitConfig → Tick → List Tick → List Tick → Type 0
Within cfg t log more = in_span cfg t log ≤ in_span cfg t more

Within-cons :
    (cfg : LimitConfig) (t now : Tick) (log more : List Tick)
    → Within cfg t log more
    → Within cfg t (now ∷ log) (now ∷ more)
unfolding in_span
Within-cons cfg t now log more h = ground arith

Within-skip :
    (cfg : LimitConfig) (t now : Tick) (log more : List Tick)
    → Within cfg t log more
    → Within cfg t log (now ∷ more)
unfolding in_span
Within-skip cfg t now log more h = ground arith

-- What is logged if a request got through is no more than what is logged if its check allowed it.
pub Within-step :
    (cfg : LimitConfig) (t now : Tick) (through allowed : Bool) (log more : List Tick)
    → (through ≡ true → allowed ≡ true)
    → Within cfg t log more
    → Within cfg t (if through then now ∷ log else log) (if allowed then now ∷ more else more)
Within-step cfg t now true true log more i h = Within-cons cfg t now log more h
Within-step cfg t now false true log more i h = Within-skip cfg t now log more h
Within-step cfg t now false false log more i h = h
Within-step cfg t now true false log more i h = absurd (false-true (i refl))
