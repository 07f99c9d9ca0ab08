-- ===== src/Api/Quota.antt =====
-- apps/api/main.py, `rate_limit`, with core/ratelimit.py: what a client can get through in a minute.
use dsa_api.Base.{
  ℕ, ◌≤◌, ◌≡◌, refl, sym, ap, subst, ◌∙◌, Bool, true, false, ◌&&◌, List, [], ◌∷◌, get, arith,
  Bool-cases, inl, inr, if◌then◌else◌,
}
use dsa_api.Text.{Text, text_discrete}
use dsa_api.RateLimit.Zset.{Tick, no_key}
use dsa_api.RateLimit.Check.{LimitDecision, check_limit}
use dsa_api.RateLimit.Window.{in_span}
use dsa_api.RateLimit.Spans.{IsForward, admitted, admitted-le_max}
use dsa_api.Api.Within.{Within, Within-step}
use dsa_api.Api.Http.{Response}
use dsa_api.Api.Client.{client_ip}
use dsa_api.Api.Meter.{
  Store, key_of, zset_at, Arrival, is_metered, Content, exceeded, served, refusal, passed,
  with_limits, minute_limit, rate_limit,
}
use dsa_api.Api.Refusal.{
  minute_check, day_check, minute-ne-day, key_of_injective, unmetered_lem, rate_limit_lem,
  rate_limit-other,
}

abbrev pub is_served : {B : Type 0} → Content B → Bool
is_served (exceeded cfg) = false
is_served (served b) = true

-- A request that is metered under this address.
unfoldable pub is_from : Text → Arrival → Bool
is_from ip a = elim (text_discrete (client_ip a.request) ip) [
  | yes _ ↦ is_metered a.request.path
  | no _ ↦ false
]

-- The requests of one address, in their order, with the times and tokens of their checks.
abbrev pub checks_by : {B : Type 0} → Text → List (Arrival × Response B) → List (Tick × ℕ)
checks_by ip [] = []
checks_by ip ((a, next) ∷ rest) =
    if is_from ip a then a.at_minute ∷ checks_by ip rest else checks_by ip rest

fresh_key : (key : Text) → zset_at key [] ≡ no_key
unfolding zset_at get
fresh_key key = refl

is_from_parts :
    (ip : Text) (a : Arrival)
    → is_from ip a ≡ true
    → (client_ip a.request ≡ ip) × (is_metered a.request.path ≡ true)
unfolding is_from
is_from_parts ip a h = ground arith

is_from-unmetered :
    (ip : Text) (a : Arrival)
    → client_ip a.request ≡ ip
    → is_from ip a ≡ false
    → is_metered a.request.path ≡ false
unfolding is_from
is_from-unmetered ip a p h = ground arith

module _ {B : Type 0} (per_minute per_day : ℕ) (ip : Text) where
  -- The times, newest first, at which requests of one address got through, over a run of requests.
  unfoldable pub served_times : Store → List Tick → List (Arrival × Response B) → List Tick
  served_times redis log [] = log
  served_times redis log ((a, next) ∷ rest) =
      served_times (rate_limit per_minute per_day a next redis).0
        (if is_from ip a && is_served (rate_limit per_minute per_day a next redis).1.content
          then a.at_minute.0 ∷ log
          else log)
        rest

  served_of :
      (next : Response B) (dm dd : LimitDecision) (b c : Bool)
      → is_served
          (if b
            then (if c then with_limits (minute_limit per_minute) (passed next) else refusal dd)
            else refusal dm).content
        ≡ true
      → b ≡ true
  unfolding refusal
  served_of next dm dd true c h = refl
  served_of next dm dd false c h = h

  served_allows :
      (a : Arrival) (next : Response B) (redis : Store)
      → is_metered a.request.path ≡ true
      → is_served (rate_limit per_minute per_day a next redis).1.content ≡ true
      → (minute_check per_minute a redis).1.allowed ≡ true
  served_allows a next redis metered h =
      served_of next (minute_check per_minute a redis).1 (day_check per_day a redis).1
        (minute_check per_minute a redis).1.allowed (day_check per_day a redis).1.allowed
        (ap (λ (r : Response (Content B)). is_served r.content)
            (sym (rate_limit_lem per_minute per_day a next redis metered).0)
          ∙ h)

  -- What one request of the address leaves of its key, and when it can have got through.
  key_after :
      (a : Arrival) (next : Response B) (redis : Store)
      → is_from ip a ≡ true
      → zset_at (key_of (minute_limit per_minute) ip) (rate_limit per_minute per_day a next redis).0
        ≡ (check_limit
            (minute_limit per_minute)
            a.at_minute.0
            a.at_minute.1
            (zset_at (key_of (minute_limit per_minute) ip) redis)).0
  key_after a next redis h =
      let (same, metered) = is_from_parts ip a h in
      subst
        (λ who.
          zset_at (key_of (minute_limit per_minute) who)
            (rate_limit per_minute per_day a next redis).0
          ≡ (check_limit (minute_limit per_minute) a.at_minute.0 a.at_minute.1
              (zset_at (key_of (minute_limit per_minute) who) redis)).0)
        same (rate_limit_lem per_minute per_day a next redis metered).1

  through_allowed :
      (a : Arrival) (next : Response B) (redis : Store)
      → is_from ip a ≡ true
      → is_served (rate_limit per_minute per_day a next redis).1.content ≡ true
      → (check_limit
          (minute_limit per_minute)
          a.at_minute.0
          a.at_minute.1
          (zset_at (key_of (minute_limit per_minute) ip) redis)).1.allowed
        ≡ true
  through_allowed a next redis h through =
      let (same, metered) = is_from_parts ip a h in
      subst
        (λ who.
          (check_limit (minute_limit per_minute) a.at_minute.0 a.at_minute.1
            (zset_at (key_of (minute_limit per_minute) who) redis)).1.allowed
          ≡ true)
        same (served_allows a next redis metered through)

  -- A request of another address, or one that is not metered, leaves the key alone.
  key_untouched :
      (a : Arrival) (next : Response B) (redis : Store)
      → is_from ip a ≡ false
      → zset_at (key_of (minute_limit per_minute) ip) (rate_limit per_minute per_day a next redis).0
        ≡ zset_at (key_of (minute_limit per_minute) ip) redis
  key_untouched a next redis h = elim (text_discrete (client_ip a.request) ip) [
    | yes p ↦
        ap
          (λ (out : Store × Response (Content B)).
            zset_at (key_of (minute_limit per_minute) ip) out.0)
          (unmetered_lem per_minute per_day a next redis (is_from-unmetered ip a p h))
    | no q ↦
        rate_limit-other per_minute per_day a next redis (key_of (minute_limit per_minute) ip)
          (λ e. q (key_of_injective per_minute (client_ip a.request) ip e))
          (λ e. minute-ne-day per_minute per_day ip (client_ip a.request) (sym e))
  ]

  served-Within :
      (t : Tick) (redis : Store) (log more : List Tick) (run : List (Arrival × Response B))
      → Within (minute_limit per_minute) t log more
      → Within (minute_limit per_minute) t (served_times redis log run) (
          admitted
            (minute_limit per_minute)
            (zset_at (key_of (minute_limit per_minute) ip) redis)
            more
            (checks_by ip run))
  unfolding served_times admitted
  served-Within t redis log more [] h = h
  served-Within t redis log more ((a, next) ∷ rest) h = elim (Bool-cases (is_from ip a)) [
    | inl e ↦ rw e (
        subst
          (λ z.
            Within (minute_limit per_minute) t
              (served_times (rate_limit per_minute per_day a next redis).0
                (if is_served (rate_limit per_minute per_day a next redis).1.content
                  then a.at_minute.0 ∷ log
                  else log)
                rest)
              (admitted (minute_limit per_minute) z
                (if (check_limit (minute_limit per_minute) a.at_minute.0 a.at_minute.1
                    (zset_at (key_of (minute_limit per_minute) ip) redis)).1.allowed
                  then a.at_minute.0 ∷ more
                  else more)
                (checks_by ip rest)))
          (key_after a next redis e)
          (served-Within t (rate_limit per_minute per_day a next redis).0 _ _ rest (
            Within-step (minute_limit per_minute) t a.at_minute.0
              (is_served (rate_limit per_minute per_day a next redis).1.content)
              (check_limit (minute_limit per_minute) a.at_minute.0 a.at_minute.1
                (zset_at (key_of (minute_limit per_minute) ip) redis)).1.allowed
              log more (through_allowed a next redis e) h)))
    | inr e ↦ rw e (
        subst
          (λ z.
            Within (minute_limit per_minute) t
              (served_times (rate_limit per_minute per_day a next redis).0 log rest)
              (admitted (minute_limit per_minute) z more (checks_by ip rest)))
          (key_untouched a next redis e)
          (served-Within t (rate_limit per_minute per_day a next redis).0 log more rest h))
  ]

  -- However requests of any clients arrive, as long as the clock of the checks of an address
  -- does not run backwards, no minute holds more metered requests of that address that get
  -- through than the maximum per minute, starting with an empty Redis.
  pub served-le_max :
      (t start : Tick) (run : List (Arrival × Response B))
      → IsForward start (checks_by ip run)
      → in_span (minute_limit per_minute) t (served_times [] [] run) ≤ per_minute
  served-le_max t start run forward = omega (
    arith,
    subst
        (λ z.
          Within (minute_limit per_minute) t (served_times [] [] run)
            (admitted (minute_limit per_minute) z [] (checks_by ip run)))
        (fresh_key (key_of (minute_limit per_minute) ip))
        (served-Within t [] [] [] run (omega arith)),
    admitted-le_max (minute_limit per_minute) t start (checks_by ip run) forward,
  )
