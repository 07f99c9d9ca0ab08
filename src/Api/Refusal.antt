-- ===== src/Api/Refusal.antt =====
-- apps/api/main.py, `rate_limit`: what a request gets and which windows it uses, on every branch.
use dsa_api.Base.{
  ℕ, ◌≡◌, ◌≢◌, refl, sym, ap, ◌∙◌, Bool, true, false, Option, none, some, put, get-put_self,
  get-put_ne, drop, arith, Bool-cases, inl, inr, if◌then◌else◌,
}
use dsa_api.Text.{Text, text_discrete}
use dsa_api.RateLimit.Zset.{Zset}
use dsa_api.RateLimit.Check.{LimitDecision, check_limit}
use dsa_api.Api.Http.{Response}
use dsa_api.Api.Client.{client_ip}
use dsa_api.Api.Meter.{
  Store, key_of, or_no_key, zset_at, check_key, Arrival, is_metered, refusal, passed, with_limits,
  run_checks, minute_limit, day_limit, checks_of, answered, rate_limit,
}

pub zset_at-put_self :
    (key : Text) (z : Zset) (redis : Store) → zset_at key (put text_discrete key z redis) ≡ z
unfolding zset_at
zset_at-put_self key z redis = ap or_no_key (get-put_self text_discrete key z redis)

pub zset_at-put_ne :
    (key other : Text) (z : Zset) (redis : Store)
    → key ≢ other
    → zset_at other (put text_discrete key z redis) ≡ zset_at other redis
unfolding zset_at
zset_at-put_ne key other z redis h = ap or_no_key (get-put_ne text_discrete key other z redis h)

pub minute-ne-day :
    (per_minute per_day : ℕ) (ip other : Text)
    → key_of (minute_limit per_minute) ip ≢ key_of (day_limit per_day) other
unfolding key_of
minute-ne-day per_minute per_day ip other h = ground arith

pub key_of_injective :
    (per_minute : ℕ) (ip other : Text)
    → key_of (minute_limit per_minute) ip ≡ key_of (minute_limit per_minute) other
    → ip ≡ other
unfolding key_of
key_of_injective per_minute ip other h = ap (drop 10) h

-- The store and the refusal that two checks end in, by whether each allows.
abbrev settled :
    (minute day : Text) (zm zd : Zset) (dm dd : LimitDecision)
    → Bool
    → Bool
    → Store
    → Store × Option LimitDecision
settled minute day zm zd dm dd true c redis =
    (put text_discrete day zd (put text_discrete minute zm redis), if c then none else some dd)
settled minute day zm zd dm dd false c redis = (put text_discrete minute zm redis, some dm)

settled_ifs :
    (minute day : Text) (zm zd : Zset) (dm dd : LimitDecision) (b c : Bool) (redis : Store)
    → (if b
        then (if c
            then (put text_discrete day zd (put text_discrete minute zm redis), none)
            else (put text_discrete day zd (put text_discrete minute zm redis), some dd))
        else (put text_discrete minute zm redis, some dm))
      ≡ settled minute day zm zd dm dd b c redis
settled_ifs minute day zm zd dm dd true true redis = refl
settled_ifs minute day zm zd dm dd true false redis = refl
settled_ifs minute day zm zd dm dd false c redis = refl

-- What the response and the two keys are after that.
settled_lem :
    {B : Type 0} (per_minute per_day : ℕ) (next : Response B) (minute day : Text) (zm zd : Zset)
    (dm dd : LimitDecision) (b c : Bool) (redis : Store)
    → minute ≢ day
    → (answered per_minute per_day next (settled minute day zm zd dm dd b c redis).1 ≡ (
        if b
        then (if c then with_limits (minute_limit per_minute) (passed next) else refusal dd)
        else refusal dm))
      × (zset_at minute (settled minute day zm zd dm dd b c redis).0 ≡ zm)
      × (zset_at day (settled minute day zm zd dm dd b c redis).0
          ≡ (if b then zd else zset_at day redis))
settled_lem per_minute per_day next minute day zm zd dm dd false c redis h =
    (refl, zset_at-put_self minute zm redis, zset_at-put_ne minute day zm redis h)
settled_lem per_minute per_day next minute day zm zd dm dd true true redis h = (
  refl,
  zset_at-put_ne day minute zd _ (λ e. h (sym e)) ∙ zset_at-put_self minute zm redis,
  zset_at-put_self day zd _,
)
settled_lem per_minute per_day next minute day zm zd dm dd true false redis h = (
  refl,
  zset_at-put_ne day minute zd _ (λ e. h (sym e)) ∙ zset_at-put_self minute zm redis,
  zset_at-put_self day zd _,
)

-- The two checks of a request, both on the store as it finds it.
abbrev pub minute_check : ℕ → Arrival → Store → Zset × LimitDecision
minute_check per_minute a redis =
    check_limit (minute_limit per_minute) a.at_minute.0 a.at_minute.1
      (zset_at (key_of (minute_limit per_minute) (client_ip a.request)) redis)

abbrev pub day_check : ℕ → Arrival → Store → Zset × LimitDecision
day_check per_day a redis =
    check_limit (day_limit per_day) a.at_day.0 a.at_day.1
      (zset_at (key_of (day_limit per_day) (client_ip a.request)) redis)

module _ {B : Type 0} (per_minute per_day : ℕ) (a : Arrival) (next : Response B)
    (redis : Store) where
  run_checks_lem :
      run_checks (checks_of per_minute per_day a) (client_ip a.request) redis
      ≡ settled
          (key_of (minute_limit per_minute) (client_ip a.request))
          (key_of (day_limit per_day) (client_ip a.request))
          (minute_check per_minute a redis).0
          (day_check per_day a redis).0
          (minute_check per_minute a redis).1
          (day_check per_day a redis).1
          (minute_check per_minute a redis).1.allowed
          (day_check per_day a redis).1.allowed
          redis
  unfolding run_checks check_key
  run_checks_lem =
      rw
        (zset_at-put_ne (key_of (minute_limit per_minute) (client_ip a.request))
          (key_of (day_limit per_day) (client_ip a.request)) (minute_check per_minute a redis).0
          redis (minute-ne-day per_minute per_day (client_ip a.request) (client_ip a.request)))
        (settled_ifs (key_of (minute_limit per_minute) (client_ip a.request))
          (key_of (day_limit per_day) (client_ip a.request)) (minute_check per_minute a redis).0
          (day_check per_day a redis).0 (minute_check per_minute a redis).1
          (day_check per_day a redis).1 (minute_check per_minute a redis).1.allowed
          (day_check per_day a redis).1.allowed redis)

  pub unmetered_lem :
      is_metered a.request.path ≡ false
      → rate_limit per_minute per_day a next redis ≡ (redis, passed next)
  unfolding rate_limit
  unmetered_lem h = rw h refl

  -- A metered request gets the response of its route, with the headers on the limit, exactly as
  -- both checks allow it; the check of the day is made, and its key changed, only if the check
  -- of the minute allows; otherwise the refusal is that of the check that refused.
  pub rate_limit_lem :
      is_metered a.request.path ≡ true
      → ((rate_limit per_minute per_day a next redis).1 ≡ (
          if (minute_check per_minute a redis).1.allowed
          then (if (day_check per_day a redis).1.allowed
              then with_limits (minute_limit per_minute) (passed next)
              else refusal (day_check per_day a redis).1)
          else refusal (minute_check per_minute a redis).1))
        × (zset_at
              (key_of (minute_limit per_minute) (client_ip a.request))
              (rate_limit per_minute per_day a next redis).0
            ≡ (minute_check per_minute a redis).0)
        × (zset_at
              (key_of (day_limit per_day) (client_ip a.request))
              (rate_limit per_minute per_day a next redis).0
            ≡ (if (minute_check per_minute a redis).1.allowed
                then (day_check per_day a redis).0
                else zset_at (key_of (day_limit per_day) (client_ip a.request)) redis))
  unfolding rate_limit
  rate_limit_lem h =
      rw (h, run_checks_lem)
        (settled_lem per_minute per_day next
          (key_of (minute_limit per_minute) (client_ip a.request))
          (key_of (day_limit per_day) (client_ip a.request)) (minute_check per_minute a redis).0
          (day_check per_day a redis).0 (minute_check per_minute a redis).1
          (day_check per_day a redis).1 (minute_check per_minute a redis).1.allowed
          (day_check per_day a redis).1.allowed redis
          (minute-ne-day per_minute per_day (client_ip a.request) (client_ip a.request)))

  settled-other :
      (minute day key : Text) (zm zd : Zset) (dm dd : LimitDecision) (b c : Bool)
      → minute ≢ key
      → day ≢ key
      → zset_at key (settled minute day zm zd dm dd b c redis).0 ≡ zset_at key redis
  settled-other minute day key zm zd dm dd false c h g = zset_at-put_ne minute key zm redis h
  settled-other minute day key zm zd dm dd true c h g =
      zset_at-put_ne day key zd _ g ∙ zset_at-put_ne minute key zm redis h

  -- The keys of others stay as they are.
  pub rate_limit-other :
      (key : Text)
      → key_of (minute_limit per_minute) (client_ip a.request) ≢ key
      → key_of (day_limit per_day) (client_ip a.request) ≢ key
      → zset_at key (rate_limit per_minute per_day a next redis).0 ≡ zset_at key redis
  unfolding rate_limit
  rate_limit-other key h g = elim (Bool-cases (is_metered a.request.path)) [
    | inl e ↦
        rw (e, run_checks_lem)
          (settled-other (key_of (minute_limit per_minute) (client_ip a.request))
            (key_of (day_limit per_day) (client_ip a.request)) key
            (minute_check per_minute a redis).0 (day_check per_day a redis).0
            (minute_check per_minute a redis).1 (day_check per_day a redis).1
            (minute_check per_minute a redis).1.allowed (day_check per_day a redis).1.allowed h g)
    | inr e ↦ rw e refl
  ]
