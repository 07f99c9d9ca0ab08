-- ===== src/Api/Meter.antt =====
-- apps/api/main.py, the middleware `rate_limit`: the two limits of a client, over the keys that
-- core/ratelimit.py makes in Redis.
use dsa_api.Base.{
  ℕ, Bool, true, false, ◌&&◌, not, Option, none, some, List, [], ◌∷◌, ◌++◌, Dict, get, put,
  if◌then◌else◌,
}
use dsa_api.Text.{Text, text, text_discrete, starts_with}
use dsa_api.RateLimit.Zset.{Tick, Zset, no_key}
use dsa_api.RateLimit.Check.{LimitConfig, LimitDecision, check_limit}
use dsa_api.Api.Http.{Request, Response, digits}
use dsa_api.Api.Client.{client_ip}

-- Redis, as far as the limiter uses it.
abbrev pub Store : Type 0
Store = Dict Text Zset

-- `_key("rl", ip, cfg)`
unfoldable pub key_of : LimitConfig → Text → Text
key_of cfg ip = text "rl" ++ (text ":" ++ (cfg.name ++ (text ":" ++ ip)))

abbrev pub or_no_key : Option Zset → Zset
or_no_key none = no_key
or_no_key (some z) = z

unfoldable pub zset_at : Text → Store → Zset
zset_at key redis = or_no_key (get text_discrete key redis)

-- `check_limit(redis, ip, cfg)` at its time, with its random token.
unfoldable pub check_key : LimitConfig → Text → Tick × ℕ → Store → Store × LimitDecision
check_key cfg ip (now, token) redis =
    let key = key_of cfg ip in
    let (z, decision) = check_limit cfg now token (zset_at key redis) in
    (put text_discrete key z redis, decision)

-- A request with the times and tokens that its checks would have.
pub record Arrival : Type 0 where
  pub request : Request
  pub at_minute : Tick × ℕ
  pub at_day : Tick × ℕ

-- `request.url.path in unmetered_paths`
unfoldable pub is_unmetered : Text → Bool
is_unmetered path = elim (text_discrete path (text "/v1/health")) [
  | yes _ ↦ true
  | no _ ↦ elim (text_discrete path (text "/v1/version")) [ yes _ ↦ true | no _ ↦ false ]
]

unfoldable pub is_metered : Text → Bool
is_metered path = starts_with (text "/v1/") path && not (is_unmetered path)

-- The body is that of the refusal, or that of the next handler.
pub data Content (B : Type 0) : Type 0 where
  exceeded : LimitConfig → Content B
  served : B → Content B

module _ {B : Type 0} where
  -- The 429, with the limit's name, maximum and window in its body.
  unfoldable pub refusal : LimitDecision → Response (Content B)
  refusal decision = record {
    status = 429;
    content = exceeded decision.config;
    headers = (text "Retry-After", digits decision.retry_after) ∷ [];
  }

  -- The response of the next handler, passed on.
  unfoldable pub passed : Response B → Response (Content B)
  passed next = record {
    status = next.status;
    content = served next.content;
    headers = next.headers;
  }

  -- The two headers on the headroom of the minute.
  unfoldable pub with_limits : LimitConfig → Response (Content B) → Response (Content B)
  with_limits minute r = record r {
    headers =
        put text_discrete (text "X-RateLimit-Window-Seconds") (digits minute.window_seconds)
          (put text_discrete (text "X-RateLimit-Limit") (digits minute.max_requests) r.headers);
  }

-- The checks of the two limits, one after the other, up to the first that refuses.
unfoldable pub run_checks :
    List (LimitConfig × Tick × ℕ) → Text → Store → Store × Option LimitDecision
run_checks [] ip redis = (redis, none)
run_checks ((cfg, now, token) ∷ rest) ip redis =
    let checked = check_key cfg ip (now, token) redis in
    let further = run_checks rest ip checked.0 in
    if checked.1.allowed then further else (checked.0, some checked.1)

-- The two limits of `create_app`, by the numbers of the settings.
abbrev pub minute_limit : ℕ → LimitConfig
minute_limit per_minute = record {
  name = text "minute";
  window_seconds = 60;
  max_requests = per_minute;
}

abbrev pub day_limit : ℕ → LimitConfig
day_limit per_day = record { name = text "day"; window_seconds = 86400; max_requests = per_day }

abbrev pub checks_of : ℕ → ℕ → Arrival → List (LimitConfig × Tick × ℕ)
checks_of per_minute per_day a =
    (minute_limit per_minute, a.at_minute.0, a.at_minute.1)
    ∷ (day_limit per_day, a.at_day.0, a.at_day.1)
    ∷ []

module _ {B : Type 0} (per_minute per_day : ℕ) where
  -- The end of the middleware: the refusal, or the next handler's response with two headers.
  abbrev pub answered : Response B → Option LimitDecision → Response (Content B)
  answered next none = with_limits (minute_limit per_minute) (passed next)
  answered next (some decision) = refusal decision

  -- `next` is what `call_next(request)` would give.
  unfoldable pub rate_limit : Arrival → Response B → Store → Store × Response (Content B)
  rate_limit a next redis =
      let checked = run_checks (checks_of per_minute per_day a) (client_ip a.request) redis in
      if is_metered a.request.path
      then (checked.0, answered next checked.1)
      else (redis, passed next)
