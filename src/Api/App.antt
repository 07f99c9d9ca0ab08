-- ===== src/Api/App.antt =====
-- apps/api/main.py, `create_app`: a request through the middlewares, the one that was added last
-- outside: CORS, the source headers, the limiter, and the routes. Redis may be down, and a route may
-- raise.
use dsa_api.Base.{Option, none, some, [], ◌∷◌, if◌then◌else◌}
use dsa_api.Text.{Text}
use dsa_api.RateLimit.Check.{LimitDecision}
use dsa_api.Api.Http.{Request, Response}
use dsa_api.Api.Client.{client_ip}
use dsa_api.Api.Meter.{
  Store, Arrival, is_metered, Content, refusal, passed, with_limits, run_checks,
}
use dsa_api.Api.Probes.{Call, gave, raised, add_source_headers}
use dsa_api.Api.Creation.{Application}

-- The first trip to a Redis that is down raises.
pub data Redis : Type 0 where
  up : Store → Redis
  down : Redis

abbrev pub if_gave : {A B : Type 0} → (A → B) → Call A → Call B
if_gave f (gave a) = gave (f a)
if_gave f raised = raised

-- The middleware of CORS: the answer to a preflight request, which it does not pass on, and what it
-- makes of any other response.
pub record Cors (B : Type 0) : Type 0 where
  pub preflight : Request → Option (Response (Content B))
  pub simple : Request → Response (Content B) → Response (Content B)

-- The read of the time stamp, where Redis is there.
abbrev pub stamp_from : Redis → Call (Option Text) → Call (Option Text)
stamp_from (up store) stamp = stamp
stamp_from down stamp = raised

module _ (app : Application) where
  abbrev pub checks_for : Arrival → Store → Store × Option LimitDecision
  checks_for a redis =
      run_checks
        ((app.minute, a.at_minute.0, a.at_minute.1) ∷ (app.day, a.at_day.0, a.at_day.1) ∷ [])
        (client_ip a.request) redis

module _ {B : Type 0} (app : Application) where
  abbrev pub limited : Option LimitDecision → Call (Response B) → Call (Response (Content B))
  limited (some decision) next = gave (refusal decision)
  limited none next = if_gave (λ r. with_limits app.minute (passed r)) next

  abbrev pub metered : Arrival → Call (Response B) → Redis → Redis × Call (Response (Content B))
  metered a next (up redis) =
      let checked = checks_for app a redis in (up checked.0, limited checked.1 next)
  metered a next down = (down, raised)

  -- `rate_limit`
  unfoldable pub through_limiter :
      Arrival → Call (Response B) → Redis → Redis × Call (Response (Content B))
  through_limiter a next redis =
      if is_metered a.request.path then metered a next redis else (redis, if_gave passed next)

  -- `add_source_headers`, which an exception of the limiter or the route goes past.
  unfoldable pub through_headers :
      Call (Option Text) → Redis → Call (Response (Content B)) → Call (Response (Content B))
  through_headers stamp redis response =
      if_gave (add_source_headers app.source_url app.disclaimer (stamp_from redis stamp)) response

  abbrev pub unless_preflight :
      Option (Response (Content B))
      → Cors B
      → Arrival
      → Call (Option Text)
      → Call (Response B)
      → Redis
      → Redis × Call (Response (Content B))
  unless_preflight (some answer) cors a stamp next redis = (redis, gave answer)
  unless_preflight none cors a stamp next redis =
      let out = through_limiter a next redis in
      (out.0, if_gave (cors.simple a.request) (through_headers stamp out.0 out.1))

  -- `next` is what the route does, and `stamp` what the read of the time stamp does.
  unfoldable pub respond :
      Cors B
      → Arrival
      → Call (Option Text)
      → Call (Response B)
      → Redis
      → Redis × Call (Response (Content B))
  respond cors a stamp next redis =
      unless_preflight (cors.preflight a.request) cors a stamp next redis

  -- The framework's answer to an exception, which it gives outside the three middlewares.
  abbrev pub answer_or : Response (Content B) → Call (Response (Content B)) → Response (Content B)
  answer_or server_error (gave r) = r
  answer_or server_error raised = server_error

  -- What the client gets of the application.
  unfoldable pub serve :
      Response (Content B)
      → Cors B
      → Arrival
      → Call (Option Text)
      → Call (Response B)
      → Redis
      → Redis × Response (Content B)
  serve server_error cors a stamp next redis =
      let out = respond cors a stamp next redis in (out.0, answer_or server_error out.1)
