-- ===== src/Api/Tests.antt =====
-- The middleware on a client at its limit, on another one, and on a probe.
use dsa_api.Base.{
  ◌⊎◌, false, ℕ, ◌≤◌, ◌≡◌, ◌≢◌, refl, Bool, true, false, Option, none, some, List, [], ◌∷◌, get,
  put, get-put_ne, arith, if◌then◌else◌,
}
use dsa_api.Text.{Text, text, text_discrete, strip, lstrip, rstrip, is_space, starts_with, break_at}
use dsa_api.RateLimit.Zset.{live, zremrangebyscore, zcard, insert, zadd, expire, zrange_first}
use dsa_api.RateLimit.Check.{read_phase, write_phase, check_limit}
use dsa_api.RateLimit.Window.{in_span}
use dsa_api.Api.Http.{Request, Response, value, digits}
use dsa_api.Api.Client.{first_hop, client_ip}
use dsa_api.Api.Meter.{
  Store, Content, served, key_of, zset_at, check_key, Arrival, is_unmetered, is_metered, refusal,
  passed, with_limits, run_checks, minute_limit, day_limit, rate_limit,
}
use dsa_api.Api.Refusal.{minute_check, day_check, rate_limit_lem}
use dsa_api.Api.Quota.{is_from}
use dsa_api.Api.Visits.{Visit, through_times}
use dsa_api.Api.Throughput.{through_times-le_max}
use dsa_api.Settings.Fields.{Settings}
use dsa_api.Settings.Examples.{settings_at}
use dsa_api.Api.Probes.{Call, gave, raised, add_source_headers}
use dsa_api.Wiring.Sentry.{init_sentry}
use dsa_api.Api.Creation.{Application, create_app}
use dsa_api.Api.App.{serve, up, down, Cors, through_limiter, through_headers, respond}
use dsa_api.Api.Headed.{IsHeaded, KeepsHeaders, respond-IsHeaded}
use dsa_api.Api.Outage.{passes, used, respond-answers}

program : Unit {0}
unfolding get put text_discrete strip lstrip rstrip is_space starts_with break_at live
    zremrangebyscore zcard insert zadd expire zrange_first read_phase write_phase check_limit
    in_span first_hop client_ip key_of zset_at check_key is_unmetered is_metered refusal passed
    with_limits run_checks rate_limit is_from add_source_headers init_sentry create_app
    through_limiter through_headers respond
program = tt

abbrev request_of : Text → Text → Request
request_of path ip = record {
  method = text "GET";
  path = path;
  headers = (text "x-forwarded-for", ip) ∷ [];
  client = some (text "10.0.0.1");
}

abbrev arrival : Text → Text → ℕ → Arrival
arrival path ip now = record {
  request = request_of path ip;
  at_minute = (now, now);
  at_day = (now, now);
}

abbrev page : Response ℕ
page = record { status = 200; content = 5; headers = [] }

abbrev stats_path : Text
stats_path = text "/v1/stats"

forwarded-client_ip : client_ip (request_of stats_path (text " 1.2.3.4 , 5.6.7.8")) ≡ text "1.2.3.4"
unfolding program
forwarded-client_ip = refl

abbrev first_request : Arrival
first_request = arrival stats_path (text "1.2.3.4") 100

abbrev after_first : Store
after_first = (rate_limit 1 10 first_request page []).0

-- The second request within the minute, at a limit of one.
second-refused :
    (rate_limit 1 10 (arrival stats_path (text "1.2.3.4") 200) page after_first).1.status ≡ 429
unfolding program
second-refused = refl

health-unmetered :
    rate_limit 1 10 (arrival (text "/v1/health") (text "1.2.3.4") 200) page after_first
    ≡ (after_first, passed page)
unfolding program
health-unmetered = refl

metered : is_metered stats_path ≡ true
unfolding program
metered = refl

rate_limit_lem_example :
    ((rate_limit 1 10 first_request page []).1 ≡ (
      if (minute_check 1 first_request []).1.allowed
      then (if (day_check 10 first_request []).1.allowed
          then with_limits (minute_limit 1) (passed page)
          else refusal (day_check 10 first_request []).1)
      else refusal (minute_check 1 first_request []).1))
    × (zset_at
          (key_of (minute_limit 1) (client_ip first_request.request))
          (rate_limit 1 10 first_request page []).0
        ≡ (minute_check 1 first_request []).0)
    × (zset_at
          (key_of (day_limit 10) (client_ip first_request.request))
          (rate_limit 1 10 first_request page []).0
        ≡ (if (minute_check 1 first_request []).1.allowed
            then (day_check 10 first_request []).0
            else zset_at (key_of (day_limit 10) (client_ip first_request.request)) []))
rate_limit_lem_example = rate_limit_lem 1 10 first_request page [] metered

abbrev app : Application
app = create_app (record (settings_at (text "db")) { rate_limit_per_minute = 1 })

abbrev allow_origin : Text
allow_origin = text "access-control-allow-origin"

-- No preflight, and one more header on every response.
abbrev open_cors : Cors ℕ
open_cors = record {
  preflight = λ request. none;
  simple = λ request r. record r {
    headers = put text_discrete allow_origin (value (text "*")) r.headers;
  };
}

other_name : (key : Text) → starts_with (text "X-") key ≡ true → allow_origin ≢ key
unfolding starts_with
other_name key h e = ground arith

open-KeepsHeaders : KeepsHeaders open_cors
open-KeepsHeaders request r key h =
    get-put_ne text_discrete allow_origin key _ r.headers (other_name key h)

abbrev stamp : Call (Option Text)
stamp = gave (some (text "now"))

abbrev first_response : Response (Content ℕ)
first_response = record {
  status = 200;
  content = served 5;
  headers =
      (text "X-RateLimit-Limit", digits 1)
      ∷ (text "X-RateLimit-Window-Seconds", digits 60)
      ∷ (text "X-Source-URL", value (text "https://x.eu"))
      ∷ (text "X-Disclaimer", value (text "none"))
      ∷ (text "X-Data-Updated-At", value (text "now"))
      ∷ (allow_origin, value (text "*"))
      ∷ [];
}

first_answered :
    (respond app open_cors first_request stamp (gave page) (up [])).1 ≡ gave first_response
unfolding program
first_answered = refl

outage-raises : (respond app open_cors first_request stamp (gave page) down).1 ≡ raised
unfolding program
outage-raises = refl

abbrev server_error : Response (Content ℕ)
server_error = record { status = 500; content = served 0; headers = [] }

respond-IsHeaded_example :
    ((passes app first_request (gave page) (up []) ≡ true)
      × IsHeaded app (serve app server_error open_cors first_request stamp (gave page) (up [])).1)
    ⊎ ((passes app first_request (gave page) (up []) ≡ false)
        × ((serve app server_error open_cors first_request stamp (gave page) (up [])).1
            ≡ server_error))
respond-IsHeaded_example =
    respond-IsHeaded app server_error open_cors first_request stamp (gave page) (up [])
      open-KeepsHeaders refl

-- With Redis down the answer comes from outside the middlewares, and bears no header of theirs.
unheaded : (serve app server_error open_cors first_request stamp (gave page) down).1 ≡ server_error
unfolding program serve
unheaded = refl

respond-answers_example :
    (((passes app first_request {B = ℕ} raised down ≡ true)
        × ((respond app open_cors first_request stamp raised down).1
            ≡ gave (serve app server_error open_cors first_request stamp raised down).1))
      ⊎ ((passes app first_request {B = ℕ} raised down ≡ false)
          × ((serve app server_error open_cors first_request stamp raised down).1 ≡ server_error)))
    × ((serve app server_error open_cors first_request stamp raised down).0
        ≡ (if is_metered first_request.request.path then used app first_request down else down))
respond-answers_example =
    respond-answers app first_request server_error open_cors stamp raised down refl

abbrev visit : Text → ℕ → Bool → Call (Response ℕ) → Visit ℕ
visit ip now reachable route = record {
  arrival = arrival stats_path ip now;
  reachable = reachable;
  stamp = stamp;
  route = route;
}

-- Two clients; Redis is down for the second request of the first, and its third one's route raises.
abbrev visits : List (Visit ℕ)
visits =
    visit (text "1.2.3.4") 100 true (gave page)
    ∷ visit (text "5.6.7.8") 150 true (gave page)
    ∷ visit (text "1.2.3.4") 200 false (gave page)
    ∷ visit (text "1.2.3.4") 300 true raised
    ∷ []

abbrev one_a_minute : Settings
one_a_minute = record (settings_at (text "db")) { rate_limit_per_minute = 1 }

through_times-le_max_example :
    in_span (minute_limit 1) 50 (through_times one_a_minute open_cors (text "1.2.3.4") [] [] visits)
    ≤ 1
unfolding program
through_times-le_max_example =
    through_times-le_max one_a_minute open_cors (text "1.2.3.4") 50 0 visits (λ request r. refl)
      (omega arith)
