-- ===== src/Api/Creation.antt =====
-- apps/api/main.py, `create_app`: what the application is made of.
use dsa_api.Base.{Bool, false, Option, none, some, List, [], ◌∷◌, ◌++◌, if◌then◌else◌}
use dsa_api.Text.{Text, text, is_empty}
use dsa_api.Settings.Fields.{Settings}
use dsa_api.Wiring.Sentry.{SentryInit, init_sentry}
use dsa_api.RateLimit.Check.{LimitConfig}
use dsa_api.Api.Meter.{minute_limit, day_limit}
use dsa_api.Api.Probes.{app_version}

-- The arguments of the CORS middleware.
pub record CorsOptions : Type 0 where
  pub allow_origins : List Text
  pub allow_methods : List Text
  pub allow_headers : List Text
  pub allow_credentials : Bool
  pub expose_headers : List Text

pub record Application : Type 0 where
  pub sentry : Option SentryInit
  pub title : Text
  pub description : Text
  pub version : Text
  pub minute : LimitConfig
  pub day : LimitConfig
  pub source_url : Text
  pub disclaimer : Text
  pub cors : CorsOptions

abbrev pub description_start : Text
description_start =
    text "Machine-readable mirror of the EU Trusted Flaggers register "
    ++ text "(DSA Article 22(5)). Not a source of truth — see X-Source-URL."

-- The invitation to the waitlist, where there is one.
abbrev pub invitation : Option Text → Text
invitation none = []
invitation (some url) =
    if is_empty url
    then []
    else (10 ∷ 10 ∷ text "🔔 **Coming soon — Pro tier:** webhooks on register changes, ")
      ++ (text "point-in-time audit, bulk export, and higher rate limits. "
          ++ (text "[Join the waitlist](" ++ (url ++ text ").")))

unfoldable pub create_app : Settings → Application
create_app settings = record {
  sentry = init_sentry settings;
  title = text "DSA Trusted Flaggers API";
  description = description_start ++ invitation settings.waitlist_url;
  version = app_version;
  minute = minute_limit settings.rate_limit_per_minute;
  day = day_limit settings.rate_limit_per_day;
  source_url = settings.source_url;
  disclaimer = settings.disclaimer;
  cors = record {
    allow_origins = text "*" ∷ [];
    allow_methods = text "GET" ∷ text "POST" ∷ text "OPTIONS" ∷ [];
    allow_headers = text "*" ∷ [];
    allow_credentials = false;
    expose_headers =
        text "X-Source-URL"
        ∷ text "X-Disclaimer"
        ∷ text "X-Data-Updated-At"
        ∷ text "X-RateLimit-Limit"
        ∷ text "X-RateLimit-Window-Seconds"
        ∷ [];
  };
}
