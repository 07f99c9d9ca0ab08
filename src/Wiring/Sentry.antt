-- ===== src/Wiring/Sentry.antt =====
-- core/observability.py, `init_sentry`.
use dsa_api.Base.{ℕ, Bool, false, Option, none, some, if◌then◌else◌}
use dsa_api.Text.{Text, is_empty}
use dsa_api.Settings.Fields.{Settings}

-- The arguments of `sentry_sdk.init`; the sample rate in tenths.
pub record SentryInit : Type 0 where
  pub dsn : Text
  pub environment : Text
  pub traces_sample_rate : ℕ
  pub send_default_pii : Bool

abbrev pub init_with : Settings → Option Text → Option SentryInit
init_with settings none = none
init_with settings (some dsn) =
    if is_empty dsn
    then none
    else some (record {
      dsn = dsn;
      environment = settings.environment;
      traces_sample_rate = 1;
      send_default_pii = false;
    })

-- The call of `sentry_sdk.init`, if one is made.
unfoldable pub init_sentry : Settings → Option SentryInit
init_sentry settings = init_with settings settings.sentry_dsn
