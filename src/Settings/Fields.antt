-- ===== src/Settings/Fields.antt =====
-- core/config.py: the fields of the settings, their defaults, and `get_settings`.
use dsa_api.Base.{ℕ, Bool, false, Option, none, some, ◌++◌, ◌>>=◌}
use dsa_api.Text.{Text, text}
use dsa_api.Settings.Database.{UrlLib, normalize_database_url}

pub record Settings : Type 0 where
  pub environment : Text
  pub debug : Bool
  pub database_url : Text
  pub database_pool_size : ℕ
  pub database_max_overflow : ℕ
  pub redis_url : Text
  pub source_url : Text
  pub user_agent : Text
  pub sentry_dsn : Option Text
  pub waitlist_url : Option Text
  pub resend_api_key : Option Text
  pub resend_audience_id : Option Text
  pub waitlist_notify_email : Option Text
  pub slack_webhook_url : Option Text
  pub snapshot_dir : Text
  pub data_export_dir : Text
  pub data_export_remote : Option Text
  pub data_export_branch : Text
  pub data_export_committer_name : Text
  pub data_export_committer_email : Text
  pub rate_limit_per_minute : ℕ
  pub rate_limit_per_day : ℕ
  pub disclaimer : Text

-- The library of the settings: the value of a variable, of the process or of `.env`, by the prefix
-- and the name of its field, and the readings of a number and of a Boolean, which may be refused.
pub record Source : Type 0 where
  pub variable : Text → Option Text
  pub to_int : Text → Option ℕ
  pub to_bool : Text → Option Bool
  pub urls : UrlLib

abbrev pub or_default {ℓ} : {A : Type ℓ} → A → Option A → A
or_default a none = a
or_default a (some b) = b

-- A value that has to be read; it is not where it has its default.
abbrev pub read_or {ℓ} : {A : Type ℓ} → A → (Text → Option A) → Option Text → Option A
read_or a read none = some a
read_or a read (some s) = read s

module _ (env : Source) where
  -- `env_prefix`
  abbrev pub field : Text → Option Text
  field name = env.variable (text "DSA_" ++ name)

  -- `Settings()`: the address of the database passes its validator; nothing where an exception is
  -- raised for a field that is missing or cannot be read.
  unfoldable pub settings_of : Option Settings
  settings_of = do
    debug ← read_or false env.to_bool (field (text "debug"))
    database_url ← field (text "database_url")
    pool_size ← read_or 10 env.to_int (field (text "database_pool_size"))
    max_overflow ← read_or 20 env.to_int (field (text "database_max_overflow"))
    redis_url ← field (text "redis_url")
    per_minute ← read_or 60 env.to_int (field (text "rate_limit_per_minute"))
    per_day ← read_or 5000 env.to_int (field (text "rate_limit_per_day"))
    some (record {
      environment = or_default (text "development") (field (text "environment"));
      debug = debug;
      database_url = normalize_database_url env.urls database_url;
      database_pool_size = pool_size;
      database_max_overflow = max_overflow;
      redis_url = redis_url;
      source_url =
          or_default
            (text "https://digital-strategy.ec.europa.eu/en/policies/trusted-flaggers-under-dsa")
            (field (text "source_url"));
      user_agent =
          or_default (text "dsa-api-scraper/0.1 (+https://dsa-api.com)")
            (field (text "user_agent"));
      sentry_dsn = field (text "sentry_dsn");
      waitlist_url = field (text "waitlist_url");
      resend_api_key = field (text "resend_api_key");
      resend_audience_id = field (text "resend_audience_id");
      waitlist_notify_email = field (text "waitlist_notify_email");
      slack_webhook_url = field (text "slack_webhook_url");
      snapshot_dir = or_default (text "snapshots") (field (text "snapshot_dir"));
      data_export_dir = or_default (text "dsa-data") (field (text "data_export_dir"));
      data_export_remote = field (text "data_export_remote");
      data_export_branch = or_default (text "main") (field (text "data_export_branch"));
      data_export_committer_name =
          or_default (text "dsa-api bot") (field (text "data_export_committer_name"));
      data_export_committer_email =
          or_default (text "bot@dsa-api.com") (field (text "data_export_committer_email"));
      rate_limit_per_minute = per_minute;
      rate_limit_per_day = per_day;
      disclaimer =
          or_default (text "not-a-source-of-truth-see-source-url") (field (text "disclaimer"));
    })

-- `lru_cache(maxsize=1)` on a function without parameters: a value is kept, an exception is not.
abbrev pub cached {ℓ} : {A : Type ℓ} → Option A → Option A → Option A
cached (some a) made = some a
cached none made = made

-- `get_settings`, with the environment at its time: the cache after it, which is its result.
unfoldable pub get_settings : Source → Option Settings → Option Settings
get_settings env kept = cached kept (settings_of env)
