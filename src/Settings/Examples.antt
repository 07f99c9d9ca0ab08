-- ===== src/Settings/Examples.antt =====
-- Settings as core/config.py reads them, with an address of the database.
use dsa_api.Base.{false, none}
use dsa_api.Text.{Text, text}
use dsa_api.Settings.Fields.{Settings}

abbrev pub settings_at : Text → Settings
settings_at url = record {
  environment = text "production";
  debug = false;
  database_url = url;
  database_pool_size = 10;
  database_max_overflow = 20;
  redis_url = text "redis://r";
  source_url = text "https://x.eu";
  user_agent = text "agent";
  sentry_dsn = none;
  waitlist_url = none;
  resend_api_key = none;
  resend_audience_id = none;
  waitlist_notify_email = none;
  slack_webhook_url = none;
  snapshot_dir = text "snapshots";
  data_export_dir = text "dsa-data";
  data_export_remote = none;
  data_export_branch = text "main";
  data_export_committer_name = text "bot";
  data_export_committer_email = text "bot@x.eu";
  rate_limit_per_minute = 60;
  rate_limit_per_day = 5000;
  disclaimer = text "none";
}
