-- ===== src/Migration/OnlineTests.antt =====
-- Alembic's environment with a plain address, and with one whose password is percent-encoded.
use dsa_api.Base.{◌≡◌, refl, true, false, none, some, [], if◌then◌else◌}
use dsa_api.Text.{text, contains, starts_with}
use dsa_api.Settings.Fields.{Settings}
use dsa_api.Settings.Examples.{settings_at}
use dsa_api.Migration.Environment.{
  Ini, Target, transaction, run_migrations_offline, do_run_migrations, run_async_migrations,
  injected_url, environment,
}
use dsa_api.Migration.Online.{full_run, Does, has_lone_percent, environment-Does}

program : Unit {0}
unfolding contains starts_with transaction run_migrations_offline do_run_migrations
    run_async_migrations environment
program = tt

abbrev plain : Settings
plain = settings_at (text "postgresql+asyncpg://u:pw@h/db")

abbrev encoded : Settings
encoded = settings_at (text "postgresql+asyncpg://u:p%40w@h/db")

-- Options that refuse a lone percent sign, and else keep the text.
abbrev keeping : Ini
keeping = record {
  set_main_option = λ v. if has_lone_percent v then none else some v;
  get_main_option = some;
}

abbrev target : Target
target = record { takes_database = λ url. true; connects = true; migrates = true; commits = true }

plain-runs :
    environment target keeping false (some plain) ≡ (full_run false plain.database_url, true)
unfolding program
plain-runs = refl

environment-Does_example :
    Does target false
      (injected_url keeping (some plain))
      (environment target keeping false (some plain))
environment-Does_example = environment-Does target keeping false (some plain)

encoded_lone : has_lone_percent encoded.database_url ≡ true
unfolding program
encoded_lone = refl

-- The migrations raise with an address that the API's engine takes.
encoded-raises : environment target keeping false (some encoded) ≡ ([], false)
unfolding program
encoded-raises = refl
