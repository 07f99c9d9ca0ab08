-- ===== src/Run/MainTests.antt =====
-- apps/scraper/__main__.py: processes with settings and without.
use dsa_api.Base.{◌≡◌, refl, Bool, true, false, none, some}
use dsa_api.Text.{text, text_discrete, contains, starts_with}
use dsa_api.Settings.Database.{is_text, ends_with, driver_scheme, new_query, normalize_database_url}
use dsa_api.Settings.Fields.{settings_of, get_settings}
use dsa_api.Wiring.Deps.{
  make_engine, make_session_factory, from_url, get_engine, get_session_factory, get_redis,
}
use dsa_api.Wiring.Sentry.{SentryInit, init_sentry}
use dsa_api.Wiring.Tests.{nothing_set, all_set, drivers}
use dsa_api.Run.Scrape.{Outside, returned}
use dsa_api.Run.Sources.{with_sources}
use dsa_api.Run.SourceTests.{net, outside, empty_world}
use dsa_api.Run.Exit.{amain}
use dsa_api.Run.Main.{exit_with, amain_from, main, Ends, main-Ends}

program : Unit {0}
unfolding text_discrete is_text contains starts_with ends_with driver_scheme new_query
    normalize_database_url settings_of get_settings make_engine make_session_factory from_url
    get_engine get_session_factory get_redis init_sentry amain_from main
program = tt

abbrev starts : SentryInit → Bool
starts init = true

abbrev o : Outside
o = with_sources net outside

unset-stops : main drivers starts nothing_set o empty_world ≡ exit_with none (empty_world, 1)
unfolding program
unset-stops = refl

abbrev sentry_call : SentryInit
sentry_call = record {
  dsn = text "a";
  environment = text "a";
  traces_sample_rate = 1;
  send_default_pii = false;
}

set-runs :
    main drivers starts (all_set (text "a")) o empty_world
    ≡ exit_with (some sentry_call) (amain o empty_world)
unfolding program
set-runs = refl

o-closes : o.aclose ≡ returned tt
unfolding program with_sources
o-closes = refl

main-Ends_example :
    Ends drivers starts
      (all_set (text "a"))
      o
      empty_world
      (main drivers starts (all_set (text "a")) o empty_world)
main-Ends_example = main-Ends drivers starts (all_set (text "a")) o empty_world o-closes
