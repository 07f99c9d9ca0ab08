-- ===== src/Watchdog/Tests.antt =====
-- The watchdog a day and a bit after the last scrape, within the day, without a zone, and after a
-- run that was completed at 110.
use dsa_api.Base.{◌+◌, ◌≡◌, refl, Option, none, some, [], ◌∷◌}
use dsa_api.Text.{Text, text}
use dsa_api.Timestamps.{decoded}
use dsa_api.Run.Scrape.{run_ingest}
use dsa_api.Run.Tests.{empty_world, listed_none}
use dsa_api.Watchdog.Check.{
  Posted, IsoTime, aware, naive, invalid, crashed, exited, stale, no_scrape, stale_threshold, watch,
  notify_slack, exit_code_of,
}
use dsa_api.Watchdog.Check as Check
use dsa_api.Watchdog.Relay.{Wire, IsFaithful, watch_stamp, expected, run_ingest-watch}

program : Unit {0}
unfolding watch notify_slack exit_code_of
program = tt

-- A clock that writes a time as a single character, and reads it back.
abbrev one_character : Text → IsoTime
one_character [] = invalid
one_character (c ∷ []) = aware c
one_character (c ∷ d ∷ s) = naive

abbrev hook : Option Text
hook = some (text "https://hooks.slack.com/x")

abbrev taken : Posted
taken = Check.answered 200

watch-alerts :
    watch one_character hook taken (stale_threshold + 8) (some (some (7 ∷ [])))
    ≡ record { alert = some (stale (stale_threshold + 1)); posts = 1; ending = exited 0 }
unfolding program
watch-alerts = refl

watch-unset :
    watch one_character none taken 8 (some none)
    ≡ record { alert = some no_scrape; posts = 0; ending = exited 0 }
unfolding program
watch-unset = refl

watch-crashes :
    watch one_character hook taken 8 (some (some (text "77")))
    ≡ record { alert = none; posts = 0; ending = crashed }
unfolding program
watch-crashes = refl

abbrev wire : Wire
wire = record {
  iso = λ t. t ∷ [];
  encode = decoded;
  decode = λ raw. none;
  fromisoformat = one_character;
}

wire-IsFaithful : IsFaithful wire
wire-IsFaithful = record { decodes = λ t. refl; parses = λ t. refl }

run_ingest-watch_example :
    watch_stamp wire hook taken 200 (run_ingest listed_none empty_world).0.updated_at
    ≡ expected wire hook taken 200 listed_none empty_world (run_ingest listed_none empty_world).1
run_ingest-watch_example =
    run_ingest-watch wire hook taken 200 listed_none empty_world refl refl wire-IsFaithful
