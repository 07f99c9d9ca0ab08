-- ===== src/Run/Tests.antt =====
-- A run whose page cannot be fetched, from an empty world.
use dsa_api.Base.{◌↔◌, ◌∷◌, map, put, ℕ_discrete, ◌≡◌, refl, true, none, some, []}
use dsa_api.Text.{text}
use dsa_api.Watchdog.Check.{answered, notify_slack}
use dsa_api.Enums.{ScrapeRunStatus}
use dsa_api.Fetch.Attempts.{FetchResult}
use dsa_api.Ingest.Reconcile.{apply_diff}
use dsa_api.Run.Done.{IsDone, run_ingest-IsDone}
use dsa_api.Run.Scrape.{
  IngestResult, stored, committed, returned, raised, World, Outside, find_rows, failed, finished,
  begun, run_ingest, closed, with_client, with_alert, running_row,
}
use dsa_api.Run.Faults.{Untouched, run_ingest-Untouched}
use dsa_api.Run.Marked.{IsMarked, run_ingest-IsMarked}

program : Unit {0}
unfolding find_rows failed finished begun run_ingest closed with_client with_alert notify_slack
program = tt

abbrev pub empty_world : World
empty_world = record {
  flaggers = [];
  events = [];
  runs = [];
  updated_at = none;
  published = 0;
  alerts = [];
}

abbrev pub response : FetchResult
response = record {
  url = text "https://x.eu";
  status_code = 200;
  body = text "{}";
  content_hash = text "digest";
}

-- The register does not answer.
abbrev pub timed_out : Outside
timed_out = record {
  run_id = 7;
  source_url = text "https://x.eu";
  started_at = 100;
  completed_at = 110;
  failed_at = 120;
  open_run = returned tt;
  client = returned tt;
  page = raised (text "FetchError");
  snapshot = none;
  extract = λ html. raised (text "HtmlStructureError");
  answer = λ url. raised (text "FetchError");
  parse = λ body. returned [];
  normalize = λ rows. returned ([], []);
  commit = returned tt;
  close_run = returned tt;
  redis = some (returned tt);
  export = some (returned tt);
  has_remote = true;
  publish = returned true;
  slack_webhook_url = some (text "https://hooks.slack.com/x");
  posted = answered 200;
  aclose = returned tt;
}

timed_out-raises : (run_ingest timed_out empty_world).1 ≡ raised (text "FetchError")
unfolding program
timed_out-raises = refl

run_ingest-Untouched_example : Untouched empty_world (run_ingest timed_out empty_world).0
run_ingest-Untouched_example =
    run_ingest-Untouched timed_out empty_world (text "FetchError") refl timed_out-raises

run_ingest-IsMarked_example : IsMarked timed_out (returned tt) (run_ingest timed_out empty_world).0
run_ingest-IsMarked_example = run_ingest-IsMarked timed_out empty_world refl refl

-- The client cannot be made.
abbrev unmade : Outside
unmade = record timed_out { client = raised (text "OSError") }

unmade-runs :
    map (λ e. e.1.status) (run_ingest unmade empty_world).0.runs ≡ ScrapeRunStatus.running ∷ []
unfolding program with_client running_row put ℕ_discrete
unmade-runs = refl

-- The register answers with an empty list.
abbrev pub listed_none : Outside
listed_none = record timed_out {
  page = returned response;
  extract = λ html. returned (text "https://x.eu/api");
  answer = λ url. returned response;
}

abbrev nothing_found : IngestResult
nothing_found = record {
  status = ScrapeRunStatus.success;
  found = record {
    snapshot_path = none;
    response = response;
    seen = 0;
    normalized = [];
    parse_errors = [];
  };
  session = apply_diff 7 100 [] [];
}

answered-returns : (run_ingest listed_none empty_world).1 ≡ returned nothing_found
unfolding program stored committed
answered-returns = refl

run_ingest-IsDone_example :
    ((run_ingest listed_none empty_world).1 ≡ returned nothing_found)
    ↔ IsDone listed_none empty_world (run_ingest listed_none empty_world).0 nothing_found
run_ingest-IsDone_example = run_ingest-IsDone listed_none empty_world nothing_found
