-- ===== src/Run/SourceTests.antt =====
-- A run of one row, from the page to the table.
use dsa_api.Base.{
  ℕ, ◌≡◌, refl, false, none, some, [], ◌∷◌, get, put, ℕ_discrete, leb, if◌then◌else◌,
}
use dsa_api.Text.{
  text, text_discrete, is_space, lstrip, rstrip, strip, zero_padded, starts_with, contains,
  break_at,
}
use dsa_api.Enums.{AreaEnum-discrete, ScrapeRunStatus}
use dsa_api.Models.{ScrapedTrustedFlagger}
use dsa_api.Json.{Json, string, array, object, item, no_items, member, no_members}
use dsa_api.Fetch.Attempts.{
  Answer, responded, is_retryable, is_transient, is_client_error, result_of, ending, attempt_from,
  fetch,
}
use dsa_api.Parse.Page.{
  after_prefix, match_body, match_tag, match_script, search_script, subscript, is_usable,
  address_of, settings_of, extract_api_url,
}
use dsa_api.Parse.Envelope.{is_failure, rows_of, envelope_of, parse_api_response}
use dsa_api.Normalize.Chars.{ascii, split_first, split, join}
use dsa_api.Normalize.Areas.{
  nonblank, set_default, add_areas, area_of, split_areas_raw, normalize_areas,
}
use dsa_api.Normalize.Country.{all_space, match_country, search_country, extract_dsc_country_code}
use dsa_api.Normalize.Dates.{month_of, day_of, year_of, date_of, strptime, parse_eu_date}
use dsa_api.Normalize.Emails.{
  hex_value, has_char, drop_mailto, after_at, decode_run, unquote_runs, unquote, unquote_to_bytes,
  decode_url_encoded_email, extract_email_domain,
}
use dsa_api.Normalize.Rows.{
  text_or_empty, derive_stable_id, email_of, required_of, normalize_row, normalize_item,
  normalize_rows,
}
use dsa_api.Ingest.Reconcile.{apply_diff}
use dsa_api.Watchdog.Check.{answered}
use dsa_api.Run.Scrape.{
  closed, with_client, returned, raised, World, Outside, IngestResult, find_rows, stored, committed,
  failed, finished, begun, run_ingest,
}
use dsa_api.Normalize.Hashes.{compute_row_hash}
use dsa_api.Run.Sources.{Net, with_sources}
use dsa_api.Run.Mirror.{IsMirror, run_ingest-IsMirror}

abbrev pub empty_world : World
empty_world = record {
  flaggers = [];
  events = [];
  runs = [];
  updated_at = none;
  published = 0;
  alerts = [];
}

abbrev pub outside : Outside
outside = record {
  run_id = 7;
  source_url = text "https://x.eu";
  started_at = 100;
  completed_at = 110;
  failed_at = 120;
  open_run = returned tt;
  client = returned tt;
  page = raised [];
  snapshot = none;
  extract = λ html. raised [];
  answer = λ url. raised [];
  parse = λ body. raised [];
  normalize = λ rows. raised [];
  commit = returned tt;
  close_run = returned tt;
  redis = none;
  export = none;
  has_remote = false;
  publish = raised [];
  slack_webhook_url = some (text "https://hooks.slack.com/x");
  posted = answered 200;
  aclose = returned tt;
}

-- The first request of each fetch is answered by 503, the second by a page.
abbrev answers : ℕ → Answer
answers attempt = responded (record {
  url = text "https://x.eu";
  status_code = if leb attempt 1 then 503 else 200;
  content = text "<script data-drupal-selector=\"drupal-settings-json\">{}</script>";
})

abbrev row : Json
row = object (
    member (text "name") (string (text " A ")) (
      member (text "country_") (string (text "at"))
        (member (text "date_of_certification_") (string (text "29/02/2024")) no_members)))

-- What every text decodes to: the settings and the envelope in one.
abbrev decoded : Json
decoded = object (
    member (text "cnt_description")
      (object (member (text "url") (string (text "https://x.eu/api")) no_members))
      (member (text "data") (array (item row no_items)) no_members))

abbrev pub net : Net
net = record {
  raises = λ status. leb 400 status;
  sha256 = λ content. text "digest";
  loads = λ body. some decoded;
  unicode = ascii;
  uuid5 = λ name. 9;
  dumps = λ raw. text "{}";
  encode = λ s. some s;
  page_answers = answers;
  api_answers = λ url. answers;
  shown = λ failure. text "failure";
  row_shown = λ e. text "bad row";
}

program : Unit {0}
unfolding get put ℕ_discrete text_discrete is_space lstrip rstrip strip zero_padded starts_with
    contains break_at AreaEnum-discrete is_retryable is_transient is_client_error result_of ending
    attempt_from fetch after_prefix match_body match_tag match_script search_script subscript
    is_usable address_of settings_of extract_api_url is_failure rows_of envelope_of
    parse_api_response split_first split join nonblank set_default add_areas area_of split_areas_raw
    normalize_areas all_space match_country search_country extract_dsc_country_code month_of day_of
    year_of date_of strptime parse_eu_date hex_value has_char drop_mailto after_at decode_run
    unquote_runs unquote unquote_to_bytes decode_url_encoded_email extract_email_domain
    text_or_empty derive_stable_id email_of required_of normalize_row normalize_item normalize_rows
    compute_row_hash find_rows stored committed failed finished begun run_ingest closed with_client
    with_sources
program = tt

abbrev scraped : ScrapedTrustedFlagger
scraped = record {
  id = 9;
  name = text "A";
  legal_form = none;
  website = none;
  email = none;
  email_domain = none;
  address_raw = none;
  country_code = text "AT";
  city = none;
  postal_code = none;
  dsc_name = none;
  dsc_country_code = some (text "AT");
  areas_of_expertise_raw = [];
  areas_of_expertise = [];
  designation_date = record { year = 2024; month = 2; day = 29 };
  source_hash = text "digest";
}

abbrev one_found : IngestResult
one_found = record {
  status = ScrapeRunStatus.success;
  found = record {
    snapshot_path = none;
    response = record {
      url = text "https://x.eu";
      status_code = 200;
      body = text "<script data-drupal-selector=\"drupal-settings-json\">{}</script>";
      content_hash = text "digest";
    };
    seen = 1;
    normalized = scraped ∷ [];
    parse_errors = [];
  };
  session = apply_diff 7 100 [] (scraped ∷ []);
}

run-returns : (run_ingest (with_sources net outside) empty_world).1 ≡ returned one_found
unfolding program
run-returns = refl

run_ingest-IsMirror_example :
    IsMirror net outside empty_world (run_ingest (with_sources net outside) empty_world).0 one_found
run_ingest-IsMirror_example = run_ingest-IsMirror net outside empty_world one_found tt run-returns
