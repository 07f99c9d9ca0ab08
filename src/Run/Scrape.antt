-- ===== src/Run/Scrape.antt =====
-- apps/scraper/ingest.py, `run_ingest`, over a database, Redis, and what was published and alerted;
-- any step outside may raise.
use dsa_api.Base.{
  ℕ, ◌+◌, Bool, true, false, ◌&&◌, Option, none, some, List, [], ◌∷◌, ◌++◌, Dict, put, ℕ_discrete,
  length, take, ltb, if◌then◌else◌,
}
use dsa_api.Enums.{ScrapeRunStatus}
use dsa_api.Models.{Uuid, Time, ScrapedTrustedFlagger, TrustedFlaggerOrm, NewEvent, ScrapeRunOrm}
use dsa_api.Text.{Text, text, is_empty}
use dsa_api.Json.{Json}
use dsa_api.Fetch.Attempts.{FetchResult}
use dsa_api.Normalize.Chars.{join}
use dsa_api.Ingest.Reconcile.{Session, apply_diff, flushed_rows}
use dsa_api.Watchdog.Check.{Posted, notify_slack}

-- What a step gives: a value, or an exception with the text of its type and message.
pub data Attempt {ℓ} (A : Type ℓ) : Type ℓ where
  returned : A → Attempt A
  raised : Text → Attempt A

infixl 10 ◌>>=◌
abbrev pub ◌>>=◌ {ℓ κ} : {A : Type ℓ} {B : Type κ} → Attempt A → (A → Attempt B) → Attempt B
returned a >>= f = f a
raised e >>= f = raised e

-- What is kept between runs.
pub record World : Type 0 where
  pub flaggers : List TrustedFlaggerOrm
  pub events : List NewEvent
  pub runs : Dict Uuid ScrapeRunOrm
  pub updated_at : Option Time
  pub published : ℕ
  pub alerts : List Text

-- What one run meets outside: a directory or a client of Redis that is not given is `none`; the
-- client of HTTP is not given, so the run makes its own and closes it.
pub record Outside : Type 0 where
  pub run_id : Uuid
  pub source_url : Text
  pub started_at : Time
  pub completed_at : Time
  pub failed_at : Time
  pub open_run : Attempt (Unit {0})
  pub client : Attempt (Unit {0})
  pub page : Attempt FetchResult
  pub snapshot : Option (Attempt Text)
  pub extract : Text → Attempt Text
  pub answer : Text → Attempt FetchResult
  pub parse : Text → Attempt (List Json)
  pub normalize : List Json → Attempt (List ScrapedTrustedFlagger × List Text)
  pub commit : Attempt (Unit {0})
  pub close_run : Attempt (Unit {0})
  pub redis : Option (Attempt (Unit {0}))
  pub export : Option (Attempt (Unit {0}))
  pub has_remote : Bool
  pub publish : Attempt Bool
  pub slack_webhook_url : Option Text
  pub posted : Posted
  pub aclose : Attempt (Unit {0})

-- What the steps before the transaction find.
pub record Found : Type 0 where
  pub snapshot_path : Option Text
  pub response : FetchResult
  pub seen : ℕ
  pub normalized : List ScrapedTrustedFlagger
  pub parse_errors : List Text

pub record IngestResult : Type 0 where
  pub status : ScrapeRunStatus
  pub found : Found
  pub session : Session

abbrev pub saved : Option (Attempt Text) → Attempt (Option Text)
saved none = returned none
saved (some (returned path)) = returned (some path)
saved (some (raised e)) = raised e

module _ (o : Outside) where
  unfoldable pub running_row : ScrapeRunOrm
  running_row = record {
    id = o.run_id;
    started_at = o.started_at;
    completed_at = none;
    status = ScrapeRunStatus.running;
    source_url = o.source_url;
    source_response_status = none;
    source_content_hash = none;
    rows_seen = none;
    rows_created = none;
    rows_updated = none;
    rows_removed = none;
    error_message = none;
    raw_html_snapshot_url = none;
  }

  -- From the page to the normalized rows.
  unfoldable pub find_rows : Attempt Found
  find_rows = do
    html ← o.page
    path ← saved o.snapshot
    api_url ← o.extract html.body
    json ← o.answer api_url
    raw_rows ← o.parse json.body
    found ← o.normalize raw_rows
    returned (record {
      snapshot_path = path;
      response = json;
      seen = length raw_rows;
      normalized = found.0;
      parse_errors = found.1;
    })

  abbrev pub status_of : List Text → ScrapeRunStatus
  status_of errors = if is_empty errors then ScrapeRunStatus.success else ScrapeRunStatus.partial

  abbrev message_of : List Text → Option Text
  message_of errors = if is_empty errors then none else some (join (text "; ") (take 5 errors))

  unfoldable pub done_row : Found → Session → ScrapeRunOrm
  done_row found s = record running_row {
    completed_at = some o.completed_at;
    status = status_of found.parse_errors;
    source_response_status = some found.response.status_code;
    source_content_hash = some found.response.content_hash;
    rows_seen = some found.seen;
    rows_created = some s.created;
    rows_updated = some s.updated;
    rows_removed = some s.removed;
    error_message = message_of found.parse_errors;
    raw_html_snapshot_url = found.snapshot_path;
  }

  -- `f"{type(e).__name__}: {e}"[:1000]`
  unfoldable pub failed_row : Text → ScrapeRunOrm
  failed_row e = record running_row {
    completed_at = some o.failed_at;
    status = ScrapeRunStatus.failed;
    error_message = some (take 1000 e);
  }

  -- The transaction: the diff, the events and the row of the run, or nothing of them.
  unfoldable pub stored :
      Attempt (Unit {0}) → World → Found → Session → Attempt (World × IngestResult)
  stored (raised e) w found s = raised e
  stored (returned _) w found s = returned (
    record w {
      flaggers = flushed_rows s;
      events = w.events ++ s.events;
      runs = put ℕ_discrete o.run_id (done_row found s) w.runs;
    },
    record { status = status_of found.parse_errors; found = found; session = s },
  )

  unfoldable pub committed : World → Found → Attempt (World × IngestResult)
  committed w found =
      stored o.commit w found (apply_diff o.run_id o.started_at w.flaggers found.normalized)

  abbrev pub changes : Session → ℕ
  changes s = s.created + s.updated + s.removed + s.restored

  -- The time stamp, where Redis is given and answers.
  unfoldable pub with_timestamp : Option (Attempt (Unit {0})) → World → World
  with_timestamp (some (returned _)) w = record w { updated_at = some o.completed_at }
  with_timestamp (some (raised _)) w = w
  with_timestamp none w = w

  -- `publish_changes` tells whether a commit was pushed.
  unfoldable pub pushed : Attempt Bool → World → World
  pushed (returned true) w = record w { published = w.published + 1 }
  pushed (returned false) w = w
  pushed (raised _) w = w

  -- The export, and the push after an export that went well.
  unfoldable pub with_export : Option (Attempt (Unit {0})) → Session → World → World
  with_export (some (returned _)) s w =
      if ltb 0 (changes s) && o.has_remote then pushed o.publish w else w
  with_export (some (raised _)) s w = w
  with_export none s w = w

  -- The alerts that the webhook has taken.
  unfoldable pub with_alert : List Text → Text → List Text
  with_alert alerts e =
      if (notify_slack o.slack_webhook_url o.posted).1
      then alerts ++ (text ":rotating_light: dsa-api scrape failed: " ++ e) ∷ []
      else alerts

  -- The handler: the row is marked if that commit succeeds, and only then the alert is sent.
  unfoldable pub failed : Attempt (Unit {0}) → World → Text → World × Attempt IngestResult
  failed (raised f) w e = (w, raised f)
  failed (returned _) w e = (
    record w {
      runs = put ℕ_discrete o.run_id (failed_row e) w.runs;
      alerts = with_alert w.alerts e;
    },
    raised e,
  )

  unfoldable pub finished : World → Attempt (World × IngestResult) → World × Attempt IngestResult
  finished w (returned (after, result)) =
      (with_export o.export result.session (with_timestamp o.redis after), returned result)
  finished w (raised e) = failed o.close_run w e

  abbrev pub opened : World → World
  opened w = record w { runs = put ℕ_discrete o.run_id running_row w.runs }

  -- The `finally`: what it raises takes the place of the result or of the exception.
  unfoldable pub closed :
      Attempt (Unit {0}) → World × Attempt IngestResult → World × Attempt IngestResult
  closed (returned _) ran = ran
  closed (raised e) ran = (ran.0, raised e)

  -- The client is made before the `try`.
  unfoldable pub with_client : Attempt (Unit {0}) → World → World × Attempt IngestResult
  with_client (raised e) w = (w, raised e)
  with_client (returned _) w = closed o.aclose (finished w (find_rows >>= committed w))

  -- The run, after the commit of its row.
  unfoldable pub begun : Attempt (Unit {0}) → World → World × Attempt IngestResult
  begun (raised e) w = (w, raised e)
  begun (returned _) w = with_client o.client (opened w)

  unfoldable pub run_ingest : World → World × Attempt IngestResult
  run_ingest w = begun o.open_run w
