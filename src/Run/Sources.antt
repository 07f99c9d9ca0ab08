-- ===== src/Run/Sources.antt =====
-- apps/scraper/ingest.py, `run_ingest`: its steps before the transaction by the models of
-- apps/scraper/fetch.py, apps/scraper/parse.py and core/normalize.py.
use dsa_api.Base.{ℕ, Bool, Option, List, map}
use dsa_api.Models.{Uuid, ScrapedTrustedFlagger}
use dsa_api.Text.{Text}
use dsa_api.Json.{Json}
use dsa_api.Fetch.Attempts.{FetchResult, Answer, Outcome, fetch}
use dsa_api.Fetch.Attempts as Fetch
use dsa_api.Parse.Page.{StructureError, Extracted, address, refused, extract_api_url}
use dsa_api.Parse.Envelope.{EnvelopeError, Parsed, rows, rejected, parse_api_response}
use dsa_api.Normalize.Chars.{Unicode}
use dsa_api.Normalize.Rows.{Row, RowError, Result, ok, bad_row, crashed, normalize_rows}
use dsa_api.Normalize.Hashes.{compute_row_hash}
use dsa_api.Run.Scrape.{Attempt, returned, raised, Outside}

-- What a step before the transaction raises; `shown` is the text of its type and message.
pub data Failure : Type 0 where
  unfetched : Outcome → Failure
  unparsed_page : StructureError → Failure
  unparsed_payload : EnvelopeError → Failure
  unnormalized : Failure

-- The libraries that the steps call, and the answers of the two servers.
pub record Net : Type 0 where
  pub raises : ℕ → Bool
  pub sha256 : Text → Text
  pub loads : Text → Option Json
  pub unicode : Unicode
  pub uuid5 : Text → Uuid
  pub dumps : Row → Text
  pub encode : Text → Option Text
  pub page_answers : ℕ → Answer
  pub api_answers : Text → ℕ → Answer
  pub shown : Failure → Text
  pub row_shown : RowError → Text

-- `compute_row_hash` with the libraries.
abbrev pub row_hash : Net → Row → Result Text
row_hash net = compute_row_hash net.dumps net.encode net.sha256

module _ (net : Net) where
  abbrev pub fetch_step : Outcome → Attempt FetchResult
  fetch_step (Fetch.fetched result) = returned result
  fetch_step other = raised (net.shown (unfetched other))

  abbrev pub extract_step : Extracted → Attempt Text
  extract_step (address url) = returned url
  extract_step (refused e) = raised (net.shown (unparsed_page e))

  abbrev pub parse_step : Parsed → Attempt (List Json)
  parse_step (rows items) = returned items
  parse_step (rejected e) = raised (net.shown (unparsed_payload e))

  abbrev pub normalize_step :
      Result (List ScrapedTrustedFlagger × List RowError)
      → Attempt (List ScrapedTrustedFlagger × List Text)
  normalize_step (ok found) = returned (found.0, map net.row_shown found.1)
  normalize_step (bad_row e) = raised (net.shown unnormalized)
  normalize_step crashed = raised (net.shown unnormalized)

  -- The run's outside, with the four steps in it; the page is fetched in at most 3 attempts and the
  -- payload in at most 4.
  unfoldable pub with_sources : Outside → Outside
  with_sources o = record o {
    page = fetch_step (fetch net.raises net.sha256 3 net.page_answers).1;
    extract = λ html. extract_step (extract_api_url net.loads html);
    answer = λ url. fetch_step (fetch net.raises net.sha256 4 (net.api_answers url)).1;
    parse = λ body. parse_step (parse_api_response net.loads body);
    normalize = λ items. normalize_step (normalize_rows net.unicode net.uuid5 (row_hash net) items);
  }
