-- ===== src/Run/Mirror.antt =====
-- apps/scraper/ingest.py, `run_ingest`, with its sources: where the rows of a run come from, and
-- where they are at its end.
use dsa_api.Base.{◌≡◌, refl, sym, ap, subst, ◌∙◌, some, List, map, length}
use dsa_api.Models.{Uuid, TrustedFlaggerOrm, ScrapedTrustedFlagger}
use dsa_api.Text.{Text}
use dsa_api.Json.{Json}
use dsa_api.Fetch.Attempts.{FetchResult, Outcome, fetch}
use dsa_api.Fetch.Attempts as Fetch
use dsa_api.Parse.Page.{Extracted, address, refused, extract_api_url}
use dsa_api.Parse.Envelope.{Parsed, rows, rejected, parse_api_response}
use dsa_api.Normalize.Rows.{RowError, Result, ok, bad_row, crashed}
use dsa_api.Normalize.Batch.{IsPartition, normalize_rows-IsPartition}
use dsa_api.Ingest.Table.{find, IsTable}
use dsa_api.Ingest.Settle.{scraped_row}
use dsa_api.Ingest.Outcome.{IsCurrent, apply_diff-IsCurrent}
use dsa_api.Ingest.Reconcile.{flushed_rows}
use dsa_api.Run.Scrape.{returned, World, Outside, IngestResult, run_ingest}
use dsa_api.Run.Faults.{returned_raised, returned_injective}
use dsa_api.Run.Steps.{Steps}
use dsa_api.Run.Done.{IsDone, run_ingest-IsDone}
use dsa_api.Run.Sources.{
  row_hash, Net, fetch_step, extract_step, parse_step, normalize_step, with_sources,
}

-- What each step of the found rows gave, and what became of the rows.
pub record IsMirror (net : Net) (o : Outside) (w v : World) (r : IngestResult) : Type 0 where
  pub page : FetchResult
  pub url : Text
  pub items : List Json
  pub page_fetched : (fetch net.raises net.sha256 3 net.page_answers).1 ≡ Fetch.fetched page
  pub extracted : extract_api_url net.loads page.body ≡ address url
  pub answer_fetched :
      (fetch net.raises net.sha256 4 (net.api_answers url)).1 ≡ Fetch.fetched r.found.response
  pub parsed : parse_api_response net.loads r.found.response.body ≡ rows items
  pub all_seen : r.found.seen ≡ length items
  pub errors : List RowError
  pub parted : IsPartition net.unicode net.uuid5 (row_hash net) items r.found.normalized errors
  pub shown : r.found.parse_errors ≡ map net.row_shown errors
  pub mirrored :
      (j : Uuid) (sc : ScrapedTrustedFlagger)
      → scraped_row j r.found.normalized ≡ some sc
      → (row : TrustedFlaggerOrm) × (find j v.flaggers ≡ some row) × IsCurrent o.started_at sc row

module _ (net : Net) where
  fetch_step-returned :
      (x : Outcome) (result : FetchResult)
      → fetch_step net x ≡ returned result
      → x ≡ Fetch.fetched result
  fetch_step-returned (Fetch.fetched y) result h = ap Fetch.fetched (returned_injective y result h)
  fetch_step-returned (Fetch.client_failure n) result h = absurd (returned_raised result _ (sym h))
  fetch_step-returned Fetch.exhausted result h = absurd (returned_raised result _ (sym h))
  fetch_step-returned Fetch.raised result h = absurd (returned_raised result _ (sym h))

  extract_step-returned :
      (x : Extracted) (url : Text) → extract_step net x ≡ returned url → x ≡ address url
  extract_step-returned (address y) url h = ap address (returned_injective y url h)
  extract_step-returned (refused e) url h = absurd (returned_raised url _ (sym h))

  parse_step-returned :
      (x : Parsed) (items : List Json) → parse_step net x ≡ returned items → x ≡ rows items
  parse_step-returned (rows y) items h = ap rows (returned_injective y items h)
  parse_step-returned (rejected e) items h = absurd (returned_raised items _ (sym h))

  normalize_step-returned :
      (x : Result (List ScrapedTrustedFlagger × List RowError))
      (out : List ScrapedTrustedFlagger × List Text)
      → normalize_step net x ≡ returned out
      → (found : List ScrapedTrustedFlagger × List RowError) × (x ≡ ok found)
        × ((found.0, map net.row_shown found.1) ≡ out)
  normalize_step-returned (ok y) out h = (y, refl, returned_injective _ out h)
  normalize_step-returned (bad_row e) out h = absurd (returned_raised out _ (sym h))
  normalize_step-returned crashed out h = absurd (returned_raised out _ (sym h))

  Steps-IsMirror :
      (o : Outside) (w v : World) (r : IngestResult)
      → IsTable w.flaggers
      → Steps (with_sources net o) r.found
      → IsDone (with_sources net o) w v r
      → IsMirror net o w v r
  unfolding with_sources
  Steps-IsMirror o w v r table s done =
      let (found, good, same) = normalize_step-returned _ _ s.normalized in
      let part =
        normalize_rows-IsPartition net.unicode net.uuid5 (row_hash net) s.items found good in
      record {
        page = s.page;
        url = s.url;
        items = s.items;
        page_fetched = fetch_step-returned _ s.page s.page_given;
        extracted = extract_step-returned _ s.url s.extracted;
        answer_fetched = fetch_step-returned _ r.found.response s.answered;
        parsed = parse_step-returned _ s.items s.parsed;
        all_seen = s.all_seen;
        errors = found.1;
        parted =
            subst
              (λ (x : List ScrapedTrustedFlagger × List Text).
                IsPartition net.unicode net.uuid5 (row_hash net) s.items x.0 found.1)
              same part;
        shown = sym (ap (λ (x : List ScrapedTrustedFlagger × List Text). x.1) same);
        mirrored = λ j sc at.
            let (row, there, current) =
              apply_diff-IsCurrent o.run_id o.started_at w.flaggers r.found.normalized table j sc
                at in
            (
              row,
              ap (find j) (done.new_flaggers ∙ ap flushed_rows done.same_session) ∙ there,
              current,
            );
      }

  -- If a run gives a result, its page was fetched in at most 3 attempts and gave the address,
  -- the answer there was fetched in at most 4 and gave the raw rows; row by row and in order,
  -- each of these is kept as the row that it is normalized to, which is as normalization
  -- promises, or its own error is listed; and the last kept row of every id has at the end a
  -- row that agrees with it and is not marked removed, if the table had no id twice.
  pub run_ingest-IsMirror :
      (o : Outside) (w : World) (r : IngestResult)
      → IsTable w.flaggers
      → (run_ingest (with_sources net o) w).1 ≡ returned r
      → IsMirror net o w (run_ingest (with_sources net o) w).0 r
  unfolding run_ingest
  run_ingest-IsMirror o w r table h =
      let done = (run_ingest-IsDone (with_sources net o) w r).0 h in
      Steps-IsMirror o w _ r table done.steps done
