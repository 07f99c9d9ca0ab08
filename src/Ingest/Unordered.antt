-- ===== src/Ingest/Unordered.antt =====
-- apps/scraper/ingest.py, `apply_diff`: the query of the rows has no order, and none matters.
use mathlib.Core.Path.{ap₂}
use mathlib.Core.List.{Perm}
use dsa_api.Base.{◌≡◌, sym, ◌∙◌, List}
use dsa_api.Models.{Uuid, Time, ScrapedTrustedFlagger, TrustedFlaggerOrm}
use dsa_api.Ingest.Entity.{settled, settled_events}
use dsa_api.Ingest.Events.{events_of}
use dsa_api.Ingest.Table.{IsTable}
use dsa_api.Ingest.Settle.{scraped_row, find-apply_diff, events_of-apply_diff, apply_diff-IsTable}
use dsa_api.Ingest.Reconcile.{apply_diff, flushed_rows}
use dsa_api.Ingest.Reordered.{find-Perm, Perm-of_find}

module _ (run_id : Uuid) (scraped_at : Time) (rows rows' : List TrustedFlaggerOrm)
    (normalized normalized' : List ScrapedTrustedFlagger) where
  -- Whatever the order in which the query gives the rows, and in which the page lists the
  -- entries, a scrape leaves the same rows up to their order and logs the same events for every
  -- id, if the table had no id twice and the last entry of each id is the same.
  pub apply_diff-Perm :
      IsTable rows
      → IsTable rows'
      → Perm rows rows'
      → ((j : Uuid) → scraped_row j normalized ≡ scraped_row j normalized')
      → Perm
          (flushed_rows (apply_diff run_id scraped_at rows normalized))
          (flushed_rows (apply_diff run_id scraped_at rows' normalized'))
        × ((j : Uuid)
            → events_of j (apply_diff run_id scraped_at rows normalized).events
              ≡ events_of j (apply_diff run_id scraped_at rows' normalized').events)
  apply_diff-Perm table table' perm same = (
    Perm-of_find _ _ (apply_diff-IsTable run_id scraped_at rows normalized table)
        (apply_diff-IsTable run_id scraped_at rows' normalized' table')
        (λ j.
          find-apply_diff run_id scraped_at rows normalized table j
          ∙ ap₂ (settled run_id scraped_at j) (same j) (find-Perm rows rows' table table' perm j)
          ∙ sym (find-apply_diff run_id scraped_at rows' normalized' table' j)),
    λ j.
        events_of-apply_diff run_id scraped_at rows normalized table j
        ∙ ap₂ (settled_events run_id scraped_at j) (same j)
            (find-Perm rows rows' table table' perm j)
        ∙ sym (events_of-apply_diff run_id scraped_at rows' normalized' table' j),
  )
