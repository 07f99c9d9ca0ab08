-- ===== src/Export/Quiet.antt =====
-- apps/scraper/export.py, `_tf_to_dict`, with apps/scraper/ingest.py: what is exported of a row
-- changes only with an event.
use dsa_api.Base.{
  ◌≡◌, refl, sym, ap, ◌∙◌, inl, inr, Bool-cases, Option, none, some, List, [], arith,
}
use dsa_api.Models.{Uuid, Time, ScrapedTrustedFlagger, TrustedFlaggerOrm, Snapshot}
use dsa_api.Ingest.Reconcile.{is_removed, apply_diff, flushed_rows}
use dsa_api.Ingest.Entity.{refreshed, refresh_events, refresh-cases, settled, settled_events}
use dsa_api.Ingest.Events.{events_of}
use dsa_api.Ingest.Table.{find, IsTable}
use dsa_api.Ingest.Settle.{scraped_row, find-apply_diff, events_of-apply_diff}
use dsa_api.Export.Dicts.{tf_to_dict}

-- What is exported of a row that may be missing.
abbrev pub exported : Option TrustedFlaggerOrm → Option Snapshot
exported none = none
exported (some row) = some (tf_to_dict row)

module _ (run_id : Uuid) (scraped_at : Time) (j : Uuid) where
  refreshed-exported :
      (r : TrustedFlaggerOrm) (sc : ScrapedTrustedFlagger)
      → refresh_events run_id scraped_at j r sc ≡ []
      → tf_to_dict (refreshed run_id scraped_at r sc) ≡ tf_to_dict r
  unfolding tf_to_dict
  refreshed-exported r sc h = elim (refresh-cases run_id scraped_at j r sc) [
    | inl e ↦ absurd (grind arith)
    | inr (inl e) ↦ rw (e.1) refl
    | inr (inr e) ↦ absurd (grind arith)
  ]

  settled-exported :
      (s : Option ScrapedTrustedFlagger) (o : Option TrustedFlaggerOrm)
      → settled_events run_id scraped_at j s o ≡ []
      → exported (settled run_id scraped_at j s o) ≡ exported o
  unfolding settled settled_events
  settled-exported none none h = refl
  settled-exported (some sc) none h = absurd (grind arith)
  settled-exported (some sc) (some r) h = ap some (refreshed-exported r sc h)
  settled-exported none (some r) h = elim (Bool-cases (is_removed r)) [
    | inl e ↦ rw e refl
    | inr e ↦ absurd (ground (arith, h, e))
  ]

  -- A scrape that logs no event for an entry leaves what is exported of its row as it was, if
  -- the table had no id twice.
  pub apply_diff-exported :
      (rows : List TrustedFlaggerOrm) (normalized : List ScrapedTrustedFlagger)
      → IsTable rows
      → events_of j (apply_diff run_id scraped_at rows normalized).events ≡ []
      → exported (find j (flushed_rows (apply_diff run_id scraped_at rows normalized)))
        ≡ exported (find j rows)
  apply_diff-exported rows normalized table h =
      ap exported (find-apply_diff run_id scraped_at rows normalized table j)
      ∙ settled-exported (scraped_row j normalized) (find j rows)
          (sym (events_of-apply_diff run_id scraped_at rows normalized table j) ∙ h)
