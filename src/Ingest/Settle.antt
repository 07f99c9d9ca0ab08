-- ===== src/Ingest/Settle.antt =====
-- apps/scraper/ingest.py, `apply_diff` as a whole: what it does to every entry of the register.
use mathlib.Core.Option.{or_else}
use mathlib.Core.List.{append-nil}
use mathlib.Core.Path.{ap₂}
use dsa_api.Base.{
  ◌≡◌, refl, ◌∙◌, ap, ◌⊎◌, inl, inr, Option, none, some, List, [], ◌++◌, arith, Dict, values, get,
  ℕ_discrete,
}
use dsa_api.Models.{Uuid, Time, ScrapedTrustedFlagger, TrustedFlaggerOrm}
use dsa_api.Ingest.Reconcile.{Session, index_by, visit_all_scraped, apply_diff, flushed_rows}
use dsa_api.Ingest.Entity.{settled, settled_events}
use dsa_api.Ingest.Events.{events_of, events_of-nil}
use dsa_api.Ingest.Loops.{
  rescued, inserted, scrape_events, visit_all_scraped_current, visit_all_scraped_events,
  visit_all_scraped_added,
}
use dsa_api.Ingest.Sweep.{
  swept, sweep_events, outcome, outcome_events, visit_all_current_row, visit_all_current_events,
  visit_all_current_added,
}
use dsa_api.Ingest.Keys.{
  IsSound, visit_all_scraped-IsSound, visit_all_scraped-IsTable, visit_all_current-IsSound,
}
use dsa_api.Ingest.Table.{
  find, find-append, find-values, values-IsTable, IsTable, IsTable-append, index_by-IsDict,
  index_by-IsKeyed, get-index_by, last_with, last_with-eq-find,
}

-- The scraped row of an id: the last one that the scrape lists under it.
abbrev pub scraped_row : Uuid → List ScrapedTrustedFlagger → Option ScrapedTrustedFlagger
scraped_row = last_with (λ tf. tf.id)

module _ (run_id : Uuid) (scraped_at : Time) (by_id : Dict Uuid ScrapedTrustedFlagger)
    (j : Uuid) where
  rows_agree :
      (sc : Option ScrapedTrustedFlagger) (o : Option TrustedFlaggerOrm)
      → get ℕ_discrete j by_id ≡ sc
      → or_else
          (outcome run_id by_id j (rescued run_id scraped_at sc o) (rescued run_id scraped_at sc o))
          (inserted run_id scraped_at j sc o)
        ≡ settled run_id scraped_at j sc o
  unfolding rescued inserted settled or_else swept
  rows_agree none none e = refl
  rows_agree none (some r) e = rw (e, swept) (ground arith)
  rows_agree (some sc) none e = refl
  rows_agree (some sc) (some r) e = rw (e, swept)

  events_agree :
      (sc : Option ScrapedTrustedFlagger) (o : Option TrustedFlaggerOrm)
      → get ℕ_discrete j by_id ≡ sc
      → scrape_events run_id scraped_at j sc o
          ++ outcome_events run_id by_id j (rescued run_id scraped_at sc o)
        ≡ settled_events run_id scraped_at j sc o
  unfolding rescued scrape_events settled_events sweep_events
  events_agree none none e = refl
  events_agree none (some r) e = rw (e, sweep_events)
  events_agree (some sc) none e = refl
  events_agree (some sc) (some r) e = rw (e, sweep_events) (append-nil _)

  -- An id is tracked or inserted, never both.
  apart :
      (sc : Option ScrapedTrustedFlagger) (o : Option TrustedFlaggerOrm)
      → (outcome run_id by_id j (rescued run_id scraped_at sc o) (rescued run_id scraped_at sc o)
          ≡ none)
        ⊎ (inserted run_id scraped_at j sc o ≡ none)
  unfolding rescued inserted
  apart none o = inr refl
  apart (some sc) none = inl refl
  apart (some sc) (some r) = inr refl

module _ (run_id : Uuid) (scraped_at : Time) (rows : List TrustedFlaggerOrm)
    (normalized : List ScrapedTrustedFlagger) where
  abbrev scraped_by_id : Dict Uuid ScrapedTrustedFlagger
  scraped_by_id = index_by (λ tf. tf.id) normalized

  abbrev start : Session
  start = record {
    current = index_by (λ tf. tf.id) rows;
    added = [];
    events = [];
    created = 0;
    updated = 0;
    removed = 0;
    restored = 0;
  }

  abbrev first : Session
  first = visit_all_scraped run_id scraped_at start scraped_by_id

  start-IsSound : IsSound start.current
  start-IsSound = record {
    once = index_by-IsDict (λ tf. tf.id) rows;
    keyed = index_by-IsKeyed rows;
  }

  first-IsSound : IsSound first.current
  first-IsSound = visit_all_scraped-IsSound run_id scraped_at start scraped_by_id start-IsSound

  final-IsSound : IsSound (apply_diff run_id scraped_at rows normalized).current
  unfolding apply_diff
  final-IsSound =
      visit_all_current-IsSound run_id scraped_by_id first first.current first-IsSound.keyed
        first-IsSound

  module _ (table : IsTable rows) (j : Uuid) where
    loaded : get ℕ_discrete j start.current ≡ find j rows
    loaded = get-index_by (λ tf. tf.id) j rows ∙ last_with-eq-find j rows table

    scraped_once : get ℕ_discrete j scraped_by_id ≡ scraped_row j normalized
    scraped_once = get-index_by (λ tf. tf.id) j normalized

    first_row :
        get ℕ_discrete j first.current
        ≡ rescued run_id scraped_at (scraped_row j normalized) (find j rows)
    first_row =
        visit_all_scraped_current run_id scraped_at j start scraped_by_id
          (index_by-IsDict (λ tf. tf.id) normalized)
        ∙ rw (loaded, scraped_once)

    final_row :
        get ℕ_discrete j (apply_diff run_id scraped_at rows normalized).current
        ≡ outcome run_id scraped_by_id j
            (rescued run_id scraped_at (scraped_row j normalized) (find j rows))
            (rescued run_id scraped_at (scraped_row j normalized) (find j rows))
    unfolding apply_diff
    final_row =
        visit_all_current_row run_id scraped_by_id j first first.current first-IsSound.once
          (λ i r e. e)
        ∙ rw first_row

    final_added :
        find j (apply_diff run_id scraped_at rows normalized).added
        ≡ inserted run_id scraped_at j (scraped_row j normalized) (find j rows)
    unfolding apply_diff or_else find
    final_added =
        ap (find j) (visit_all_current_added run_id scraped_by_id first first.current)
        ∙ visit_all_scraped_added run_id scraped_at j start scraped_by_id
            (index_by-IsDict (λ tf. tf.id) normalized)
        ∙ rw (loaded, scraped_once)

    first_events :
        events_of j first.events
        ≡ scrape_events run_id scraped_at j (scraped_row j normalized) (find j rows)
    first_events =
        visit_all_scraped_events run_id scraped_at j start scraped_by_id
          (index_by-IsDict (λ tf. tf.id) normalized)
        ∙ rw (loaded, scraped_once, events_of-nil)

    -- For every id, the row after a scrape is what the row before and the scraped row of that
    -- id settle: inserted, refreshed, restored, marked removed, or left alone, if the table had
    -- no id twice.
    pub find-apply_diff :
        find j (flushed_rows (apply_diff run_id scraped_at rows normalized))
        ≡ settled run_id scraped_at j (scraped_row j normalized) (find j rows)
    unfolding flushed_rows
    find-apply_diff =
        find-append j (values (apply_diff run_id scraped_at rows normalized).current) _
        ∙ ap₂ or_else (find-values j _ final-IsSound.keyed ∙ final_row) final_added
        ∙ rows_agree run_id scraped_at scraped_by_id j (scraped_row j normalized) (find j rows)
            scraped_once

    -- For every id, the events that a scrape logs are those that the row before and the scraped
    -- row settle, none or one, if the table had no id twice.
    pub events_of-apply_diff :
        events_of j (apply_diff run_id scraped_at rows normalized).events
        ≡ settled_events run_id scraped_at j (scraped_row j normalized) (find j rows)
    unfolding apply_diff
    events_of-apply_diff =
        visit_all_current_events run_id scraped_by_id j first first.current first-IsSound.once
        ∙ ap₂ ◌++◌ first_events (ap (outcome_events run_id scraped_by_id j) first_row)
        ∙ events_agree run_id scraped_at scraped_by_id j (scraped_row j normalized) (find j rows)
            scraped_once

  added-IsTable : IsTable (apply_diff run_id scraped_at rows normalized).added
  unfolding apply_diff find
  added-IsTable = rw visit_all_current_added (
      visit_all_scraped-IsTable run_id scraped_at start scraped_by_id
        (index_by-IsDict (λ tf. tf.id) normalized) tt (λ j. inr refl))

  -- If no two rows have one id before a scrape, none have after it.
  pub apply_diff-IsTable :
      IsTable rows → IsTable (flushed_rows (apply_diff run_id scraped_at rows normalized))
  unfolding flushed_rows
  apply_diff-IsTable table =
      IsTable-append (values final.current) final.added
        (values-IsTable final.current final-IsSound.keyed final-IsSound.once) added-IsTable
        (λ j.
          rw
            (
              find-values j final.current final-IsSound.keyed,
              final_row table j,
              final_added table j,
            )
            (apart run_id scraped_at scraped_by_id j (scraped_row j normalized) (find j rows)))
    where
      final : Session
      final = apply_diff run_id scraped_at rows normalized
