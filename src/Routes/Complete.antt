-- ===== src/Routes/Complete.antt =====
-- apps/api/routers/changes.py, `list_changes`, over what runs of apps/scraper/ingest.py leave.
use mathlib.Core.List.{Perm}
use dsa_api.Base.{
  ◌⊎◌, ℕ, ◌*◌, ◌≤◌, ◌≡◌, ◌≢◌, sym, subst, true, Option, none, List, [], ◌∷◌, map, filter_by, All,
  leb,
}
use dsa_api.Models.{Time, NewEvent, TrustedFlaggerEventOrm}
use dsa_api.Ingest.Table.{find, IsTable}
use dsa_api.Ingest.History.{IsExplained}
use dsa_api.Run.Scrape.{World, Outside}
use dsa_api.Run.Always.{run_all, register_of, run_all-IsExplained, explained-IsReferred}
use dsa_api.Routes.Tables.{Database, in_bounds}
use dsa_api.Routes.Paging.{pages}
use dsa_api.Routes.Changes.{ChangeRow, effective_since, list_changes}
use dsa_api.Routes.Sorted.{IsSorted, IsApart}
use dsa_api.Routes.Joined.{found, newer, HasFlagger, change_total, change_items, list_changes-pages}

-- The tables that the routes read are those of a world, the events with their numbers and times.
pub record Shows (w : World) (db : Database) : Type 0 where
  pub same_flaggers : db.flaggers ≡ w.flaggers
  pub same_events : map (λ e. e.event) db.events ≡ w.events

All-event :
    (P : NewEvent → Type 0) (es : List TrustedFlaggerEventOrm)
    → All P (map (λ e. e.event) es)
    → All (λ e. P e.event) es
All-event P [] h = tt
All-event P (e ∷ es) h = (h.0, All-event P es h.1)

shown-IsTable :
    (w : World) (db : Database) → Shows w db → IsExplained (register_of w) → IsTable db.flaggers
shown-IsTable w db s h = subst IsTable (sym s.same_flaggers) h.table

shown-HasFlagger :
    (w : World) (db : Database)
    → Shows w db
    → IsExplained (register_of w)
    → All (HasFlagger db.flaggers) db.events
shown-HasFlagger w db s h =
    subst (λ rows. All (HasFlagger rows) db.events) (sym s.same_flaggers)
      (All-event (λ e. find e.tf_id w.flaggers ≢ none) db.events
        (subst (All (λ e. find e.tf_id w.flaggers ≢ none)) (sym s.same_events)
          (explained-IsReferred (register_of w) h)))

module _ (os : List Outside) (w : World) (db : Database)
    (newest_first : ℕ → List ChangeRow → List ChangeRow) (since : Option Time) (limit : ℕ)
    (now : Time) (n : ℕ) where
  -- After any number of runs, whichever of their steps fail, pages of one size within the
  -- bounds, one after the other from the first, as many as the total asks for, list each event
  -- of the changelog since the given time exactly once, if the changelog was complete before
  -- the runs, every query sorts the rows by the time of the event, each in its own order of
  -- rows with one time, and one page is enough or no two of the events have one time.
  pub run_all-list_changes :
      ((q : ℕ) → Perm (newest_first q (found since limit now db)) (found since limit now db))
      → ((q : ℕ) → IsSorted newer (newest_first q (found since limit now db)))
      → (n ≤ 1) ⊎ IsApart newer (found since limit now db)
      → IsExplained (register_of w)
      → Shows (run_all os w) db
      → in_bounds 500 limit ≡ true
      → change_total (list_changes (newest_first 0) since limit 0 now db) ≤ n * limit
      → Perm
          (map
            (λ c. c.event)
            (pages
              (λ offset.
                change_items (list_changes (newest_first offset) since limit offset now db))
              limit
              0
              n))
          (filter_by (λ e. leb (effective_since since now) e.occurred_at) db.events)
  run_all-list_changes permutes sorts apart complete shows bounds enough =
      let explained = run_all-IsExplained os w complete in
      list_changes-pages since limit now db newest_first n permutes sorts apart bounds
        (shown-IsTable (run_all os w) db shows explained)
        (shown-HasFlagger (run_all os w) db shows explained) enough
