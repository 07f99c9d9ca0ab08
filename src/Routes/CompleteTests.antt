-- ===== src/Routes/CompleteTests.antt =====
-- The changes after a run that lists an entry, one that fails, and one that lists none.
use mathlib.Core.List.{Perm}
use mathlib.Core.List.Perm
use dsa_api.Base.{
  ℕ, ◌+◌, ◌*◌, inr, ◌≡◌, refl, some, List, [], ◌∷◌, map, filter_by, get, put, leb, ℕ_discrete,
  arith,
}
use dsa_api.Text.{text}
use dsa_api.Models.{
  NewEvent, TrustedFlaggerEventOrm, Value-discrete, OptionValue-discrete, Field-discrete,
}
use dsa_api.Ingest.Compare.{
  value_at, same_dict, compute_diff, orm_to_compare_dict, scraped_to_compare_dict, columns_of,
}
use dsa_api.Ingest.Reconcile.{
  index_onto, index_by, new_orm, visit_existing, visit_scraped, visit_all_scraped, visit_current,
  visit_all_current, is_removed, apply_diff, flushed_rows, created_event, removed_event,
  number_events,
}
use dsa_api.Ingest.Table.{find}
use dsa_api.Ingest.Tests.{scraped, empty-IsExplained}
use dsa_api.Run.Scrape.{
  World, Outside, returned, find_rows, stored, committed, with_timestamp, pushed, with_export,
  failed, finished, begun, run_ingest, closed, with_client,
}
use dsa_api.Run.Always.{run_all}
use dsa_api.Run.Tests.{empty_world, listed_none, timed_out}
use dsa_api.Routes.Tables.{Database}
use dsa_api.Routes.Paging.{pages}
use dsa_api.Routes.Sorted.{IsSorted, IsApart}
use dsa_api.Routes.Changes.{ChangeRow, joined_with, joined, effective_since, list_changes}
use dsa_api.Routes.Joined.{found, newer, change_items, change_total}
use dsa_api.Routes.Complete.{Shows, run_all-list_changes}

program : Unit {0}
unfolding apply_diff flushed_rows index_by index_onto visit_all_scraped visit_scraped visit_existing
    visit_all_current visit_current get put new_orm is_removed same_dict compute_diff value_at
    orm_to_compare_dict scraped_to_compare_dict columns_of find ℕ_discrete Value-discrete
    OptionValue-discrete Field-discrete created_event removed_event number_events find_rows stored
    committed with_timestamp pushed with_export failed finished begun run_ingest closed with_client
    run_all joined_with joined list_changes
program = tt

-- The run finds one entry.
abbrev listing : Outside
listing = record listed_none { normalize = λ rows. returned (scraped 1 (text "a") ∷ [], []) }

abbrev runs : List Outside
runs = listing ∷ timed_out ∷ record listed_none { run_id = 9 } ∷ []

abbrev after : World
after = run_all runs empty_world

-- The events with the times of their scrapes.
abbrev timed : ℕ → List NewEvent → List TrustedFlaggerEventOrm
timed n [] = []
timed n (e ∷ es) = record { event_id = n; event = e; occurred_at = 40 * n } ∷ timed (n + 1) es

abbrev tables : Database
tables = record { flaggers = after.flaggers; events = timed 1 after.events; runs = [] }

-- The database's order, of two rows that are there from the older to the newer.
abbrev backwards : List ChangeRow → List ChangeRow
backwards (a ∷ b ∷ []) = b ∷ a ∷ []
backwards rows = rows

backwards-Perm : (rows : List ChangeRow) → Perm (backwards rows) rows
backwards-Perm [] = Perm.rfl
backwards-Perm (a ∷ []) = Perm.rfl
backwards-Perm (a ∷ b ∷ []) = Perm.swap a b []
backwards-Perm (a ∷ b ∷ c ∷ rows) = Perm.rfl

after-Shows : Shows after tables
unfolding program
after-Shows = record { same_flaggers = refl; same_events = refl }

-- One event of the first run, and one of the third.
two_changes : change_total (list_changes backwards (some 15) 1 0 90 tables) ≡ 2
unfolding program
two_changes = refl

changes-IsSorted : IsSorted newer (backwards (found (some 15) 1 90 tables))
unfolding program
changes-IsSorted = ((refl, tt), (tt, tt))

changes-IsApart : IsApart newer (found (some 15) 1 90 tables)
unfolding program
changes-IsApart = ((refl, tt), (tt, tt))

run_all-list_changes_example :
    Perm
      (map
        (λ c. c.event)
        (pages
          (λ offset. change_items (list_changes backwards (some 15) 1 offset 90 tables))
          1
          0
          2))
      (filter_by (λ e. leb (effective_since (some 15) 90) e.occurred_at) tables.events)
run_all-list_changes_example =
    run_all-list_changes runs empty_world tables (λ q. backwards) (some 15) 1 90 2
      (λ q. backwards-Perm (found (some 15) 1 90 tables)) (λ q. changes-IsSorted)
      (inr changes-IsApart) empty-IsExplained after-Shows refl (omega (arith, two_changes))
