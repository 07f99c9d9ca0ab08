-- ===== src/Ingest/Tests.antt =====
-- `apply_diff` and its helpers at concrete rows.
use mathlib.Core.List.{Perm}
use mathlib.Core.List.Perm
use dsa_api.Base.{◌≡◌, refl, none, some, List, [], ◌∷◌, get, put, arith, ℕ_discrete}
use dsa_api.Enums.{AreaEnum, TfStatus}
use dsa_api.Models.{
  Uuid, ScrapedTrustedFlagger, TrustedFlaggerOrm, str, Value-discrete, OptionValue-discrete, Field,
  Field-discrete, Snapshot,
}
use dsa_api.Text.{Text, text}
use dsa_api.Ingest.Compare.{
  value_at, columns_of, same_dict, compute_diff, orm_to_compare_dict, scraped_to_compare_dict,
}
use dsa_api.Ingest.Reconcile.{
  Session, index_onto, index_by, new_orm, visit_existing, visit_scraped, visit_all_scraped,
  visit_current, visit_all_current, is_removed, apply_diff, flushed_rows,
}
use dsa_api.Ingest.Entity.{settled, settled_events}
use dsa_api.Ingest.Events.{events_of}
use dsa_api.Ingest.Table.{find, IsTable, last_with}
use dsa_api.Ingest.Settle.{scraped_row, find-apply_diff, events_of-apply_diff}
use dsa_api.Ingest.Tally.{IsTallied, apply_diff-IsTallied}
use dsa_api.Ingest.Outcome.{
  table_after, events_logged, IsCurrent, apply_diff-IsCurrent, apply_diff_gone,
}
use dsa_api.Ingest.Repeat.{apply_diff_again}
use dsa_api.Ingest.Unordered.{apply_diff-Perm}
use dsa_api.Ingest.History.{
  Scrape, empty_register, scrape_all, last_event, IsExplained, scrape_all-IsExplained,
}

abbrev pub scraped : Uuid → Text → ScrapedTrustedFlagger
scraped id name = record {
  id = id;
  name = name;
  legal_form = none;
  website = none;
  email = none;
  email_domain = none;
  address_raw = none;
  country_code = text "SK";
  city = none;
  postal_code = none;
  dsc_name = none;
  dsc_country_code = some (text "SK");
  areas_of_expertise_raw = text "CSAM" ∷ [];
  areas_of_expertise = AreaEnum.csam ∷ [];
  designation_date = record { year = 2024; month = 11; day = 5 };
  source_hash = name;
}

abbrev row : Uuid → Text → TfStatus → TrustedFlaggerOrm
row id name status = record {
  id = id;
  columns = columns_of (scraped id name);
  status = status;
  first_seen_at = 10;
  last_seen_at = 20;
  source_snapshot_url = none;
}

-- One row that changes, one that is restored, one revoked that is gone, one that stays gone.
abbrev rows : List TrustedFlaggerOrm
rows =
    row 1 (text "a") TfStatus.active
    ∷ row 2 (text "b") TfStatus.removed
    ∷ row 3 (text "c") TfStatus.revoked
    ∷ row 4 (text "d") TfStatus.removed
    ∷ []

abbrev normalized : List ScrapedTrustedFlagger
normalized =
    scraped 5 (text "x") ∷ scraped 1 (text "a2") ∷ scraped 2 (text "b") ∷ scraped 5 (text "e") ∷ []

program : Unit {0}
unfolding apply_diff flushed_rows index_by index_onto visit_all_scraped visit_scraped visit_existing
    visit_all_current visit_current get put new_orm is_removed same_dict compute_diff value_at
    orm_to_compare_dict scraped_to_compare_dict columns_of last_with find ℕ_discrete Value-discrete
    OptionValue-discrete Field-discrete
program = tt

abbrev result : Session
result = apply_diff 7 100 rows normalized

counts : (result.created ≡ 1) × (result.updated ≡ 1) × (result.removed ≡ 1) × (result.restored ≡ 1)
unfolding program
counts = (refl, refl, refl, refl)

rows-IsTable : IsTable rows
unfolding program
rows-IsTable = (refl, (refl, (refl, (refl, tt))))

find-apply_diff_example :
    find 3 (flushed_rows (apply_diff 7 100 rows normalized))
    ≡ settled 7 100 3 (scraped_row 3 normalized) (find 3 rows)
find-apply_diff_example = find-apply_diff 7 100 rows normalized rows-IsTable 3

events_of-apply_diff_example :
    events_of 1 (apply_diff 7 100 rows normalized).events
    ≡ settled_events 7 100 1 (scraped_row 1 normalized) (find 1 rows)
events_of-apply_diff_example = events_of-apply_diff 7 100 rows normalized rows-IsTable 1

-- The same rows and entries, in another order.
abbrev other_rows : List TrustedFlaggerOrm
other_rows =
    row 2 (text "b") TfStatus.removed
    ∷ row 1 (text "a") TfStatus.active
    ∷ row 3 (text "c") TfStatus.revoked
    ∷ row 4 (text "d") TfStatus.removed
    ∷ []

abbrev other_normalized : List ScrapedTrustedFlagger
other_normalized =
    scraped 1 (text "a2") ∷ scraped 5 (text "x") ∷ scraped 5 (text "e") ∷ scraped 2 (text "b") ∷ []

other_rows-IsTable : IsTable other_rows
unfolding program
other_rows-IsTable = (refl, (refl, (refl, (refl, tt))))

rows-Perm : Perm rows other_rows
rows-Perm = Perm.swap (row 2 (text "b") TfStatus.removed) (row 1 (text "a") TfStatus.active) _

same_entries : (j : Uuid) → scraped_row j normalized ≡ scraped_row j other_normalized
unfolding last_with
same_entries j = ground arith

apply_diff-Perm_example :
    Perm
      (flushed_rows (apply_diff 7 100 rows normalized))
      (flushed_rows (apply_diff 7 100 other_rows other_normalized))
    × ((j : Uuid)
        → events_of j (apply_diff 7 100 rows normalized).events
          ≡ events_of j (apply_diff 7 100 other_rows other_normalized).events)
apply_diff-Perm_example =
    apply_diff-Perm 7 100 rows other_rows normalized other_normalized rows-IsTable
      other_rows-IsTable rows-Perm same_entries

apply_diff-IsTallied_example : IsTallied result
apply_diff-IsTallied_example = apply_diff-IsTallied 7 100 rows normalized

scraped_five : scraped_row 5 normalized ≡ some (scraped 5 (text "e"))
unfolding program
scraped_five = refl

three_gone : scraped_row 3 normalized ≡ none
unfolding program
three_gone = refl

three_there : find 3 rows ≡ some (row 3 (text "c") TfStatus.revoked)
unfolding program
three_there = refl

apply_diff-IsCurrent_example :
    (r : TrustedFlaggerOrm) × (find 5 (table_after 7 100 rows normalized) ≡ some r)
    × IsCurrent 100 (scraped 5 (text "e")) r
apply_diff-IsCurrent_example =
    apply_diff-IsCurrent 7 100 rows normalized rows-IsTable 5 (scraped 5 (text "e")) scraped_five

apply_diff_gone_example :
    find 3 (table_after 7 100 rows normalized) ≡ some (row 3 (text "c") TfStatus.removed)
apply_diff_gone_example =
    apply_diff_gone 7 100 rows normalized rows-IsTable 3 (row 3 (text "c") TfStatus.revoked)
      three_gone three_there

apply_diff_again_example : events_logged 8 200 (table_after 7 100 rows normalized) normalized ≡ []
apply_diff_again_example = apply_diff_again 7 8 100 200 rows normalized rows-IsTable

abbrev scrapes : List Scrape
scrapes =
    record { run_id = 7; scraped_at = 100; normalized = normalized }
    ∷ record { run_id = 8; scraped_at = 200; normalized = [] }
    ∷ record { run_id = 9; scraped_at = 300; normalized = normalized }
    ∷ []

pub empty-IsExplained : IsExplained empty_register
unfolding program events_of last_event
empty-IsExplained = record { table = tt; entries = λ j. refl }

scrape_all-IsExplained_example : IsExplained (scrape_all empty_register scrapes)
scrape_all-IsExplained_example = scrape_all-IsExplained empty_register scrapes empty-IsExplained

abbrev old_dict : Snapshot
old_dict = (Field.name, str (text "a")) ∷ (Field.city, str (text "Nitra")) ∷ []

abbrev new_dict : Snapshot
new_dict = (Field.name, str (text "b")) ∷ (Field.city, str (text "Nitra")) ∷ []
