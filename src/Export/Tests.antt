-- ===== src/Export/Tests.antt =====
-- The export around a scrape that changes nothing.
use dsa_api.Base.{◌≡◌, refl, none, some, [], ◌∷◌, get, put, ℕ_discrete}
use dsa_api.Enums.{AreaEnum, TfStatus, area_value}
use dsa_api.Models.{
  ScrapedTrustedFlagger, TrustedFlaggerOrm, Value-discrete, OptionValue-discrete, Field-discrete,
  isoformat, Field,
}
use dsa_api.Text.{text, text_discrete}
use dsa_api.Normalize.Chars.{join}
use dsa_api.Ingest.Compare.{
  columns_of, value_at, same_dict, orm_to_compare_dict, scraped_to_compare_dict,
}
use dsa_api.Ingest.Reconcile.{
  index_onto, index_by, visit_existing, visit_scraped, visit_all_scraped, visit_current,
  visit_all_current, is_removed, apply_diff, flushed_rows,
}
use dsa_api.Ingest.Events.{events_of}
use dsa_api.Ingest.Table.{find, IsTable}
use dsa_api.Export.Dicts.{tf_to_dict, event_to_dict, flatten_for_csv}
use dsa_api.Export.Files.{Writers, copied, export_all}
use dsa_api.Export.Quiet.{exported, apply_diff-exported}

abbrev scraped : ScrapedTrustedFlagger
scraped = record {
  id = 9;
  name = text "A";
  legal_form = none;
  website = none;
  email = none;
  email_domain = none;
  address_raw = none;
  country_code = text "AT";
  city = none;
  postal_code = none;
  dsc_name = none;
  dsc_country_code = some (text "AT");
  areas_of_expertise_raw = text "CSAM" ∷ text "Scams" ∷ [];
  areas_of_expertise = AreaEnum.csam ∷ [];
  designation_date = record { year = 2024; month = 2; day = 29 };
  source_hash = text "hash";
}

abbrev row : TrustedFlaggerOrm
row = record {
  id = 9;
  columns = columns_of scraped;
  status = TfStatus.active;
  first_seen_at = 5;
  last_seen_at = 5;
  source_snapshot_url = none;
}

row-IsTable : IsTable (row ∷ [])
unfolding find
row-IsTable = (refl, tt)

quiet : events_of 9 (apply_diff 7 100 (row ∷ []) (scraped ∷ [])).events ≡ []
unfolding get put ℕ_discrete Value-discrete OptionValue-discrete Field-discrete value_at same_dict
    orm_to_compare_dict scraped_to_compare_dict index_onto index_by visit_existing visit_scraped
    visit_all_scraped visit_current visit_all_current is_removed apply_diff events_of columns_of
    area_value isoformat
quiet = refl

apply_diff-exported_example :
    exported (find 9 (flushed_rows (apply_diff 7 100 (row ∷ []) (scraped ∷ []))))
    ≡ exported (find 9 (row ∷ []))
apply_diff-exported_example =
    apply_diff-exported 7 100 9 (row ∷ []) (scraped ∷ []) row-IsTable quiet

labels-joined :
    get Field-discrete Field.areas_of_expertise_raw (flatten_for_csv (tf_to_dict row))
    ≡ some (text "CSAM; Scams")
unfolding get Field-discrete flatten_for_csv tf_to_dict join columns_of
labels-joined = refl

-- Texts that only count what is written.
abbrev writers : Writers
writers = record {
  dump_flaggers = λ rows. text "flaggers";
  dump_events = λ events. text "events";
  csv_text = λ columns rows. text "csv";
}

written :
    export_all writers
      (λ rows. rows)
      (λ events. events)
      (row ∷ [])
      []
      (some (copied (text "2024-02-29") (text "page")))
      []
    ≡ (
      (text "data/trusted-flaggers.json", text "flaggers")
          ∷ (text "data/trusted-flaggers.csv", text "csv")
          ∷ (text "data/changelog.json", text "events")
          ∷ (text "data/source-snapshots/2024-02-29.html", text "page")
          ∷ [],
      (text "json", text "data/trusted-flaggers.json")
          ∷ (text "csv", text "data/trusted-flaggers.csv")
          ∷ (text "changelog", text "data/changelog.json")
          ∷ (text "source_snapshot", text "data/source-snapshots/2024-02-29.html")
          ∷ [],
    )
unfolding export_all put text_discrete tf_to_dict event_to_dict flatten_for_csv
written = refl
