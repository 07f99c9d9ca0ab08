-- ===== src/Export/Dicts.antt =====
-- apps/scraper/export.py: the dictionaries and the cells that are written.
use mathlib.Core.Option.{get_or}
use dsa_api.Base.{ℕ, Option, List, [], ◌∷◌, map, Dict, get}
use dsa_api.Enums.{EventType, status_value}
use dsa_api.Models.{
  Time, TrustedFlaggerOrm, TrustedFlaggerEventOrm, Value, null, str, strs, Field, Field-discrete,
  Snapshot, Diff, uuid_text,
}
use dsa_api.Text.{Text, text}
use dsa_api.Ingest.Compare.{optional, date_value}
use dsa_api.Normalize.Chars.{join}

-- `CSV_COLUMNS`
abbrev pub csv_columns : List Field
csv_columns =
    Field.id ∷ Field.name ∷ Field.country_code ∷ Field.dsc_country_code ∷ Field.dsc_name
    ∷ Field.email ∷ Field.email_domain ∷ Field.website ∷ Field.areas_of_expertise
    ∷ Field.areas_of_expertise_raw ∷ Field.designation_date ∷ Field.status ∷ []

-- `_tf_to_dict`
unfoldable pub tf_to_dict : TrustedFlaggerOrm → Snapshot
tf_to_dict row =
    (Field.id, str (uuid_text row.id))
    ∷ (Field.name, str row.name)
    ∷ (Field.legal_form, optional row.legal_form)
    ∷ (Field.website, optional row.website)
    ∷ (Field.email, optional row.email)
    ∷ (Field.email_domain, optional row.email_domain)
    ∷ (Field.address_raw, optional row.address_raw)
    ∷ (Field.country_code, str row.country_code)
    ∷ (Field.city, optional row.city)
    ∷ (Field.postal_code, optional row.postal_code)
    ∷ (Field.dsc_name, optional row.dsc_name)
    ∷ (Field.dsc_country_code, optional row.dsc_country_code)
    ∷ (Field.areas_of_expertise_raw, strs row.areas_of_expertise_raw)
    ∷ (Field.areas_of_expertise, strs row.areas_of_expertise)
    ∷ (Field.designation_date, date_value row.designation_date)
    ∷ (Field.status, str (status_value row.status))
    ∷ []

-- The dictionary of an event; its time is never missing in the table.
pub record EventDict : Type 0 where
  pub event_id : ℕ
  pub tf_id : Text
  pub event_type : EventType
  pub diff : Option Diff
  pub snapshot : Option Snapshot
  pub scrape_run_id : Text
  pub occurred_at : Time

-- `_event_to_dict`; the time stands for its ISO text.
unfoldable pub event_to_dict : TrustedFlaggerEventOrm → EventDict
event_to_dict row = record {
  event_id = row.event_id;
  tf_id = uuid_text row.tf_id;
  event_type = row.event_type;
  diff = row.diff;
  snapshot = row.snapshot;
  scrape_run_id = uuid_text row.scrape_run_id;
  occurred_at = row.occurred_at;
}

abbrev cell_of : Value → Text
cell_of null = []
cell_of (str s) = s
cell_of (strs ss) = join (text "; ") ss

-- `_flatten_for_csv`
unfoldable pub flatten_for_csv : Snapshot → Dict Field Text
flatten_for_csv d = map (λ col. (col, cell_of (get_or (get Field-discrete col d) null))) csv_columns
