-- ===== src/Routes/Listing.antt =====
-- apps/api/routers/trusted_flaggers.py, `list_trusted_flaggers`, `get_trusted_flagger` and
-- `get_trusted_flagger_history`.
use dsa_api.Base.{
  ℕ, Bool, true, false, ◌&&◌, ◌||◌, Option, none, some, List, [], ◌∷◌, ◌++◌, map, filter_by, length,
  ℕ_discrete, if◌then◌else◌,
}
use dsa_api.Enums.{AreaEnum, area_value, TfStatus, status_value}
use dsa_api.Models.{Uuid, Time, Date, TrustedFlaggerOrm, TrustedFlaggerEventOrm}
use dsa_api.Text.{Text, text, is_empty}
use dsa_api.Normalize.Chars.{Unicode}
use dsa_api.Ingest.Table.{find}
use dsa_api.Routes.Tables.{
  Database, Reply, ok, error, str_eq, is_one_of, date_leb, data_updated_at, page_of, Paged,
  in_bounds,
}

pub data StatusFilter : Type 0 where
  all_statuses : StatusFilter
  only : TfStatus → StatusFilter

-- The query parameters of the list; an empty one is as none.
pub record Filters : Type 0 where
  pub country : List Text
  pub area : List AreaEnum
  pub dsc_country : Option Text
  pub status : StatusFilter
  pub designated_after : Option Date
  pub designated_before : Option Date
  pub q : Option Text

-- The defaults.
abbrev pub no_filters : Filters
no_filters = record {
  country = [];
  area = [];
  dsc_country = none;
  status = only TfStatus.active;
  designated_after = none;
  designated_before = none;
  q = none;
}

abbrev pub has_status : StatusFilter → TfStatus → Bool
has_status all_statuses status = true
has_status (only wanted) status = str_eq (status_value status) (status_value wanted)

-- A comparison with a column that may be NULL is not true where it is.
abbrev pub is_true {ℓ} : {A : Type ℓ} → (A → Bool) → Option A → Bool
is_true test none = false
is_true test (some a) = test a

-- A condition that a missing or empty parameter leaves out.
abbrev pub unless_none {ℓ} : {A : Type ℓ} → (A → Bool) → Option A → Bool
unless_none test none = true
unless_none test (some a) = test a

abbrev pub unless_empty : (Text → Bool) → Option Text → Bool
unless_empty test none = true
unless_empty test (some s) = if is_empty s then true else test s

-- `areas_of_expertise ?| :areas`
unfoldable pub any_of : List Text → List Text → Bool
any_of [] areas = false
any_of (a ∷ as_) areas = is_one_of a areas || any_of as_ areas

-- `ilike pattern value` is PostgreSQL's; `%` and `_` in `q` keep their meaning in the pattern.
module _ (unicode : Unicode) (ilike : Text → Text → Bool) where
  unfoldable pub has_country : List Text → Text → Bool
  has_country wanted code =
      if is_empty wanted then true else is_one_of code (map unicode.upper wanted)

  unfoldable pub has_area : List AreaEnum → List Text → Bool
  has_area wanted areas = if is_empty wanted then true else any_of (map area_value wanted) areas

  unfoldable pub has_dsc_country : Option Text → Option Text → Bool
  has_dsc_country wanted code =
      unless_empty (λ c. is_true (λ have. str_eq have (unicode.upper c)) code) wanted

  unfoldable pub has_text : Option Text → Text → Option Text → Bool
  has_text wanted name address =
      unless_empty
        (λ q.
          ilike (text "%" ++ (q ++ text "%")) name
          || is_true (λ have. ilike (text "%" ++ (q ++ text "%")) have) address)
        wanted

  -- The conditions of the statement.
  unfoldable pub matches : Filters → TrustedFlaggerOrm → Bool
  matches f row =
      has_status f.status row.status
      && has_country f.country row.country_code
      && has_dsc_country f.dsc_country row.dsc_country_code
      && unless_none (λ after. is_true (λ d. date_leb after d) row.designation_date)
          f.designated_after
      && unless_none (λ before. is_true (λ d. date_leb d before) row.designation_date)
          f.designated_before
      && has_area f.area row.areas_of_expertise
      && has_text f.q row.name row.address_raw

  -- `by_name` is what the ORDER BY on the name makes of the rows in this query.
  module _ (by_name : List TrustedFlaggerOrm → List TrustedFlaggerOrm) where
    unfoldable pub list_trusted_flaggers :
        Filters → (limit offset : ℕ) → Database → Reply (Paged TrustedFlaggerOrm)
    list_trusted_flaggers f limit offset db =
        if in_bounds 200 limit
        then (let found = filter_by (matches f) db.flaggers in
            ok (record {
              items = page_of limit offset (by_name found);
              total = length found;
              limit = limit;
              offset = offset;
              updated = data_updated_at db.runs;
            }))
        else error 422

abbrev found_or_404 :
    Option TrustedFlaggerOrm → Option Time → Reply (TrustedFlaggerOrm × Option Time)
found_or_404 none updated = error 404
found_or_404 (some row) updated = ok (row, updated)

-- The row of a primary key, with the time of the data.
unfoldable pub get_trusted_flagger : Uuid → Database → Reply (TrustedFlaggerOrm × Option Time)
get_trusted_flagger tf_id db = found_or_404 (find tf_id db.flaggers) (data_updated_at db.runs)

abbrev pub is_about : Uuid → TrustedFlaggerEventOrm → Bool
is_about tf_id e = elim (ℕ_discrete e.tf_id tf_id) [ yes _ ↦ true | no _ ↦ false ]

-- `newest_first` is the database's ORDER BY on the time of the events.
module _ (newest_first : List TrustedFlaggerEventOrm → List TrustedFlaggerEventOrm) where
  abbrev history_of :
      Uuid
      → (limit offset : ℕ) → Database
      → Option TrustedFlaggerOrm
      → Reply (Paged TrustedFlaggerEventOrm)
  history_of tf_id limit offset db none = error 404
  history_of tf_id limit offset db (some row) =
      let found = filter_by (is_about tf_id) db.events in
      ok (record {
        items = page_of limit offset (newest_first found);
        total = length found;
        limit = limit;
        offset = offset;
        updated = none;
      })

  unfoldable pub get_trusted_flagger_history :
      Uuid → (limit offset : ℕ) → Database → Reply (Paged TrustedFlaggerEventOrm)
  get_trusted_flagger_history tf_id limit offset db =
      if in_bounds 500 limit
      then history_of tf_id limit offset db (find tf_id db.flaggers)
      else error 422
