-- ===== src/Normalize/Tests.antt =====
-- The normalization on the ASCII tables, and on rows as the register has them.
use dsa_api.Base.{◌≡◌, refl, none, some, List, [], ◌∷◌, get, false, arith}
use dsa_api.Enums.{AreaEnum, AreaEnum-discrete}
use dsa_api.Models.{Uuid, Date, ScrapedTrustedFlagger}
use dsa_api.Text.{Text, text, text_discrete, is_space, lstrip, rstrip, strip, zero_padded}
use dsa_api.Json.{Json, Members, string, null, number, object, no_members, member}
use dsa_api.Normalize.Chars.{ascii, split_first, split, join}
use dsa_api.Normalize.Areas.{
  nonblank, set_default, add_areas, area_of, split_areas_raw, normalize_areas,
}
use dsa_api.Normalize.Split.{IsLabel}
use dsa_api.Normalize.Country.{all_space, match_country, search_country, extract_dsc_country_code}
use dsa_api.Normalize.Dates.{month_of, day_of, year_of, date_of, strptime, parse_eu_date, eu_date}
use dsa_api.Normalize.Calendar.{ReadsDigits, parse_eu_date-eu_date}
use dsa_api.Normalize.Emails.{
  hex_value, has_char, drop_mailto, after_at, decode_run, unquote_runs, unquote, unquote_to_bytes,
  decode_url_encoded_email, extract_email_domain,
}
use dsa_api.Normalize.Rows.{
  Row, Result, ok, crashed, missing_name, text_or_empty, derive_stable_id, email_of, required_of,
  normalize_row, normalize_item, normalize_rows,
}
use dsa_api.Normalize.Valid.{IsNormalized, normalize_row-IsNormalized}
use dsa_api.Normalize.Batch.{IsPartition, normalize_rows-IsPartition}

program : Unit {0}
unfolding is_space lstrip rstrip strip zero_padded split_first split join nonblank split_areas_raw
    set_default area_of add_areas normalize_areas all_space match_country search_country
    extract_dsc_country_code month_of day_of year_of date_of strptime parse_eu_date eu_date
    hex_value unquote_to_bytes has_char drop_mailto after_at decode_run unquote_runs unquote
    decode_url_encoded_email extract_email_domain text_or_empty derive_stable_id email_of
    required_of normalize_row normalize_item normalize_rows text_discrete AreaEnum-discrete get
program = tt

-- Labels as the register lists them.
abbrev labels : List Text
labels = text "CSAM" ∷ text "Scams and fraud" ∷ text "CSAM" ∷ text "Something new" ∷ []

csam-IsLabel : IsLabel (text "CSAM")
unfolding program
csam-IsLabel = record { full = refl; stripped = refl; single = (refl, (refl, (refl, (refl, tt)))) }

abbrev leap_day : Date
leap_day = record { year = 2024; month = 2; day = 29 }

ascii-ReadsDigits : ReadsDigits ascii
ascii-ReadsDigits d h = ground arith

parse_eu_date-eu_date_example : parse_eu_date ascii (some (eu_date leap_day)) ≡ some leap_day
parse_eu_date-eu_date_example = parse_eu_date-eu_date ascii leap_day ascii-ReadsDigits refl

leap_day-read : parse_eu_date ascii (some (text " 29/02/2024 ")) ≡ some leap_day
unfolding program
leap_day-read = refl

common_year-refused : parse_eu_date ascii (some (text "29/02/2023")) ≡ none
unfolding program
common_year-refused = refl

email-decoded :
    decode_url_encoded_email ascii (some (text "mailto%3Aa%40b.org")) ≡ some (text "a@b.org")
unfolding program
email-decoded = refl

domain-extracted : extract_email_domain ascii (some (text "a@B.org ")) ≡ some (text "b.org")
unfolding program
domain-extracted = refl

abbrev uuid5 : Text → Uuid
uuid5 s = 5

abbrev row_hash : Row → Result Text
row_hash raw = ok (text "hash")

abbrev good_row : Row
good_row =
    (text "name", string (text " Org "))
    ∷ (text "country_", string (text "sk"))
    ∷ (text "date_of_certification_", string (text "05/11/2024"))
    ∷ (text "dsc_country_", string (text "Council (SK)"))
    ∷ (text "areas_of_expertise", string (text "CSAM; CSAM"))
    ∷ (text "tf_contact_", null)
    ∷ []

abbrev good : ScrapedTrustedFlagger
good = record {
  id = 5;
  name = text "Org";
  legal_form = none;
  website = none;
  email = none;
  email_domain = none;
  address_raw = none;
  country_code = text "SK";
  city = none;
  postal_code = none;
  dsc_name = some (text "Council (SK)");
  dsc_country_code = some (text "SK");
  areas_of_expertise_raw = text "CSAM" ∷ text "CSAM" ∷ [];
  areas_of_expertise = AreaEnum.csam ∷ [];
  designation_date = record { year = 2024; month = 11; day = 5 };
  source_hash = text "hash";
}

good_row-kept : normalize_row ascii uuid5 row_hash good_row ≡ ok good
unfolding program
good_row-kept = refl

normalize_row-IsNormalized_example : IsNormalized ascii uuid5 row_hash good
normalize_row-IsNormalized_example =
    normalize_row-IsNormalized ascii uuid5 row_hash good_row good good_row-kept

-- The row as an object.
abbrev members_of : Row → Members
members_of [] = no_members
members_of ((key, value) ∷ rest) = member key value (members_of rest)

abbrev raw_rows : List Json
raw_rows = object (members_of good_row) ∷ object no_members ∷ []

rows-partitioned : normalize_rows ascii uuid5 row_hash raw_rows ≡ ok (good ∷ [], missing_name ∷ [])
unfolding program
rows-partitioned = refl

normalize_rows-IsPartition_example :
    IsPartition ascii uuid5 row_hash raw_rows (good ∷ []) (missing_name ∷ [])
normalize_rows-IsPartition_example =
    normalize_rows-IsPartition ascii uuid5 row_hash raw_rows (good ∷ [], missing_name ∷ [])
      rows-partitioned

-- A name that is a number is no bad row: the exception goes through.
number-crashes :
    normalize_rows ascii uuid5 row_hash (
      object
        (member (text "name") (number (record { is_zero = false; literal = text "7" })) no_members)
      ∷ [])
    ≡ crashed
unfolding program
number-crashes = refl
