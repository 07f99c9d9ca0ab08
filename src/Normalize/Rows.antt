-- ===== src/Normalize/Rows.antt =====
-- core/normalize.py, `normalize_row`, core/models.py, `derive_stable_id`, and
-- apps/scraper/parse.py, `normalize_rows`.
use dsa_api.Base.{
  Bool, true, false, Option, none, some, List, [], ◌∷◌, ◌++◌, Dict, get, length, ◌==◌,
  if◌then◌else◌,
}
use dsa_api.Models.{Uuid, Date, isoformat, ScrapedTrustedFlagger}
use dsa_api.Text.{Text, text, text_discrete, strip, is_empty}
use dsa_api.Json.{
  Json, null, boolean, number, string, array, object, no_items, item, no_members, member, entries,
}
use dsa_api.Normalize.Chars.{Unicode}
use dsa_api.Normalize.Areas.{split_areas_raw, normalize_areas}
use dsa_api.Normalize.Country.{extract_dsc_country_code}
use dsa_api.Normalize.Dates.{parse_eu_date}
use dsa_api.Normalize.Emails.{or_none, decode_url_encoded_email, extract_email_domain}

-- The three reasons of `RowNormalizationError`, with what their messages show of the field.
pub data RowError : Type 0 where
  missing_name : RowError
  invalid_country_code : Text → RowError
  unparseable_date : Option Json → RowError

-- What a call gives: a value, a `RowNormalizationError`, or any other exception.
pub data Result {ℓ} (A : Type ℓ) : Type ℓ where
  ok : A → Result A
  bad_row : RowError → Result A
  crashed : Result A

infixl 10 ◌>>=◌
abbrev pub ◌>>=◌ {ℓ κ} : {A : Type ℓ} {B : Type κ} → Result A → (A → Result B) → Result B
ok a >>= f = f a
bad_row e >>= f = bad_row e
crashed >>= f = crashed

abbrev pub Row : Type 0
Row = Dict Text Json

-- `x or ""` of a value that is then used as a string: a true value of another type has no such
-- method, and raises.
unfoldable pub text_or_empty : Option Json → Result Text
text_or_empty none = ok []
text_or_empty (some null) = ok []
text_or_empty (some (boolean b)) = if b then crashed else ok []
text_or_empty (some (number n)) = if n.is_zero then ok [] else crashed
text_or_empty (some (string s)) = ok s
text_or_empty (some (array no_items)) = ok []
text_or_empty (some (array (item _ _))) = crashed
text_or_empty (some (object no_members)) = ok []
text_or_empty (some (object (member _ _ _))) = crashed

-- `raw.get(key)`
abbrev pub field_of : Text → Row → Option Json
field_of key raw = get text_discrete key raw

-- `(raw.get(key) or "")`; the helpers that take a missing value take an empty text alike.
abbrev pub text_field : Text → Row → Result Text
text_field key raw = text_or_empty (field_of key raw)

-- `test or raise`
abbrev pub require : Bool → RowError → Result (Unit {0})
require test e = if test then ok tt else bad_row e

-- `if designation_date is None: raise`
abbrev pub date_or_bad : Option Json → Option Date → Result Date
date_or_bad shown none = bad_row (unparseable_date shown)
date_or_bad shown (some d) = ok d

-- `extract_dsc_country_code(dsc_name) or country_code`
abbrev pub code_or : Option Text → Text → Text
code_or none code = code
code_or (some found) code = if is_empty found then code else found

abbrev pub text_of : Option Text → Text
text_of none = []
text_of (some s) = s

-- `uuid5` is that of the namespace of the source, and `row_hash` stands for `compute_row_hash`.
module _ (unicode : Unicode) (uuid5 : Text → Uuid) (row_hash : Row → Result Text) where
  unfoldable pub derive_stable_id : Text → Text → Date → Uuid
  derive_stable_id name dsc_name designation_date = uuid5 (
      unicode.lower (strip name)
      ++ (text "|" ++ (unicode.lower (strip dsc_name) ++ (text "|" ++ isoformat designation_date))))

  -- The email, from the field or from the link; the link is looked at only without a field.
  unfoldable pub email_of : Row → Result (Option Text)
  email_of raw = do
    contact ← text_field (text "tf_contact_") raw
    elim (or_none (strip contact)) [
      | some email ↦ ok (some email)
      | none ↦ do
        url ← text_field (text "tf_contact__url") raw
        ok (decode_url_encoded_email unicode (some url))
    ]

  -- The checks on the three fields that a row must have.
  unfoldable pub required_of : Row → Result (Text × Text × Date)
  required_of raw = do
    name_raw ← text_field (text "name") raw
    country_raw ← text_field (text "country_") raw
    let name = strip name_raw
    let country_code = unicode.upper (strip country_raw)
    _ ← require (if is_empty name then false else true) missing_name
    _ ← require (length country_code == 2) (invalid_country_code country_code)
    date_raw ← text_field (text "date_of_certification_") raw
    designation_date ←
        date_or_bad (field_of (text "date_of_certification_") raw)
          (parse_eu_date unicode (some date_raw))
    ok (name, country_code, designation_date)

  unfoldable pub normalize_row : Row → Result ScrapedTrustedFlagger
  normalize_row raw = do
    required ← required_of raw
    let name = required.0
    let country_code = required.1
    let designation_date = required.2
    dsc_raw ← text_field (text "dsc_country_") raw
    let dsc_name = or_none (strip dsc_raw)
    areas_text ← text_field (text "areas_of_expertise") raw
    let areas_raw = split_areas_raw (some areas_text)
    email ← email_of raw
    website ← text_field (text "tf_website") raw
    address ← text_field (text "tf_address") raw
    source_hash ← row_hash raw
    ok (record {
      id = derive_stable_id name (text_of dsc_name) designation_date;
      name = name;
      legal_form = none;
      website = or_none (strip website);
      email = email;
      email_domain = extract_email_domain unicode email;
      address_raw = or_none (strip address);
      country_code = country_code;
      city = none;
      postal_code = none;
      dsc_name = dsc_name;
      dsc_country_code = some (code_or (extract_dsc_country_code dsc_name) country_code);
      areas_of_expertise_raw = areas_raw;
      areas_of_expertise = normalize_areas unicode areas_raw;
      designation_date = designation_date;
      source_hash = source_hash;
    })

  -- One row more: rows that are bad are collected, and any other exception goes through.
  abbrev pub with_row :
      Result ScrapedTrustedFlagger
      → Result (List ScrapedTrustedFlagger × List RowError)
      → Result (List ScrapedTrustedFlagger × List RowError)
  with_row (ok tf) rest = rest >>= λ found. ok (tf ∷ found.0, found.1)
  with_row (bad_row e) rest = rest >>= λ found. ok (found.0, e ∷ found.1)
  with_row crashed rest = crashed

  -- One element of the list: `get` of what is no object raises `AttributeError`.
  unfoldable pub normalize_item : Json → Result ScrapedTrustedFlagger
  normalize_item (object members) = normalize_row (entries members)
  normalize_item _ = crashed

  unfoldable pub normalize_rows : List Json → Result (List ScrapedTrustedFlagger × List RowError)
  normalize_rows [] = ok ([], [])
  normalize_rows (raw ∷ rows) = with_row (normalize_item raw) (normalize_rows rows)
