-- ===== src/Ingest/Compare.antt =====
-- apps/scraper/ingest.py: the dictionaries that a row is compared by, and their field-level diff.
use mathlib.Core.Option.{get_or}
use dsa_api.Base.{
  ◌≡◌, refl, Bool, true, false, Option, none, some, List, [], ◌∷◌, ◌++◌, map, keys, get, put,
}
use dsa_api.Enums.{area_value, status_value}
use dsa_api.Text.{Text}
use dsa_api.Models.{
  Date, isoformat, ScrapedTrustedFlagger, Columns, TrustedFlaggerOrm, Value, null, str, strs,
  Value-discrete, OptionValue-discrete, Field, Field-discrete, Snapshot, Diff, uuid_text,
}

-- `_SYNCED_FIELDS`
unfoldable pub synced_fields : List Field
synced_fields =
    Field.name ∷ Field.legal_form ∷ Field.website ∷ Field.email ∷ Field.email_domain
    ∷ Field.address_raw ∷ Field.country_code ∷ Field.city ∷ Field.postal_code ∷ Field.dsc_name
    ∷ Field.dsc_country_code ∷ Field.areas_of_expertise_raw ∷ Field.areas_of_expertise
    ∷ Field.designation_date ∷ Field.source_hash ∷ []

abbrev pub optional : Option Text → Value
optional none = null
optional (some t) = str t

abbrev pub date_value : Option Date → Value
date_value none = null
date_value (some d) = str (isoformat d)

-- `getattr(orm, field)`, a date as its ISO text.
unfoldable pub orm_attribute : TrustedFlaggerOrm → Field → Value
orm_attribute orm Field.id = str (uuid_text orm.id)
orm_attribute orm Field.name = str orm.name
orm_attribute orm Field.legal_form = optional orm.legal_form
orm_attribute orm Field.website = optional orm.website
orm_attribute orm Field.email = optional orm.email
orm_attribute orm Field.email_domain = optional orm.email_domain
orm_attribute orm Field.address_raw = optional orm.address_raw
orm_attribute orm Field.country_code = str orm.country_code
orm_attribute orm Field.city = optional orm.city
orm_attribute orm Field.postal_code = optional orm.postal_code
orm_attribute orm Field.dsc_name = optional orm.dsc_name
orm_attribute orm Field.dsc_country_code = optional orm.dsc_country_code
orm_attribute orm Field.areas_of_expertise_raw = strs orm.areas_of_expertise_raw
orm_attribute orm Field.areas_of_expertise = strs orm.areas_of_expertise
orm_attribute orm Field.designation_date = date_value orm.designation_date
orm_attribute orm Field.source_hash = str orm.source_hash
orm_attribute orm Field.status = str (status_value orm.status)

-- `_orm_to_compare_dict`
unfoldable pub orm_to_compare_dict : TrustedFlaggerOrm → Snapshot
unfolding synced_fields orm_attribute
orm_to_compare_dict orm = map (λ field. (field, orm_attribute orm field)) synced_fields

-- `scraped.model_dump(mode="json")`
unfoldable pub model_dump : ScrapedTrustedFlagger → Snapshot
model_dump s =
    (Field.id, str (uuid_text s.id))
    ∷ (Field.name, str s.name)
    ∷ (Field.legal_form, optional s.legal_form)
    ∷ (Field.website, optional s.website)
    ∷ (Field.email, optional s.email)
    ∷ (Field.email_domain, optional s.email_domain)
    ∷ (Field.address_raw, optional s.address_raw)
    ∷ (Field.country_code, str s.country_code)
    ∷ (Field.city, optional s.city)
    ∷ (Field.postal_code, optional s.postal_code)
    ∷ (Field.dsc_name, optional s.dsc_name)
    ∷ (Field.dsc_country_code, optional s.dsc_country_code)
    ∷ (Field.areas_of_expertise_raw, strs s.areas_of_expertise_raw)
    ∷ (Field.areas_of_expertise, strs (map area_value s.areas_of_expertise))
    ∷ (Field.designation_date, str (isoformat s.designation_date))
    ∷ (Field.source_hash, str s.source_hash)
    ∷ []

-- `d.get(field)`, where a missing key reads as `None`.
unfoldable pub value_at : Field → Snapshot → Value
unfolding get
value_at f d = get_or (get Field-discrete f d) null

-- `_scraped_to_compare_dict`
unfoldable pub scraped_to_compare_dict : ScrapedTrustedFlagger → Snapshot
unfolding synced_fields model_dump value_at
scraped_to_compare_dict s =
    let dumped = model_dump s in map (λ field. (field, value_at field dumped)) synced_fields

-- `_orm_to_snapshot`
unfoldable pub orm_to_snapshot : TrustedFlaggerOrm → Snapshot
unfolding orm_to_compare_dict Field-discrete put
orm_to_snapshot orm =
    put Field-discrete Field.status (str (status_value orm.status))
      (put Field-discrete Field.id (str (uuid_text orm.id)) (orm_to_compare_dict orm))

-- `existing.keys() | scraped.keys()`; no key of the result is looked at twice by a reader.
unfoldable pub union_keys : Snapshot → Snapshot → List Field
union_keys existing scraped = keys existing ++ keys scraped

-- The loop of `compute_diff` over the given keys.
unfoldable pub changes_at : Snapshot → Snapshot → List Field → Diff
changes_at existing scraped [] = []
changes_at existing scraped (key ∷ rest) =
    let out = changes_at existing scraped rest in
    let before = value_at key existing in
    let after = value_at key scraped in
    elim (Value-discrete before after) [
      | yes _ ↦ out
      | no _ ↦ put Field-discrete key (record { from = before; to = after }) out
    ]

unfoldable pub compute_diff : Snapshot → Snapshot → Diff
unfolding changes_at union_keys
compute_diff existing scraped = changes_at existing scraped (union_keys existing scraped)

-- `existing != scraped` of two dictionaries: some key is missing on one side, or has two values.
unfoldable pub same_at : Snapshot → Snapshot → List Field → Bool
same_at d e [] = true
same_at d e (key ∷ rest) =
    let r = same_at d e rest in
    elim (OptionValue-discrete (get Field-discrete key d) (get Field-discrete key e)) [
      | yes _ ↦ r
      | no _ ↦ false
    ]

unfoldable pub same_dict : Snapshot → Snapshot → Bool
unfolding same_at union_keys
same_dict d e = same_at d e (union_keys d e)

unfoldable pub columns_of : ScrapedTrustedFlagger → Columns
columns_of s = record {
  name = s.name;
  legal_form = s.legal_form;
  website = s.website;
  email = s.email;
  email_domain = s.email_domain;
  address_raw = s.address_raw;
  country_code = s.country_code;
  city = s.city;
  postal_code = s.postal_code;
  dsc_name = s.dsc_name;
  dsc_country_code = s.dsc_country_code;
  areas_of_expertise_raw = s.areas_of_expertise_raw;
  areas_of_expertise = map area_value s.areas_of_expertise;
  designation_date = some s.designation_date;
  source_hash = s.source_hash;
}

-- `_apply_scraped_to_orm`
unfoldable pub apply_scraped_to_orm : TrustedFlaggerOrm → ScrapedTrustedFlagger → TrustedFlaggerOrm
unfolding columns_of
apply_scraped_to_orm orm scraped = record orm { columns = columns_of scraped }

-- What a scrape writes reads back as what was scraped.
pub orm_to_compare_dict-apply_scraped_to_orm :
    (orm : TrustedFlaggerOrm) (scraped : ScrapedTrustedFlagger)
    → orm_to_compare_dict (apply_scraped_to_orm orm scraped) ≡ scraped_to_compare_dict scraped
unfolding orm_to_compare_dict apply_scraped_to_orm scraped_to_compare_dict Field-discrete
orm_to_compare_dict-apply_scraped_to_orm orm scraped = refl
