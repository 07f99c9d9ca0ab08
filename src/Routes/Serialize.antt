-- ===== src/Routes/Serialize.antt =====
-- core/models.py, `TrustedFlagger`, with apps/api/routers/trusted_flaggers.py, `_serialize`.
use dsa_api.Base.{
  Bool, true, ◌&&◌, Option, none, some, List, [], ◌∷◌, length, ◌==◌, ◌>>=◌, if◌then◌else◌,
}
use dsa_api.Enums.{AreaEnum, area_value, TfStatus}
use dsa_api.Models.{Uuid, Time, Date, TrustedFlaggerOrm}
use dsa_api.Text.{Text, text_discrete}

-- The members of the enumeration, in their order.
abbrev pub all_areas : List AreaEnum
all_areas =
    AreaEnum.ip_infringement ∷ AreaEnum.illegal_speech ∷ AreaEnum.terrorist_content ∷ AreaEnum.csam
    ∷ AreaEnum.protection_of_minors ∷ AreaEnum.cyber_violence ∷ AreaEnum.gender_based_violence
    ∷ AreaEnum.scams_fraud ∷ AreaEnum.illegal_products ∷ AreaEnum.consumer_protection
    ∷ AreaEnum.disinformation ∷ AreaEnum.data_privacy ∷ AreaEnum.public_security ∷ AreaEnum.violence
    ∷ AreaEnum.self_harm ∷ AreaEnum.animal_welfare ∷ AreaEnum.civil_discourse ∷ AreaEnum.other ∷ []

unfoldable pub area_among : Text → List AreaEnum → Option AreaEnum
area_among value [] = none
area_among value (a ∷ areas) =
    let rest = area_among value areas in
    elim (text_discrete (area_value a) value) [ yes _ ↦ some a | no _ ↦ rest ]

-- `AreaEnum(value)`, which raises for no member's value.
unfoldable pub area_from : Text → Option AreaEnum
area_from value = area_among value all_areas

unfoldable pub areas_from : List Text → Option (List AreaEnum)
areas_from [] = some []
areas_from (value ∷ values) =
    let rest = areas_from values in
    area_from value >>= λ area. (rest >>= λ areas. some (area ∷ areas))

-- What the API shows of a row.
pub record TrustedFlagger : Type 0 where
  pub id : Uuid
  pub name : Text
  pub legal_form : Option Text
  pub website : Option Text
  pub email : Option Text
  pub email_domain : Option Text
  pub address_raw : Option Text
  pub country_code : Text
  pub city : Option Text
  pub postal_code : Option Text
  pub dsc_name : Option Text
  pub dsc_country_code : Option Text
  pub areas_of_expertise_raw : List Text
  pub areas_of_expertise : List AreaEnum
  pub designation_date : Option Date
  pub status : TfStatus
  pub first_seen_at : Time
  pub last_seen_at : Time
  pub source_hash : Text
  pub source_snapshot_url : Option Text

-- `Field(min_length=2, max_length=2)`
abbrev pub is_code : Text → Bool
is_code code = length code == 2

abbrev pub is_code_or_none : Option Text → Bool
is_code_or_none none = true
is_code_or_none (some code) = is_code code

-- `TrustedFlagger.model_validate(row)`, or nothing where it raises.
unfoldable pub serialize : TrustedFlaggerOrm → Option TrustedFlagger
serialize row = areas_from row.areas_of_expertise >>= λ areas.
    if is_code row.country_code && is_code_or_none row.dsc_country_code
    then some (record {
      id = row.id;
      name = row.name;
      legal_form = row.legal_form;
      website = row.website;
      email = row.email;
      email_domain = row.email_domain;
      address_raw = row.address_raw;
      country_code = row.country_code;
      city = row.city;
      postal_code = row.postal_code;
      dsc_name = row.dsc_name;
      dsc_country_code = row.dsc_country_code;
      areas_of_expertise_raw = row.areas_of_expertise_raw;
      areas_of_expertise = areas;
      designation_date = row.designation_date;
      status = row.status;
      first_seen_at = row.first_seen_at;
      last_seen_at = row.last_seen_at;
      source_hash = row.source_hash;
      source_snapshot_url = row.source_snapshot_url;
    })
    else none
