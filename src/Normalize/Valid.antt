-- ===== src/Normalize/Valid.antt =====
-- core/normalize.py, `normalize_row` and `normalize_rows`: what holds of every row that is kept.
use dsa_api.Base.{
  ◌≡◌, refl, subst, Bool, true, false, Option, none, some, map, length, All, ◌==◌, arith,
  if◌then◌else◌, Option-cases, ==_iff, inl, inr,
}
use dsa_api.Models.{Uuid, Date, ScrapedTrustedFlagger}
use dsa_api.Text.{Text, text, strip, is_empty}
use dsa_api.Json.{Json}
use dsa_api.Normalize.Chars.{Unicode}
use dsa_api.Normalize.Strip.{strip-strip}
use dsa_api.Normalize.Areas.{area_of, split_areas_raw}
use dsa_api.Normalize.Split.{IsLabel, split_areas_raw-All}
use dsa_api.Normalize.Dedup.{firsts, normalize_areas-eq-firsts}
use dsa_api.Normalize.Country.{extract_dsc_country_code}
use dsa_api.Normalize.Suffix.{EndsInCode, extract_dsc_country_code_iff}
use dsa_api.Normalize.Dates.{is_date, parse_eu_date}
use dsa_api.Normalize.Calendar.{parse_eu_date-is_date}
use dsa_api.Normalize.Emails.{or_none}
use dsa_api.Normalize.Rows.{
  Row, RowError, Result, ok, bad_row, crashed, ◌>>=◌, text_field, require, date_or_bad,
  missing_name, invalid_country_code, code_or, text_of, derive_stable_id, email_of, required_of,
  normalize_row,
}

-- What the scraped row promises: the lengths that its type demands, a date of the calendar, an
-- identity that is a function of name, coordinator and date, and areas that are those of its labels.
pub record IsNormalized (unicode : Unicode) (uuid5 : Text → Uuid) (row_hash : Row → Result Text)
    (tf : ScrapedTrustedFlagger) : Type 0 where
  pub named : is_empty tf.name ≡ false
  pub name_stripped : strip tf.name ≡ tf.name
  pub country : length tf.country_code ≡ 2
  pub dsc_country : length (text_of tf.dsc_country_code) ≡ 2
  pub dated : is_date tf.designation_date ≡ true
  pub identified :
      tf.id
      ≡ derive_stable_id unicode uuid5 row_hash tf.name (text_of tf.dsc_name) tf.designation_date
  pub labelled : All IsLabel tf.areas_of_expertise_raw
  pub mapped : tf.areas_of_expertise ≡ firsts (map (area_of unicode) tf.areas_of_expertise_raw)

pub bind-ok {ℓ κ} :
    {A : Type ℓ} {B : Type κ} (r : Result A) (f : A → Result B) (b : B)
    → (r >>= f) ≡ ok b
    → (a : A) × (r ≡ ok a) × (f a ≡ ok b)
bind-ok (ok a) f b h = (a, refl, h)
bind-ok (bad_row e) f b h = absurd (grind arith)
bind-ok crashed f b h = absurd (grind arith)

require-ok : (test : Bool) (e : RowError) → require test e ≡ ok tt → test ≡ true
require-ok test e h = ground arith

date_or_bad-ok :
    (shown : Option Json) (o : Option Date) (d : Date) → date_or_bad shown o ≡ ok d → o ≡ some d
date_or_bad-ok shown o d h = ground arith

full-named : (s : Text) → (if is_empty s then false else true) ≡ true → is_empty s ≡ false
full-named s h = ground arith

pub ok_injective {ℓ} : {A : Type ℓ} (a b : A) → ok a ≡ ok b → a ≡ b
ok_injective a b h = grind arith

code_length :
    (dsc_name found code : Text)
    → EndsInCode dsc_name found
    → length (code_or (some found) code) ≡ 2
code_length dsc_name found code e = rw e.is_code refl

found-length :
    (dsc_name : Option Text) (found code : Text)
    → extract_dsc_country_code dsc_name ≡ some found
    → length (code_or (some found) code) ≡ 2
unfolding extract_dsc_country_code
found-length none found code h = absurd (grind arith)
found-length (some s) found code h =
    code_length s found code ((extract_dsc_country_code_iff s found).0 h)

extracted-length :
    (dsc_name : Option Text) (code : Text)
    → length code ≡ 2
    → length (code_or (extract_dsc_country_code dsc_name) code) ≡ 2
extracted-length dsc_name code h = elim (Option-cases (extract_dsc_country_code dsc_name)) [
  | inl e ↦ rw e h
  | inr (found, e) ↦ rw e (found-length dsc_name found code e)
]

module _ (unicode : Unicode) (uuid5 : Text → Uuid) (row_hash : Row → Result Text) where
  -- What the three required fields promise.
  record IsRequired (r : Text × Text × Date) : Type 0 where
    named : is_empty r.0 ≡ false
    name_stripped : strip r.0 ≡ r.0
    country : length r.1 ≡ 2
    dated : is_date r.2 ≡ true

  required_of-IsRequired :
      (raw : Row) (r : Text × Text × Date)
      → required_of unicode uuid5 row_hash raw ≡ ok r
      → IsRequired r
  unfolding required_of
  required_of-IsRequired raw r h =
      let name = bind-ok (text_field (text "name") raw) _ r h in
      let country = bind-ok (text_field (text "country_") raw) _ r name.2 in
      let n = strip name.0 in
      let c = unicode.upper (strip country.0) in
      let full =
        bind-ok (require (if is_empty n then false else true) missing_name) _ r country.2 in
      let two = bind-ok (require (length c == 2) (invalid_country_code c)) _ r full.2 in
      let date_raw = bind-ok (text_field (text "date_of_certification_") raw) _ r two.2 in
      let date = bind-ok (date_or_bad _ (parse_eu_date unicode (some date_raw.0))) _ r date_raw.2 in
      subst IsRequired (ok_injective (n, c, date.0) r date.2) (record {
        named = full-named n (require-ok _ _ full.1);
        name_stripped = strip-strip name.0;
        country = (==_iff (length c) 2).0 (require-ok _ _ two.1);
        dated =
            parse_eu_date-is_date unicode (some date_raw.0) date.0
              (date_or_bad-ok _ (parse_eu_date unicode (some date_raw.0)) date.0 date.1);
      })

  -- Whatever the row, if it is kept, its name is stripped and not blank, its two country codes
  -- have two characters, its date is one of the calendar, its id is derived from name,
  -- coordinator and date, its labels are clean, and its areas are those of the labels.
  pub normalize_row-IsNormalized :
      (raw : Row) (tf : ScrapedTrustedFlagger)
      → normalize_row unicode uuid5 row_hash raw ≡ ok tf
      → IsNormalized unicode uuid5 row_hash tf
  unfolding normalize_row
  normalize_row-IsNormalized raw tf h =
      let required = bind-ok (required_of unicode uuid5 row_hash raw) _ tf h in
      let r = required_of-IsRequired raw required.0 required.1 in
      let dsc = bind-ok (text_field (text "dsc_country_") raw) _ tf required.2 in
      let areas = bind-ok (text_field (text "areas_of_expertise") raw) _ tf dsc.2 in
      let email = bind-ok (email_of unicode uuid5 row_hash raw) _ tf areas.2 in
      let website = bind-ok (text_field (text "tf_website") raw) _ tf email.2 in
      let address = bind-ok (text_field (text "tf_address") raw) _ tf website.2 in
      let hash = bind-ok (row_hash raw) _ tf address.2 in
      subst (IsNormalized unicode uuid5 row_hash) (ok_injective _ tf hash.2) (record {
        named = r.named;
        name_stripped = r.name_stripped;
        country = r.country;
        dsc_country = extracted-length (or_none (strip dsc.0)) required.0.1 r.country;
        dated = r.dated;
        identified = refl;
        labelled = split_areas_raw-All (some areas.0);
        mapped = normalize_areas-eq-firsts unicode (split_areas_raw (some areas.0));
      })
