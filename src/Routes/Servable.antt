-- ===== src/Routes/Servable.antt =====
-- core/models.py, `TrustedFlagger`: every row that a scrape leaves can be shown.
use dsa_api.Base.{
  ◌≡◌, refl, sym, subst, ◌∙◌, Bool, true, false, ◌&&◌, Bool-cases, inl, inr, ◌⊎◌, Option, none,
  some, List, [], ◌∷◌, map, length, All, ==_iff, ◌>>=◌, bind-some, arith, if◌then◌else◌,
}
use dsa_api.Enums.{AreaEnum, area_value}
use dsa_api.Models.{Uuid, Time, Columns, ScrapedTrustedFlagger, TrustedFlaggerOrm}
use dsa_api.Text.{Text, text_discrete}
use dsa_api.Normalize.Chars.{Unicode}
use dsa_api.Normalize.Rows.{Row, Result, text_of}
use dsa_api.Normalize.Valid.{IsNormalized}
use dsa_api.Ingest.Compare.{
  columns_of, apply_scraped_to_orm, same_dict, orm_to_compare_dict, scraped_to_compare_dict,
}
use dsa_api.Ingest.Reconcile.{new_orm, is_removed, apply_diff, flushed_rows}
use dsa_api.Ingest.Entity.{gone, seen, refreshed, settled}
use dsa_api.Ingest.Table.{find, IsTable, last_with}
use dsa_api.Ingest.Settle.{scraped_row, find-apply_diff}
use dsa_api.Routes.Serialize.{
  area_among, area_from, areas_from, TrustedFlagger, is_code, is_code_or_none, serialize,
}

-- Each member is found by its value.
area_from-area_value : (a : AreaEnum) → area_from (area_value a) ≡ some a
unfolding area_from area_among area_value text_discrete
area_from-area_value AreaEnum.ip_infringement = refl
area_from-area_value AreaEnum.illegal_speech = refl
area_from-area_value AreaEnum.terrorist_content = refl
area_from-area_value AreaEnum.csam = refl
area_from-area_value AreaEnum.protection_of_minors = refl
area_from-area_value AreaEnum.cyber_violence = refl
area_from-area_value AreaEnum.gender_based_violence = refl
area_from-area_value AreaEnum.scams_fraud = refl
area_from-area_value AreaEnum.illegal_products = refl
area_from-area_value AreaEnum.consumer_protection = refl
area_from-area_value AreaEnum.disinformation = refl
area_from-area_value AreaEnum.data_privacy = refl
area_from-area_value AreaEnum.public_security = refl
area_from-area_value AreaEnum.violence = refl
area_from-area_value AreaEnum.self_harm = refl
area_from-area_value AreaEnum.animal_welfare = refl
area_from-area_value AreaEnum.civil_discourse = refl
area_from-area_value AreaEnum.other = refl

areas_from-map : (areas : List AreaEnum) → areas_from (map area_value areas) ≡ some areas
unfolding areas_from
areas_from-map [] = refl
areas_from-map (a ∷ areas) = rw (area_from-area_value a, areas_from-map areas) refl

-- What the model demands of a row.
pub record IsValid (c : Columns) : Type 0 where
  pub areas : List AreaEnum
  pub known : areas_from c.areas_of_expertise ≡ some areas
  pub codes : is_code c.country_code && is_code_or_none c.dsc_country_code ≡ true

-- A row that is shown.
abbrev pub IsServable : TrustedFlaggerOrm → Type 0
IsServable row = (shown : TrustedFlagger) × (serialize row ≡ some shown)

both_hold : (a b : Bool) → a ≡ true → b ≡ true → a && b ≡ true
both_hold a b p q = rw (p, q) refl

checked :
    (o : Option (List AreaEnum)) (areas : List AreaEnum) (test : Bool)
    (f : List AreaEnum → TrustedFlagger)
    → o ≡ some areas
    → test ≡ true
    → (o >>= λ found. if test then some (f found) else none) ≡ some (f areas)
checked o areas test f p q = rw (p, q) refl

passed_test :
    (test : Bool) (a b : TrustedFlagger) → (if test then some a else none) ≡ some b → test ≡ true
passed_test true a b h = refl
passed_test false a b h = absurd (grind arith)

IsValid-IsServable : (row : TrustedFlaggerOrm) → IsValid row.columns → IsServable row
unfolding serialize
IsValid-IsServable row v = (_, checked _ v.areas _ _ v.known v.codes)

IsServable-IsValid : (row : TrustedFlaggerOrm) → IsServable row → IsValid row.columns
unfolding serialize
IsServable-IsValid row (shown, h) =
    let (areas, known, rest) = bind-some (areas_from row.areas_of_expertise) _ shown h in
    record { areas = areas; known = known; codes = passed_test _ _ shown rest }

-- The row of an equation is as valid as the other.
pub same_row : (a b : TrustedFlaggerOrm) → some a ≡ some b → a ≡ b
same_row a b h = grind arith

moved : (a b : TrustedFlaggerOrm) → some a ≡ some b → IsValid a.columns → IsValid b.columns
moved a b h = subst (λ (z : TrustedFlaggerOrm). IsValid z.columns) (same_row a b h)

gone_or_kept :
    (test : Bool) (before r : TrustedFlaggerOrm)
    → (if test then some before else some (gone before)) ≡ some r
    → IsValid before.columns
    → IsValid r.columns
gone_or_kept true before r h = moved before r h
gone_or_kept false before r h = moved (gone before) r h

last_with-cons :
    (j : Uuid) (x : ScrapedTrustedFlagger) (xs : List ScrapedTrustedFlagger)
    (sc : ScrapedTrustedFlagger)
    → scraped_row j (x ∷ xs) ≡ some sc
    → (scraped_row j xs ≡ some sc) ⊎ (x ≡ sc)
unfolding last_with
last_with-cons j x xs sc h = ground arith

module _ (unicode : Unicode) (uuid5 : Text → Uuid) (row_hash : Row → Result Text) where
  some_code : (code : Option Text) → length (text_of code) ≡ 2 → is_code_or_none code ≡ true
  some_code none h = refl
  some_code (some code) h = (==_iff (length code) 2).1 h

  columns-IsValid :
      (sc : ScrapedTrustedFlagger)
      → IsNormalized unicode uuid5 row_hash sc
      → IsValid (columns_of sc)
  unfolding columns_of
  columns-IsValid sc n = record {
    areas = sc.areas_of_expertise;
    known = areas_from-map sc.areas_of_expertise;
    codes =
        both_hold (is_code sc.country_code) (is_code_or_none sc.dsc_country_code)
          ((==_iff (length sc.country_code) 2).1 n.country)
          (some_code sc.dsc_country_code n.dsc_country);
  }

  -- The last entry of an id is one of the list.
  last_with-All :
      (j : Uuid) (xs : List ScrapedTrustedFlagger) (sc : ScrapedTrustedFlagger)
      → All (IsNormalized unicode uuid5 row_hash) xs
      → scraped_row j xs ≡ some sc
      → IsNormalized unicode uuid5 row_hash sc
  unfolding last_with
  last_with-All j [] sc all h = absurd (grind arith)
  last_with-All j (x ∷ xs) sc all h = elim (last_with-cons j x xs sc h) [
    | inl e ↦ last_with-All j xs sc all.1 e
    | inr e ↦ subst (IsNormalized unicode uuid5 row_hash) e all.0
  ]

  module _ (run_id : Uuid) (scraped_at : Time) (j : Uuid) where
    refreshed-IsValid :
        (r : TrustedFlaggerOrm) (sc : ScrapedTrustedFlagger)
        → IsValid r.columns
        → IsValid (columns_of sc)
        → IsValid (refreshed run_id scraped_at r sc).columns
    unfolding refreshed apply_scraped_to_orm
    refreshed-IsValid r sc v w = elim (Bool-cases (is_removed (seen run_id scraped_at r))) [
      | inl p ↦ rw p w
      | inr p ↦
          rw p
            (elim (Bool-cases (
              same_dict (orm_to_compare_dict (seen run_id scraped_at r))
                (scraped_to_compare_dict sc))) [ inl q ↦ rw q v | inr q ↦ rw q w ])
    ]

    settled-IsValid :
        (s : Option ScrapedTrustedFlagger) (o : Option TrustedFlaggerOrm) (r : TrustedFlaggerOrm)
        → ((sc : ScrapedTrustedFlagger) → s ≡ some sc → IsValid (columns_of sc))
        → ((before : TrustedFlaggerOrm) → o ≡ some before → IsValid before.columns)
        → settled run_id scraped_at j s o ≡ some r
        → IsValid r.columns
    unfolding settled new_orm
    settled-IsValid none none r hs ho h = absurd (grind arith)
    settled-IsValid (some sc) none r hs ho h = moved (new_orm scraped_at sc j) r h (hs sc refl)
    settled-IsValid (some sc) (some before) r hs ho h =
        moved (refreshed run_id scraped_at before sc) r h
          (refreshed-IsValid before sc (ho before refl) (hs sc refl))
    settled-IsValid none (some before) r hs ho h =
        gone_or_kept (is_removed before) before r h (ho before refl)

    -- If every row of the table can be serialized for the API before a scrape, and every
    -- scraped row is as normalization promises, every row can be serialized after it, if the
    -- table had no id twice.
    pub apply_diff-IsServable :
        (rows : List TrustedFlaggerOrm) (normalized : List ScrapedTrustedFlagger)
        → IsTable rows
        → All (IsNormalized unicode uuid5 row_hash) normalized
        → ((before : TrustedFlaggerOrm) → find j rows ≡ some before → IsServable before)
        → (r : TrustedFlaggerOrm)
        → find j (flushed_rows (apply_diff run_id scraped_at rows normalized)) ≡ some r
        → IsServable r
    apply_diff-IsServable rows normalized table all before r h = IsValid-IsServable r (
        settled-IsValid (scraped_row j normalized) (find j rows) r
          (λ sc e. columns-IsValid sc (last_with-All j normalized sc all e))
          (λ b e. IsServable-IsValid b (before b e))
          (sym (find-apply_diff run_id scraped_at rows normalized table j) ∙ h))
