-- ===== src/Models.antt =====
-- core/models.py and core/db.py: the scraped row, and the rows of the three tables.
use dsa_api.Base.{
  ℕ, zero, suc, ◌+◌, ◌/◌, ◌%◌, ◌^◌, Option, List, [], ◌∷◌, ◌++◌, Dict, ℕ_discrete, ltb,
  if◌then◌else◌,
}
use dsa_api.Enums.{AreaEnum, TfStatus, EventType, ScrapeRunStatus}
use dsa_api.Text.{Text, text, zero_padded}

-- A UUID is its 128-bit number; a time is a number of microseconds since the epoch.
abbrev pub Uuid : Type 0
Uuid = ℕ

abbrev pub Time : Type 0
Time = ℕ

pub record Date : Type 0 where
  pub year : ℕ
  pub month : ℕ
  pub day : ℕ

-- `date.isoformat()`
unfoldable pub isoformat : Date → Text
unfolding zero_padded
isoformat d =
    zero_padded 4 d.year
    ++ (text "-" ++ (zero_padded 2 d.month ++ (text "-" ++ zero_padded 2 d.day)))

abbrev hex_digit : ℕ → ℕ
hex_digit d = if ltb d 10 then 48 + d else 87 + d

-- The last `width` hexadecimal digits of a number.
hex_from : ℕ → ℕ → Text → Text
hex_from zero n acc = acc
hex_from (suc width) n acc = hex_from width (n / 16) (hex_digit (n % 16) ∷ acc)

-- `str(uuid)`
unfoldable pub uuid_text : Uuid → Text
unfolding hex_from
uuid_text u =
    hex_from 8 (u / 2 ^ 96) []
    ++ (text "-"
        ++ (hex_from 4 (u / 2 ^ 80) []
            ++ (text "-"
                ++ (hex_from 4 (u / 2 ^ 64) []
                    ++ (text "-"
                        ++ (hex_from 4 (u / 2 ^ 48) [] ++ (text "-" ++ hex_from 12 u [])))))))

pub record ScrapedTrustedFlagger : Type 0 where
  pub id : Uuid
  pub name : Text
  pub legal_form : Option Text
  pub website : Option Text
  pub email : Option Text
  pub email_domain : Option Text
  pub address_raw : Option Text
  pub country_code : Text
  pub city : Option Text
  pub postal_code : Option Text
  pub dsc_name : Option Text
  pub dsc_country_code : Option Text
  pub areas_of_expertise_raw : List Text
  pub areas_of_expertise : List AreaEnum
  pub designation_date : Date
  pub source_hash : Text

-- The columns of `trusted_flaggers` that a scrape writes (`_SYNCED_FIELDS`).
pub record Columns : Type 0 where
  pub name : Text
  pub legal_form : Option Text
  pub website : Option Text
  pub email : Option Text
  pub email_domain : Option Text
  pub address_raw : Option Text
  pub country_code : Text
  pub city : Option Text
  pub postal_code : Option Text
  pub dsc_name : Option Text
  pub dsc_country_code : Option Text
  pub areas_of_expertise_raw : List Text
  pub areas_of_expertise : List Text
  pub designation_date : Option Date
  pub source_hash : Text

-- A row of `trusted_flaggers`.
pub record TrustedFlaggerOrm : Type 0 where
  pub id : Uuid
  pub columns : Columns
  pub open columns use *
  pub status : TfStatus
  pub first_seen_at : Time
  pub last_seen_at : Time
  pub source_snapshot_url : Option Text

-- The values that a JSON column of this program holds.
pub data Value : Type 0 where
  null : Value
  str : Text → Value
  strs : List Text → Value

unfoldable pub Value-discrete : Discrete Value
unfolding ℕ_discrete
Value-discrete = hlevel ℕ_discrete

unfoldable pub OptionValue-discrete : Discrete (Option Value)
unfolding Value-discrete
OptionValue-discrete = hlevel Value-discrete

pub data Field : Type 0 where
  id name legal_form website email email_domain address_raw country_code city postal_code : Field
  dsc_name dsc_country_code areas_of_expertise_raw areas_of_expertise designation_date : Field
  source_hash status : Field

unfoldable pub Field-discrete : Discrete Field
Field-discrete = hlevel

pub record Change : Type 0 where
  pub from : Value
  pub to : Value

abbrev pub Snapshot : Type 0
Snapshot = Dict Field Value

abbrev pub Diff : Type 0
Diff = Dict Field Change

-- A row of `trusted_flagger_events`, before the database gives it its number and its time.
pub record NewEvent : Type 0 where
  pub tf_id : Uuid
  pub event_type : EventType
  pub diff : Option Diff
  pub snapshot : Option Snapshot
  pub scrape_run_id : Uuid

pub record TrustedFlaggerEventOrm : Type 0 where
  pub event_id : ℕ
  pub event : NewEvent
  pub open event use *
  pub occurred_at : Time

-- A row of `scrape_runs`.
pub record ScrapeRunOrm : Type 0 where
  pub id : Uuid
  pub started_at : Time
  pub completed_at : Option Time
  pub status : ScrapeRunStatus
  pub source_url : Text
  pub source_response_status : Option ℕ
  pub source_content_hash : Option Text
  pub rows_seen : Option ℕ
  pub rows_created : Option ℕ
  pub rows_updated : Option ℕ
  pub rows_removed : Option ℕ
  pub error_message : Option Text
  pub raw_html_snapshot_url : Option Text
