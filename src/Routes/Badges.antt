-- ===== src/Routes/Badges.antt =====
-- apps/api/routers/badges.py: the two badges.
use dsa_api.Base.{ℕ, ◌-◌, ◌*◌, ◌/◌, Option, none, some, filter_by, length, ltb, if◌then◌else◌}
use dsa_api.Models.{Time}
use dsa_api.Routes.Tables.{Database, data_updated_at}
use dsa_api.Routes.Stats.{is_active}

pub data Color : Type 0 where
  blue lightgrey brightgreen yellow red : Color

-- The message of a badge, its number in place of the text that shows it.
pub data Message : Type 0 where
  count unit_m unit_h unit_d : ℕ → Message
  unknown : Message

-- `_shield`, whose label follows the route.
pub record Shield : Type 0 where
  pub message : Message
  pub color : Color

unfoldable pub badge_flaggers : Database → Shield
badge_flaggers db = record {
  message = count (length (filter_by is_active db.flaggers));
  color = blue;
}

-- An hour, in microseconds.
abbrev pub hour : ℕ
hour = 3600000000

-- `max(1, …)`
abbrev at_least_one : ℕ → ℕ
at_least_one n = if ltb n 1 then 1 else n

-- The age in microseconds; one from the future counts as none, which shows the same.
unfoldable pub age_message : ℕ → Message
age_message age =
    if ltb age hour
    then unit_m (at_least_one (age / 60000000))
    else if ltb age (48 * hour)
    then unit_h (age / hour)
    else unit_d (age / (24 * hour))

unfoldable pub age_color : ℕ → Color
age_color age =
    if ltb age (12 * hour) then brightgreen else if ltb age (36 * hour) then yellow else red

abbrev shield_of : Time → Option Time → Shield
shield_of now none = record { message = unknown; color = lightgrey }
shield_of now (some ts) = record { message = age_message (now - ts); color = age_color (now - ts) }

unfoldable pub badge_freshness : Time → Database → Shield
badge_freshness now db = shield_of now (data_updated_at db.runs)
