-- ===== src/Routes/Freshness.antt =====
-- apps/api/routers/badges.py, `badge_freshness`: what the badge says of the age.
use dsa_api.Base.{ℕ, suc, ◌-◌, ◌*◌, ◌≤◌, ◌<◌, ◌≡◌, ◌⊎◌, arith, some}
use dsa_api.Models.{Time}
use dsa_api.Routes.Tables.{Database, data_updated_at}
use dsa_api.Routes.Badges.{
  Color, blue, lightgrey, brightgreen, yellow, red, Message, count, unit_m, unit_h, unit_d, unknown,
  hour, age_message, age_color, badge_freshness,
}

abbrev minute : ℕ
minute = 60000000

abbrev day : ℕ
day = 24 * hour

-- A whole number of units that an age has.
abbrev Lasted : ℕ → ℕ → ℕ → Type 0
Lasted unit n age = (n * unit ≤ age) × (age < suc n * unit)

-- What a message may say of an age; less than a minute is shown as one.
pub IsAge : ℕ → Message → Type 0
IsAge age (count n) = ⊥
IsAge age (unit_m n) = (1 ≤ n) × (n < 60) × (Lasted minute n age ⊎ ((n ≡ 1) × (age < minute)))
IsAge age (unit_h n) = (1 ≤ n) × (n < 48) × Lasted hour n age
IsAge age (unit_d n) = (2 ≤ n) × Lasted day n age
IsAge age unknown = ⊥

-- What a colour may say of an age.
pub IsColor : ℕ → Color → Type 0
IsColor age brightgreen = age < 12 * hour
IsColor age yellow = (12 * hour ≤ age) × (age < 36 * hour)
IsColor age red = 36 * hour ≤ age
IsColor age blue = ⊥
IsColor age lightgrey = ⊥

age_message-IsAge : (age : ℕ) → IsAge age (age_message age)
unfolding IsAge age_message
age_message-IsAge age = ground arith

age_color-IsColor : (age : ℕ) → IsColor age (age_color age)
unfolding IsColor age_color
age_color-IsColor age = ground arith

-- The badge of a sync says a whole number of minutes below 60, of hours below 48, or of days
-- from 2 on, which the age has lasted, save that less than a minute is shown as one; and its
-- colour is that of the age.
pub badge_freshness-IsAge :
    (now ts : Time) (db : Database)
    → data_updated_at db.runs ≡ some ts
    → IsAge (now - ts) (badge_freshness now db).message
      × IsColor (now - ts) (badge_freshness now db).color
unfolding badge_freshness
badge_freshness-IsAge now ts db h =
    rw h (age_message-IsAge (now - ts), age_color-IsColor (now - ts))
