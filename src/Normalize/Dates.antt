-- ===== src/Normalize/Dates.antt =====
-- core/normalize.py, `parse_eu_date`: `strptime` with `%d/%m/%Y`, whose expressions are those of
-- Python's `_strptime`, and the date that `datetime` admits.
use dsa_api.Base.{
  ℕ, ◌+◌, ◌-◌, ◌*◌, ◌%◌, Bool, ◌&&◌, ◌||◌, not, Option, none, some, ◌>>=◌, List, [], ◌∷◌, ◌++◌, leb,
  ◌==◌, if◌then◌else◌,
}
use dsa_api.Models.{Date}
use dsa_api.Text.{Text, text, strip, is_empty, zero_padded}
use dsa_api.Normalize.Chars.{Unicode, split}

abbrev pub is_leap : ℕ → Bool
is_leap year = year % 4 == 0 && (not (year % 100 == 0) || year % 400 == 0)

abbrev pub days_in_month : ℕ → ℕ → ℕ
days_in_month year month =
    if month == 2
    then (if is_leap year then 29 else 28)
    else if month == 4 || month == 6 || month == 9 || month == 11
    then 30
    else 31

-- The dates of `datetime`: years 1 to 9999.
abbrev pub is_date : Date → Bool
is_date d =
    leb 1 d.year
    && leb d.year 9999
    && leb 1 d.month
    && leb d.month 12
    && leb 1 d.day
    && leb d.day (days_in_month d.year d.month)

-- `[1-9]`
abbrev pub is_positive : ℕ → Bool
is_positive c = leb 49 c && leb c 57

-- `1[0-2]|0[1-9]|[1-9]`
unfoldable pub month_of : Text → Option ℕ
month_of (a ∷ []) = if is_positive a then some (a - 48) else none
month_of (a ∷ (b ∷ [])) =
    if a == 49 && leb 48 b && leb b 50
    then some (b - 38)
    else if a == 48 && is_positive b
    then some (b - 48)
    else none
month_of _ = none

abbrev slash : ℕ
slash = 47

module _ (unicode : Unicode) where
  -- `3[0-1]|[1-2]\d|0[1-9]|[1-9]| [1-9]`
  unfoldable pub day_of : Text → Option ℕ
  day_of (a ∷ []) = if is_positive a then some (a - 48) else none
  day_of (a ∷ (b ∷ [])) =
      if a == 51 && (b == 48 || b == 49)
      then some (b - 18)
      else if a == 49 || a == 50
      then (elim (unicode.decimal b) [ none ↦ none | some v ↦ some ((a - 48) * 10 + v) ])
      else if (a == 48 || a == 32) && is_positive b
      then some (b - 48)
      else none
  day_of _ = none

  -- `\d\d\d\d`
  unfoldable pub year_of : Text → Option ℕ
  year_of (a ∷ (b ∷ (c ∷ (d ∷ [])))) = do
    k ← unicode.decimal a
    h ← unicode.decimal b
    t ← unicode.decimal c
    u ← unicode.decimal d
    some (k * 1000 + h * 100 + t * 10 + u)
  year_of _ = none

  -- `datetime(year, month, day)`, which refuses what is no date.
  unfoldable pub date_of : Text → Text → Text → Option Date
  date_of d m y = do
    day ← day_of d
    month ← month_of m
    year ← year_of y
    let date : Date = record { year = year; month = month; day = day }
    if is_date date then some date else none

  -- `strptime(s, "%d/%m/%Y")`
  unfoldable pub strptime : List Text → Option Date
  strptime (d ∷ (m ∷ (y ∷ []))) = date_of d m y
  strptime _ = none

  unfoldable pub parse_eu_date : Option Text → Option Date
  parse_eu_date none = none
  parse_eu_date (some raw) = if is_empty raw then none else strptime (split slash (strip raw))

-- A date as the register writes it.
unfoldable pub eu_date : Date → Text
eu_date d =
    zero_padded 2 d.day
    ++ (text "/" ++ (zero_padded 2 d.month ++ (text "/" ++ zero_padded 4 d.year)))
