-- ===== src/Normalize/Calendar.antt =====
-- core/normalize.py, `parse_eu_date`: what it reads is a date, and every date is read as written.
use dsa_api.Base.{
  ℕ, ◌+◌, ◌*◌, ◌/◌, ◌%◌, ◌<◌, ◌≤◌, ◌≡◌, refl, ap, ◌∙◌, true, false, Option, none, some, List, [],
  ◌∷◌, ◌==◌, arith, bind-some, guard-some,
}
use dsa_api.Models.{Date}
use dsa_api.Text.{Text, is_space, strip, zero_padded_two, zero_padded_four}
use dsa_api.Normalize.Chars.{Unicode, split}
use dsa_api.Normalize.Split.{split-append, split-single}
use dsa_api.Normalize.Strip.{strip-marked}
use dsa_api.Normalize.Dates.{
  is_date, month_of, day_of, year_of, date_of, strptime, parse_eu_date, eu_date,
}

-- The tables read the ten ASCII digits.
abbrev pub ReadsDigits : Unicode → Type 0
ReadsDigits unicode = (d : ℕ) → d < 10 → unicode.decimal (48 + d) ≡ some d

digit-is_space : (d : ℕ) → d < 10 → is_space (48 + d) ≡ false
unfolding is_space
digit-is_space d h = ground arith

slash-is_space : is_space 47 ≡ false
unfolding is_space
slash-is_space = refl

-- Ten characters as the register writes them, from eight digits.
abbrev written : ℕ → ℕ → ℕ → ℕ → ℕ → ℕ → ℕ → ℕ → Text
written a b c e k h t u =
    (48 + a)
    ∷ (48 + b)
    ∷ 47
    ∷ (48 + c)
    ∷ (48 + e)
    ∷ 47
    ∷ (48 + k)
    ∷ (48 + h)
    ∷ (48 + t)
    ∷ (48 + u)
    ∷ []

not_slash : (d : ℕ) → ((48 + d) == 47) ≡ false
not_slash d = ground arith

split-written :
    (a b c e k h t u : ℕ)
    → split 47 (written a b c e k h t u)
      ≡ ((48 + a) ∷ (48 + b) ∷ [])
        ∷ ((48 + c) ∷ (48 + e) ∷ [])
        ∷ ((48 + k) ∷ (48 + h) ∷ (48 + t) ∷ (48 + u) ∷ [])
        ∷ []
split-written a b c e k h t u =
    split-append 47 ((48 + a) ∷ (48 + b) ∷ []) _ (not_slash a, (not_slash b, tt))
    ∙ ap (λ parts. ((48 + a) ∷ (48 + b) ∷ []) ∷ parts)
        (split-append 47 ((48 + c) ∷ (48 + e) ∷ []) _ (not_slash c, (not_slash e, tt))
          ∙ ap (λ parts. ((48 + c) ∷ (48 + e) ∷ []) ∷ parts)
              (split-single 47 ((48 + k) ∷ (48 + h) ∷ (48 + t) ∷ (48 + u) ∷ [])
                (not_slash k, (not_slash h, (not_slash t, (not_slash u, tt))))))

month_of-digits :
    (n c e : ℕ)
    → c < 10
    → e < 10
    → 1 ≤ n
    → n ≤ 12
    → n ≡ c * 10 + e
    → month_of ((48 + c) ∷ (48 + e) ∷ []) ≡ some n
unfolding month_of
month_of-digits n c e hc he low high eq = ground arith

-- The ranges and digits of the numbers of a date.
record InRange (d : Date) : Type 0 where
  day_low : 1 ≤ d.day
  day_high : d.day ≤ 31
  month_low : 1 ≤ d.month
  month_high : d.month ≤ 12
  year_high : d.year ≤ 9999

is_date-InRange : (d : Date) → is_date d ≡ true → InRange d
is_date-InRange d h = ground arith

module _ (unicode : Unicode) where
  day_of-digits :
      (n a b : ℕ)
      → a < 10
      → b < 10
      → 1 ≤ n
      → n ≤ 31
      → n ≡ a * 10 + b
      → unicode.decimal (48 + b) ≡ some b
      → day_of unicode ((48 + a) ∷ (48 + b) ∷ []) ≡ some n
  unfolding day_of
  day_of-digits n a b ha hb low high eq r = ground arith

  year_of-digits :
      (n k h t u : ℕ)
      → n ≡ k * 1000 + h * 100 + t * 10 + u
      → unicode.decimal (48 + k) ≡ some k
      → unicode.decimal (48 + h) ≡ some h
      → unicode.decimal (48 + t) ≡ some t
      → unicode.decimal (48 + u) ≡ some u
      → year_of unicode ((48 + k) ∷ (48 + h) ∷ (48 + t) ∷ (48 + u) ∷ []) ≡ some n
  unfolding year_of
  year_of-digits n k h t u eq rk rh rt ru = rw (eq, rk, rh, rt, ru) refl

  parse_written :
      (a b c e k h t u : ℕ)
      → (a < 10) × (b < 10) × (c < 10) × (e < 10) × (k < 10) × (h < 10) × (t < 10) × (u < 10)
      → parse_eu_date unicode (some (written a b c e k h t u))
        ≡ date_of unicode
            ((48 + a) ∷ (48 + b) ∷ [])
            ((48 + c) ∷ (48 + e) ∷ [])
            ((48 + k) ∷ (48 + h) ∷ (48 + t) ∷ (48 + u) ∷ [])
  unfolding parse_eu_date strptime
  parse_written a b c e k h t u s =
      rw
        (
          strip-marked (written a b c e k h t u) (
            digit-is_space a s.0,
            (
              digit-is_space b s.1,
              (
                slash-is_space,
                (
                  digit-is_space c s.2,
                  (
                    digit-is_space e s.3,
                    (
                      slash-is_space,
                      (
                        digit-is_space k s.4,
                        (digit-is_space h s.5, (digit-is_space t s.6, (digit-is_space u s.7, tt))),
                      ),
                    ),
                  ),
                ),
              ),
            ),
          ),
          split-written a b c e k h t u,
        )
        refl

  date_of-is_date : (x y z : Text) (d : Date) → date_of unicode x y z ≡ some d → is_date d ≡ true
  unfolding date_of
  date_of-is_date x y z d h =
      let day = bind-some (day_of unicode x) _ d h in
      let month = bind-some (month_of y) _ d day.2 in
      let year = bind-some (year_of unicode z) _ d month.2 in
      guard-some is_date (record { year = year.0; month = month.0; day = day.0 }) d year.2

  strptime-is_date :
      (parts : List Text) (d : Date) → strptime unicode parts ≡ some d → is_date d ≡ true
  unfolding strptime
  strptime-is_date (x ∷ (y ∷ (z ∷ []))) d h = date_of-is_date x y z d h
  strptime-is_date [] d h = absurd (grind arith)
  strptime-is_date (x ∷ []) d h = absurd (grind arith)
  strptime-is_date (x ∷ (y ∷ [])) d h = absurd (grind arith)
  strptime-is_date (x ∷ (y ∷ (z ∷ (w ∷ p)))) d h = absurd (grind arith)

  -- Whatever the text, what is read is a date of the calendar, of the years 1 to 9999.
  pub parse_eu_date-is_date :
      (raw : Option Text) (d : Date) → parse_eu_date unicode raw ≡ some d → is_date d ≡ true
  unfolding parse_eu_date
  parse_eu_date-is_date none d h = absurd (grind arith)
  parse_eu_date-is_date (some []) d h = absurd (grind arith)
  parse_eu_date-is_date (some (c ∷ s)) d h = strptime-is_date (split 47 (strip (c ∷ s))) d h

  date_of-digits :
      (d : Date)
      → InRange d
      → is_date d ≡ true
      → ReadsDigits unicode
      → date_of unicode
          ((48 + d.day / 10 % 10) ∷ (48 + d.day % 10) ∷ [])
          ((48 + d.month / 10 % 10) ∷ (48 + d.month % 10) ∷ [])
          ((48 + d.year / 10 / 10 / 10 % 10)
            ∷ (48 + d.year / 10 / 10 % 10)
            ∷ (48 + d.year / 10 % 10)
            ∷ (48 + d.year % 10)
            ∷ [])
        ≡ some d
  unfolding date_of
  date_of-digits d r valid reads =
      rw
        (
          day_of-digits d.day (d.day / 10 % 10) (d.day % 10) (omega (arith, r)) (omega arith)
              (omega (arith, r)) (omega (arith, r)) (omega (arith, r))
              (reads (d.day % 10) (omega arith)),
          month_of-digits d.month (d.month / 10 % 10) (d.month % 10) (omega (arith, r))
              (omega arith) (omega (arith, r)) (omega (arith, r)) (omega (arith, r)),
          year_of-digits d.year (d.year / 10 / 10 / 10 % 10) (d.year / 10 / 10 % 10)
              (d.year / 10 % 10) (d.year % 10) (omega (arith, r))
              (reads (d.year / 10 / 10 / 10 % 10) (omega arith))
              (reads (d.year / 10 / 10 % 10) (omega arith)) (reads (d.year / 10 % 10) (omega arith))
              (reads (d.year % 10) (omega arith)),
        )
        (rw valid refl)

  -- Every date of the calendar is read back from the way the register writes it, if the tables
  -- read the ten ASCII digits.
  pub parse_eu_date-eu_date :
      (d : Date)
      → ReadsDigits unicode
      → is_date d ≡ true
      → parse_eu_date unicode (some (eu_date d)) ≡ some d
  unfolding eu_date
  parse_eu_date-eu_date d reads valid =
      let r = is_date-InRange d valid in
      rw (zero_padded_two d.day, zero_padded_two d.month, zero_padded_four d.year)
        (parse_written (d.day / 10 % 10) (d.day % 10) (d.month / 10 % 10) (d.month % 10)
            (d.year / 10 / 10 / 10 % 10) (d.year / 10 / 10 % 10) (d.year / 10 % 10) (d.year % 10)
            (omega arith)
          ∙ date_of-digits d r valid reads)
