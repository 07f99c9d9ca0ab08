-- ===== src/Routes/Tests.antt =====
-- The routes on two rows, their events and a run.
use mathlib.Core.List.{Perm}
use mathlib.Core.List.Perm
use dsa_api.Base.{
  inr, leb, ℕ, ◌*◌, ◌-◌, ◌≤◌, ◌≡◌, ◌≢◌, ◌↔◌, ◌⊎◌, refl, Bool, true, false, Option, none, some, List,
  [], ◌∷◌, map, filter_by, length, sum, values, get, put, ℕ_discrete, arith,
}
use dsa_api.Enums.{TfStatus, EventType, ScrapeRunStatus, status_value}
use dsa_api.Models.{Time, Columns, TrustedFlaggerOrm, TrustedFlaggerEventOrm, ScrapeRunOrm}
use dsa_api.Text.{Text, text, text_discrete, is_space, strip, lstrip, rstrip, starts_with, contains}
use dsa_api.Normalize.Chars.{ascii}
use dsa_api.Ingest.Table.{find}
use dsa_api.Api.Probes.{Call, gave}
use dsa_api.Watchdog.Check.{answered}
use dsa_api.Routes.Tables.{Database, ok, str_eq, is_one_of, date_leb, later_of, data_updated_at}
use dsa_api.Routes.Listing.{
  no_filters, any_of, has_country, has_area, has_dsc_country, has_text, matches,
  list_trusted_flaggers,
}
use dsa_api.Routes.Paging.{pages}
use dsa_api.Routes.Sorted.{IsSorted, IsApart}
use dsa_api.Routes.Pages.{name_le, matching, items_of, total_of, list_trusted_flaggers-pages}
use dsa_api.Routes.Lookup.{is_given, extract_host, lookup_trusted_flagger}
use dsa_api.Routes.Changes.{joined_with, joined, list_changes}
use dsa_api.Routes.Joined.{change_total}
use dsa_api.Routes.Stats.{grouped, elements_of, OptionText-discrete, without_none, get_stats}
use dsa_api.Routes.Tallies.{count_or_none, count_of, active_rows, get_stats-tallies}
use dsa_api.Routes.Badges.{unit_h, brightgreen, age_message, age_color, badge_freshness}
use dsa_api.Routes.Freshness.{IsAge, IsColor, badge_freshness-IsAge}
use dsa_api.Routes.Waitlist.{
  WaitlistIn, plain_run, dot_then, match_email, clean_email, contact_reply, join_waitlist,
}
use dsa_api.Routes.Addresses.{IsAddress, clean_email_iff}
use dsa_api.Routes.Subscribed.{IsTaken, join_waitlist_iff}

program : Unit {0}
unfolding ℕ_discrete get put text_discrete is_space strip lstrip rstrip starts_with contains find
    str_eq is_one_of date_leb later_of data_updated_at any_of has_country has_area has_dsc_country
    has_text matches list_trusted_flaggers pages extract_host lookup_trusted_flagger joined_with
    joined list_changes grouped elements_of OptionText-discrete without_none get_stats count_of
    age_message age_color badge_freshness status_value plain_run dot_then match_email clean_email
    join_waitlist
program = tt

abbrev columns_of : Text → Text → List Text → Columns
columns_of name country areas = record {
  name = name;
  legal_form = none;
  website = none;
  email = some (text "A@x.eu");
  email_domain = some (text "x.eu");
  address_raw = none;
  country_code = country;
  city = none;
  postal_code = none;
  dsc_name = none;
  dsc_country_code = some country;
  areas_of_expertise_raw = areas;
  areas_of_expertise = areas;
  designation_date = none;
  source_hash = [];
}

abbrev row_of : ℕ → Columns → TrustedFlaggerOrm
row_of id columns = record {
  id = id;
  columns = columns;
  status = TfStatus.active;
  first_seen_at = 5;
  last_seen_at = 5;
  source_snapshot_url = none;
}

abbrev event_of : ℕ → ℕ → Time → TrustedFlaggerEventOrm
event_of id tf_id at = record {
  event_id = id;
  event = record {
    tf_id = tf_id;
    event_type = EventType.created;
    diff = none;
    snapshot = none;
    scrape_run_id = 3;
  };
  occurred_at = at;
}

abbrev run : ScrapeRunOrm
run = record {
  id = 3;
  started_at = 4;
  completed_at = some 7200000000;
  status = ScrapeRunStatus.success;
  source_url = [];
  source_response_status = none;
  source_content_hash = none;
  rows_seen = none;
  rows_created = none;
  rows_updated = none;
  rows_removed = none;
  error_message = none;
  raw_html_snapshot_url = none;
}

abbrev db : Database
db = record {
  flaggers =
      row_of 1 (columns_of (text "A") (text "AT") (text "csam" ∷ []))
      ∷ row_of 2 (columns_of (text "B") (text "BE") [])
      ∷ [];
  events = event_of 1 1 10 ∷ event_of 2 2 20 ∷ [];
  runs = run ∷ [];
}

abbrev no_ilike : Text → Text → Bool
no_ilike pattern value = false

abbrev same_order {ℓ} : {A : Type ℓ} → List A → List A
same_order rows = rows

abbrev hostname : Text → Call (Option Text)
hostname url = gave (some (text "X.eu"))

total-two : total_of (list_trusted_flaggers ascii no_ilike same_order no_filters 1 0 db) ≡ 2
unfolding program
total-two = refl

two_pages : total_of (list_trusted_flaggers ascii no_ilike same_order no_filters 1 0 db) ≤ 2 * 1
two_pages = omega (arith, total-two)

-- A collation by the first character.
abbrev first : Text → ℕ
first [] = 0
first (c ∷ s) = c

abbrev by_first : Text → Text → Bool
by_first a b = leb (first a) (first b)

by_first_refl : (s : Text) → by_first s s ≡ true
by_first_refl s = ground arith

db-IsSorted : IsSorted (name_le by_first) (matching ascii no_ilike no_filters db)
unfolding program
db-IsSorted = ((refl, tt), (tt, tt))

db-IsApart : IsApart (name_le by_first) (matching ascii no_ilike no_filters db)
unfolding program
db-IsApart = ((refl, tt), (tt, tt))

list_trusted_flaggers-pages_example :
    (pages
        (λ offset.
          items_of (list_trusted_flaggers ascii no_ilike same_order no_filters 1 offset db))
        1
        0
        2
      ≡ filter_by (matches ascii no_ilike no_filters) db.flaggers)
    × Perm
        (pages
          (λ offset.
            items_of (list_trusted_flaggers ascii no_ilike same_order no_filters 1 offset db))
          1
          0
          2)
        (filter_by (matches ascii no_ilike no_filters) db.flaggers)
list_trusted_flaggers-pages_example =
    list_trusted_flaggers-pages ascii no_ilike by_first (λ q. same_order) no_filters db 1 2
      by_first_refl (λ q. Perm.rfl) (λ q. db-IsSorted) (inr db-IsApart) refl two_pages

lookup-by_website :
    lookup_trusted_flagger (map (λ c. c)) ascii hostname none none (some (text "x.eu/a")) db
    ≡ ok (record { rows = db.flaggers; total = 2; updated = some 7200000000 })
unfolding program
lookup-by_website = refl

changes-one : change_total (list_changes same_order (some 15) 1 0 50 db) ≡ 1
unfolding program
changes-one = refl

get_stats-tallies_example :
    (get text_discrete (text "AT") (get_stats db).by_country
      ≡ count_or_none
          (count_of text_discrete (text "AT") (map (λ row. row.country_code) (active_rows db))))
    × (get text_discrete (text "AT") (get_stats db).by_area
        ≡ count_or_none (count_of text_discrete (text "AT") (elements_of (active_rows db))))
    × (get text_discrete (text "AT") (get_stats db).by_dsc_country
        ≡ count_or_none (
            count_of OptionText-discrete
              (some (text "AT"))
              (map (λ row. row.dsc_country_code) (active_rows db))))
    × (sum (values (get_stats db).by_country) ≡ (get_stats db).total)
    × (sum (values (get_stats db).by_area)
        ≡ sum (map (λ row. length row.areas_of_expertise) (active_rows db)))
get_stats-tallies_example = get_stats-tallies db (text "AT")

austria-one : get text_discrete (text "AT") (get_stats db).by_country ≡ some 1
unfolding program
austria-one = refl

updated : data_updated_at db.runs ≡ some 7200000000
unfolding program
updated = refl

two_hours : badge_freshness 14400000000 db ≡ record { message = unit_h 2; color = brightgreen }
unfolding program
two_hours = refl

badge_freshness-IsAge_example :
    IsAge (14400000000 - 7200000000) (badge_freshness 14400000000 db).message
    × IsColor (14400000000 - 7200000000) (badge_freshness 14400000000 db).color
badge_freshness-IsAge_example = badge_freshness-IsAge 14400000000 7200000000 db updated

abbrev joining : WaitlistIn
joining = record { email = text " A@b.eu "; company = none }

clean_email_iff_example : (clean_email ascii (text " A@b.eu ") ≡ some (text "a@b.eu")) ↔ (
    (text "a@b.eu" ≡ ascii.lower (strip (text " A@b.eu ")))
    × (length (text "a@b.eu") ≤ 254)
    × IsAddress (text "a@b.eu"))
clean_email_iff_example = clean_email_iff ascii (text " A@b.eu ") (text "a@b.eu")

conflict-joined :
    join_waitlist ascii (some (text "k")) (some (text "a")) joining (answered 409)
    ≡ (ok tt, some (text "a@b.eu"))
unfolding program contact_reply
conflict-joined = refl

join_waitlist_iff_example :
    ((email : Text)
      → ((join_waitlist ascii (some (text "k")) (some (text "a")) joining (answered 409)).1
          ≡ some email)
        ↔ ((is_given (some (text "k")) ≡ true)
            × (is_given (some (text "a")) ≡ true)
            × (is_given joining.company ≡ false)
            × (clean_email ascii joining.email ≡ some email)))
    × (((join_waitlist ascii (some (text "k")) (some (text "a")) joining (answered 409)).0 ≡ ok tt)
        ↔ ((is_given (some (text "k")) ≡ true)
            × (is_given (some (text "a")) ≡ true)
            × (clean_email ascii joining.email ≢ none)
            × ((is_given joining.company ≡ true) ⊎ IsTaken (answered 409))))
join_waitlist_iff_example =
    join_waitlist_iff ascii (some (text "k")) (some (text "a")) joining (answered 409)
