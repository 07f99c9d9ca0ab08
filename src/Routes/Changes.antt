-- ===== src/Routes/Changes.antt =====
-- apps/api/routers/changes.py: `list_changes`.
use dsa_api.Base.{
  ℕ, ◌-◌, ◌*◌, Bool, Option, none, some, List, [], ◌∷◌, ◌++◌, filter_by, length, leb, ℕ_discrete,
  if◌then◌else◌,
}
use dsa_api.Models.{Time, TrustedFlaggerOrm, TrustedFlaggerEventOrm}
use dsa_api.Text.{Text}
use dsa_api.Routes.Tables.{Database, Reply, ok, error, page_of, Paged, in_bounds}

-- `_DEFAULT_WINDOW`: 30 days, in microseconds.
abbrev pub default_window : ℕ
default_window = 30 * (86400 * 1000000)

-- A row of the joined tables.
pub record ChangeRow : Type 0 where
  pub event : TrustedFlaggerEventOrm
  pub tf_name : Text
  pub tf_country_code : Text

abbrev pub change_row : TrustedFlaggerEventOrm → TrustedFlaggerOrm → ChangeRow
change_row e row = record { event = e; tf_name = row.name; tf_country_code = row.country_code }

-- The rows that one event joins with: those of its flagger's id.
unfoldable pub joined_with : TrustedFlaggerEventOrm → List TrustedFlaggerOrm → List ChangeRow
joined_with e [] = []
joined_with e (row ∷ rows) =
    let rest = joined_with e rows in
    elim (ℕ_discrete row.id e.tf_id) [ yes _ ↦ change_row e row ∷ rest | no _ ↦ rest ]

-- The inner join.
unfoldable pub joined : List TrustedFlaggerEventOrm → List TrustedFlaggerOrm → List ChangeRow
joined [] rows = []
joined (e ∷ events) rows = joined_with e rows ++ joined events rows

abbrev pub is_since : Time → ChangeRow → Bool
is_since since c = leb since c.event.occurred_at

-- `since or (now - 30 days)`, of a time after the first 30 days of the epoch.
abbrev pub effective_since : Option Time → Time → Time
effective_since none now = now - default_window
effective_since (some since) now = since

pub record ChangePage : Type 0 where
  pub since : Time
  pub page : Paged ChangeRow

-- `newest_first` is what the ORDER BY on the time of the events makes of the rows in this query.
unfoldable pub list_changes :
    (List ChangeRow → List ChangeRow)
    → Option Time
    → (limit offset : ℕ) → (now : Time) → Database
    → Reply ChangePage
list_changes newest_first since limit offset now db =
    if in_bounds 500 limit
    then (let from = effective_since since now in
        let found = filter_by (is_since from) (joined db.events db.flaggers) in
        ok (record {
          since = from;
          page = record {
            items = page_of limit offset (newest_first found);
            total = length found;
            limit = limit;
            offset = offset;
            updated = none;
          };
        }))
    else error 422
