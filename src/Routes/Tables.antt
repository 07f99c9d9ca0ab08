-- ===== src/Routes/Tables.antt =====
-- The tables as the routers query them, the answers of a route, and what the routers share:
-- `_data_updated_at` of trusted_flaggers.py and stats.py, and a page of ordered rows.
use dsa_api.Base.{
  ℕ, Bool, true, false, ◌&&◌, ◌||◌, Option, none, some, List, [], ◌∷◌, take, drop, leb, ltb, ◌==◌,
  if◌then◌else◌,
}
use dsa_api.Enums.{ScrapeRunStatus}
use dsa_api.Models.{Time, Date, TrustedFlaggerOrm, TrustedFlaggerEventOrm, ScrapeRunOrm}
use dsa_api.Text.{Text, text_discrete}

pub record Database : Type 0 where
  pub flaggers : List TrustedFlaggerOrm
  pub events : List TrustedFlaggerEventOrm
  pub runs : List ScrapeRunOrm

-- A route's value, or the status of its `HTTPException`; 422 is the framework's, for a parameter
-- out of its bounds.
pub data Reply {ℓ} (A : Type ℓ) : Type ℓ where
  ok : A → Reply A
  error : ℕ → Reply A

-- `a == b` of texts.
unfoldable pub str_eq : Text → Text → Bool
str_eq a b = elim (text_discrete a b) [ yes _ ↦ true | no _ ↦ false ]

-- `a in bs`
unfoldable pub is_one_of : Text → List Text → Bool
is_one_of a [] = false
is_one_of a (b ∷ bs) = str_eq a b || is_one_of a bs

-- `a <= b` of dates.
unfoldable pub date_leb : Date → Date → Bool
date_leb a b =
    if ltb a.year b.year
    then true
    else if a.year == b.year
    then (if ltb a.month b.month then true else a.month == b.month && leb a.day b.day)
    else false

-- The runs that produced data.
abbrev pub has_data : ScrapeRunStatus → Bool
has_data ScrapeRunStatus.success = true
has_data ScrapeRunStatus.partial = true
has_data _ = false

-- The first of the times in descending order, in which a missing time comes first.
unfoldable pub later_of : Option Time → List (Option Time) → Option Time
later_of best [] = best
later_of best (none ∷ rest) = none
later_of none (some t ∷ rest) = later_of (some t) rest
later_of (some s) (some t ∷ rest) = later_of (some (if leb s t then t else s)) rest

abbrev completed_times : List ScrapeRunOrm → List (Option Time)
completed_times [] = []
completed_times (run ∷ runs) =
    let rest = completed_times runs in if has_data run.status then run.completed_at ∷ rest else rest

unfoldable pub data_updated_at : List ScrapeRunOrm → Option Time
data_updated_at runs = later_of none (completed_times runs)

-- `.limit(limit).offset(offset)`
abbrev pub page_of {ℓ} : {A : Type ℓ} → (limit offset : ℕ) → List A → List A
page_of limit offset rows = take limit (drop offset rows)

-- Rows with the total that the pages share.
pub record Paged {ℓ} (A : Type ℓ) : Type ℓ where
  pub items : List A
  pub total : ℕ
  pub limit : ℕ
  pub offset : ℕ
  pub updated : Option Time

-- `Query(ge=1, le=most)`
abbrev pub in_bounds : ℕ → ℕ → Bool
in_bounds most limit = leb 1 limit && leb limit most
