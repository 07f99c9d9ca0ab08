-- ===== src/Routes/Stats.antt =====
-- apps/api/routers/stats.py: the counts of `get_stats`.
use dsa_api.Base.{
  ℕ, suc, Bool, Option, none, some, List, [], ◌∷◌, ◌++◌, map, filter_by, length, Dict, get, put,
}
use dsa_api.Enums.{TfStatus, status_value}
use dsa_api.Models.{Time, TrustedFlaggerOrm}
use dsa_api.Text.{Text, text_discrete}
use dsa_api.Routes.Tables.{Database, str_eq, data_updated_at}

abbrev pub is_active : TrustedFlaggerOrm → Bool
is_active row = str_eq (status_value row.status) (status_value TfStatus.active)

abbrev pub suc_or_one : Option ℕ → ℕ
suc_or_one none = 1
suc_or_one (some n) = suc n

-- `SELECT key, COUNT(*) … GROUP BY key` as a dictionary; its order is the database's.
unfoldable pub grouped {ℓ} : {K : Type ℓ} → Discrete K → List K → Dict K ℕ
grouped eq [] = []
grouped eq (k ∷ keys) = put eq k (suc_or_one (get eq k (grouped eq keys))) (grouped eq keys)

-- The elements of every row.
unfoldable pub elements_of : List TrustedFlaggerOrm → List Text
elements_of [] = []
elements_of (row ∷ rows) = row.areas_of_expertise ++ elements_of rows

unfoldable pub OptionText-discrete : Discrete (Option Text)
unfolding text_discrete
OptionText-discrete = hlevel text_discrete

-- `{dsc: n for dsc, n in rows if dsc is not None}`
unfoldable pub without_none : Dict (Option Text) ℕ → Dict Text ℕ
without_none [] = []
without_none ((none, n) ∷ d) = without_none d
without_none ((some dsc, n) ∷ d) = (dsc, n) ∷ without_none d

pub record StatsData : Type 0 where
  pub total : ℕ
  pub by_country : Dict Text ℕ
  pub by_area : Dict Text ℕ
  pub by_dsc_country : Dict Text ℕ
  pub updated : Option Time

unfoldable pub get_stats : Database → StatsData
get_stats db =
    let active = filter_by is_active db.flaggers in
    record {
      total = length active;
      by_country = grouped text_discrete (map (λ row. row.country_code) active);
      by_area = grouped text_discrete (elements_of active);
      by_dsc_country =
          without_none (grouped OptionText-discrete (map (λ row. row.dsc_country_code) active));
      updated = data_updated_at db.runs;
    }
