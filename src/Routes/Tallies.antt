-- ===== src/Routes/Tallies.antt =====
-- apps/api/routers/stats.py, `get_stats`: what the grouped counts are.
use dsa_api.Base.{
  ℕ, zero, suc, ◌+◌, ◌≡◌, refl, ◌∙◌, arith, Option, none, some, List, [], ◌∷◌, ◌++◌, map, filter_by,
  length, length-append, sum, Dict, values, get, put, get-put,
}
use dsa_api.Models.{TrustedFlaggerOrm}
use dsa_api.Text.{Text, text_discrete}
use dsa_api.Routes.Tables.{Database}
use dsa_api.Routes.Stats.{
  is_active, suc_or_one, grouped, elements_of, OptionText-discrete, without_none, get_stats,
}

-- A key that no row has is not in the answer.
abbrev pub count_or_none : ℕ → Option ℕ
count_or_none zero = none
count_or_none (suc n) = some (suc n)

suc_or_one-count : (n : ℕ) → suc_or_one (count_or_none n) ≡ suc n
suc_or_one-count zero = refl
suc_or_one-count (suc n) = refl

module _ {ℓ} {K : Type ℓ} (eq : Discrete K) where
  -- How often a key stands in a list.
  unfoldable pub count_of : K → List K → ℕ
  count_of k [] = 0
  count_of k (j ∷ js) = let rest = count_of k js in elim (eq j k) [ yes _ ↦ suc rest | no _ ↦ rest ]

  count_of-append : (k : K) (xs ys : List K) → count_of k (xs ++ ys) ≡ count_of k xs + count_of k ys
  unfolding count_of
  count_of-append k [] ys = omega arith
  count_of-append k (x ∷ xs) ys = ground (arith, count_of-append k xs ys)

  get-grouped : (k : K) (js : List K) → get eq k (grouped eq js) ≡ count_or_none (count_of k js)
  unfolding grouped get count_of
  get-grouped k [] = refl
  get-grouped k (j ∷ js) = ground (
    arith,
    get-put eq j k (suc_or_one (get eq j (grouped eq js))) (grouped eq js),
    get-grouped k js,
    suc_or_one-count (count_of k js),
  )

  sum-put :
      (k : K) (d : Dict K ℕ)
      → sum (values (put eq k (suc_or_one (get eq k d)) d)) ≡ suc (sum (values d))
  unfolding put get
  sum-put k [] = omega arith
  sum-put k ((j, n) ∷ d) = ground (arith, sum-put k d)

  sum-grouped : (js : List K) → sum (values (grouped eq js)) ≡ length js
  unfolding grouped
  sum-grouped [] = refl
  sum-grouped (j ∷ js) = omega (arith, sum-put j (grouped eq js), sum-grouped js)

get-without_none :
    (dsc : Text) (d : Dict (Option Text) ℕ)
    → get text_discrete dsc (without_none d) ≡ get OptionText-discrete (some dsc) d
unfolding get without_none
get-without_none dsc [] = refl
get-without_none dsc ((none, n) ∷ d) = ground (arith, get-without_none dsc d)
get-without_none dsc ((some j, n) ∷ d) = ground (arith, get-without_none dsc d)

length-map {ℓ κ} :
    {A : Type ℓ} {B : Type κ} (f : A → B) (xs : List A) → length (map f xs) ≡ length xs
length-map f [] = refl
length-map f (x ∷ xs) = omega (arith, length-map f xs)

length-elements_of :
    (rows : List TrustedFlaggerOrm)
    → length (elements_of rows) ≡ sum (map (λ row. length row.areas_of_expertise) rows)
unfolding elements_of
length-elements_of [] = refl
length-elements_of (row ∷ rows) =
    omega (arith, length-append row.areas_of_expertise (elements_of rows), length-elements_of rows)

abbrev pub active_rows : Database → List TrustedFlaggerOrm
active_rows db = filter_by is_active db.flaggers

-- For every country, area and country of a coordinator the statistics have the number of times
-- that active rows have it, and no entry for none; the countries add up to the total, and the
-- areas to the numbers of areas of the active rows.
pub get_stats-tallies :
    (db : Database) (key : Text)
    → (get text_discrete key (get_stats db).by_country
        ≡ count_or_none
            (count_of text_discrete key (map (λ row. row.country_code) (active_rows db))))
      × (get text_discrete key (get_stats db).by_area
          ≡ count_or_none (count_of text_discrete key (elements_of (active_rows db))))
      × (get text_discrete key (get_stats db).by_dsc_country
          ≡ count_or_none (
              count_of OptionText-discrete
                (some key)
                (map (λ row. row.dsc_country_code) (active_rows db))))
      × (sum (values (get_stats db).by_country) ≡ (get_stats db).total)
      × (sum (values (get_stats db).by_area)
          ≡ sum (map (λ row. length row.areas_of_expertise) (active_rows db)))
unfolding get_stats
get_stats-tallies db key = (
  get-grouped text_discrete key _,
  get-grouped text_discrete key _,
  get-without_none key _ ∙ get-grouped OptionText-discrete (some key) _,
  sum-grouped text_discrete _ ∙ length-map (λ row. row.country_code) (active_rows db),
  sum-grouped text_discrete _ ∙ length-elements_of (active_rows db),
)
