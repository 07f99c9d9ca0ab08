-- ===== src/Normalize/Country.antt =====
-- core/normalize.py, `extract_dsc_country_code`: the expression `\(([A-Z]{2})\)\s*$`.
use dsa_api.Base.{Bool, true, ◌&&◌, Option, none, some, [], ◌∷◌, ◌==◌, if◌then◌else◌}
use dsa_api.Text.{Text, is_space, is_empty}
use dsa_api.Normalize.Chars.{is_upper}

-- `\s*$`
unfoldable pub all_space : Text → Bool
all_space [] = true
all_space (c ∷ s) = is_space c && all_space s

-- A match at the start of the text, with its group.
unfoldable pub match_country : Text → Option Text
match_country (p ∷ (a ∷ (b ∷ (q ∷ s)))) =
    if p == 40 && is_upper a && is_upper b && q == 41 && all_space s
    then some (a ∷ b ∷ [])
    else none
match_country _ = none

-- `search`: the first place that matches.
unfoldable pub search_country : Text → Option Text
search_country [] = none
search_country (c ∷ s) =
    let rest = search_country s in
    elim (match_country (c ∷ s)) [ some code ↦ some code | none ↦ rest ]

unfoldable pub extract_dsc_country_code : Option Text → Option Text
extract_dsc_country_code none = none
extract_dsc_country_code (some dsc_name) =
    if is_empty dsc_name then none else search_country dsc_name
