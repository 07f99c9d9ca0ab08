-- ===== src/Normalize/Suffix.antt =====
-- core/normalize.py, `extract_dsc_country_code`: the code is found exactly where the name ends in
-- one in parentheses.
use dsa_api.Base.{
  ℕ, Bool, true, false, ◌&&◌, ◌≡◌, refl, sym, ap, ◌∙◌, none, some, [], ◌∷◌, ◌++◌, ◌↔◌, ◌==◌, arith,
  Option-cases, inl, inr,
}
use dsa_api.Text.{Text, is_space}
use dsa_api.Normalize.Chars.{is_upper}
use dsa_api.Normalize.Country.{all_space, match_country, search_country, extract_dsc_country_code}

-- `(AB)` and white space: a text that is a match of the expression.
abbrev closing : ℕ → ℕ → Text → Text
closing a b tail = 40 ∷ a ∷ b ∷ 41 ∷ tail

-- The name ends in a code of two capitals in parentheses, up to white space.
pub record EndsInCode (name code : Text) : Type 0 where
  pub before : Text
  pub first : ℕ
  pub second : ℕ
  pub tail : Text
  pub split : name ≡ before ++ closing first second tail
  pub first-upper : is_upper first ≡ true
  pub second-upper : is_upper second ≡ true
  pub blank : all_space tail ≡ true
  pub is_code : code ≡ first ∷ second ∷ []

not-all_space : (pre s : Text) → all_space (pre ++ 40 ∷ s) ≡ false
unfolding all_space is_space
not-all_space [] s = ground arith
not-all_space (c ∷ pre) s = ground (arith, not-all_space pre s)

abbrev matches : ℕ → ℕ → ℕ → ℕ → Text → Bool
matches p a b q s = p == 40 && is_upper a && is_upper b && q == 41 && all_space s

-- What the five tests of a match say.
record Matches (p a b q : ℕ) (s : Text) : Type 0 where
  opens : p ≡ 40
  first-upper : is_upper a ≡ true
  second-upper : is_upper b ≡ true
  closes : q ≡ 41
  blank : all_space s ≡ true

matches_parts : (p a b q : ℕ) (s : Text) → matches p a b q s ≡ true → Matches p a b q s
matches_parts p a b q s h = ground arith

match_found :
    (p a b q : ℕ) (s code : Text)
    → match_country (p ∷ a ∷ b ∷ q ∷ s) ≡ some code
    → (matches p a b q s ≡ true) × (code ≡ a ∷ b ∷ [])
unfolding match_country
match_found p a b q s code h = ground arith

match_country_sound : (s code : Text) → match_country s ≡ some code → EndsInCode s code
unfolding match_country
match_country_sound (p ∷ (a ∷ (b ∷ (q ∷ s)))) code h =
    let found = match_found p a b q s code h in
    let m = matches_parts p a b q s found.0 in
    record {
      before = [];
      first = a;
      second = b;
      tail = s;
      split = rw (m.opens, m.closes) refl;
      first-upper = m.first-upper;
      second-upper = m.second-upper;
      blank = m.blank;
      is_code = found.1;
    }
match_country_sound [] code h = absurd (grind arith)
match_country_sound (p ∷ []) code h = absurd (grind arith)
match_country_sound (p ∷ (a ∷ [])) code h = absurd (grind arith)
match_country_sound (p ∷ (a ∷ (b ∷ []))) code h = absurd (grind arith)

match_country-closing :
    (a b : ℕ) (tail : Text)
    → is_upper a ≡ true
    → is_upper b ≡ true
    → all_space tail ≡ true
    → match_country (closing a b tail) ≡ some (a ∷ b ∷ [])
unfolding match_country
match_country-closing a b tail ha hb h = rw (ha, hb, h) refl

-- No match starts before the last parenthesis.
match_country_before :
    (c : ℕ) (pre : Text) (a b : ℕ) (tail : Text)
    → match_country (c ∷ pre ++ closing a b tail) ≡ none
unfolding match_country
match_country_before c [] a b tail = ground arith
match_country_before c (x ∷ []) a b tail = ground arith
match_country_before c (x ∷ (y ∷ [])) a b tail = ground arith
match_country_before c (x ∷ (y ∷ (z ∷ pre))) a b tail =
    ground (arith, not-all_space pre (a ∷ b ∷ 41 ∷ tail))

further : (c : ℕ) (s code : Text) → EndsInCode s code → EndsInCode (c ∷ s) code
further c s code e = record {
  before = c ∷ e.before;
  first = e.first;
  second = e.second;
  tail = e.tail;
  split = ap (λ t. c ∷ t) e.split;
  first-upper = e.first-upper;
  second-upper = e.second-upper;
  blank = e.blank;
  is_code = e.is_code;
}

search_rest :
    (c : ℕ) (s : Text) → match_country (c ∷ s) ≡ none → search_country (c ∷ s) ≡ search_country s
unfolding search_country
search_rest c s e = rw (e, search_country) refl

search_hit :
    (c : ℕ) (s found : Text)
    → match_country (c ∷ s) ≡ some found
    → search_country (c ∷ s) ≡ some found
unfolding search_country
search_hit c s found e = rw (e, search_country) refl

search_sound : (s code : Text) → search_country s ≡ some code → EndsInCode s code
unfolding search_country
search_sound [] code h = absurd (grind arith)
search_sound (c ∷ s) code h = elim (Option-cases (match_country (c ∷ s))) [
  | inl e ↦ further c s code (search_sound s code (sym (search_rest c s e) ∙ h))
  | inr (found, e) ↦ match_country_sound (c ∷ s) code (e ∙ sym (search_hit c s found e) ∙ h)
]

search_complete :
    (pre : Text) (a b : ℕ) (tail : Text)
    → is_upper a ≡ true
    → is_upper b ≡ true
    → all_space tail ≡ true
    → search_country (pre ++ closing a b tail) ≡ some (a ∷ b ∷ [])
search_complete [] a b tail ha hb h = search_hit 40 _ _ (match_country-closing a b tail ha hb h)
search_complete (c ∷ pre) a b tail ha hb h =
    search_rest c _ (match_country_before c pre a b tail) ∙ search_complete pre a b tail ha hb h

extract-search : (s : Text) → extract_dsc_country_code (some s) ≡ search_country s
unfolding extract_dsc_country_code search_country
extract-search [] = refl
extract-search (c ∷ s) = refl

-- A name gives a country code exactly if it ends in that code, of two capitals and in
-- parentheses, up to white space.
pub extract_dsc_country_code_iff :
    (dsc_name code : Text)
    → (extract_dsc_country_code (some dsc_name) ≡ some code) ↔ EndsInCode dsc_name code
extract_dsc_country_code_iff dsc_name code = (
  (λ h. search_sound dsc_name code (sym (extract-search dsc_name) ∙ h)),
  (λ e.
      extract-search dsc_name
      ∙ ap search_country e.split
      ∙ search_complete e.before e.first e.second e.tail e.first-upper e.second-upper e.blank
      ∙ ap some (sym e.is_code)),
)
