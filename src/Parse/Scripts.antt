-- ===== src/Parse/Scripts.antt =====
-- apps/scraper/parse.py: the script element that the search finds, exactly where the page has one.
use dsa_api.Base.{
  ℕ, true, false, ◌≡◌, ◌≢◌, refl, sym, ap, subst, ◌∙◌, none, some, [], ◌∷◌, ◌++◌, ◌==◌, All, arith,
  Option-cases, inl, inr,
}
use dsa_api.Text.{Text, is_empty, starts_with, contains, break_at}
use dsa_api.Parse.Pieces.{
  break_at-append, break_at-join, break_at-All, break_at-stops, after_prefix-append,
  after_prefix_sound, starts_with-append, starts_with_sound,
}
use dsa_api.Parse.Page.{
  after_prefix, script_open, selector, script_close, match_body, match_tag, match_script,
  search_script,
}

-- The script element with the settings, the end of its tag and the body written out.
abbrev pub element : Text → Text → Text → Text
element tag body after = script_open ++ (tag ++ 62 ∷ (body ++ (script_close ++ after)))

-- The page has a script element whose tag has the selector, and whose body is not empty.
pub record HasScript (page body : Text) : Type 0 where
  pub before : Text
  pub tag : Text
  pub after : Text
  pub split : page ≡ before ++ element tag body after
  pub in_tag : All (λ c. (c == 62) ≡ false) tag
  pub selected : contains selector tag ≡ true
  pub in_body : All (λ c. (c == 60) ≡ false) body
  pub full : is_empty body ≡ false

match_script-rest :
    (s r : Text) → after_prefix script_open s ≡ some r → match_script s ≡ match_tag (break_at 62 r)
unfolding match_script
match_script-rest s r h = rw (h, match_script) refl

match_body-found :
    (body after : Text)
    → is_empty body ≡ false
    → starts_with script_close after ≡ true
    → match_body (body, after) ≡ some body
unfolding match_body
match_body-found body after full h = ground (arith, full, h)

match_tag-found :
    (tag after found : Text) (c : ℕ)
    → contains selector tag ≡ true
    → match_body (break_at 60 after) ≡ some found
    → match_tag (tag, c ∷ after) ≡ some found
unfolding match_tag
match_tag-found tag after found c hs h = ground (arith, hs, h)

match_script-element :
    (tag body after : Text)
    → All (λ c. (c == 62) ≡ false) tag
    → contains selector tag ≡ true
    → All (λ c. (c == 60) ≡ false) body
    → is_empty body ≡ false
    → match_script (element tag body after) ≡ some body
match_script-element tag body after ht hs hb full =
    let tail = script_close ++ after in
    match_script-rest (element tag body after) _ (after_prefix-append script_open _)
    ∙ ap match_tag (break_at-append 62 tag (body ++ tail) ht)
    ∙ match_tag-found tag (body ++ tail) body 62 hs (
        ap match_body (break_at-append 60 body _ hb)
        ∙ match_body-found body tail full (starts_with-append script_close after))

search_script-hit :
    (c : ℕ) (s found : Text)
    → match_script (c ∷ s) ≡ some found
    → search_script (c ∷ s) ≡ some found
unfolding search_script
search_script-hit c s found e = rw (e, search_script) refl

search_script-rest :
    (c : ℕ) (s : Text) → match_script (c ∷ s) ≡ none → search_script (c ∷ s) ≡ search_script s
unfolding search_script
search_script-rest c s e = rw (e, search_script) refl

search_script-append :
    (pre s body : Text)
    → search_script s ≡ some body
    → (found : Text) × (search_script (pre ++ s) ≡ some found)
search_script-append [] s body h = (body, h)
search_script-append (c ∷ pre) s body h = elim (Option-cases (match_script (c ∷ pre ++ s))) [
  | inl e ↦
      let rest = search_script-append pre s body h in
      (rest.0, search_script-rest c (pre ++ s) e ∙ rest.1)
  | inr (found, e) ↦ (found, search_script-hit c (pre ++ s) found e)
]

match_body_sound :
    (body after found : Text)
    → match_body (body, after) ≡ some found
    → (is_empty body ≡ false) × (starts_with script_close after ≡ true) × (found ≡ body)
unfolding match_body
match_body_sound body after found h = ground arith

match_tag_parts :
    (tag t found : Text) (c : ℕ)
    → match_tag (tag, c ∷ t) ≡ some found
    → (contains selector tag ≡ true) × (match_body (break_at 60 t) ≡ some found)
unfolding match_tag
match_tag_parts tag t found c h = ground arith

match_tag_sound :
    (tag after found : Text)
    → match_tag (tag, after) ≡ some found
    → (c : ℕ) × (t : Text) × (after ≡ c ∷ t)
      × (contains selector tag ≡ true)
      × (match_body (break_at 60 t) ≡ some found)
unfolding match_tag
match_tag_sound tag [] found h = absurd (grind arith)
match_tag_sound tag (c ∷ t) found h =
    let parts = match_tag_parts tag t found c h in (c, t, refl, parts.0, parts.1)

none-some : (a : Text) → none ≢ some a
none-some a h = grind arith

match_script-none : (s : Text) → after_prefix script_open s ≡ none → match_script s ≡ none
unfolding match_script
match_script-none s h = rw (h, match_script) refl

match_script_sound :
    (s found : Text)
    → match_script s ≡ some found
    → (r : Text) × (s ≡ script_open ++ r) × (match_tag (break_at 62 r) ≡ some found)
match_script_sound s found h = elim (Option-cases (after_prefix script_open s)) [
  | inl e ↦ absurd (none-some found (sym (match_script-none s e) ∙ h))
  | inr (r, e) ↦ (r, after_prefix_sound script_open s r e, sym (match_script-rest s r e) ∙ h)
]

match_script-HasScript : (s found : Text) → match_script s ≡ some found → HasScript s found
match_script-HasScript s found h =
    let (r, opened, m) = match_script_sound s found h in
    let tag = (break_at 62 r).0 in
    let (c, t, stopped, selected, b) = match_tag_sound tag (break_at 62 r).1 found m in
    let body = (break_at 60 t).0 in
    let (full, closed, same) = match_body_sound body (break_at 60 t).1 found b in
    let (after, tail) = starts_with_sound script_close (break_at 60 t).1 closed in
    record {
      before = [];
      tag = tag;
      after = after;
      split =
          opened
          ∙ ap (λ x. script_open ++ x)
              (sym (break_at-join 62 r)
                ∙ ap (λ x. tag ++ x)
                    (stopped
                      ∙ ap (λ x. x ∷ t) (break_at-stops 62 c r t stopped)
                      ∙ ap (λ x. 62 ∷ x)
                          (sym (break_at-join 60 t)
                            ∙ ap (λ x. body ++ x) tail
                            ∙ ap (λ x. x ++ (script_close ++ after)) (sym same))));
      in_tag = break_at-All 62 r;
      selected = selected;
      in_body = subst (All (λ x. (x == 60) ≡ false)) (sym same) (break_at-All 60 t);
      full = subst (λ x. is_empty x ≡ false) (sym same) full;
    }

earlier : (c : ℕ) (s found : Text) → HasScript s found → HasScript (c ∷ s) found
earlier c s found e = record {
  before = c ∷ e.before;
  tag = e.tag;
  after = e.after;
  split = ap (λ t. c ∷ t) e.split;
  in_tag = e.in_tag;
  selected = e.selected;
  in_body = e.in_body;
  full = e.full;
}

pub search_script-HasScript : (s found : Text) → search_script s ≡ some found → HasScript s found
unfolding search_script
search_script-HasScript [] found h = absurd (grind arith)
search_script-HasScript (c ∷ s) found h = elim (Option-cases (match_script (c ∷ s))) [
  | inl e ↦ earlier c s found (search_script-HasScript s found (sym (search_script-rest c s e) ∙ h))
  | inr (body, e) ↦
      match_script-HasScript (c ∷ s) found (e ∙ sym (search_script-hit c s body e) ∙ h)
]

pub search_script-found :
    (s body : Text) → HasScript s body → (found : Text) × (search_script s ≡ some found)
search_script-found s body e =
    let hit =
      search_script-hit 60 _ body
        (match_script-element e.tag body e.after e.in_tag e.selected e.in_body e.full) in
    let found = search_script-append e.before (element e.tag body e.after) body hit in
    (found.0, ap search_script e.split ∙ found.1)
