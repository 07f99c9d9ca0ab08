-- ===== src/Parse/Found.antt =====
-- apps/scraper/parse.py, `extract_api_url`: the settings are found exactly where the page has them.
use dsa_api.Base.{
  true, ◌≡◌, ◌≢◌, refl, sym, ◌↔◌, ◌∙◌, Option, none, some, arith, Option-cases, inl, inr,
}
use dsa_api.Text.{Text}
use dsa_api.Json.{Json, null, boolean, number, string, array, object}
use dsa_api.Parse.Page.{
  search_script, StructureError, address, refused, no_script, is_usable, address_of, settings_of,
  extract_api_url,
}
use dsa_api.Parse.Scripts.{HasScript, search_script-HasScript, search_script-found}

address_of-is_usable :
    (j : Option Json) (url : Text) → address_of j ≡ address url → is_usable url ≡ true
unfolding address_of
address_of-is_usable none url h = absurd (grind arith)
address_of-is_usable (some (string s)) url h = ground arith
address_of-is_usable (some null) url h = absurd (grind arith)
address_of-is_usable (some (boolean b)) url h = absurd (grind arith)
address_of-is_usable (some (number n)) url h = absurd (grind arith)
address_of-is_usable (some (array a)) url h = absurd (grind arith)
address_of-is_usable (some (object o)) url h = absurd (grind arith)

address_of-no_script : (j : Option Json) → address_of j ≢ refused no_script
unfolding address_of
address_of-no_script none h = grind arith
address_of-no_script (some (string s)) h = ground arith
address_of-no_script (some null) h = grind arith
address_of-no_script (some (boolean b)) h = grind arith
address_of-no_script (some (number n)) h = grind arith
address_of-no_script (some (array a)) h = grind arith
address_of-no_script (some (object o)) h = grind arith

settings_of-no_script : (j : Option Json) → settings_of j ≢ refused no_script
unfolding settings_of
settings_of-no_script none h = grind arith
settings_of-no_script (some j) h = address_of-no_script _ h

refused_address : (e : StructureError) (url : Text) → refused e ≢ address url
refused_address e url h = grind arith

settings_of-is_usable :
    (j : Option Json) (url : Text) → settings_of j ≡ address url → is_usable url ≡ true
unfolding settings_of
settings_of-is_usable none url h = absurd (grind arith)
settings_of-is_usable (some j) url h = address_of-is_usable _ url h

module _ (loads : Text → Option Json) where
  extract-none :
      (html : Text) → search_script html ≡ none → extract_api_url loads html ≡ refused no_script
  unfolding extract_api_url
  extract-none html e = rw (e, extract_api_url) refl

  extract-some :
      (html body : Text)
      → search_script html ≡ some body
      → extract_api_url loads html ≡ settings_of (loads body)
  unfolding extract_api_url
  extract-some html body e = rw (e, extract_api_url) refl

  -- A page is refused for want of a script exactly if no place of it has a script element with
  -- the selector and a body.
  pub extract_api_url-no_script_iff :
      (html : Text)
      → (extract_api_url loads html ≡ refused no_script) ↔ ((body : Text) → ¬ HasScript html body)
  extract_api_url-no_script_iff html = (
    (λ h. λ body e.
        let found = search_script-found html body e in
        settings_of-no_script (loads found.0) (sym (extract-some html found.0 found.1) ∙ h)),
    (λ h. elim (Option-cases (search_script html)) [
      | inl e ↦ extract-none html e
      | inr (found, e) ↦ absurd (h found (search_script-HasScript html found e))
    ]),
  )

  -- An address that is taken from a page starts with one of the two schemes, and stands in the
  -- settings that a script element of the page has.
  pub extract_api_url_sound :
      (html url : Text)
      → extract_api_url loads html ≡ address url
      → (is_usable url ≡ true)
        × ((body : Text) × HasScript html body × (settings_of (loads body) ≡ address url))
  extract_api_url_sound html url h = elim (Option-cases (search_script html)) [
    | inl e ↦ absurd (refused_address no_script url (sym (extract-none html e) ∙ h))
    | inr (body, e) ↦
        let s = sym (extract-some html body e) ∙ h in
        (settings_of-is_usable (loads body) url s, (body, search_script-HasScript html body e, s))
  ]
