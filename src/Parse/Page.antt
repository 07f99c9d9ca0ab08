-- ===== src/Parse/Page.antt =====
-- apps/scraper/parse.py, `extract_api_url` with the expression `_DRUPAL_SETTINGS_RE`.
use dsa_api.Base.{Bool, ◌||◌, Option, none, some, [], ◌∷◌, get, ◌==◌, if◌then◌else◌}
use dsa_api.Text.{Text, text, text_discrete, is_empty, starts_with, contains, break_at}
use dsa_api.Json.{Json, string, object, entries}

-- The text after a prefix that it has.
unfoldable pub after_prefix : Text → Text → Option Text
after_prefix [] s = some s
after_prefix (p ∷ ps) [] = none
after_prefix (p ∷ ps) (c ∷ s) = let rest = after_prefix ps s in if p == c then rest else none

abbrev pub script_open : Text
script_open = text "<script"

abbrev pub selector : Text
selector = text "data-drupal-selector=\"drupal-settings-json\""

abbrev pub script_close : Text
script_close = text "</script>"

-- `([^<]+)</script>`, of the longest part without a `<` and what follows it.
unfoldable pub match_body : Text × Text → Option Text
match_body (body, after) =
    if is_empty body then none else if starts_with script_close after then some body else none

-- The tag's end and the body, of the tag's rest and what follows it.
unfoldable pub match_tag : Text × Text → Option Text
match_tag (tag, []) = none
match_tag (tag, _ ∷ after) =
    let found = match_body (break_at 60 after) in if contains selector tag then found else none

-- A match at the start of the text, with its group. Neither part of the tag has a `>`, so the tag
-- ends at the first one.
unfoldable pub match_script : Text → Option Text
match_script s = elim (after_prefix script_open s) [
  | none ↦ none
  | some rest ↦ match_tag (break_at 62 rest)
]

-- `search`: the first place that matches.
unfoldable pub search_script : Text → Option Text
search_script [] = none
search_script (c ∷ s) =
    let rest = search_script s in
    elim (match_script (c ∷ s)) [ some body ↦ some body | none ↦ rest ]

-- The four reasons of `HtmlStructureError`.
pub data StructureError : Type 0 where
  no_script : StructureError
  no_json : StructureError
  no_address : StructureError
  unusable_address : Json → StructureError

pub data Extracted : Type 0 where
  address : Text → Extracted
  refused : StructureError → Extracted

-- `value[key]`, where no value and any that is no object raise `KeyError` or `TypeError`.
unfoldable pub subscript : Text → Option Json → Option Json
subscript key (some (object members)) = get text_discrete key (entries members)
subscript key _ = none

unfoldable pub is_usable : Text → Bool
is_usable url = starts_with (text "http://") url || starts_with (text "https://") url

unfoldable pub address_of : Option Json → Extracted
address_of none = refused no_address
address_of (some (string url)) =
    if is_usable url then address url else refused (unusable_address (string url))
address_of (some other) = refused (unusable_address other)

unfoldable pub settings_of : Option Json → Extracted
settings_of none = refused no_json
settings_of (some settings) =
    address_of (subscript (text "url") (subscript (text "cnt_description") (some settings)))

-- `loads` is `json.loads`, which gives nothing where it raises `JSONDecodeError`.
unfoldable pub extract_api_url : (Text → Option Json) → Text → Extracted
extract_api_url loads html = elim (search_script html) [
  | none ↦ refused no_script
  | some body ↦ settings_of (loads body)
]
