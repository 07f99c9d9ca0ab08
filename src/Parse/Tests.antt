-- ===== src/Parse/Tests.antt =====
-- The page and the envelope on small inputs.
use dsa_api.Base.{Option, some, ◌≡◌, refl, true, get}
use dsa_api.Text.{Text, text, text_discrete, starts_with, contains, break_at}
use dsa_api.Json.{Json, boolean, string, array, object, item, no_items, member, no_members}
use dsa_api.Parse.Page.{
  after_prefix, match_body, match_tag, match_script, search_script, address, refused, no_script,
  subscript, is_usable, address_of, settings_of, extract_api_url,
}
use dsa_api.Parse.Scripts.{HasScript}
use dsa_api.Parse.Found.{extract_api_url_sound}
use dsa_api.Parse.Envelope.{is_failure, rows_of, envelope_of, parse_api_response}

program : Unit {0}
unfolding get text_discrete starts_with contains break_at after_prefix match_body match_tag
    match_script search_script subscript is_usable address_of settings_of extract_api_url is_failure
    rows_of envelope_of parse_api_response
program = tt

abbrev page : Text
page = text "<p><script data-drupal-selector=\"drupal-settings-json\">{}</script>"

abbrev settings : Json
settings = object (
    member (text "cnt_description")
      (object (member (text "url") (string (text "https://x.eu/api")) no_members)) no_members)

abbrev settings_loads : Text → Option Json
settings_loads s = some settings

page-address : extract_api_url settings_loads page ≡ address (text "https://x.eu/api")
unfolding program
page-address = refl

extract_api_url_sound_example :
    (is_usable (text "https://x.eu/api") ≡ true)
    × ((body : Text) × HasScript page body
        × (settings_of (settings_loads body) ≡ address (text "https://x.eu/api")))
extract_api_url_sound_example =
    extract_api_url_sound settings_loads page (text "https://x.eu/api") page-address

plain-refused : extract_api_url settings_loads (text "<script>{}</script>") ≡ refused no_script
unfolding program
plain-refused = refl

abbrev answer_loads : Text → Option Json
answer_loads s = some (
    object (
      member (text "wtstatus") (object (member (text "success") (boolean true) no_members))
        (member (text "data") (array (item (object no_members) no_items)) no_members)))
