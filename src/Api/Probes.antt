-- ===== src/Api/Probes.antt =====
-- apps/api/main.py: the middleware `add_source_headers`, and the routes health, version and root.
use dsa_api.Base.{ℕ, Bool, false, Option, none, some, [], ◌∷◌, Dict, get, put, ◌==◌, if◌then◌else◌}
use dsa_api.Models.{Time}
use dsa_api.Text.{Text, text, text_discrete, is_empty, starts_with}
use dsa_api.Settings.Fields.{Settings}
use dsa_api.Normalize.Chars.{Unicode}
use dsa_api.Api.Http.{Request, Response, HeaderValue, value}

-- What a call gives, or that it raises.
pub data Call {ℓ} (A : Type ℓ) : Type ℓ where
  gave : A → Call A
  raised : Call A

-- `read_data_updated_at`: the value of the key, decoded if it is bytes; here a text already.
abbrev pub read_or_none : Call (Option Text) → Option Text
read_or_none (gave stored) = stored
read_or_none raised = none

abbrev pub updated_header : Option Text → Dict Text HeaderValue → Dict Text HeaderValue
updated_header none headers = headers
updated_header (some at) headers =
    if is_empty at then headers else put text_discrete (text "X-Data-Updated-At") (value at) headers

module _ {B : Type 0} where
  -- `redis` is what the read of the time stamp does; an exception of it counts as no time stamp.
  unfoldable pub add_source_headers :
      (source_url disclaimer : Text) → Call (Option Text) → Response B → Response B
  add_source_headers source_url disclaimer redis r = record r {
    headers = updated_header (read_or_none redis) (
        put text_discrete (text "X-Disclaimer") (value disclaimer)
          (put text_discrete (text "X-Source-URL") (value source_url) r.headers));
  }

-- The body of a route of the application: a JSON object of texts, or nothing.
pub data OwnBody : Type 0 where
  json_object : Dict Text Text → OwnBody
  no_body : OwnBody

abbrev pub is_one : Call ℕ → Bool
is_one (gave n) = n == 1
is_one raised = false

-- `health`: `select_one` is what the query gives, and `iso` the ISO text of a time.
unfoldable pub health : (iso : Time → Text) → Call ℕ → Time → Response OwnBody
health iso select_one now =
    let db_ok = is_one select_one in
    record {
      status = if db_ok then 200 else 503;
      content = json_object (
          (text "status", (if db_ok then text "ok" else text "degraded"))
          ∷ (text "database", (if db_ok then text "ok" else text "error"))
          ∷ (text "checked_at", iso now)
          ∷ []);
      headers = [];
    }

-- `app.version`
abbrev pub app_version : Text
app_version = text "0.0.1"

unfoldable pub version : Settings → Response OwnBody
version settings = record {
  status = 200;
  content =
      json_object ((text "version", app_version) ∷ (text "environment", settings.environment) ∷ []);
  headers = [];
}

abbrev pub with_waitlist : Option Text → Dict Text Text → Dict Text Text
with_waitlist none body = body
with_waitlist (some url) body =
    if is_empty url then body else put text_discrete (text "waitlist") url body

abbrev pub host_of : Option Text → Text
host_of none = []
host_of (some host) = host

-- `root`: a redirect to the documentation on a host of that name, the pointer document elsewhere.
unfoldable pub root : Unicode → Settings → Request → Response OwnBody
root unicode settings request =
    if starts_with (text "docs.")
      (unicode.lower (host_of (get text_discrete (text "host") request.headers)))
    then record {
      status = 307;
      content = no_body;
      headers = (text "location", value (text "/docs")) ∷ [];
    }
    else record {
      status = 200;
      content = json_object (
          with_waitlist settings.waitlist_url (
            (text "name", text "DSA Trusted Flaggers API")
            ∷ (text "version", app_version)
            ∷ (text "docs", text "/docs")
            ∷ (text "openapi", text "/openapi.json")
            ∷ (text "source", settings.source_url)
            ∷ []));
      headers = [];
    }
