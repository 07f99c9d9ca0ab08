-- ===== src/Parse/Envelope.antt =====
-- apps/scraper/parse.py, `parse_api_response`.
use dsa_api.Base.{Bool, true, false, Option, none, some, List, Dict, get}
use dsa_api.Text.{Text, text, text_discrete}
use dsa_api.Json.{Json, boolean, array, object, elements, entries}

-- `JSONDecodeError`, and the three reasons of `ApiResponseError`.
pub data EnvelopeError : Type 0 where
  undecodable : EnvelopeError
  no_object : EnvelopeError
  unsuccessful : EnvelopeError
  no_data : EnvelopeError

pub data Parsed : Type 0 where
  rows : List Json → Parsed
  rejected : EnvelopeError → Parsed

-- `isinstance(status, dict) and status.get("success") is False`
unfoldable pub is_failure : Option Json → Bool
is_failure (some (object members)) = elim (get text_discrete (text "success") (entries members)) [
  | some (boolean false) ↦ true
  | _ ↦ false
]
is_failure _ = false

unfoldable pub rows_of : Option Json → Parsed
rows_of (some (array items)) = rows (elements items)
rows_of _ = rejected no_data

unfoldable pub envelope_of : Dict Text Json → Parsed
envelope_of data' = elim (is_failure (get text_discrete (text "wtstatus") data')) [
  | true ↦ rejected unsuccessful
  | false ↦ rows_of (get text_discrete (text "data") data')
]

-- `loads` is `json.loads` of the payload, which gives nothing where it raises.
unfoldable pub parse_api_response : (Text → Option Json) → Text → Parsed
parse_api_response loads payload = elim (loads payload) [
  | none ↦ rejected undecodable
  | some (object members) ↦ envelope_of (entries members)
  | some _ ↦ rejected no_object
]
