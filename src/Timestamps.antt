-- ===== src/Timestamps.antt =====
-- core/timestamps.py: the key of the last scrape, written by the scraper and read by the API.
use dsa_api.Base.{ℕ, ◌≡◌, ap, ◌∙◌, Option, none, some, List, Dict, get, put, get-put_self}
use dsa_api.Models.{Time}
use dsa_api.Text.{Text, text, text_discrete}

-- What the client of Redis gives: bytes, or a text where it decodes itself.
pub data Stored : Type 0 where
  bytes : List ℕ → Stored
  decoded : Text → Stored

-- `_KEY`
abbrev pub timestamp_key : Text
timestamp_key = text "dsa:last_scrape_completed_at"

-- `iso` is the ISO text of a time, and `encode` how the client stores a text.
unfoldable pub write_data_updated_at :
    (iso : Time → Text) → (encode : Text → Stored) → Time → Dict Text Stored → Dict Text Stored
write_data_updated_at iso encode at = put text_discrete timestamp_key (encode (iso at))

-- `decode` is `bytes.decode("utf-8")`, which gives nothing where it raises.
abbrev pub text_stored : (List ℕ → Option Text) → Option Stored → Option (Option Text)
text_stored decode none = some none
text_stored decode (some (bytes raw)) = elim (decode raw) [ none ↦ none | some s ↦ some (some s) ]
text_stored decode (some (decoded s)) = some (some s)

-- The text of the key, if it is there; nothing where the decoding raises.
unfoldable pub read_data_updated_at :
    (List ℕ → Option Text) → Dict Text Stored → Option (Option Text)
read_data_updated_at decode redis = text_stored decode (get text_discrete timestamp_key redis)

-- What was written is read back, if the client's bytes decode to the text that they were made of.
pub read_data_updated_at-write_data_updated_at :
    (iso : Time → Text) (encode : Text → Stored) (decode : List ℕ → Option Text) (at : Time)
    (redis : Dict Text Stored)
    → text_stored decode (some (encode (iso at))) ≡ some (some (iso at))
    → read_data_updated_at decode (write_data_updated_at iso encode at redis) ≡ some (some (iso at))
unfolding read_data_updated_at write_data_updated_at
read_data_updated_at-write_data_updated_at iso encode decode at redis h =
    ap (text_stored decode) (get-put_self text_discrete timestamp_key (encode (iso at)) redis) ∙ h
