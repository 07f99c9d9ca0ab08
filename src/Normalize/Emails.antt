-- ===== src/Normalize/Emails.antt =====
-- core/normalize.py, `decode_url_encoded_email` with `urllib.parse.unquote`, and
-- `extract_email_domain`.
use dsa_api.Base.{
  ℕ, ◌+◌, ◌-◌, ◌*◌, Bool, true, false, ◌&&◌, Option, none, some, ◌>>=◌, List, [], ◌∷◌, ◌++◌, leb,
  ltb, ◌==◌, if◌then◌else◌,
}
use dsa_api.Text.{Text, strip, is_empty}
use dsa_api.Normalize.Chars.{Unicode}

-- `s or None`
abbrev pub or_none : Text → Option Text
or_none s = if is_empty s then none else some s

-- The value of a hexadecimal digit.
unfoldable pub hex_value : ℕ → Option ℕ
hex_value c =
    if leb 48 c && leb c 57
    then some (c - 48)
    else if leb 65 c && leb c 70
    then some (c - 55)
    else if leb 97 c && leb c 102
    then some (c - 87)
    else none

abbrev pub hex_byte : ℕ → ℕ → Option ℕ
hex_byte h l = do a ← hex_value h; b ← hex_value l; some (a * 16 + b)

-- `unquote_to_bytes` of ASCII text: an escape that is none stays.
unfoldable pub unquote_to_bytes : Text → List ℕ
unquote_to_bytes [] = []
unquote_to_bytes (c ∷ []) = c ∷ []
unquote_to_bytes (c ∷ (h ∷ [])) = c ∷ h ∷ []
unquote_to_bytes (c ∷ (h ∷ (l ∷ s))) =
    let rest = unquote_to_bytes s in
    let next = unquote_to_bytes (h ∷ l ∷ s) in
    if c == 37
    then (elim (hex_byte h l) [ some byte ↦ byte ∷ rest | none ↦ c ∷ next ])
    else c ∷ next

-- `'@' in email`, and the like.
unfoldable pub has_char : ℕ → Text → Bool
has_char a [] = false
has_char a (c ∷ s) = if c == a then true else has_char a s

-- What follows the prefix `mailto:`, or the whole.
unfoldable pub drop_mailto : Text → Text
drop_mailto (m ∷ (a ∷ (i ∷ (l ∷ (t ∷ (o ∷ (k ∷ s))))))) =
    if m == 109 && a == 97 && i == 105 && l == 108 && t == 116 && o == 111 && k == 58
    then s
    else m ∷ a ∷ i ∷ l ∷ t ∷ o ∷ k ∷ s
drop_mailto s = s

-- `email.split("@", 1)[1]` of a text with an `@`.
unfoldable pub after_at : Text → Text
after_at [] = []
after_at (c ∷ s) = if c == 64 then s else after_at s

module _ (unicode : Unicode) where
  -- A run of ASCII characters, unquoted and decoded.
  unfoldable pub decode_run : Text → Text
  decode_run run = if is_empty run then [] else unicode.decode_utf8 (unquote_to_bytes run)

  -- The runs of ASCII characters are decoded one by one, and the characters between them stay.
  unfoldable pub unquote_runs : Text → Text → Text
  unquote_runs run [] = decode_run run
  unquote_runs run (c ∷ s) =
      let longer = unquote_runs (run ++ c ∷ []) s in
      let fresh = unquote_runs [] s in if ltb c 128 then longer else decode_run run ++ c ∷ fresh

  unfoldable pub unquote : Text → Text
  unquote s = if has_char 37 s then unquote_runs [] s else s

  unfoldable pub decode_url_encoded_email : Option Text → Option Text
  decode_url_encoded_email none = none
  decode_url_encoded_email (some encoded) =
      if is_empty encoded then none else or_none (strip (drop_mailto (unquote encoded)))

  unfoldable pub extract_email_domain : Option Text → Option Text
  extract_email_domain none = none
  extract_email_domain (some email) =
      if is_empty email
      then none
      else if has_char 64 email
      then or_none (unicode.lower (strip (after_at email)))
      else none
