-- ===== src/Normalize/Unquote.antt =====
-- core/normalize.py, `decode_url_encoded_email`: unquoting undoes quoting.
use dsa_api.Base.{
  ℕ, ◌+◌, ◌/◌, ◌%◌, ◌<◌, ◌≡◌, refl, ap, some, List, [], ◌∷◌, All, ltb, arith, if◌then◌else◌,
}
use dsa_api.Text.{Text}
use dsa_api.Normalize.Emails.{hex_value, unquote_to_bytes}

-- The upper-case hexadecimal digit of a value.
abbrev hex_char : ℕ → ℕ
hex_char d = if ltb d 10 then 48 + d else 55 + d

-- `urllib.parse.quote` that escapes every byte.
abbrev pub percent_encoded : List ℕ → Text
percent_encoded [] = []
percent_encoded (b ∷ bs) = 37 ∷ hex_char (b / 16) ∷ hex_char (b % 16) ∷ percent_encoded bs

hex_value-hex_char : (d : ℕ) → d < 16 → hex_value (hex_char d) ≡ some d
unfolding hex_value
hex_value-hex_char d h = ground arith

-- Any bytes whose escapes are unquoted come back.
pub unquote_to_bytes-percent_encoded :
    (bytes : List ℕ) → All (λ b. b < 256) bytes → unquote_to_bytes (percent_encoded bytes) ≡ bytes
unfolding unquote_to_bytes
unquote_to_bytes-percent_encoded [] h = refl
unquote_to_bytes-percent_encoded (b ∷ bs) h =
    rw
      (
        hex_value-hex_char (b / 16) (omega arith),
        hex_value-hex_char (b % 16) (omega arith),
        unquote_to_bytes-percent_encoded bs h.1,
      )
      (ap (λ n. n ∷ bs) (omega arith))
