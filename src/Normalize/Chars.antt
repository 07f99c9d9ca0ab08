-- ===== src/Normalize/Chars.antt =====
-- The tables of Python's `str` that depend on Unicode, as a record, and its ASCII instance; and
-- `split` at one character.
use dsa_api.Base.{
  ℕ, ◌+◌, ◌-◌, Bool, ◌&&◌, Option, none, some, List, [], ◌∷◌, ◌++◌, map, leb, ◌==◌, if◌then◌else◌,
}
use dsa_api.Text.{Text}

-- `str.lower`, `str.upper`, the value of a decimal digit, and `bytes.decode("utf-8", "replace")`,
-- which keep ASCII as it is documented.
pub record Unicode : Type 0 where
  pub lower : Text → Text
  pub upper : Text → Text
  pub decimal : ℕ → Option ℕ
  pub decode_utf8 : List ℕ → Text

-- `'A' <= c <= 'Z'`
abbrev pub is_upper : ℕ → Bool
is_upper c = leb 65 c && leb c 90

abbrev pub is_digit : ℕ → Bool
is_digit c = leb 48 c && leb c 57

abbrev lower_char : ℕ → ℕ
lower_char c = if is_upper c then c + 32 else c

abbrev upper_char : ℕ → ℕ
upper_char c = if leb 97 c && leb c 122 then c - 32 else c

-- The tables on ASCII text.
abbrev pub ascii : Unicode
ascii = record {
  lower = map lower_char;
  upper = map upper_char;
  decimal = λ c. if is_digit c then some (c - 48) else none;
  decode_utf8 = λ bytes. bytes;
}

-- `s.split(c)`: the part before the first separator, and those after it.
unfoldable pub split_first : ℕ → Text → Text × List Text
split_first sep [] = ([], [])
split_first sep (c ∷ s) =
    let rest = split_first sep s in if c == sep then ([], rest.0 ∷ rest.1) else (c ∷ rest.0, rest.1)

unfoldable pub split : ℕ → Text → List Text
unfolding split_first
split sep s = let parts = split_first sep s in parts.0 ∷ parts.1

-- `sep.join(parts)`
unfoldable pub join : Text → List Text → Text
join sep [] = []
join sep (p ∷ []) = p
join sep (p ∷ (q ∷ ps)) = p ++ (sep ++ join sep (q ∷ ps))
