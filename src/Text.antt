-- ===== src/Text.antt =====
-- Python's `str` as its list of code points, and the `str` methods that the source calls.
use Prim.Native.Char.{code}
use Prim.Native.String.{String}
use dsa_api.Base.{
  ℕ, zero, suc, ◌+◌, ◌/◌, ◌%◌, Bool, true, false, ◌&&◌, ◌||◌, List, [], ◌∷◌, ℕ_discrete, leb, ◌==◌,
  ◌≡◌, refl, if◌then◌else◌,
}

abbrev pub Text : Type 0
Text = List ℕ

abbrev pub text : String → Text
text String.[] = []
text (String.◌∷◌ c s) = code c ∷ text s

unfoldable pub text_discrete : Discrete Text
unfolding ℕ_discrete
text_discrete = hlevel ℕ_discrete

-- `str.isspace` of one character.
unfoldable pub is_space : ℕ → Bool
is_space c =
    leb 0x09 c && leb c 0x0d
    || leb 0x1c c && leb c 0x20
    || c == 0x85
    || c == 0xa0
    || c == 0x1680
    || leb 0x2000 c && leb c 0x200a
    || c == 0x2028
    || c == 0x2029
    || c == 0x202f
    || c == 0x205f
    || c == 0x3000

unfoldable pub lstrip : Text → Text
lstrip [] = []
lstrip (c ∷ s) = if is_space c then lstrip s else c ∷ s

abbrev pub is_empty {ℓ} : {A : Type ℓ} → List A → Bool
is_empty [] = true
is_empty (x ∷ xs) = false

unfoldable pub rstrip : Text → Text
rstrip [] = []
rstrip (c ∷ s) = let rest = rstrip s in if is_empty rest && is_space c then [] else c ∷ rest

-- `s.strip()`
unfoldable pub strip : Text → Text
unfolding lstrip rstrip is_space
strip s = rstrip (lstrip s)

-- The decimal digits of a number, at least `width` of them.
digits_from : ℕ → ℕ → Text → Text
digits_from zero n acc = acc
digits_from (suc width) n acc = digits_from width (n / 10) ((48 + n % 10) ∷ acc)

-- `f"{n:0{width}d}"` for a number below `10 ^ width`.
unfoldable pub zero_padded : ℕ → ℕ → Text
unfolding digits_from
zero_padded width n = digits_from width n []

pub zero_padded_two : (n : ℕ) → zero_padded 2 n ≡ (48 + n / 10 % 10) ∷ (48 + n % 10) ∷ []
unfolding zero_padded digits_from
zero_padded_two n = refl

pub zero_padded_four :
    (n : ℕ)
    → zero_padded 4 n
      ≡ (48 + n / 10 / 10 / 10 % 10)
        ∷ (48 + n / 10 / 10 % 10)
        ∷ (48 + n / 10 % 10)
        ∷ (48 + n % 10)
        ∷ []
unfolding zero_padded digits_from
zero_padded_four n = refl

-- `s.startswith(p)`
unfoldable pub starts_with : Text → Text → Bool
starts_with [] s = true
starts_with (p ∷ ps) [] = false
starts_with (p ∷ ps) (c ∷ s) = p == c && starts_with ps s

-- `p in s`
unfoldable pub contains : Text → Text → Bool
contains p [] = is_empty p
contains p (c ∷ s) = starts_with p (c ∷ s) || contains p s

-- The longest part without a character, and what is from it on.
unfoldable pub break_at : ℕ → Text → Text × Text
break_at stop [] = ([], [])
break_at stop (c ∷ s) =
    let rest = break_at stop s in if c == stop then ([], c ∷ s) else (c ∷ rest.0, rest.1)
