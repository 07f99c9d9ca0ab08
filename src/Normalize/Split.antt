-- ===== src/Normalize/Split.antt =====
-- core/normalize.py, `split_areas_raw`: what it splits is what was joined, and clean.
use dsa_api.Base.{
  ℕ, false, ◌≡◌, refl, ap, ◌∙◌, Option, none, some, List, [], ◌∷◌, ◌++◌, All, ◌==◌, arith,
  Bool-cases, ==_refl, inl, inr,
}
use dsa_api.Text.{Text, text, is_space, lstrip, strip, is_empty}
use dsa_api.Normalize.Chars.{split_first, split, join}
use dsa_api.Normalize.Strip.{strip-strip, strip-All}
use dsa_api.Normalize.Areas.{nonblank, semicolon, split_areas_raw}

-- A label as the program keeps it: not blank, stripped, and without a semicolon.
pub record IsLabel (p : Text) : Type 0 where
  pub full : is_empty p ≡ false
  pub stripped : strip p ≡ p
  pub single : All (λ c. (c == semicolon) ≡ false) p

split_first-single :
    (sep : ℕ) (p : Text) → All (λ c. (c == sep) ≡ false) p → split_first sep p ≡ (p, [])
unfolding split_first
split_first-single sep [] h = refl
split_first-single sep (c ∷ p) h = rw (h.0, split_first-single sep p h.1) refl

split_first-append :
    (sep : ℕ) (p s : Text)
    → All (λ c. (c == sep) ≡ false) p
    → split_first sep (p ++ sep ∷ s) ≡ (p, split sep s)
unfolding split_first split
split_first-append sep [] s h = rw (==_refl sep) refl
split_first-append sep (c ∷ p) s h = rw (h.0, split_first-append sep p s h.1) refl

pub split-append :
    (sep : ℕ) (p s : Text)
    → All (λ c. (c == sep) ≡ false) p
    → split sep (p ++ sep ∷ s) ≡ p ∷ split sep s
unfolding split
split-append sep p s h = rw (split_first-append sep p s h) refl

pub split-single : (sep : ℕ) (p : Text) → All (λ c. (c == sep) ≡ false) p → split sep p ≡ p ∷ []
unfolding split
split-single sep p h = rw (split_first-single sep p h) refl

strip-space : (p : Text) → strip (32 ∷ p) ≡ strip p
unfolding strip lstrip is_space
strip-space p = refl

-- The labels after the first one stand behind a semicolon and a blank.
abbrev spaced : List Text → List Text
spaced [] = []
spaced (p ∷ ps) = (32 ∷ p) ∷ spaced ps

nonblank-spaced : (ps : List Text) → All IsLabel ps → nonblank (spaced ps) ≡ ps
unfolding nonblank
nonblank-spaced [] h = refl
nonblank-spaced (p ∷ ps) h = rw (strip-space p, h.0.stripped, h.0.full, nonblank-spaced ps h.1) refl

cons-join :
    (sep p : Text) (ps : List Text) (c : ℕ) → c ∷ join sep (p ∷ ps) ≡ join sep ((c ∷ p) ∷ ps)
unfolding join
cons-join sep p [] c = refl
cons-join sep p (q ∷ ps) c = refl

split-join :
    (q : Text) (ps : List Text)
    → All (λ c. (c == semicolon) ≡ false) q
    → All IsLabel ps
    → split semicolon (join (text "; ") (q ∷ ps)) ≡ q ∷ spaced ps
unfolding split join
split-join q [] hq h = rw (split_first-single semicolon q hq) refl
split-join q (p ∷ ps) hq h =
    rw (split_first-append semicolon q (32 ∷ join (text "; ") (p ∷ ps)) hq) (
      ap (λ s. q ∷ split semicolon s) (cons-join (text "; ") p ps 32)
      ∙ ap (λ parts. q ∷ parts) (split-join (32 ∷ p) ps (refl, h.0.single) h.1))

join-full :
    (p : Text) (ps : List Text) → is_empty p ≡ false → is_empty (join (text "; ") (p ∷ ps)) ≡ false
unfolding join
join-full [] ps h = absurd (grind arith)
join-full (c ∷ p) [] h = refl
join-full (c ∷ p) (q ∷ ps) h = refl

-- Labels that are joined as the register joins them come back from the split, unchanged, if
-- each is stripped, not blank, and without a semicolon.
pub split_areas_raw-join :
    (labels : List Text)
    → All IsLabel labels
    → split_areas_raw (some (join (text "; ") labels)) ≡ labels
unfolding split_areas_raw join nonblank
split_areas_raw-join [] h = refl
split_areas_raw-join (p ∷ ps) h =
    rw
      (
        join-full p ps h.0.full,
        split-join p ps h.0.single h.1,
        nonblank,
        h.0.stripped,
        h.0.full,
        nonblank-spaced ps h.1,
      )
      refl

split_first-All :
    (s : Text)
    → All (λ c. (c == semicolon) ≡ false) (split_first semicolon s).0
      × All (All (λ c. (c == semicolon) ≡ false)) (split_first semicolon s).1
unfolding split_first
split_first-All [] = (tt, tt)
split_first-All (c ∷ s) = elim (Bool-cases (c == semicolon)) [
  | inl e ↦ rw e (tt, split_first-All s)
  | inr e ↦ rw e ((e, (split_first-All s).0), (split_first-All s).1)
]

split-All : (s : Text) → All (All (λ c. (c == semicolon) ≡ false)) (split semicolon s)
unfolding split
split-All s = split_first-All s

nonblank-All :
    (ps : List Text) → All (All (λ c. (c == semicolon) ≡ false)) ps → All IsLabel (nonblank ps)
unfolding nonblank
nonblank-All [] h = tt
nonblank-All (p ∷ ps) h = elim (Bool-cases (is_empty (strip p))) [
  | inl e ↦ rw e (nonblank-All ps h.1)
  | inr e ↦ rw e (
    record { full = e; stripped = strip-strip p; single = strip-All _ p h.0 },
    nonblank-All ps h.1,
  )
]

-- Whatever the text, every part that it is split into is stripped, not blank, and without a
-- semicolon.
pub split_areas_raw-All : (raw : Option Text) → All IsLabel (split_areas_raw raw)
unfolding split_areas_raw
split_areas_raw-All none = tt
split_areas_raw-All (some raw) = elim (Bool-cases (is_empty raw)) [
  | inl e ↦ rw e tt
  | inr e ↦ rw e (nonblank-All (split semicolon raw) (split-All raw))
]
