-- ===== src/Parse/Pieces.antt =====
-- apps/scraper/parse.py: the breaks and prefixes that the expression is made of.
use dsa_api.Base.{
  ℕ, true, false, ◌≡◌, refl, ap, some, [], ◌∷◌, ◌++◌, ◌==◌, All, ==_refl, arith, Bool-cases, inl,
  inr,
}
use dsa_api.Text.{Text, starts_with, break_at}
use dsa_api.Parse.Page.{after_prefix}

pub break_at-append :
    (stop : ℕ) (p s : Text)
    → All (λ c. (c == stop) ≡ false) p
    → break_at stop (p ++ stop ∷ s) ≡ (p, stop ∷ s)
unfolding break_at
break_at-append stop [] s h = rw (==_refl stop) refl
break_at-append stop (c ∷ p) s h = rw (h.0, break_at-append stop p s h.1) refl

pub break_at-join : (stop : ℕ) (s : Text) → (break_at stop s).0 ++ (break_at stop s).1 ≡ s
unfolding break_at
break_at-join stop [] = refl
break_at-join stop (c ∷ s) = elim (Bool-cases (c == stop)) [
  | inl e ↦ rw e refl
  | inr e ↦ rw e (ap (λ t. c ∷ t) (break_at-join stop s))
]

pub break_at-All : (stop : ℕ) (s : Text) → All (λ c. (c == stop) ≡ false) (break_at stop s).0
unfolding break_at
break_at-All stop [] = tt
break_at-All stop (c ∷ s) = elim (Bool-cases (c == stop)) [
  | inl e ↦ rw e tt
  | inr e ↦ rw e (e, break_at-All stop s)
]

-- What follows the break starts with the character, if there is anything.
pub break_at-stops : (stop c : ℕ) (s t : Text) → (break_at stop s).1 ≡ c ∷ t → c ≡ stop
unfolding break_at
break_at-stops stop c [] t h = absurd (grind arith)
break_at-stops stop c (d ∷ s) t h = ground (arith, break_at-stops stop c s t)

pub after_prefix-append : (p s : Text) → after_prefix p (p ++ s) ≡ some s
unfolding after_prefix
after_prefix-append [] s = refl
after_prefix-append (c ∷ p) s = rw (==_refl c, after_prefix-append p s) refl

pub after_prefix_sound : (p s r : Text) → after_prefix p s ≡ some r → s ≡ p ++ r
unfolding after_prefix
after_prefix_sound [] s r h = grind arith
after_prefix_sound (c ∷ p) [] r h = absurd (grind arith)
after_prefix_sound (c ∷ p) (d ∷ s) r h = ground (arith, after_prefix_sound p s r)

pub starts_with-append : (p s : Text) → starts_with p (p ++ s) ≡ true
unfolding starts_with
starts_with-append [] s = refl
starts_with-append (c ∷ p) s = rw (==_refl c, starts_with-append p s) refl

starts_with_parts :
    (c d : ℕ) (p s : Text) → starts_with (c ∷ p) (d ∷ s) ≡ true → (d ≡ c) × (starts_with p s ≡ true)
unfolding starts_with
starts_with_parts c d p s h = ground arith

pub starts_with_sound : (p s : Text) → starts_with p s ≡ true → (r : Text) × (s ≡ p ++ r)
unfolding starts_with
starts_with_sound [] s h = (s, refl)
starts_with_sound (c ∷ p) [] h = absurd (grind arith)
starts_with_sound (c ∷ p) (d ∷ s) h =
    let parts = starts_with_parts c d p s h in
    let rest = starts_with_sound p s parts.1 in (rest.0, rw parts.0 (ap (λ t. c ∷ t) rest.1))
