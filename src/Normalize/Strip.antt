-- ===== src/Normalize/Strip.antt =====
-- `str.strip` leaves nothing to strip, and adds no character.
use dsa_api.Base.{ℕ, true, false, ◌≡◌, refl, ap, ◌∙◌, [], ◌∷◌, All, arith, Bool-cases, inl, inr}
use dsa_api.Text.{Text, is_space, lstrip, rstrip, strip, is_empty}

rstrip-blank :
    (c : ℕ) (s : Text) → is_empty (rstrip s) ≡ true → is_space c ≡ true → rstrip (c ∷ s) ≡ []
unfolding rstrip
rstrip-blank c s h hc = rw (h, hc) refl

rstrip-mark : (c : ℕ) (s : Text) → is_space c ≡ false → rstrip (c ∷ s) ≡ c ∷ rstrip s
unfolding rstrip
rstrip-mark c s hc = ground arith

rstrip-rstrip : (s : Text) → rstrip (rstrip s) ≡ rstrip s
unfolding rstrip
rstrip-rstrip [] = refl
rstrip-rstrip (c ∷ s) = ground (arith, rstrip-rstrip s)

lstrip_nil : lstrip (rstrip []) ≡ rstrip []
unfolding lstrip rstrip
lstrip_nil = refl

lstrip_marked : (s : Text) → lstrip (rstrip (lstrip s)) ≡ rstrip (lstrip s)
unfolding lstrip
lstrip_marked [] = lstrip_nil
lstrip_marked (c ∷ s) = elim (Bool-cases (is_space c)) [
  | inl e ↦ rw e (lstrip_marked s)
  | inr e ↦ rw (e, rstrip-mark c s e, e) refl
]

-- What is stripped has nothing to strip.
pub strip-strip : (s : Text) → strip (strip s) ≡ strip s
unfolding strip
strip-strip s = ap rstrip (lstrip_marked s) ∙ rstrip-rstrip (lstrip s)

-- A property of all characters outlives the strip.
module _ {κ} (P : ℕ → Type κ) where
  lstrip-All : (s : Text) → All P s → All P (lstrip s)
  unfolding lstrip
  lstrip-All [] h = h
  lstrip-All (c ∷ s) h = ground (arith, lstrip-All s)

  rstrip-All : (s : Text) → All P s → All P (rstrip s)
  unfolding rstrip
  rstrip-All [] h = h
  rstrip-All (c ∷ s) h = ground (arith, rstrip-All s)

  pub strip-All : (s : Text) → All P s → All P (strip s)
  unfolding strip
  strip-All s h = rstrip-All (lstrip s) (lstrip-All s h)

rstrip-marked : (s : Text) → All (λ c. is_space c ≡ false) s → rstrip s ≡ s
unfolding rstrip
rstrip-marked [] h = refl
rstrip-marked (c ∷ s) h = ground (arith, rstrip-marked s)

-- A text without white space is stripped.
pub strip-marked : (s : Text) → All (λ c. is_space c ≡ false) s → strip s ≡ s
unfolding strip lstrip
strip-marked [] h = rstrip-marked [] h
strip-marked (c ∷ s) h = rw h.0 (rstrip-marked (c ∷ s) h)
