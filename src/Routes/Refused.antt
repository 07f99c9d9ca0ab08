-- ===== src/Routes/Refused.antt =====
-- apps/api/routers/trusted_flaggers.py, `lookup_trusted_flagger`: when it refuses.
use dsa_api.Base.{
  ℕ, ◌+◌, ◌≡◌, ◌≢◌, ◌↔◌, ◌⊎◌, inl, inr, refl, arith, Bool, true, false, Option, none, some, [], ◌∷◌,
  ◌==◌, if◌then◌else◌,
}
use dsa_api.Text.{Text}
use dsa_api.Normalize.Chars.{Unicode}
use dsa_api.Api.Probes.{Call}
use dsa_api.Routes.Tables.{Database, Reply, ok, error}
use dsa_api.Routes.Lookup.{
  is_given, one_if, provided, or_empty, FoundRows, extract_host, found_host, lookup_trusted_flagger,
}

is_error : Reply FoundRows → Bool
is_error (ok found) = false
is_error (error status) = true

ok_error : (found : FoundRows) (status : ℕ) → ok found ≢ error status
unfolding is_error
ok_error found status h = grind arith

abbrev count : Bool → Bool → Bool → ℕ
count e d w = one_if e + one_if d + one_if w

-- The choice of the parameter, when only the website can be refused.
choice_iff :
    (e d w host : Bool) (a b : FoundRows) (z : Reply FoundRows)
    → (z ≡ error 400) ↔ (host ≡ false)
    → ((if count e d w == 1 then (if e then ok a else if d then ok b else z) else error 400)
        ≡ error 400)
      ↔ ((count e d w ≢ 1) ⊎ ((w ≡ true) × (host ≡ false)))
choice_iff true true true host a b z i = (λ h. inl (ground arith), λ h. refl)
choice_iff true true false host a b z i = (λ h. inl (ground arith), λ h. refl)
choice_iff true false true host a b z i = (λ h. inl (ground arith), λ h. refl)
choice_iff false true true host a b z i = (λ h. inl (ground arith), λ h. refl)
choice_iff false false false host a b z i = (λ h. inl (ground arith), λ h. refl)
choice_iff true false false host a b z i = (λ h. absurd (ok_error _ _ h), λ h. ground arith)
choice_iff false true false host a b z i = (λ h. absurd (ok_error _ _ h), λ h. ground arith)
choice_iff false false true host a b z i = (λ h. inr (refl, i.0 h), λ h. i.1 (ground arith))

module _ (unicode : Unicode) (hostname : Text → Call (Option Text)) (db_lower : Text → Text)
    (db : Database) where
  found_host_iff :
      (host : Option Text) → (found_host db_lower db host ≡ error 400) ↔ (is_given host ≡ false)
  found_host_iff none = (λ h. refl, λ h. refl)
  found_host_iff (some []) = (λ h. refl, λ h. refl)
  found_host_iff (some (c ∷ s)) = (λ h. absurd (ok_error _ _ h), λ h. absurd (grind arith))

  -- A lookup is refused with 400 exactly if not exactly one parameter is given, or the website
  -- is and has no host.
  pub lookup_trusted_flagger-error_iff :
      (email domain website : Option Text)
      → (lookup_trusted_flagger db_lower unicode hostname email domain website db ≡ error 400) ↔ (
          (provided email domain website ≢ 1)
          ⊎ ((is_given website ≡ true)
              × (is_given (extract_host unicode hostname (or_empty website)) ≡ false)))
  unfolding lookup_trusted_flagger
  lookup_trusted_flagger-error_iff email domain website =
      choice_iff (is_given email) (is_given domain) (is_given website)
        (is_given (extract_host unicode hostname (or_empty website))) _ _
        (found_host db_lower db (extract_host unicode hostname (or_empty website)))
        (found_host_iff (extract_host unicode hostname (or_empty website)))
