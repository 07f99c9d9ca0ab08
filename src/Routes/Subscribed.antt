-- ===== src/Routes/Subscribed.antt =====
-- apps/api/routers/waitlist.py, `join_waitlist`: which addresses are sent, and which are accepted.
use dsa_api.Base.{
  ℕ, ◌<◌, ◌≡◌, ◌≢◌, ◌↔◌, ◌⊎◌, inl, inr, refl, sym, arith, Bool, true, false, ◌&&◌, Option, none,
  some, if◌then◌else◌,
}
use dsa_api.Text.{Text}
use dsa_api.Normalize.Chars.{Unicode}
use dsa_api.Watchdog.Check.{Posted, answered, failed}
use dsa_api.Routes.Tables.{Reply, ok, error}
use dsa_api.Routes.Lookup.{is_given}
use dsa_api.Routes.Waitlist.{WaitlistIn, clean_email, contact_reply, checked_email, join_waitlist}

-- The statuses that the provider's answer may have where the address is accepted.
pub IsTaken : Posted → Type 0
IsTaken failed = ⊥
IsTaken (answered status) = (status < 500) × (status ≢ 401) × (status ≢ 403)

abbrev accepted : Reply {0} Unit
accepted = ok tt

ok_error : (status : ℕ) → accepted ≢ error status
ok_error status h = grind arith

IsTaken-iff : (posted : Posted) → (contact_reply posted ≡ ok tt) ↔ IsTaken posted
unfolding contact_reply IsTaken
IsTaken-iff failed = (λ h. absurd (ok_error 500 (sym h)), λ h. absurd h)
IsTaken-iff (answered status) = ground (arith, ok_error 502)

screened : Bool → Bool → Bool → Posted → Option Text → Reply {0} Unit × Option Text
screened key audience tripped posted found =
    if key && audience then checked_email tripped posted found else (error 503, none)

-- By the tests and the check of the address.
screened-sent_iff :
    (key audience tripped : Bool) (posted : Posted) (found : Option Text) (email : Text)
    → ((screened key audience tripped posted found).1 ≡ some email)
      ↔ ((key ≡ true) × (audience ≡ true) × (tripped ≡ false) × (found ≡ some email))
unfolding screened
screened-sent_iff true true false posted (some e) email = (λ h. (refl, refl, refl, h), λ h. h.3)
screened-sent_iff true true true posted (some e) email =
    (λ h. absurd (grind arith), λ h. absurd (grind arith))
screened-sent_iff true true tripped posted none email =
    (λ h. absurd (grind arith), λ h. absurd (grind arith))
screened-sent_iff true false tripped posted found email =
    (λ h. absurd (grind arith), λ h. absurd (grind arith))
screened-sent_iff false audience tripped posted found email =
    (λ h. absurd (grind arith), λ h. absurd (grind arith))

screened-ok_iff :
    (key audience tripped : Bool) (posted : Posted) (found : Option Text)
    → ((screened key audience tripped posted found).0 ≡ ok tt)
      ↔ ((key ≡ true) × (audience ≡ true) × (found ≢ none) × ((tripped ≡ true) ⊎ IsTaken posted))
unfolding screened
screened-ok_iff false audience tripped posted found =
    (λ h. absurd (ok_error 503 (sym h)), λ h. absurd (grind arith))
screened-ok_iff true false tripped posted found =
    (λ h. absurd (ok_error 503 (sym h)), λ h. absurd (grind arith))
screened-ok_iff true true tripped posted none =
    (λ h. absurd (ok_error 422 (sym h)), λ h. absurd (h.2 refl))
screened-ok_iff true true true posted (some e) =
    (λ h. (refl, refl, (λ g. grind arith), inl refl), λ h. refl)
screened-ok_iff true true false posted (some e) = (
  λ h. (refl, refl, (λ g. grind arith), inr ((IsTaken-iff posted).0 h)),
  λ h. (IsTaken-iff posted).1 (ground arith),
)

-- An address is sent to the provider exactly if the list is configured, the address is valid
-- and the hidden field is empty; and it is accepted exactly if the list is configured, the
-- address is valid, and the hidden field is filled or the provider answers below 500, and
-- neither 401 nor 403.
pub join_waitlist_iff :
    (unicode : Unicode) (api_key audience_id : Option Text) (body : WaitlistIn) (posted : Posted)
    → ((email : Text)
        → ((join_waitlist unicode api_key audience_id body posted).1 ≡ some email) ↔ (
            (is_given api_key ≡ true)
            × (is_given audience_id ≡ true)
            × (is_given body.company ≡ false)
            × (clean_email unicode body.email ≡ some email)))
      × (((join_waitlist unicode api_key audience_id body posted).0 ≡ ok tt) ↔ (
          (is_given api_key ≡ true)
          × (is_given audience_id ≡ true)
          × (clean_email unicode body.email ≢ none)
          × ((is_given body.company ≡ true) ⊎ IsTaken posted)))
unfolding join_waitlist screened
join_waitlist_iff unicode api_key audience_id body posted = (
  screened-sent_iff (is_given api_key) (is_given audience_id) (is_given body.company) posted
      (clean_email unicode body.email),
  screened-ok_iff (is_given api_key) (is_given audience_id) (is_given body.company) posted
      (clean_email unicode body.email),
)
