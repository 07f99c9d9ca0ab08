-- ===== src/Fetch/Tests.antt =====
-- `fetch` on servers that fail, answer and refuse.
use dsa_api.Base.{ℕ, zero, suc, Bool, leb, ltb, not, ◌&&◌, ◌≡◌, refl, ◌≢◌, arith, [], ◌∷◌}
use dsa_api.Text.{Text, text}
use dsa_api.Fetch.Attempts.{
  Answer, Ending, transient, responded, transport_error, returned, exhausted, client_failure,
  request, pause, fetch, result_of, is_retryable, is_transient, is_client_error, ending,
  attempt_from,
}
use dsa_api.Fetch.Rounds.{Ran, outcome_of, fetch_settles, fetch_exhausts}

abbrev raises : ℕ → Bool
raises status = not (leb 200 status && ltb status 300)

abbrev sha256 : Text → Text
sha256 s = text "digest"

abbrev answer : ℕ → Answer
answer status =
    responded (record { url = text "https://x.eu"; status_code = status; content = text "[]" })

-- A timeout, the firewall's 422, and then the page.
abbrev recovering : ℕ → Answer
recovering zero = transport_error
recovering (suc zero) = transport_error
recovering (suc (suc zero)) = answer 422
recovering (suc (suc (suc n))) = answer 200

abbrev page : Ending
page = returned (record {
  url = text "https://x.eu";
  status_code = 200;
  body = text "[]";
  content_hash = text "digest";
})

program : Unit {0}
unfolding result_of is_retryable is_transient is_client_error ending attempt_from fetch
program = tt

page-recovers :
    fetch raises sha256 3 recovering
    ≡ (request ∷ pause 1 ∷ request ∷ pause 2 ∷ request ∷ [], outcome_of page)
unfolding program
page-recovers = refl

not_found-stops : fetch raises sha256 3 (λ n. answer 404) ≡ (request ∷ [], client_failure 404)
unfolding program
not_found-stops = refl

-- A redirect that is not followed is an error like any other.
redirect-retries :
    fetch raises sha256 2 (λ n. answer 304) ≡ (request ∷ pause 1 ∷ request ∷ [], exhausted)
unfolding program
redirect-retries = refl

page-ends : page ≢ transient
page-ends = grind arith

fetch_settles_example : Ran (fetch raises sha256 3 recovering) 3 1 4 (outcome_of page)
unfolding program
fetch_settles_example =
    fetch_settles raises sha256 3 recovering 2 page (omega arith) (refl, (refl, refl)) page-ends

fetch_exhausts_example : Ran (fetch raises sha256 4 (λ n. answer 422)) 4 1 8 exhausted
unfolding program
fetch_exhausts_example =
    fetch_exhausts raises sha256 4 (λ n. answer 422) 3 refl (refl, (refl, (refl, (refl, tt))))
