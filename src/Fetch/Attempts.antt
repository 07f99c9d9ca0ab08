-- ===== src/Fetch/Attempts.antt =====
-- apps/scraper/fetch.py, `fetch`: the loop over the attempts, with the trace of its requests and
-- pauses. Pauses are counted in units of `backoff_base`.
use dsa_api.Base.{
  ℕ, zero, suc, ◌-◌, ◌^◌, Bool, not, ◌&&◌, ◌||◌, List, [], ◌∷◌, leb, ltb, ◌==◌, if◌then◌else◌,
}
use dsa_api.Text.{Text}

-- What is read of an `httpx.Response`.
pub record Response : Type 0 where
  pub url : Text
  pub status_code : ℕ
  pub content : Text

pub record FetchResult : Type 0 where
  pub url : Text
  pub status_code : ℕ
  pub body : Text
  pub content_hash : Text

-- What `client.get` does: answer, raise one of the two transport errors, or raise something else.
pub data Answer : Type 0 where
  responded : Response → Answer
  transport_error : Answer
  unexpected : Answer

-- How an attempt ends: with a value, with an error that goes through, with one that is retried.
pub data Ending : Type 0 where
  returned : FetchResult → Ending
  client_error : ℕ → Ending
  propagated : Ending
  transient : Ending

-- How `fetch` ends.
pub data Outcome : Type 0 where
  fetched : FetchResult → Outcome
  client_failure : ℕ → Outcome
  exhausted : Outcome
  raised : Outcome

pub data Step : Type 0 where
  request : Step
  pause : ℕ → Step

-- `response.status_code in RETRYABLE_STATUS`
unfoldable pub is_retryable : ℕ → Bool
is_retryable status = status == 422 || status == 429

-- The test that raises before `raise_for_status` is asked.
unfoldable pub is_transient : ℕ → Bool
unfolding is_retryable
is_transient status = leb 500 status && ltb status 600 || is_retryable status

-- The test that makes an `HTTPStatusError` final.
unfoldable pub is_client_error : ℕ → Bool
unfolding is_retryable
is_client_error status = leb 400 status && ltb status 500 && not (is_retryable status)

-- `raises` is httpx's `raise_for_status`, by the status; `sha256` the digest in hexadecimal.
module _ (raises : ℕ → Bool) (sha256 : Text → Text) where
  unfoldable pub result_of : Response → FetchResult
  result_of response = record {
    url = response.url;
    status_code = response.status_code;
    body = response.content;
    content_hash = sha256 response.content;
  }

  -- The body of the `try`, and the test of its handler.
  unfoldable pub ending : Answer → Ending
  ending transport_error = transient
  ending unexpected = propagated
  ending (responded response) =
      let status = response.status_code in
      if is_transient status || raises status
      then if is_client_error status then client_error status else transient
      else returned (result_of response)

  -- `answers n` is what the client does at attempt `n`.
  module _ (max_attempts : ℕ) (answers : ℕ → Answer) where
    -- The loop from an attempt on, `left` attempts before the range ends.
    unfoldable pub attempt_from : ℕ → ℕ → List Step × Outcome
    attempt_from zero attempt = ([], exhausted)
    attempt_from (suc left) attempt =
        let rest = attempt_from left (suc attempt) in
        elim (ending (answers attempt)) [
          | returned result ↦ (request ∷ [], fetched result)
          | client_error status ↦ (request ∷ [], client_failure status)
          | propagated ↦ (request ∷ [], raised)
          | transient ↦
              if ltb attempt max_attempts
              then (request ∷ pause (2 ^ (attempt - 1)) ∷ rest.0, rest.1)
              else (request ∷ rest.0, rest.1)
        ]

    -- `for attempt in range(1, max_attempts + 1)`
    unfoldable pub fetch : List Step × Outcome
    fetch = attempt_from max_attempts 1
