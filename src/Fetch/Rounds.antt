-- ===== src/Fetch/Rounds.antt =====
-- apps/scraper/fetch.py, `fetch`: how many requests it makes, how long it waits, how it ends.
use dsa_api.Base.{
  ℕ, zero, suc, ◌+◌, ◌-◌, ◌^◌, ◌<◌, ◌≡◌, refl, ◌≢◌, Bool, List, [], ◌∷◌, arith, sym, subst, lt→ltb,
  ge→ltb, ◌*◌,
}
use dsa_api.Text.{Text}
use dsa_api.Fetch.Attempts.{
  Answer, Ending, returned, client_error, propagated, transient, Outcome, fetched, client_failure,
  exhausted, raised, Step, request, pause, ending, attempt_from, fetch,
}

-- The number of requests in a trace.
abbrev pub requests : List Step → ℕ
requests [] = 0
requests (request ∷ t) = suc (requests t)
requests (pause n ∷ t) = requests t

-- The time that a trace waits.
abbrev pub waited : List Step → ℕ
waited [] = 0
waited (request ∷ t) = waited t
waited (pause n ∷ t) = n + waited t

-- How an attempt that is not retried ends the whole.
abbrev pub outcome_of : Ending → Outcome
outcome_of (returned result) = fetched result
outcome_of (client_error status) = client_failure status
outcome_of propagated = raised
outcome_of transient = exhausted

-- A trace with so many requests, waiting from one time to another, and an end.
pub record Ran (run : List Step × Outcome) (n before after : ℕ) (end : Outcome) : Type 0 where
  pub requested : requests run.0 ≡ n
  pub paused : before + waited run.0 ≡ after
  pub ended : run.1 ≡ end

module _ (raises : ℕ → Bool) (sha256 : Text → Text) (max_attempts : ℕ) (answers : ℕ → Answer) where
  -- From an attempt on, so many are retried, and the next one ends in the given way.
  abbrev pub EndsAfter : ℕ → ℕ → Ending → Type 0
  EndsAfter attempt zero e = ending raises sha256 (answers attempt) ≡ e
  EndsAfter attempt (suc failures) e =
      (ending raises sha256 (answers attempt) ≡ transient) × EndsAfter (suc attempt) failures e

  -- From an attempt on, so many are retried.
  abbrev pub AllTransient : ℕ → ℕ → Type 0
  AllTransient attempt zero = Unit
  AllTransient attempt (suc failures) =
      (ending raises sha256 (answers attempt) ≡ transient) × AllTransient (suc attempt) failures

  suc_pred : (n : ℕ) → suc n - 1 ≡ n
  suc_pred n = omega arith

  pow_suc : (n : ℕ) → 2 ^ suc n ≡ 2 ^ n + 2 ^ n
  pow_suc n = grind arith

  doubled_sums : (p w f : ℕ) → p + p + w ≡ (p + p) * f → p + (p + w) ≡ p * (f + f)
  doubled_sums p w f h = grind arith

  doubled : (p q w f g : ℕ) → q ≡ p + p → g ≡ f + f → q + w ≡ q * f → p + (p + w) ≡ p * g
  doubled p q w f g hq hg h = grind (arith, doubled_sums p w f (rw (← hq) h), hg)

  settles_from :
      (left a failures : ℕ) (e : Ending)
      → a + left ≡ max_attempts
      → failures < left
      → EndsAfter (suc a) failures e
      → e ≢ transient
      → Ran
          (attempt_from raises sha256 max_attempts answers left (suc a))
          (failures + 1)
          (2 ^ a)
          (2 ^ a * 2 ^ failures)
          (outcome_of e)
  unfolding attempt_from
  settles_from zero a failures e sum few ends last = absurd (omega arith)
  settles_from (suc left) a zero (returned r) sum few ends last =
      rw (ends, attempt_from) (record { requested = refl; paused = omega arith; ended = refl })
  settles_from (suc left) a zero (client_error n) sum few ends last =
      rw (ends, attempt_from) (record { requested = refl; paused = omega arith; ended = refl })
  settles_from (suc left) a zero propagated sum few ends last =
      rw (ends, attempt_from) (record { requested = refl; paused = omega arith; ended = refl })
  settles_from (suc left) a zero transient sum few ends last = absurd (last refl)
  settles_from (suc left) a (suc failures) e sum few ends last =
      let rest = settles_from left (suc a) failures e (omega arith) (omega arith) ends.1 last in
      rw (ends.0, attempt_from, lt→ltb (suc a) max_attempts (omega arith))
        (record {
          requested = omega (arith, rest.requested);
          paused =
              rw (suc_pred a) (doubled (2 ^ a) _ _ _ _ (pow_suc a) (pow_suc failures) rest.paused);
          ended = rest.ended;
        })

  -- Attempts that are all retried end the loop with the error, and the last one is not waited for.
  exhausts_from :
      (left a : ℕ)
      → a + suc left ≡ max_attempts
      → AllTransient (suc a) (suc left)
      → Ran
          (attempt_from raises sha256 max_attempts answers (suc left) (suc a))
          (suc left)
          (2 ^ a)
          (2 ^ a * 2 ^ left)
          exhausted
  unfolding attempt_from
  exhausts_from zero a sum all =
      rw (all.0, attempt_from, ge→ltb (suc a) max_attempts (omega arith))
        (record { requested = refl; paused = omega arith; ended = refl })
  exhausts_from (suc left) a sum all =
      let rest = exhausts_from left (suc a) (omega arith) all.1 in
      rw (all.0, attempt_from, lt→ltb (suc a) max_attempts (omega arith))
        (record {
          requested = omega (arith, rest.requested);
          paused = rw (suc_pred a) (doubled (2 ^ a) _ _ _ _ (pow_suc a) (pow_suc left) rest.paused);
          ended = rest.ended;
        })

  -- If the first attempt that is not retried comes after so many that are, and within the
  -- maximum, it is the last one and decides the end, and the pauses before it add up to two to
  -- that power less one, in units of the backoff.
  pub fetch_settles :
      (failures : ℕ) (e : Ending)
      → failures < max_attempts
      → EndsAfter 1 failures e
      → e ≢ transient
      → Ran
          (fetch raises sha256 max_attempts answers)
          (failures + 1)
          1
          (2 ^ failures)
          (outcome_of e)
  unfolding fetch
  fetch_settles failures e few ends last =
      let ran = settles_from max_attempts 0 failures e (omega arith) few ends last in
      record { requested = ran.requested; paused = omega (arith, ran.paused); ended = ran.ended }

  -- If every attempt within a positive maximum is retried, all of them are made, the end is the
  -- error, and the pauses add up to two to the power of one less than the maximum, less one.
  pub fetch_exhausts :
      (left : ℕ)
      → max_attempts ≡ suc left
      → AllTransient 1 max_attempts
      → Ran (fetch raises sha256 max_attempts answers) max_attempts 1 (2 ^ left) exhausted
  unfolding fetch
  fetch_exhausts left h all =
      let ran = exhausts_from left 0 (omega arith) (subst (λ n. AllTransient 1 n) h all) in
      subst
        (λ n. Ran (attempt_from raises sha256 max_attempts answers n 1) n 1 (2 ^ left) exhausted)
        (sym h)
        (record {
          requested = ran.requested;
          paused = omega (arith, ran.paused);
          ended = ran.ended;
        })
