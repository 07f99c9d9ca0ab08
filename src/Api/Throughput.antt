-- ===== src/Api/Throughput.antt =====
-- apps/api/main.py: what a client gets through the whole application in a minute, with Redis down
-- now and then, routes that raise, and preflight requests.
use dsa_api.Base.{
  ◌≤◌, ◌≡◌, refl, true, ◌&&◌, Bool-cases, Option-cases, inl, inr, List, [], ◌∷◌, arith,
}
use dsa_api.Text.{Text}
use dsa_api.Settings.Fields.{Settings}
use dsa_api.RateLimit.Zset.{Tick}
use dsa_api.RateLimit.Window.{in_span}
use dsa_api.RateLimit.Spans.{IsForward}
use dsa_api.Api.Within.{Within, Within-step}
use dsa_api.Api.Meter.{Store, minute_limit}
use dsa_api.Api.Quota.{is_served, is_from, checks_by, served_times, served-le_max}
use dsa_api.Api.App.{Cors}
use dsa_api.Api.Visits.{Visit, is_plain, reached, KeepsContent, gets_through, through_times}
use dsa_api.Api.Reached.{limits, preflight_lem, unreached_lem, reached_kept, reached-is_served}

module _ {B : Type 0} (settings : Settings) (cors : Cors B) (ip : Text) where
  -- What gets through the application is within what gets through the limits.
  through-Within :
      (t : Tick) (store : Store) (log more : List Tick) (vs : List (Visit B))
      → KeepsContent cors
      → Within (minute_limit settings.rate_limit_per_minute) t log more
      → Within
          (minute_limit settings.rate_limit_per_minute)
          t
          (through_times settings cors ip store log vs)
          (served_times settings.rate_limit_per_minute settings.rate_limit_per_day ip store more
            (reached cors vs))
  unfolding through_times served_times
  through-Within t store log more [] keeps h = h
  through-Within t store log more (v ∷ vs) keeps h =
      elim (Option-cases (cors.preflight v.arrival.request)) [
        | inr (answer, e) ↦
            let (kept, through, test) = preflight_lem settings cors ip v store answer e in
            rw (kept, through, test) (through-Within t store log more vs keeps h)
        | inl e ↦ elim (Bool-cases v.reachable) [
          | inr b ↦
              let (kept, through) = unreached_lem settings cors ip v store keeps e b in
              rw (kept, through, e, b) (through-Within t store log more vs keeps h)
          | inl b ↦
              let kept = reached_kept settings cors ip v store e b in
              let test : (is_plain (cors.preflight v.arrival.request) && v.reachable) ≡ true =
                rw (e, b) refl in
              rw (kept, test)
                (through-Within t (limits settings v.arrival store).0 _ _ vs keeps (
                  Within-step (minute_limit settings.rate_limit_per_minute) t v.arrival.at_minute.0
                    (gets_through settings cors ip v store)
                    (is_from ip v.arrival && is_served (limits settings v.arrival store).1.content)
                    log more (reached-is_served settings cors ip v store keeps e b) h))
        ]
      ]

  -- If requests of any clients come one after the other, none before the checks of the one
  -- before it are done, then, whether or not Redis is up for them, and whatever their routes
  -- do, no minute holds more metered requests of an address that their routes answer than the
  -- maximum per minute of the settings, starting with an empty Redis, as long as the clock of
  -- the checks of the address does not run backwards, and the middleware of CORS leaves the
  -- content of a response alone.
  pub through_times-le_max :
      (t start : Tick) (vs : List (Visit B))
      → KeepsContent cors
      → IsForward start (checks_by ip (reached cors vs))
      → in_span
          (minute_limit settings.rate_limit_per_minute)
          t
          (through_times settings cors ip [] [] vs)
        ≤ settings.rate_limit_per_minute
  through_times-le_max t start vs keeps forward = omega (
    arith,
    through-Within t [] [] [] vs keeps (omega arith),
    served-le_max settings.rate_limit_per_minute settings.rate_limit_per_day ip t start
        (reached cors vs) forward,
  )
