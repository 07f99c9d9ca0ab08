-- ===== src/Api/Reached.antt =====
-- apps/api/main.py: what each request keeps in Redis, and whether it gets through, against the limiter
-- of the settings on a route that answers.
use dsa_api.Base.{
  ◌≡◌, refl, sym, ap, ◌∙◌, Bool, true, false, ◌&&◌, Bool-cases, inl, inr, Option, none, some, arith,
}
use dsa_api.Text.{Text}
use dsa_api.Settings.Fields.{Settings}
use dsa_api.RateLimit.Check.{LimitDecision}
use dsa_api.Api.Http.{Request, Response}
use dsa_api.Api.Meter.{
  Store, Arrival, is_metered, Content, answered, passed, refusal, with_limits, rate_limit,
}
use dsa_api.Api.Quota.{is_served, is_from}
use dsa_api.Api.Probes.{Call, gave, raised, add_source_headers}
use dsa_api.Api.Creation.{create_app}
use dsa_api.Api.App.{
  Redis, up, down, if_gave, Cors, checks_for, limited, through_limiter, through_headers, respond,
}
use dsa_api.Api.Visits.{
  Visit, redis_for, kept_store, is_through, is_plain, blank, KeepsContent, visited, gets_through,
}

all_three : (a b c : Bool) → a && b && c ≡ true → (b ≡ true) × (c ≡ true)
all_three a b c h = ground arith

two_true : (a b : Bool) → a ≡ true → b ≡ true → a && b ≡ true
two_true a b p q = ground arith

false_unless : (from through : Bool) → (from ≡ true → through ≡ false) → from && through ≡ false
false_unless true through h = h refl
false_unless false through h = refl

-- The limiter of the settings, on a route that answers.
abbrev pub limits : Settings → Arrival → Store → Store × Response (Content (Unit {0}))
limits settings a store =
    rate_limit settings.rate_limit_per_minute settings.rate_limit_per_day a blank store

module _ {B : Type 0} (settings : Settings) (cors : Cors B) (ip : Text) where
  is_from-is_metered : (a : Arrival) → is_from ip a ≡ true → is_metered a.request.path ≡ true
  unfolding is_from
  is_from-is_metered a h = ground arith

  outer-is_through :
      (request : Request) (stamp : Call (Option Text)) (redis : Redis)
      (inner : Call (Response (Content B)))
      → (cors_keeps : (r : Response (Content B)) → (cors.simple request r).content ≡ r.content)
      → is_through
          (if_gave (cors.simple request) (through_headers (create_app settings) stamp redis inner))
        ≡ is_through inner
  unfolding through_headers add_source_headers
  outer-is_through request stamp redis raised keeps = refl
  outer-is_through request stamp redis (gave r) keeps = ap is_served (keeps _)

  limited-is_through :
      (o : Option LimitDecision) (route : Call (Response B))
      → is_through (limited (create_app settings) o route) ≡ true
      → is_served
          (answered settings.rate_limit_per_minute settings.rate_limit_per_day blank o).content
        ≡ true
  unfolding with_limits passed refusal
  limited-is_through none route h = refl
  limited-is_through (some d) route h = h

  limiter_store :
      (a : Arrival) (route : Call (Response B)) (store : Store)
      → kept_store store (through_limiter (create_app settings) a route (up store)).0
        ≡ (rate_limit settings.rate_limit_per_minute settings.rate_limit_per_day a blank store).0
  unfolding through_limiter rate_limit create_app
  limiter_store a route store = elim (Bool-cases (is_metered a.request.path)) [
    | inl e ↦ rw e refl
    | inr e ↦ rw e refl
  ]

  limiter-is_through :
      (a : Arrival) (route : Call (Response B)) (store : Store)
      → is_metered a.request.path ≡ true
      → is_through (through_limiter (create_app settings) a route (up store)).1 ≡ true
      → is_served
          (rate_limit settings.rate_limit_per_minute settings.rate_limit_per_day a blank
            store).1.content
        ≡ true
  unfolding through_limiter rate_limit create_app
  limiter-is_through a route store e =
      rw e (limited-is_through (checks_for (create_app settings) a store).1 route)

  -- With Redis down nothing is kept, and nothing metered gets through.
  limiter_down :
      (a : Arrival) (route : Call (Response B))
      → (through_limiter (create_app settings) a route down).0 ≡ down
  unfolding through_limiter
  limiter_down a route = elim (Bool-cases (is_metered a.request.path)) [
    | inl e ↦ rw e refl
    | inr e ↦ rw e refl
  ]

  limiter_down-is_through :
      (a : Arrival) (route : Call (Response B))
      → is_metered a.request.path ≡ true
      → is_through (through_limiter (create_app settings) a route down).1 ≡ false
  unfolding through_limiter
  limiter_down-is_through a route e = rw e refl

  -- A preflight request does not come to the limits.
  pub preflight_lem :
      (v : Visit B) (store : Store) (answer : Response (Content B))
      → cors.preflight v.arrival.request ≡ some answer
      → (kept_store store (visited settings cors ip v store).0 ≡ store)
        × (gets_through settings cors ip v store ≡ false)
        × ((is_plain (cors.preflight v.arrival.request) && v.reachable) ≡ false)
  unfolding respond
  preflight_lem v store answer e = rw e (elim (Bool-cases v.reachable) [
    | inl b ↦ (rw b refl, refl, refl)
    | inr b ↦ (rw b refl, refl, refl)
  ])

  plain_kept :
      (v : Visit B) (store : Store)
      → cors.preflight v.arrival.request ≡ none
      → (visited settings cors ip v store).0
        ≡ (through_limiter (create_app settings) v.arrival v.route (redis_for v.reachable store)).0
  unfolding respond
  plain_kept v store e = rw e refl

  plain-is_through :
      (v : Visit B) (store : Store)
      → KeepsContent cors
      → cors.preflight v.arrival.request ≡ none
      → is_through (visited settings cors ip v store).1
        ≡ is_through
            (through_limiter
              (create_app settings)
              v.arrival
              v.route
              (redis_for v.reachable store)).1
  unfolding respond
  plain-is_through v store keeps e =
      rw e (outer-is_through v.arrival.request v.stamp _ _ (keeps v.arrival.request))

  -- A request that does not reach Redis.
  pub unreached_lem :
      (v : Visit B) (store : Store)
      → KeepsContent cors
      → cors.preflight v.arrival.request ≡ none
      → v.reachable ≡ false
      → (kept_store store (visited settings cors ip v store).0 ≡ store)
        × (gets_through settings cors ip v store ≡ false)
  unreached_lem v store keeps e b = (
    ap (kept_store store) (
        plain_kept v store e
        ∙ ap (λ r. (through_limiter (create_app settings) v.arrival v.route (redis_for r store)).0)
            b
        ∙ limiter_down v.arrival v.route),
    ap (λ o. is_plain o && is_from ip v.arrival && is_through (visited settings cors ip v store).1)
          e
        ∙ false_unless (is_from ip v.arrival) (is_through (visited settings cors ip v store).1)
            (λ from.
              plain-is_through v store keeps e
              ∙ ap
                  (λ r.
                    is_through
                      (through_limiter (create_app settings) v.arrival v.route
                        (redis_for r store)).1)
                  b
              ∙ limiter_down-is_through v.arrival v.route (is_from-is_metered v.arrival from)),
  )

  pub reached_kept :
      (v : Visit B) (store : Store)
      → cors.preflight v.arrival.request ≡ none
      → v.reachable ≡ true
      → kept_store store (visited settings cors ip v store).0 ≡ (limits settings v.arrival store).0
  reached_kept v store e b =
      ap (kept_store store) (
        plain_kept v store e
        ∙ ap (λ r. (through_limiter (create_app settings) v.arrival v.route (redis_for r store)).0)
            b)
      ∙ limiter_store v.arrival v.route store

  pub reached-is_served :
      (v : Visit B) (store : Store)
      → KeepsContent cors
      → cors.preflight v.arrival.request ≡ none
      → v.reachable ≡ true
      → gets_through settings cors ip v store ≡ true
      → (is_from ip v.arrival && is_served (limits settings v.arrival store).1.content) ≡ true
  reached-is_served v store keeps e b h =
      let (from, through) = all_three _ _ _ h in
      two_true _ _ from (
        limiter-is_through v.arrival v.route store (is_from-is_metered v.arrival from) (
          sym (
            plain-is_through v store keeps e
            ∙ ap
                (λ r.
                  is_through
                    (through_limiter (create_app settings) v.arrival v.route (redis_for r store)).1)
                b)
          ∙ through))
