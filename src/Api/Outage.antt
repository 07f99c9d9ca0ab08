-- ===== src/Api/Outage.antt =====
-- apps/api/main.py: which requests are answered, with Redis up or down, and what they use.
use dsa_api.Base.{
  ◌⊎◌, sym, ◌≡◌, refl, ◌∙◌, Bool, true, false, ◌||◌, Bool-cases, inl, inr, Option, none, some,
  if◌then◌else◌,
}
use dsa_api.Text.{Text}
use dsa_api.RateLimit.Check.{LimitDecision}
use dsa_api.Api.Http.{Response}
use dsa_api.Api.Meter.{Arrival, is_metered, Content, passed}
use dsa_api.Api.Probes.{Call, gave, raised}
use dsa_api.Api.Creation.{Application}
use dsa_api.Api.App.{
  Redis, up, down, if_gave, Cors, checks_for, limited, metered, through_limiter, through_headers,
  respond, answer_or, serve,
}

abbrev pub is_answered {ℓ} : {A : Type ℓ} → Call A → Bool
is_answered (gave a) = true
is_answered raised = false

abbrev pub is_refused : Option LimitDecision → Bool
is_refused (some decision) = true
is_refused none = false

is_answered-if_gave :
    {A B : Type 0} (f : A → B) (c : Call A) → is_answered (if_gave f c) ≡ is_answered c
is_answered-if_gave f (gave a) = refl
is_answered-if_gave f raised = refl

module _ (app : Application) (a : Arrival) where
  -- Redis after the checks of the limits.
  abbrev pub used : Redis → Redis
  used (up store) = up (checks_for app a store).0
  used down = down

  -- A metered request needs Redis, and a refusal or a route that gives a response; any other needs
  -- only the route.
  abbrev pub can_pass : Redis → Bool → Bool
  can_pass (up store) route = is_refused (checks_for app a store).1 || route
  can_pass down route = false

  module _ {B : Type 0} where
    -- Whether a request gets a response from within the middlewares.
    abbrev pub passes : Call (Response B) → Redis → Bool
    passes next redis =
        if is_metered a.request.path then can_pass redis (is_answered next) else is_answered next

    is_answered-limited :
        (o : Option LimitDecision) (next : Call (Response B))
        → is_answered (limited app o next) ≡ (is_refused o || is_answered next)
    is_answered-limited (some d) next = refl
    is_answered-limited none (gave r) = refl
    is_answered-limited none raised = refl

    metered_lem :
        (next : Call (Response B)) (redis : Redis)
        → (is_answered (metered app a next redis).1 ≡ can_pass redis (is_answered next))
          × ((metered app a next redis).0 ≡ used redis)
    metered_lem next (up store) = (is_answered-limited (checks_for app a store).1 next, refl)
    metered_lem next down = (refl, refl)

    limiter_lem :
        (next : Call (Response B)) (redis : Redis)
        → (is_answered (through_limiter app a next redis).1 ≡ (
            if is_metered a.request.path
            then can_pass redis (is_answered next)
            else is_answered next))
          × ((through_limiter app a next redis).0
              ≡ (if is_metered a.request.path then used redis else redis))
    unfolding through_limiter
    limiter_lem next redis = elim (Bool-cases (is_metered a.request.path)) [
      | inl e ↦ rw e (metered_lem next redis)
      | inr e ↦ rw e (is_answered-if_gave passed next, refl)
    ]

    outer_lem :
        (cors : Cors B) (stamp : Call (Option Text)) (redis : Redis)
        (inner : Call (Response (Content B)))
        → is_answered (if_gave (cors.simple a.request) (through_headers app stamp redis inner))
          ≡ is_answered inner
    unfolding through_headers
    outer_lem cors stamp redis (gave r) = refl
    outer_lem cors stamp redis raised = refl

    -- Whether the middlewares give a response, and what a client gets.
    inside_lem :
        (cors : Cors B) (stamp : Call (Option Text)) (next : Call (Response B)) (redis : Redis)
        → cors.preflight a.request ≡ none
        → (is_answered (respond app cors a stamp next redis).1 ≡ passes next redis)
          × ((respond app cors a stamp next redis).0
              ≡ (if is_metered a.request.path then used redis else redis))
    unfolding respond
    inside_lem cors stamp next redis plain = rw plain (
      outer_lem cors stamp (through_limiter app a next redis).0 (through_limiter app a next redis).1
          ∙ (limiter_lem next redis).0,
      (limiter_lem next redis).1,
    )

    answer_or-cases :
        (server_error : Response (Content B)) (c : Call (Response (Content B))) (inside : Bool)
        → is_answered c ≡ inside
        → ((inside ≡ true) × (c ≡ gave (answer_or app server_error c)))
          ⊎ ((inside ≡ false) × (answer_or app server_error c ≡ server_error))
    answer_or-cases server_error (gave r) inside e = inl (sym e, refl)
    answer_or-cases server_error raised inside e = inr (sym e, refl)

    -- A request that is no preflight gets the response of the middlewares exactly if it is not
    -- metered and its route gives a response, or it is metered, Redis is up, and the limits
    -- refuse it or its route gives a response; otherwise it gets the answer of the framework to
    -- an exception, from outside the middlewares. What it uses of the limits is the same
    -- whatever its route does, and nothing if it is not metered.
    pub respond-answers :
        (server_error : Response (Content B)) (cors : Cors B) (stamp : Call (Option Text))
        (next : Call (Response B)) (redis : Redis)
        → cors.preflight a.request ≡ none
        → (((passes next redis ≡ true)
              × ((respond app cors a stamp next redis).1
                  ≡ gave (serve app server_error cors a stamp next redis).1))
            ⊎ ((passes next redis ≡ false)
                × ((serve app server_error cors a stamp next redis).1 ≡ server_error)))
          × ((serve app server_error cors a stamp next redis).0
              ≡ (if is_metered a.request.path then used redis else redis))
    unfolding serve
    respond-answers server_error cors stamp next redis plain =
        let (inside, kept) = inside_lem cors stamp next redis plain in
        (answer_or-cases server_error (respond app cors a stamp next redis).1 _ inside, kept)
