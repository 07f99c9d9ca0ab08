-- ===== src/Api/Headed.antt =====
-- apps/api/main.py: every response names the source; and which requests are answered at all.
use dsa_api.Base.{
  ◌⊎◌, false, ◌≡◌, ◌≢◌, refl, sym, ap, subst, ◌∙◌, true, Option, none, some, Dict, get,
  get-put_self, get-put_ne, arith, Bool-cases, inl, inr,
}
use dsa_api.Text.{Text, text, text_discrete, is_empty, starts_with}
use dsa_api.Api.Http.{Request, Response, HeaderValue, value}
use dsa_api.Api.Meter.{Arrival, Content}
use dsa_api.Api.Probes.{Call, gave, raised, read_or_none, updated_header, add_source_headers}
use dsa_api.Api.Creation.{Application}
use dsa_api.Api.App.{
  Redis, if_gave, Cors, stamp_from, through_limiter, through_headers, unless_preflight, respond,
  serve,
}
use dsa_api.Api.Outage.{passes, respond-answers}

abbrev pub source_header : Text
source_header = text "X-Source-URL"

abbrev pub disclaimer_header : Text
disclaimer_header = text "X-Disclaimer"

abbrev pub updated_at_header : Text
updated_at_header = text "X-Data-Updated-At"

source-ne-disclaimer : disclaimer_header ≢ source_header
source-ne-disclaimer h = ground arith

updated-ne-source : updated_at_header ≢ source_header
updated-ne-source h = ground arith

updated-ne-disclaimer : updated_at_header ≢ disclaimer_header
updated-ne-disclaimer h = ground arith

-- The time stamp's header leaves the others alone.
updated-other :
    (key : Text) (stamp : Option Text) (headers : Dict Text HeaderValue)
    → updated_at_header ≢ key
    → get text_discrete key (updated_header stamp headers) ≡ get text_discrete key headers
updated-other key none headers h = refl
updated-other key (some at) headers h = elim (Bool-cases (is_empty at)) [
  | inl e ↦ rw e refl
  | inr e ↦ rw e (get-put_ne text_discrete updated_at_header key (value at) headers h)
]

source_kept : starts_with (text "X-") source_header ≡ true
unfolding starts_with
source_kept = refl

disclaimer_kept : starts_with (text "X-") disclaimer_header ≡ true
unfolding starts_with
disclaimer_kept = refl

gave_injective {ℓ} : {A : Type ℓ} (a b : A) → gave a ≡ gave b → a ≡ b
gave_injective a b h = grind arith

-- The middleware of CORS leaves the headers alone whose names start with X-.
abbrev pub KeepsHeaders : {B : Type 0} → Cors B → Type 0
KeepsHeaders {B} cors =
    (request : Request) (r : Response (Content B)) (key : Text)
    → starts_with (text "X-") key ≡ true
    → get text_discrete key (cors.simple request r).headers ≡ get text_discrete key r.headers

module _ {B : Type 0} (app : Application) where
  -- The source and the disclaimer are among the headers.
  abbrev pub IsHeaded : Response (Content B) → Type 0
  IsHeaded r =
      (get text_discrete source_header r.headers ≡ some (value app.source_url))
      × (get text_discrete disclaimer_header r.headers ≡ some (value app.disclaimer))

  headers-IsHeaded :
      (stamp : Call (Option Text)) (r : Response (Content B))
      → IsHeaded (add_source_headers app.source_url app.disclaimer stamp r)
  unfolding add_source_headers
  headers-IsHeaded stamp r = (
    updated-other source_header (read_or_none stamp) _ updated-ne-source
        ∙ get-put_ne text_discrete disclaimer_header source_header _ _ source-ne-disclaimer
        ∙ get-put_self text_discrete source_header _ _,
    updated-other disclaimer_header (read_or_none stamp) _ updated-ne-disclaimer
        ∙ get-put_self text_discrete disclaimer_header _ _,
  )

  cors-IsHeaded :
      (cors : Cors B) (request : Request) (stamp : Call (Option Text)) (redis : Redis)
      (inner : Call (Response (Content B))) (r : Response (Content B))
      → KeepsHeaders cors
      → if_gave (cors.simple request) (through_headers app stamp redis inner) ≡ gave r
      → IsHeaded r
  unfolding through_headers
  cors-IsHeaded cors request stamp redis raised r keeps h = absurd (grind arith)
  cors-IsHeaded cors request stamp redis (gave inner) r keeps h =
      let headed = headers-IsHeaded (stamp_from redis stamp) inner in
      subst IsHeaded (gave_injective _ r h) (
        keeps request _ source_header source_kept ∙ headed.0,
        keeps request _ disclaimer_header disclaimer_kept ∙ headed.1,
      )

  given-IsHeaded :
      (cors : Cors B) (a : Arrival) (stamp : Call (Option Text)) (next : Call (Response B))
      (redis : Redis) (r : Response (Content B))
      → KeepsHeaders cors
      → cors.preflight a.request ≡ none
      → (respond app cors a stamp next redis).1 ≡ gave r
      → IsHeaded r
  unfolding respond
  given-IsHeaded cors a stamp next redis r keeps plain h =
      cors-IsHeaded cors a.request stamp (through_limiter app a next redis).0
        (through_limiter app a next redis).1 r keeps
        (ap
            (λ (o : Option (Response (Content B))).
              (unless_preflight app o cors a stamp next redis).1)
            (sym plain)
          ∙ h)

  -- A request that is no preflight gets a response that names the source and carries the
  -- disclaimer, or, exactly if it is metered and Redis is down, or its route raises where the
  -- limits do not refuse it, the answer of the framework to an exception, from outside the
  -- middlewares, if the middleware of CORS leaves the headers alone whose names start with X-.
  pub respond-IsHeaded :
      (server_error : Response (Content B)) (cors : Cors B) (a : Arrival)
      (stamp : Call (Option Text)) (next : Call (Response B)) (redis : Redis)
      → KeepsHeaders cors
      → cors.preflight a.request ≡ none
      → ((passes app a next redis ≡ true)
          × IsHeaded (serve app server_error cors a stamp next redis).1)
        ⊎ ((passes app a next redis ≡ false)
            × ((serve app server_error cors a stamp next redis).1 ≡ server_error))
  respond-IsHeaded server_error cors a stamp next redis keeps plain =
      elim (respond-answers app a server_error cors stamp next redis plain).0 [
        | inl (inside, same) ↦
            inl (inside, given-IsHeaded cors a stamp next redis _ keeps plain same)
        | inr outside ↦ inr outside
      ]
