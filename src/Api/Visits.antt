-- ===== src/Api/Visits.antt =====
-- apps/api/main.py: one request after the other, with Redis down now and then, routes that raise, and
-- preflight requests; what each keeps in Redis, and whether it gets through.
use dsa_api.Base.{◌≡◌, Bool, true, false, ◌&&◌, Option, none, some, List, [], ◌∷◌, if◌then◌else◌}
use dsa_api.Text.{Text}
use dsa_api.Settings.Fields.{Settings}
use dsa_api.RateLimit.Zset.{Tick}
use dsa_api.Api.Http.{Request, Response}
use dsa_api.Api.Meter.{Store, Arrival, Content}
use dsa_api.Api.Quota.{is_served, is_from}
use dsa_api.Api.Probes.{Call, gave, raised}
use dsa_api.Api.Creation.{create_app}
use dsa_api.Api.App.{Redis, up, down, Cors, respond}

-- A request with what it meets: whether Redis is up, the read of the time stamp, and the route.
pub record Visit (B : Type 0) : Type 0 where
  pub arrival : Arrival
  pub reachable : Bool
  pub stamp : Call (Option Text)
  pub route : Call (Response B)

abbrev pub redis_for : Bool → Store → Redis
redis_for true store = up store
redis_for false store = down

-- What Redis keeps.
abbrev pub kept_store : Store → Redis → Store
kept_store store (up after) = after
kept_store store down = store

abbrev pub is_through : {B : Type 0} → Call (Response (Content B)) → Bool
is_through (gave r) = is_served r.content
is_through raised = false

abbrev pub is_plain : {B : Type 0} → Option (Response (Content B)) → Bool
is_plain none = true
is_plain (some answer) = false

abbrev pub blank : Response (Unit {0})
blank = record { status = 200; content = tt; headers = [] }

module _ {B : Type 0} (cors : Cors B) where
  -- The requests that come to the limits: no preflight, and Redis up.
  abbrev pub reached : List (Visit B) → List (Arrival × Response (Unit {0}))
  reached [] = []
  reached (v ∷ vs) =
      if is_plain (cors.preflight v.arrival.request) && v.reachable
      then (v.arrival, blank) ∷ reached vs
      else reached vs

  -- The middleware of CORS adds headers, and leaves the content alone.
  abbrev pub KeepsContent : Type 0
  KeepsContent =
      (request : Request) (r : Response (Content B)) → (cors.simple request r).content ≡ r.content

module _ {B : Type 0} (settings : Settings) (cors : Cors B) (ip : Text) where
  abbrev pub visited : Visit B → Store → Redis × Call (Response (Content B))
  visited v store =
      respond (create_app settings) cors v.arrival v.stamp v.route (redis_for v.reachable store)

  -- A metered request of the address that is no preflight and is answered by its route.
  abbrev pub gets_through : Visit B → Store → Bool
  gets_through v store =
      is_plain (cors.preflight v.arrival.request)
      && is_from ip v.arrival
      && is_through (visited v store).1

  -- The times, newest first, at which requests of the address got through.
  unfoldable pub through_times : Store → List Tick → List (Visit B) → List Tick
  through_times store log [] = log
  through_times store log (v ∷ vs) =
      through_times (kept_store store (visited v store).0)
        (if gets_through v store then v.arrival.at_minute.0 ∷ log else log) vs
