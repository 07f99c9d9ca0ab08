-- ===== src/Ingest/Events.antt =====
-- The events of one id among those that a scrape logs.
use dsa_api.Base.{
  ◌≡◌, refl, ◌≢◌, Option, none, some, List, [], ◌∷◌, ◌++◌, arith, filter_by, filter_by-append, ◌==◌,
  All,
}
use dsa_api.Models.{Uuid, Time, ScrapedTrustedFlagger, TrustedFlaggerOrm, NewEvent}
use dsa_api.Ingest.Reconcile.{created_event, restored_event, updated_event, removed_event}
use dsa_api.Ingest.Entity.{refresh_events, settled_events}

unfoldable pub events_of : Uuid → List NewEvent → List NewEvent
events_of j = filter_by (λ e. e.tf_id == j)

pub events_of-append :
    (j : Uuid) (xs ys : List NewEvent) → events_of j (xs ++ ys) ≡ events_of j xs ++ events_of j ys
unfolding events_of
events_of-append j xs ys = filter_by-append _ xs ys

pub events_of-nil : (j : Uuid) → events_of j [] ≡ []
unfolding events_of
events_of-nil j = refl

-- Every event is about the id.
abbrev pub AreOf : Uuid → List NewEvent → Type 0
AreOf j = All (λ e. e.tf_id ≡ j)

pub events_of_self : (j : Uuid) (es : List NewEvent) → AreOf j es → events_of j es ≡ es
unfolding events_of
events_of_self j [] h = refl
events_of_self j (e ∷ es) h = ground (arith, events_of_self j es)

pub events_of_ne : (k j : Uuid) (es : List NewEvent) → k ≢ j → AreOf k es → events_of j es ≡ []
unfolding events_of
events_of_ne k j [] n h = refl
events_of_ne k j (e ∷ es) n h = ground (arith, events_of_ne k j es)

module _ (run_id : Uuid) (scraped_at : Time) where
  pub refresh_events-AreOf :
      (j : Uuid) (r : TrustedFlaggerOrm) (sc : ScrapedTrustedFlagger)
      → AreOf j (refresh_events run_id scraped_at j r sc)
  unfolding refresh_events restored_event updated_event
  refresh_events-AreOf j r sc = ground arith

  pub settled_events-AreOf :
      (j : Uuid) (sc : Option ScrapedTrustedFlagger) (r : Option TrustedFlaggerOrm)
      → AreOf j (settled_events run_id scraped_at j sc r)
  unfolding settled_events created_event removed_event
  settled_events-AreOf j none none = tt
  settled_events-AreOf j (some sc) none = (refl, tt)
  settled_events-AreOf j (some sc) (some r) = refresh_events-AreOf j r sc
  settled_events-AreOf j none (some r) = ground arith
