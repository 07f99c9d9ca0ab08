-- ===== src/Ingest/Loops.antt =====
-- The two loops of `apply_diff`, one id at a time.
use mathlib.Core.Option.{or_else}
use mathlib.Core.List.{append-nil}
use dsa_api.Base.{
  ◌≡◌, refl, ◌∙◌, ap, ◌≢◌, inl, inr, Option-cases, sym, Option, none, some, List, [], ◌∷◌, ◌++◌,
  arith, Dict, get, get-cons_self, get-cons_ne, get-nil, get-put_self, get-put_ne, put, IsDict,
  ℕ_discrete,
}
use dsa_api.Models.{Uuid, Time, ScrapedTrustedFlagger, TrustedFlaggerOrm, NewEvent}
use dsa_api.Ingest.Reconcile.{
  Session, new_orm, created_event, visit_existing, visit_scraped, visit_all_scraped,
}
use dsa_api.Ingest.Entity.{refreshed, refresh_events}
use dsa_api.Ingest.Events.{
  events_of, events_of-append, AreOf, events_of_self, events_of_ne, refresh_events-AreOf,
}
use dsa_api.Ingest.Table.{find, find-append}

abbrev pub listed : Option TrustedFlaggerOrm → List TrustedFlaggerOrm
listed none = []
listed (some r) = r ∷ []

pub or_else-none {ℓ} : {A : Type ℓ} (o : Option A) → or_else o none ≡ o
unfolding or_else
or_else-none none = refl
or_else-none (some a) = refl

module _ (run_id : Uuid) (scraped_at : Time) where
  pub visit_existing_lem :
      (s : Session) (k : Uuid) (loaded : TrustedFlaggerOrm) (scraped : ScrapedTrustedFlagger)
      → ((visit_existing run_id scraped_at s k loaded scraped).current
          ≡ put ℕ_discrete k (refreshed run_id scraped_at loaded scraped) s.current)
        × ((visit_existing run_id scraped_at s k loaded scraped).added ≡ s.added)
        × ((visit_existing run_id scraped_at s k loaded scraped).events
            ≡ s.events ++ refresh_events run_id scraped_at k loaded scraped)
  unfolding visit_existing refreshed refresh_events
  visit_existing_lem s k loaded scraped = ground (arith, append-nil s.events)

  -- The tracked row, the inserted row and the events of an id after the first loop.
  unfoldable pub rescued :
      Option ScrapedTrustedFlagger → Option TrustedFlaggerOrm → Option TrustedFlaggerOrm
  rescued none o = o
  rescued (some scraped) none = none
  rescued (some scraped) (some loaded) = some (refreshed run_id scraped_at loaded scraped)

  unfoldable pub inserted :
      Uuid → Option ScrapedTrustedFlagger → Option TrustedFlaggerOrm → Option TrustedFlaggerOrm
  inserted j none o = none
  inserted j (some scraped) none = some (new_orm scraped_at scraped j)
  inserted j (some scraped) (some loaded) = none

  pub find-inserted_self :
      (k : Uuid) (sc : ScrapedTrustedFlagger) (o : Option TrustedFlaggerOrm)
      → find k (listed (inserted k (some sc) o)) ≡ inserted k (some sc) o
  unfolding find inserted new_orm
  find-inserted_self k sc none = ground arith
  find-inserted_self k sc (some r) = refl

  pub find-inserted_ne :
      (k j : Uuid) (sc : ScrapedTrustedFlagger) (o : Option TrustedFlaggerOrm)
      → k ≢ j
      → find j (listed (inserted k (some sc) o)) ≡ none
  unfolding find inserted new_orm
  find-inserted_ne k j sc none h = ground arith
  find-inserted_ne k j sc (some r) h = refl

  unfoldable pub scrape_events :
      Uuid → Option ScrapedTrustedFlagger → Option TrustedFlaggerOrm → List NewEvent
  scrape_events j none o = []
  scrape_events j (some scraped) none = created_event run_id j scraped ∷ []
  scrape_events j (some scraped) (some loaded) = refresh_events run_id scraped_at j loaded scraped

  scrape_events-AreOf :
      (j : Uuid) (sc : Option ScrapedTrustedFlagger) (r : Option TrustedFlaggerOrm)
      → AreOf j (scrape_events j sc r)
  unfolding scrape_events created_event
  scrape_events-AreOf j none r = tt
  scrape_events-AreOf j (some sc) none = (refl, tt)
  scrape_events-AreOf j (some sc) (some r) = refresh_events-AreOf run_id scraped_at j r sc

  elsewhere :
      (k j : Uuid) (sc : Option ScrapedTrustedFlagger) (r : Option TrustedFlaggerOrm)
      → k ≢ j
      → events_of j (scrape_events k sc r) ≡ []
  elsewhere k j sc r h = events_of_ne k j (scrape_events k sc r) h (scrape_events-AreOf k sc r)

  module _ (s : Session) (k : Uuid) (scraped : ScrapedTrustedFlagger) where
    visit_scraped_self :
        get ℕ_discrete k (visit_scraped run_id scraped_at s k scraped).current
        ≡ rescued (some scraped) (get ℕ_discrete k s.current)
    unfolding visit_scraped rescued
    visit_scraped_self = elim (Option-cases (get ℕ_discrete k s.current)) [
      | inl e ↦ rw (e, visit_scraped) e
      | inr (loaded, e) ↦
          rw (e, visit_scraped)
            (rw ((visit_existing_lem s k loaded scraped).0) (get-put_self ℕ_discrete k _ s.current))
    ]

    visit_scraped_ne :
        (j : Uuid)
        → k ≢ j
        → get ℕ_discrete j (visit_scraped run_id scraped_at s k scraped).current
          ≡ get ℕ_discrete j s.current
    unfolding visit_scraped
    visit_scraped_ne j h = elim (Option-cases (get ℕ_discrete k s.current)) [
      | inl e ↦ rw (e, visit_scraped)
      | inr (loaded, e) ↦
          rw (e, visit_scraped)
            (rw ((visit_existing_lem s k loaded scraped).0)
              (get-put_ne ℕ_discrete k j _ s.current h))
    ]

    pub visit_scraped_added :
        (visit_scraped run_id scraped_at s k scraped).added
        ≡ s.added ++ listed (inserted k (some scraped) (get ℕ_discrete k s.current))
    unfolding visit_scraped inserted
    visit_scraped_added = elim (Option-cases (get ℕ_discrete k s.current)) [
      | inl e ↦ rw (e, visit_scraped)
      | inr (loaded, e) ↦
          rw (e, visit_scraped)
            ((visit_existing_lem s k loaded scraped).1 ∙ sym (append-nil s.added))
    ]

    pub visit_scraped_events :
        (visit_scraped run_id scraped_at s k scraped).events
        ≡ s.events ++ scrape_events k (some scraped) (get ℕ_discrete k s.current)
    unfolding visit_scraped scrape_events
    visit_scraped_events = elim (Option-cases (get ℕ_discrete k s.current)) [
      | inl e ↦ rw (e, visit_scraped)
      | inr (loaded, e) ↦ rw (e, visit_scraped) ((visit_existing_lem s k loaded scraped).2)
    ]

  pub visit_all_scraped_current :
      (j : Uuid) (s : Session) (es : Dict Uuid ScrapedTrustedFlagger)
      → IsDict ℕ_discrete es
      → get ℕ_discrete j (visit_all_scraped run_id scraped_at s es).current
        ≡ rescued (get ℕ_discrete j es) (get ℕ_discrete j s.current)
  unfolding visit_all_scraped rescued
  visit_all_scraped_current j s [] h = rw get-nil
  visit_all_scraped_current j s ((k, sc) ∷ es) h =
      visit_all_scraped_current j (visit_scraped run_id scraped_at s k sc) es h.1
      ∙ (elim (ℕ_discrete k j) [
        | yes p ↦ rw (← p) (rw (h.0, get-cons_self) (visit_scraped_self s k sc))
        | no p ↦ rw (get-cons_ne ℕ_discrete k j sc es p, visit_scraped_ne s k sc j p)
      ])

  pub visit_all_scraped_events :
      (j : Uuid) (s : Session) (es : Dict Uuid ScrapedTrustedFlagger)
      → IsDict ℕ_discrete es
      → events_of j (visit_all_scraped run_id scraped_at s es).events
        ≡ events_of j s.events ++ scrape_events j (get ℕ_discrete j es) (get ℕ_discrete j s.current)
  unfolding visit_all_scraped scrape_events
  visit_all_scraped_events j s [] h = rw get-nil (sym (append-nil _))
  visit_all_scraped_events j s ((k, sc) ∷ es) h =
      visit_all_scraped_events j (visit_scraped run_id scraped_at s k sc) es h.1
      ∙ (elim (ℕ_discrete k j) [
        | yes p ↦ rw (← p) (
            rw (h.0, get-cons_self, visit_scraped_events, append-nil, events_of-append)
              (ap (◌++◌ (events_of k s.events)) (
                events_of_self k _ (scrape_events-AreOf k (some sc) (get ℕ_discrete k s.current)))))
        | no p ↦ rw (
          get-cons_ne ℕ_discrete k j sc es p,
          visit_scraped_ne s k sc j p,
          visit_scraped_events,
          events_of-append,
          elsewhere k j (some sc) (get ℕ_discrete k s.current) p,
          append-nil (events_of j s.events),
        )
      ])

  pub visit_all_scraped_added :
      (j : Uuid) (s : Session) (es : Dict Uuid ScrapedTrustedFlagger)
      → IsDict ℕ_discrete es
      → find j (visit_all_scraped run_id scraped_at s es).added
        ≡ or_else (find j s.added) (inserted j (get ℕ_discrete j es) (get ℕ_discrete j s.current))
  unfolding visit_all_scraped inserted
  visit_all_scraped_added j s [] h = rw (get-nil, or_else-none)
  visit_all_scraped_added j s ((k, sc) ∷ es) h =
      visit_all_scraped_added j (visit_scraped run_id scraped_at s k sc) es h.1
      ∙ (elim (ℕ_discrete k j) [
        | yes p ↦ rw (← p) (
            rw (
              h.0, get-cons_self, visit_scraped_added, find-append, find-inserted_self,
              or_else-none,
            ))
        | no p ↦ rw (
          get-cons_ne ℕ_discrete k j sc es p,
          visit_scraped_ne s k sc j p,
          visit_scraped_added,
          find-append,
          find-inserted_ne k j sc _ p,
          or_else-none,
        )
      ])
