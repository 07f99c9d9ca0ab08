-- ===== src/Ingest/Sweep.antt =====
-- The second loop of `apply_diff`, one id at a time.
use mathlib.Core.List.{append-nil}
use dsa_api.Base.{
  ◌≡◌, refl, ◌∙◌, ap, sym, ◌≢◌, inl, inr, Bool-cases, Option-cases, Option, none, some, List, [],
  ◌∷◌, ◌++◌, arith, Dict, get, get-cons_self, get-cons_ne, get-nil, get-put_self, get-put_ne,
  IsDict, ℕ_discrete, if◌then◌else◌,
}
use dsa_api.Models.{Uuid, ScrapedTrustedFlagger, TrustedFlaggerOrm, NewEvent}
use dsa_api.Ingest.Reconcile.{Session, is_removed, removed_event, visit_current, visit_all_current}
use dsa_api.Ingest.Entity.{gone}
use dsa_api.Ingest.Events.{events_of, events_of-append, AreOf, events_of_self, events_of_ne}

module _ (run_id : Uuid) (scraped_by_id : Dict Uuid ScrapedTrustedFlagger) where
  -- What the second loop leaves of a tracked row, and the events that it logs.
  unfoldable pub swept : Option ScrapedTrustedFlagger → TrustedFlaggerOrm → TrustedFlaggerOrm
  swept (some sc) r = r
  swept none r = if is_removed r then r else gone r

  unfoldable pub sweep_events :
      Uuid → Option ScrapedTrustedFlagger → TrustedFlaggerOrm → List NewEvent
  sweep_events k (some sc) r = []
  sweep_events k none r = if is_removed r then [] else removed_event run_id k (gone r) ∷ []

  sweep_events-AreOf :
      (k : Uuid) (sc : Option ScrapedTrustedFlagger) (r : TrustedFlaggerOrm)
      → AreOf k (sweep_events k sc r)
  unfolding sweep_events removed_event
  sweep_events-AreOf k (some sc) r = tt
  sweep_events-AreOf k none r = ground arith

  elsewhere :
      (k j : Uuid) (sc : Option ScrapedTrustedFlagger) (r : TrustedFlaggerOrm)
      → k ≢ j
      → events_of j (sweep_events k sc r) ≡ []
  elsewhere k j sc r h = events_of_ne k j (sweep_events k sc r) h (sweep_events-AreOf k sc r)

  module _ (s : Session) (k : Uuid) (r : TrustedFlaggerOrm) where
    visit_current_self :
        get ℕ_discrete k s.current ≡ some r
        → get ℕ_discrete k (visit_current run_id scraped_by_id s k r).current
          ≡ some (swept (get ℕ_discrete k scraped_by_id) r)
    unfolding visit_current swept
    visit_current_self here = elim (Option-cases (get ℕ_discrete k scraped_by_id)) [
      | inr (sc, e) ↦ rw (e, visit_current, swept) here
      | inl e ↦ elim (Bool-cases (is_removed r)) [
        | inl p ↦ rw (e, visit_current, swept) (rw p here)
        | inr p ↦ rw (e, visit_current, swept) (rw p (get-put_self ℕ_discrete k (gone r) s.current))
      ]
    ]

    visit_current_ne :
        (j : Uuid)
        → k ≢ j
        → get ℕ_discrete j (visit_current run_id scraped_by_id s k r).current
          ≡ get ℕ_discrete j s.current
    unfolding visit_current
    visit_current_ne j h = elim (Option-cases (get ℕ_discrete k scraped_by_id)) [
      | inr (sc, e) ↦ rw (e, visit_current)
      | inl e ↦ elim (Bool-cases (is_removed r)) [
        | inl p ↦ rw (e, visit_current) (rw p)
        | inr p ↦ rw (e, visit_current) (rw p (get-put_ne ℕ_discrete k j (gone r) s.current h))
      ]
    ]

    pub visit_current_added : (visit_current run_id scraped_by_id s k r).added ≡ s.added
    unfolding visit_current
    visit_current_added = ground arith

    pub visit_current_events :
        (visit_current run_id scraped_by_id s k r).events
        ≡ s.events ++ sweep_events k (get ℕ_discrete k scraped_by_id) r
    unfolding visit_current sweep_events
    visit_current_events = ground (arith, append-nil s.events)

  -- The loop runs over the entries as they stand; each is tracked unchanged when its turn comes.
  abbrev pub Tracked : Session → Dict Uuid TrustedFlaggerOrm → Type 0
  Tracked s es =
      (j : Uuid) (r : TrustedFlaggerOrm)
      → get ℕ_discrete j es ≡ some r
      → get ℕ_discrete j s.current ≡ some r

  Tracked-tail :
      (s : Session) (k : Uuid) (r : TrustedFlaggerOrm) (es : Dict Uuid TrustedFlaggerOrm)
      → IsDict ℕ_discrete ((k, r) ∷ es)
      → Tracked s ((k, r) ∷ es)
      → Tracked (visit_current run_id scraped_by_id s k r) es
  Tracked-tail s k r es h t j w e = elim (ℕ_discrete k j) [
    | yes p ↦ absurd (cc (h.0, p, e))
    | no p ↦ visit_current_ne s k r j p ∙ t j w (get-cons_ne ℕ_discrete k j r es p ∙ e)
  ]

  -- The row of an id after the loop, by the entries that it runs over.
  abbrev pub outcome :
      Uuid → Option TrustedFlaggerOrm → Option TrustedFlaggerOrm → Option TrustedFlaggerOrm
  outcome j none tracked = tracked
  outcome j (some r) tracked = some (swept (get ℕ_discrete j scraped_by_id) r)

  abbrev pub outcome_events : Uuid → Option TrustedFlaggerOrm → List NewEvent
  outcome_events j none = []
  outcome_events j (some r) = sweep_events j (get ℕ_discrete j scraped_by_id) r

  pub visit_all_current_row :
      (j : Uuid) (s : Session) (es : Dict Uuid TrustedFlaggerOrm)
      → IsDict ℕ_discrete es
      → Tracked s es
      → get ℕ_discrete j (visit_all_current run_id scraped_by_id s es).current
        ≡ outcome j (get ℕ_discrete j es) (get ℕ_discrete j s.current)
  unfolding visit_all_current
  visit_all_current_row j s [] h t = rw get-nil
  visit_all_current_row j s ((k, r) ∷ es) h t =
      visit_all_current_row j (visit_current run_id scraped_by_id s k r) es h.1
        (Tracked-tail s k r es h t)
      ∙ (elim (ℕ_discrete k j) [
        | yes p ↦ rw (← p) (
            rw (h.0, get-cons_self)
              (visit_current_self s k r (t k r (get-cons_self ℕ_discrete k r es))))
        | no p ↦ rw (get-cons_ne ℕ_discrete k j r es p, visit_current_ne s k r j p)
      ])

  pub visit_all_current_events :
      (j : Uuid) (s : Session) (es : Dict Uuid TrustedFlaggerOrm)
      → IsDict ℕ_discrete es
      → events_of j (visit_all_current run_id scraped_by_id s es).events
        ≡ events_of j s.events ++ outcome_events j (get ℕ_discrete j es)
  unfolding visit_all_current
  visit_all_current_events j s [] h = rw get-nil (sym (append-nil _))
  visit_all_current_events j s ((k, r) ∷ es) h =
      visit_all_current_events j (visit_current run_id scraped_by_id s k r) es h.1
      ∙ (elim (ℕ_discrete k j) [
        | yes p ↦ rw (← p) (
            rw (h.0, get-cons_self, visit_current_events, append-nil, events_of-append)
              (ap (◌++◌ (events_of k s.events))
                (events_of_self k _ (sweep_events-AreOf k (get ℕ_discrete k scraped_by_id) r))))
        | no p ↦ rw (
          get-cons_ne ℕ_discrete k j r es p,
          visit_current_events,
          events_of-append,
          elsewhere k j (get ℕ_discrete k scraped_by_id) r p,
          append-nil (events_of j s.events),
        )
      ])

  pub visit_all_current_added :
      (s : Session) (es : Dict Uuid TrustedFlaggerOrm)
      → (visit_all_current run_id scraped_by_id s es).added ≡ s.added
  unfolding visit_all_current
  visit_all_current_added s [] = refl
  visit_all_current_added s ((k, r) ∷ es) =
      visit_all_current_added (visit_current run_id scraped_by_id s k r) es
      ∙ visit_current_added s k r
