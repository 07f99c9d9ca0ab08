-- ===== src/Ingest/Tally.antt =====
-- The counters that `apply_diff` returns, against the events that it logs.
use dsa_api.Base.{
  ℕ, suc, ◌+◌, ◌≡◌, refl, Option-cases, inl, inr, List, [], ◌∷◌, ◌++◌, arith, Dict, get, ℕ_discrete,
  length,
}
use dsa_api.Enums.{EventType, EventType-discrete}
use dsa_api.Models.{Uuid, Time, ScrapedTrustedFlagger, TrustedFlaggerOrm, NewEvent}
use dsa_api.Ingest.Reconcile.{
  Session, index_by, created_event, restored_event, updated_event, removed_event, visit_existing,
  visit_scraped, visit_all_scraped, visit_current, visit_all_current, apply_diff,
}

-- How many of the events are of a type.
unfoldable pub count_type : EventType → List NewEvent → ℕ
count_type t [] = 0
count_type t (e ∷ es) =
    let rest = count_type t es in
    elim (EventType-discrete e.event_type t) [ yes _ ↦ suc rest | no _ ↦ rest ]

count_type-append :
    (t : EventType) (xs ys : List NewEvent)
    → count_type t (xs ++ ys) ≡ count_type t xs + count_type t ys
unfolding count_type
count_type-append t [] ys = omega arith
count_type-append t (x ∷ xs) ys = ground (arith, count_type-append t xs ys)

count_type_total :
    (es : List NewEvent)
    → count_type EventType.created es
        + count_type EventType.updated es
        + count_type EventType.removed es
        + count_type EventType.restored es
      ≡ length es
unfolding count_type
count_type_total [] = omega arith
count_type_total (e ∷ es) = ground (arith, count_type_total es)

pub record IsTallied (s : Session) : Type 0 where
  pub created : s.created ≡ count_type EventType.created s.events
  pub updated : s.updated ≡ count_type EventType.updated s.events
  pub removed : s.removed ≡ count_type EventType.removed s.events
  pub restored : s.restored ≡ count_type EventType.restored s.events

module _ (run_id : Uuid) (scraped_at : Time) where
  visit_existing-IsTallied :
      (s : Session) (k : Uuid) (r : TrustedFlaggerOrm) (sc : ScrapedTrustedFlagger)
      → IsTallied s
      → IsTallied (visit_existing run_id scraped_at s k r sc)
  unfolding visit_existing restored_event updated_event count_type
  visit_existing-IsTallied s k r sc h = grind (arith, count_type-append)

  visit_scraped-IsTallied :
      (s : Session) (k : Uuid) (sc : ScrapedTrustedFlagger)
      → IsTallied s
      → IsTallied (visit_scraped run_id scraped_at s k sc)
  unfolding visit_scraped created_event count_type
  visit_scraped-IsTallied s k sc h = elim (Option-cases (get ℕ_discrete k s.current)) [
    | inl e ↦ rw (e, visit_scraped) (grind (arith, count_type-append))
    | inr (r, e) ↦ rw (e, visit_scraped) (visit_existing-IsTallied s k r sc h)
  ]

  visit_all_scraped-IsTallied :
      (s : Session) (es : Dict Uuid ScrapedTrustedFlagger)
      → IsTallied s
      → IsTallied (visit_all_scraped run_id scraped_at s es)
  unfolding visit_all_scraped
  visit_all_scraped-IsTallied s [] h = h
  visit_all_scraped-IsTallied s ((k, sc) ∷ es) h =
      visit_all_scraped-IsTallied (visit_scraped run_id scraped_at s k sc) es
        (visit_scraped-IsTallied s k sc h)

  module _ (by_id : Dict Uuid ScrapedTrustedFlagger) where
    visit_current-IsTallied :
        (s : Session) (k : Uuid) (r : TrustedFlaggerOrm)
        → IsTallied s
        → IsTallied (visit_current run_id by_id s k r)
    unfolding visit_current removed_event count_type
    visit_current-IsTallied s k r h = elim (Option-cases (get ℕ_discrete k by_id)) [
      | inr (sc, e) ↦ rw (e, visit_current) h
      | inl e ↦ rw (e, visit_current) (grind (arith, count_type-append))
    ]

    visit_all_current-IsTallied :
        (s : Session) (es : Dict Uuid TrustedFlaggerOrm)
        → IsTallied s
        → IsTallied (visit_all_current run_id by_id s es)
    unfolding visit_all_current
    visit_all_current-IsTallied s [] h = h
    visit_all_current-IsTallied s ((k, r) ∷ es) h =
        visit_all_current-IsTallied (visit_current run_id by_id s k r) es
          (visit_current-IsTallied s k r h)

  module _ (rows : List TrustedFlaggerOrm) (normalized : List ScrapedTrustedFlagger) where
    -- The four counters are the numbers of created, updated, removed and restored events that
    -- the scrape logs.
    pub apply_diff-IsTallied : IsTallied (apply_diff run_id scraped_at rows normalized)
    unfolding apply_diff count_type
    apply_diff-IsTallied = visit_all_current-IsTallied _ _ _ (
        visit_all_scraped-IsTallied _ (index_by (λ tf. tf.id) normalized)
          (record { created = refl; updated = refl; removed = refl; restored = refl }))
