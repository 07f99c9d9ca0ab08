-- ===== src/Ingest/Repeat.antt =====
-- A second scrape of the same rows logs nothing.
use dsa_api.Base.{◌≡◌, refl, ◌∙◌, Option-cases, inl, inr, List, [], ◌∷◌, arith}
use dsa_api.Models.{Uuid, Time, ScrapedTrustedFlagger, TrustedFlaggerOrm, NewEvent}
use dsa_api.Ingest.Compare.{orm_to_compare_dict}
use dsa_api.Ingest.Reconcile.{is_removed}
use dsa_api.Ingest.Entity.{seen, refresh_events, settled, settled_events}
use dsa_api.Ingest.Events.{events_of}
use dsa_api.Ingest.Table.{find, IsTable}
use dsa_api.Ingest.Settle.{scraped_row, find-apply_diff, events_of-apply_diff, apply_diff-IsTable}
use dsa_api.Ingest.Outcome.{
  IsCurrent, table_after, events_logged, apply_diff-IsCurrent, apply_diff_gone,
}

-- A list of events with none of any id is empty.
no_events : (es : List NewEvent) → ((j : Uuid) → events_of j es ≡ []) → es ≡ []
unfolding events_of
no_events [] h = refl
no_events (e ∷ es) h = ground (arith, h e.tf_id)

module _ (run_id : Uuid) (scraped_at : Time) (r : TrustedFlaggerOrm) where
  is_removed-seen : is_removed (seen run_id scraped_at r) ≡ is_removed r
  unfolding is_removed
  is_removed-seen = refl

  dict-seen : orm_to_compare_dict (seen run_id scraped_at r) ≡ orm_to_compare_dict r
  unfolding orm_to_compare_dict
  dict-seen = refl

module _ (run_id run_id' : Uuid) (scraped_at scraped_at' : Time) where
  current_quiet :
      (j : Uuid) (sc : ScrapedTrustedFlagger) (r : TrustedFlaggerOrm)
      → IsCurrent scraped_at sc r
      → refresh_events run_id' scraped_at' j r sc ≡ []
  unfolding refresh_events
  current_quiet j sc r h =
      rw
        (is_removed-seen run_id' scraped_at' r, h.listed, dict-seen run_id' scraped_at' r, h.synced)

  module _ (rows : List TrustedFlaggerOrm) (normalized : List ScrapedTrustedFlagger)
      (table : IsTable rows) where
    quiet :
        (j : Uuid)
        → settled_events run_id' scraped_at' j
            (scraped_row j normalized)
            (find j (table_after run_id scraped_at rows normalized))
          ≡ []
    unfolding settled_events settled is_removed
    quiet j = elim (Option-cases (scraped_row j normalized)) [
      | inr (sc, h) ↦
          let (r, e, c) = apply_diff-IsCurrent run_id scraped_at rows normalized table j sc h in
          rw (h, e) (current_quiet j sc r c)
      | inl h ↦ elim (Option-cases (find j rows)) [
        | inl e ↦ rw (find-apply_diff run_id scraped_at rows normalized table j, h, e)
        | inr (r, e) ↦ rw (h, apply_diff_gone run_id scraped_at rows normalized table j r h e)
      ]
    ]

    -- Scraping the same rows again, in another run at another time, logs no event, if the table
    -- had no id twice.
    pub apply_diff_again :
        events_logged run_id' scraped_at' (table_after run_id scraped_at rows normalized) normalized
        ≡ []
    apply_diff_again = no_events _ λ j.
        events_of-apply_diff run_id' scraped_at' (table_after run_id scraped_at rows normalized)
          normalized (apply_diff-IsTable run_id scraped_at rows normalized table) j
        ∙ quiet j
