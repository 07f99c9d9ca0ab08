-- ===== src/Ingest/Entity.antt =====
-- What one scrape means for one register entry: the row that is left and the events that are
-- logged, by the row before (`none` if there is none) and the scraped row (`none` if it is gone).
use dsa_api.Base.{◌≡◌, ◌⊎◌, arith, Option, none, some, List, [], ◌∷◌, if◌then◌else◌}
use dsa_api.Enums.{TfStatus}
use dsa_api.Models.{Uuid, Time, ScrapedTrustedFlagger, TrustedFlaggerOrm, NewEvent}
use dsa_api.Ingest.Compare.{
  orm_to_compare_dict, scraped_to_compare_dict, same_dict, apply_scraped_to_orm,
}
use dsa_api.Ingest.Reconcile.{
  is_removed, new_orm, created_event, restored_event, updated_event, removed_event,
}

-- A row that has left the register.
abbrev pub gone : TrustedFlaggerOrm → TrustedFlaggerOrm
gone orm = record orm { status = TfStatus.removed }

module _ (run_id : Uuid) (scraped_at : Time) where
  abbrev pub seen : TrustedFlaggerOrm → TrustedFlaggerOrm
  seen orm = record orm { last_seen_at = scraped_at }

  -- A row that the scrape has found again.
  unfoldable pub refreshed : TrustedFlaggerOrm → ScrapedTrustedFlagger → TrustedFlaggerOrm
  refreshed loaded scraped =
      if is_removed (seen loaded)
      then record (apply_scraped_to_orm (seen loaded) scraped) { status = TfStatus.active }
      else if same_dict (orm_to_compare_dict (seen loaded)) (scraped_to_compare_dict scraped)
      then seen loaded
      else apply_scraped_to_orm (seen loaded) scraped

  unfoldable pub refresh_events : Uuid → TrustedFlaggerOrm → ScrapedTrustedFlagger → List NewEvent
  refresh_events j loaded scraped =
      if is_removed (seen loaded)
      then restored_event run_id j scraped ∷ []
      else if same_dict (orm_to_compare_dict (seen loaded)) (scraped_to_compare_dict scraped)
      then []
      else updated_event run_id j (seen loaded) scraped ∷ []

  -- A refresh restores the row, only sees it, or updates it.
  pub refresh-cases :
      (j : Uuid) (r : TrustedFlaggerOrm) (sc : ScrapedTrustedFlagger)
      → (refresh_events j r sc ≡ restored_event run_id j sc ∷ [])
        ⊎ (refresh_events j r sc ≡ []) × (refreshed r sc ≡ seen r)
        ⊎ (refresh_events j r sc ≡ updated_event run_id j (seen r) sc ∷ [])
  unfolding refresh_events refreshed
  refresh-cases j r sc = ground arith

  -- The row of one id after a scrape.
  unfoldable pub settled :
      Uuid → Option ScrapedTrustedFlagger → Option TrustedFlaggerOrm → Option TrustedFlaggerOrm
  settled j none none = none
  settled j (some scraped) none = some (new_orm scraped_at scraped j)
  settled j (some scraped) (some loaded) = some (refreshed loaded scraped)
  settled j none (some loaded) = if is_removed loaded then some loaded else some (gone loaded)

  -- The events of one id after a scrape.
  unfoldable pub settled_events :
      Uuid → Option ScrapedTrustedFlagger → Option TrustedFlaggerOrm → List NewEvent
  settled_events j none none = []
  settled_events j (some scraped) none = created_event run_id j scraped ∷ []
  settled_events j (some scraped) (some loaded) = refresh_events j loaded scraped
  settled_events j none (some loaded) =
      if is_removed loaded then [] else removed_event run_id j (gone loaded) ∷ []
