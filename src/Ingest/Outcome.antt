-- ===== src/Ingest/Outcome.antt =====
-- What a scrape leaves of an entry: its data, its status and its times.
use dsa_api.Base.{
  ◌≡◌, refl, ◌⊎◌, inl, inr, true, false, Bool-cases, Option-cases, none, some, List, arith, ◌∙◌, ap,
}
use dsa_api.Enums.{TfStatus}
use dsa_api.Models.{Snapshot, Uuid, Time, ScrapedTrustedFlagger, TrustedFlaggerOrm, NewEvent}
use dsa_api.Ingest.Compare.{
  orm_to_compare_dict, scraped_to_compare_dict, same_dict, apply_scraped_to_orm, columns_of,
  orm_to_compare_dict-apply_scraped_to_orm,
}
use dsa_api.Ingest.Diff.{same_dict_iff}
use dsa_api.Ingest.Reconcile.{is_removed, new_orm, apply_diff, flushed_rows}
use dsa_api.Ingest.Entity.{seen, refreshed, settled}
use dsa_api.Ingest.Table.{find, IsTable}
use dsa_api.Ingest.Settle.{scraped_row, find-apply_diff}

pub same_dict_of_eq : {d e : Snapshot} → d ≡ e → same_dict d e ≡ true
same_dict_of_eq {d} {e} h = (same_dict_iff d e).1 (λ f. rw h)

-- A row with the scraped data reads back as what was scraped.
pub dict_synced :
    (r : TrustedFlaggerOrm) (sc : ScrapedTrustedFlagger)
    → r.columns ≡ columns_of sc
    → same_dict (orm_to_compare_dict r) (scraped_to_compare_dict sc) ≡ true
unfolding apply_scraped_to_orm
dict_synced r sc h = same_dict_of_eq (
    ap (λ c. orm_to_compare_dict (record r { columns = c })) h
    ∙ orm_to_compare_dict-apply_scraped_to_orm r sc)

-- The table after a scrape.
abbrev pub table_after :
    Uuid → Time → List TrustedFlaggerOrm → List ScrapedTrustedFlagger → List TrustedFlaggerOrm
table_after run_id scraped_at rows normalized =
    flushed_rows (apply_diff run_id scraped_at rows normalized)

-- The events that a scrape logs.
abbrev pub events_logged :
    Uuid → Time → List TrustedFlaggerOrm → List ScrapedTrustedFlagger → List NewEvent
events_logged run_id scraped_at rows normalized =
    (apply_diff run_id scraped_at rows normalized).events

-- The row agrees with the scraped one, counts as there, and was seen now.
pub record IsCurrent (scraped_at : Time) (sc : ScrapedTrustedFlagger) (r : TrustedFlaggerOrm)
    : Type 0 where
  pub synced : same_dict (orm_to_compare_dict r) (scraped_to_compare_dict sc) ≡ true
  pub listed : is_removed r ≡ false
  pub seen_at : r.last_seen_at ≡ scraped_at

-- What a scrape leaves alone, and how it moves the status: rows that are gone are marked removed,
-- and only a removed row becomes active again.
pub record Follows (r r' : TrustedFlaggerOrm) : Type 0 where
  pub id : r'.id ≡ r.id
  pub first_seen_at : r'.first_seen_at ≡ r.first_seen_at
  pub source_snapshot_url : r'.source_snapshot_url ≡ r.source_snapshot_url
  pub status :
      (r'.status ≡ r.status)
      ⊎ (r'.status ≡ TfStatus.removed)
      ⊎ ((r.status ≡ TfStatus.removed) × (r'.status ≡ TfStatus.active))

module _ (run_id : Uuid) (scraped_at : Time) where
  pub new_orm-IsCurrent :
      (sc : ScrapedTrustedFlagger) (j : Uuid) → IsCurrent scraped_at sc (new_orm scraped_at sc j)
  unfolding new_orm is_removed
  new_orm-IsCurrent sc j = record { synced = dict_synced _ sc refl; listed = refl; seen_at = refl }

  pub refreshed-IsCurrent :
      (sc : ScrapedTrustedFlagger) (r : TrustedFlaggerOrm)
      → IsCurrent scraped_at sc (refreshed run_id scraped_at r sc)
  unfolding refreshed apply_scraped_to_orm
  refreshed-IsCurrent sc r = elim (Bool-cases (is_removed (seen run_id scraped_at r))) [
    | inl p ↦ rw p (record {
      synced = dict_synced _ sc refl;
      listed = unfold is_removed in refl;
      seen_at = refl;
    })
    | inr p ↦
        rw p
          (elim (Bool-cases (
            same_dict (orm_to_compare_dict (seen run_id scraped_at r))
              (scraped_to_compare_dict sc))) [
                | inl q ↦ rw q (record { synced = q; listed = p; seen_at = refl })
                | inr q ↦ rw q (record {
                  synced = dict_synced _ sc refl;
                  listed = unfold is_removed in p;
                  seen_at = refl;
                })
              ])
  ]

  refreshed-Follows :
      (sc : ScrapedTrustedFlagger) (r : TrustedFlaggerOrm)
      → Follows r (refreshed run_id scraped_at r sc)
  unfolding refreshed is_removed apply_scraped_to_orm
  refreshed-Follows sc r = ground arith

  module _ (rows : List TrustedFlaggerOrm) (normalized : List ScrapedTrustedFlagger)
      (table : IsTable rows) (j : Uuid) where
    -- Every scraped entry has a row after the scrape, which agrees with the scraped data in
    -- every synced field, is not marked removed, and was last seen at the time of the scrape,
    -- if the table had no id twice.
    pub apply_diff-IsCurrent :
        (sc : ScrapedTrustedFlagger)
        → scraped_row j normalized ≡ some sc
        → (r : TrustedFlaggerOrm) × (find j (table_after run_id scraped_at rows normalized)
            ≡ some r)
          × IsCurrent scraped_at sc r
    unfolding settled
    apply_diff-IsCurrent sc h = elim (Option-cases (find j rows)) [
      | inl e ↦ (
        new_orm scraped_at sc j,
        find-apply_diff run_id scraped_at rows normalized table j ∙ rw (h, e),
        new_orm-IsCurrent sc j,
      )
      | inr (r, e) ↦ (
        refreshed run_id scraped_at r sc,
        find-apply_diff run_id scraped_at rows normalized table j ∙ rw (h, e),
        refreshed-IsCurrent sc r,
      )
    ]

    -- An entry that the scrape no longer lists keeps its row, and the row is marked removed
    -- whatever formal status it had, every other column keeping its value, if the table had no
    -- id twice.
    pub apply_diff_gone :
        (r : TrustedFlaggerOrm)
        → scraped_row j normalized ≡ none
        → find j rows ≡ some r
        → find j (table_after run_id scraped_at rows normalized)
          ≡ some (record r { status = TfStatus.removed })
    unfolding settled is_removed
    apply_diff_gone r h e =
        find-apply_diff run_id scraped_at rows normalized table j
        ∙ rw (h, e, settled) (ground arith)

    -- No row ever leaves the table: its id, its first sighting and its snapshot link stay, and
    -- its status stays, becomes removed, or goes from removed to active, if the table had no id
    -- twice.
    pub apply_diff-Follows :
        (r : TrustedFlaggerOrm)
        → find j rows ≡ some r
        → (r' : TrustedFlaggerOrm) × (find j (table_after run_id scraped_at rows normalized)
            ≡ some r')
          × Follows r r'
    unfolding settled
    apply_diff-Follows r e = elim (Option-cases (scraped_row j normalized)) [
      | inl h ↦ (record r { status = TfStatus.removed }, apply_diff_gone r h e, ground arith)
      | inr (sc, h) ↦ (
        refreshed run_id scraped_at r sc,
        find-apply_diff run_id scraped_at rows normalized table j ∙ rw (h, e),
        refreshed-Follows sc r,
      )
    ]
