-- ===== src/Routes/Served.antt =====
-- apps/api/routers/trusted_flaggers.py, `list_trusted_flaggers`, over what runs of
-- apps/scraper/ingest.py leave: every page can be shown.
use mathlib.Core.List.{Perm}
use dsa_api.Base.{
  ℕ, ◌≡◌, refl, sym, ap, subst, ◌∙◌, true, some, List, [], ◌∷◌, map, filter_by, All, Bool, length,
}
use dsa_api.Models.{Time, TrustedFlaggerOrm}
use dsa_api.Text.{Text}
use dsa_api.Normalize.Chars.{Unicode}
use dsa_api.Normalize.Valid.{IsNormalized}
use dsa_api.Ingest.Table.{IsTable}
use dsa_api.Ingest.Settle.{apply_diff-IsTable}
use dsa_api.Ingest.Reconcile.{flushed_rows, apply_diff}
use dsa_api.Run.Scrape.{Attempt, returned, raised, World, Outside, IngestResult, run_ingest}
use dsa_api.Run.Faults.{closing, run_ingest-closing, Untouched, run_ingest-Untouched}
use dsa_api.Run.Done.{IsDone, run_ingest-IsDone}
use dsa_api.Run.Always.{run_all}
use dsa_api.Run.Sources.{Net, row_hash, with_sources}
use dsa_api.Normalize.Batch.{partition-IsNormalized}
use dsa_api.Run.Mirror.{run_ingest-IsMirror}
use dsa_api.Routes.Tables.{Database, ok, page_of, in_bounds, data_updated_at}
use dsa_api.Routes.Listing.{Filters, matches, list_trusted_flaggers}
use dsa_api.Routes.Serialize.{TrustedFlagger, serialize}
use dsa_api.Routes.Servable.{apply_diff-IsServable}
use dsa_api.Routes.Replies.{serialize_all, meta, list_reply}
use dsa_api.Routes.Shown.{
  all_shown, all_shown-Perm, all_shown-filter, all_shown-take, all_shown-drop,
  all_shown-serialize_all, find-shown, table-shown,
}

-- No id is twice in the table, and every row can be serialized.
pub record IsServed (w : World) : Type 0 where
  pub table : IsTable w.flaggers
  pub shown : all_shown w.flaggers ≡ true

-- A run by the models of its sources.
abbrev pub sourced : Net × Outside → Outside
sourced (net, o) = with_sources net o

diff-shown :
    (net : Net) (o : Outside) (w : World) (r : IngestResult)
    → IsServed w
    → All (IsNormalized net.unicode net.uuid5 (row_hash net)) r.found.normalized
    → all_shown (flushed_rows (apply_diff o.run_id o.started_at w.flaggers r.found.normalized))
      ≡ true
diff-shown net o w r h normalized =
    table-shown _ (apply_diff-IsTable o.run_id o.started_at w.flaggers r.found.normalized h.table)
      (λ j row.
        apply_diff-IsServable net.unicode net.uuid5 (row_hash net) o.run_id o.started_at j
          w.flaggers r.found.normalized h.table normalized
          (λ before. find-shown j w.flaggers before h.shown) row)

ended-IsServed :
    (net : Net) (o : Outside) (w v : World) (a : Attempt IngestResult)
    → IsServed w
    → ((e : Text) → a ≡ raised e → Untouched w v)
    → ((r : IngestResult) → a ≡ returned r → IsDone (with_sources net o) w v r)
    → ((r : IngestResult)
        → a ≡ returned r
        → All (IsNormalized net.unicode net.uuid5 (row_hash net)) r.found.normalized)
    → IsServed v
unfolding with_sources
ended-IsServed net o w v (raised e) h untouched done normalized =
    let same = sym (untouched e refl).same_flaggers in
    record { table = subst IsTable same h.table; shown = ap all_shown (sym same) ∙ h.shown }
ended-IsServed net o w v (returned r) h untouched done normalized =
    let d = done r refl in
    let same = d.new_flaggers ∙ ap flushed_rows d.same_session in
    record {
      table =
          subst IsTable (sym same)
            (apply_diff-IsTable o.run_id o.started_at w.flaggers r.found.normalized h.table);
      shown = ap all_shown same ∙ diff-shown net o w r h (normalized r refl);
    }

run_all-IsServed :
    (runs : List (Net × Outside)) (w : World) → IsServed w → IsServed (run_all (map sourced runs) w)
unfolding run_all with_sources
run_all-IsServed [] w h = h
run_all-IsServed ((net, o) ∷ runs) w h =
    let ran = run_ingest (with_sources net (closing o)) w in
    run_all-IsServed runs (run_ingest (with_sources net o) w).0 (
      subst IsServed (run_ingest-closing (with_sources net o) w) (
        ended-IsServed net (closing o) w ran.0 ran.1 h
          (λ e. run_ingest-Untouched (with_sources net (closing o)) w e refl)
          (λ r. (run_ingest-IsDone (with_sources net (closing o)) w r).0)
          (λ r e.
            partition-IsNormalized net.unicode net.uuid5 (row_hash net)
              (run_ingest-IsMirror net (closing o) w r h.table e).parted)))

module _ (unicode : Unicode) (ilike : Text → Text → Bool)
    (by_name : List TrustedFlaggerOrm → List TrustedFlaggerOrm)
    (by_name-Perm : (rows : List TrustedFlaggerOrm) → Perm (by_name rows) rows) where
  -- The rows of a page, in their order.
  abbrev pub page_rows : Filters → (limit offset : ℕ) → Database → List TrustedFlaggerOrm
  page_rows f limit offset db =
      page_of limit offset (by_name (filter_by (matches unicode ilike f) db.flaggers))

  page-shown :
      (f : Filters) (limit offset : ℕ) (db : Database)
      → all_shown db.flaggers ≡ true
      → all_shown (page_rows f limit offset db) ≡ true
  page-shown f limit offset db h = all_shown-take limit _ (
      all_shown-drop offset _ (
        all_shown-Perm _ _ (by_name-Perm (filter_by (matches unicode ilike f) db.flaggers))
        ∙ all_shown-filter (matches unicode ilike f) db.flaggers h))

  module _ (iso : Time → Text) (source_url : Text) where
    page_reply :
        (f : Filters) (limit offset : ℕ) (db : Database) (shown : List TrustedFlagger)
        → in_bounds 200 limit ≡ true
        → serialize_all (page_rows f limit offset db) ≡ some shown
        → list_reply iso source_url (list_trusted_flaggers unicode ilike by_name f limit offset db)
          ≡ ok (
            shown,
            meta iso source_url
                (length (filter_by (matches unicode ilike f) db.flaggers))
                limit
                offset
                (data_updated_at db.runs),
          )
    unfolding list_reply list_trusted_flaggers
    page_reply f limit offset db shown bounds e = rw bounds (rw e refl)

    -- After any number of runs, whichever of their steps fail, and whatever the two servers
    -- answer, a request for a page within the bounds is answered, with the rows of the page as
    -- the model shows them, one by one, and the number of all rows that match, if before the
    -- runs no id was twice in the table and every row could be serialized, and if the order of
    -- the database permutes rows.
    pub run_all-list_reply :
        (runs : List (Net × Outside)) (w : World) (db : Database)
        → IsServed w
        → db.flaggers ≡ (run_all (map sourced runs) w).flaggers
        → (f : Filters) (limit offset : ℕ) → in_bounds 200 limit ≡ true
        → (shown : List TrustedFlagger) × (list_reply iso source_url
              (list_trusted_flaggers unicode ilike by_name f limit offset db)
            ≡ ok (
              shown,
              meta iso source_url
                  (length (filter_by (matches unicode ilike f) db.flaggers))
                  limit
                  offset
                  (data_updated_at db.runs),
            ))
          × (map serialize (page_rows f limit offset db) ≡ map some shown)
    run_all-list_reply runs w db h same f limit offset bounds =
        let served = run_all-IsServed runs w h in
        let (shown, e, each) =
          all_shown-serialize_all (page_rows f limit offset db)
            (page-shown f limit offset db (ap all_shown same ∙ served.shown)) in
        (shown, page_reply f limit offset db shown bounds e, each)
