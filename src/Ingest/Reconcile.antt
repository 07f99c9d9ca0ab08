-- ===== src/Ingest/Reconcile.antt =====
-- apps/scraper/ingest.py, `apply_diff`: the loaded rows as objects that the session tracks, the
-- loop over the scraped rows, the loop over the loaded ones, and the flush.
use dsa_api.Base.{
  ℕ, ◌+◌, Bool, true, false, none, some, List, [], ◌∷◌, ◌++◌, Dict, values, get, put, ℕ_discrete,
  if◌then◌else◌,
}
use dsa_api.Enums.{TfStatus, EventType}
use dsa_api.Models.{
  Uuid, Time, ScrapedTrustedFlagger, TrustedFlaggerOrm, NewEvent, TrustedFlaggerEventOrm,
}
use dsa_api.Ingest.Compare.{
  orm_to_compare_dict, scraped_to_compare_dict, model_dump, orm_to_snapshot, compute_diff,
  same_dict, columns_of, apply_scraped_to_orm,
}

-- `{x.id: x for x in xs}`: of two with one id the later wins, at the place of the earlier.
module _ {A : Type 0} (id_of : A → Uuid) where
  unfoldable pub index_onto : Dict Uuid A → List A → Dict Uuid A
  index_onto d [] = d
  index_onto d (x ∷ xs) = index_onto (put ℕ_discrete (id_of x) x d) xs

  unfoldable pub index_by : List A → Dict Uuid A
  unfolding index_onto
  index_by xs = index_onto [] xs

-- The session: the loaded rows, the rows and events that are to be inserted, and the counters.
pub record Session : Type 0 where
  pub current : Dict Uuid TrustedFlaggerOrm
  pub added : List TrustedFlaggerOrm
  pub events : List NewEvent
  pub created : ℕ
  pub updated : ℕ
  pub removed : ℕ
  pub restored : ℕ

unfoldable pub new_orm : Time → ScrapedTrustedFlagger → Uuid → TrustedFlaggerOrm
new_orm scraped_at scraped tf_id = record {
  id = tf_id;
  columns = columns_of scraped;
  status = TfStatus.active;
  first_seen_at = scraped_at;
  last_seen_at = scraped_at;
  source_snapshot_url = none;
}

-- `orm.status == TFStatus.removed.value`
unfoldable pub is_removed : TrustedFlaggerOrm → Bool
is_removed orm = elim orm.status [ TfStatus.removed ↦ true | _ ↦ false ]

module _ (run_id : Uuid) where
  unfoldable pub created_event : Uuid → ScrapedTrustedFlagger → NewEvent
  created_event tf_id scraped = record {
    tf_id = tf_id;
    event_type = EventType.created;
    diff = none;
    snapshot = some (model_dump scraped);
    scrape_run_id = run_id;
  }

  unfoldable pub restored_event : Uuid → ScrapedTrustedFlagger → NewEvent
  restored_event tf_id scraped = record {
    tf_id = tf_id;
    event_type = EventType.restored;
    diff = none;
    snapshot = some (model_dump scraped);
    scrape_run_id = run_id;
  }

  unfoldable pub updated_event : Uuid → TrustedFlaggerOrm → ScrapedTrustedFlagger → NewEvent
  updated_event tf_id existing scraped = record {
    tf_id = tf_id;
    event_type = EventType.updated;
    diff = some (compute_diff (orm_to_compare_dict existing) (scraped_to_compare_dict scraped));
    snapshot = some (model_dump scraped);
    scrape_run_id = run_id;
  }

  -- The row is marked before the snapshot is taken.
  unfoldable pub removed_event : Uuid → TrustedFlaggerOrm → NewEvent
  removed_event tf_id existing = record {
    tf_id = tf_id;
    event_type = EventType.removed;
    diff = none;
    snapshot = some (orm_to_snapshot existing);
    scrape_run_id = run_id;
  }

module _ (run_id : Uuid) (scraped_at : Time) where
  -- A scraped row that the table has.
  unfoldable pub visit_existing :
      Session → Uuid → TrustedFlaggerOrm → ScrapedTrustedFlagger → Session
  visit_existing s tf_id loaded scraped =
      let existing = record loaded { last_seen_at = scraped_at } in
      if is_removed existing
      then record s {
        current =
            put ℕ_discrete tf_id
              (record (apply_scraped_to_orm existing scraped) { status = TfStatus.active })
              s.current;
        events = s.events ++ restored_event run_id tf_id scraped ∷ [];
        restored = s.restored + 1;
      }
      else if same_dict (orm_to_compare_dict existing) (scraped_to_compare_dict scraped)
      then record s { current = put ℕ_discrete tf_id existing s.current }
      else record s {
        current = put ℕ_discrete tf_id (apply_scraped_to_orm existing scraped) s.current;
        events = s.events ++ updated_event run_id tf_id existing scraped ∷ [];
        updated = s.updated + 1;
      }

  -- The body of the first loop.
  unfoldable pub visit_scraped : Session → Uuid → ScrapedTrustedFlagger → Session
  visit_scraped s tf_id scraped = elim (get ℕ_discrete tf_id s.current) [
    | none ↦ record s {
      added = s.added ++ new_orm scraped_at scraped tf_id ∷ [];
      events = s.events ++ created_event run_id tf_id scraped ∷ [];
      created = s.created + 1;
    }
    | some existing ↦ visit_existing s tf_id existing scraped
  ]

  unfoldable pub visit_all_scraped : Session → Dict Uuid ScrapedTrustedFlagger → Session
  visit_all_scraped s [] = s
  visit_all_scraped s ((tf_id, scraped) ∷ rest) =
      visit_all_scraped (visit_scraped s tf_id scraped) rest

module _ (run_id : Uuid) where
  -- The body of the second loop.
  unfoldable pub visit_current :
      Dict Uuid ScrapedTrustedFlagger → Session → Uuid → TrustedFlaggerOrm → Session
  visit_current scraped_by_id s tf_id existing = elim (get ℕ_discrete tf_id scraped_by_id) [
    | some _ ↦ s
    | none ↦
        if is_removed existing
        then s
        else (let gone = record existing { status = TfStatus.removed } in
            record s {
              current = put ℕ_discrete tf_id gone s.current;
              events = s.events ++ removed_event run_id tf_id gone ∷ [];
              removed = s.removed + 1;
            })
  ]

  unfoldable pub visit_all_current :
      Dict Uuid ScrapedTrustedFlagger → Session → Dict Uuid TrustedFlaggerOrm → Session
  visit_all_current scraped_by_id s [] = s
  visit_all_current scraped_by_id s ((tf_id, existing) ∷ rest) =
      visit_all_current scraped_by_id (visit_current scraped_by_id s tf_id existing) rest

module _ (run_id : Uuid) (scraped_at : Time) where
  -- `apply_diff` up to the flush; the second loop runs over the rows as the first one left them.
  unfoldable pub apply_diff : List TrustedFlaggerOrm → List ScrapedTrustedFlagger → Session
  apply_diff rows normalized =
      let scraped_by_id = index_by (λ tf. tf.id) normalized in
      let start : Session = record {
        current = index_by (λ tf. tf.id) rows;
        added = [];
        events = [];
        created = 0;
        updated = 0;
        removed = 0;
        restored = 0;
      } in
      let first = visit_all_scraped run_id scraped_at start scraped_by_id in
      visit_all_current run_id scraped_by_id first first.current

-- The table of rows after the flush.
unfoldable pub flushed_rows : Session → List TrustedFlaggerOrm
flushed_rows s = values s.current ++ s.added

-- The events as the database stores them: numbered on, and stamped with the transaction's time.
unfoldable pub number_events : ℕ → Time → List NewEvent → List TrustedFlaggerEventOrm
number_events next now [] = []
number_events next now (e ∷ es) =
    record { event_id = next; event = e; occurred_at = now } ∷ number_events (next + 1) now es
