-- ===== src/Ingest/History.antt =====
-- The table and its changelog over any number of scrapes: the last event of an entry tells what
-- its row holds.
use mathlib.Core.List.{append-nil}
use mathlib.Core.Path.{subst}
use dsa_api.Base.{
  ◌≡◌, refl, ◌∙◌, sym, ap, Bool, true, false, Bool-cases, inl, inr, Option, none, some, List, [],
  ◌∷◌, ◌++◌, map, get,
}
use dsa_api.Enums.{EventType}
use dsa_api.Models.{
  Uuid, Time, ScrapedTrustedFlagger, TrustedFlaggerOrm, NewEvent, Snapshot, Field-discrete,
}
use dsa_api.Ingest.Compare.{
  synced_fields, value_at, model_dump, orm_to_compare_dict, orm_to_snapshot,
  scraped_to_compare_dict, same_dict,
}
use dsa_api.Ingest.Diff.{same_dict_iff}
use dsa_api.Ingest.Reconcile.{
  is_removed, new_orm, created_event, restored_event, updated_event, removed_event,
}
use dsa_api.Ingest.Entity.{
  gone, seen, refreshed, refresh_events, refresh-cases, settled, settled_events,
}
use dsa_api.Ingest.Events.{events_of, events_of-append}
use dsa_api.Ingest.Table.{find, IsTable}
use dsa_api.Ingest.Settle.{scraped_row, find-apply_diff, events_of-apply_diff, apply_diff-IsTable}
use dsa_api.Ingest.Outcome.{table_after, events_logged, new_orm-IsCurrent, refreshed-IsCurrent}

pub record Scrape : Type 0 where
  pub run_id : Uuid
  pub scraped_at : Time
  pub normalized : List ScrapedTrustedFlagger

-- The tables `trusted_flaggers` and `trusted_flagger_events`, the events oldest first.
pub record Register : Type 0 where
  pub rows : List TrustedFlaggerOrm
  pub log : List NewEvent

abbrev pub empty_register : Register
empty_register = record { rows = []; log = [] }

unfoldable pub scrape_once : Register → Scrape → Register
scrape_once g s = record {
  rows = table_after s.run_id s.scraped_at g.rows s.normalized;
  log = g.log ++ events_logged s.run_id s.scraped_at g.rows s.normalized;
}

unfoldable pub scrape_all : Register → List Scrape → Register
unfolding scrape_once
scrape_all g [] = g
scrape_all g (s ∷ rest) = scrape_all (scrape_once g s) rest

unfoldable pub last_event : List NewEvent → Option NewEvent
last_event [] = none
last_event (e ∷ es) = elim (last_event es) [ none ↦ some e | some l ↦ some l ]

abbrev pub is_removal : EventType → Bool
is_removal EventType.removed = true
is_removal _ = false

-- The synced fields of a snapshot.
unfoldable pub synced_part : Snapshot → Snapshot
unfolding synced_fields value_at
synced_part snapshot = map (λ field. (field, value_at field snapshot)) synced_fields

-- The event tells what the row holds: whether it is marked removed, and every synced field.
pub record Tells (e : NewEvent) (r : TrustedFlaggerOrm) : Type 0 where
  pub removal : is_removed r ≡ is_removal e.event_type
  pub told : Snapshot
  pub stored : e.snapshot ≡ some told
  pub same : same_dict (orm_to_compare_dict r) (synced_part told) ≡ true

-- An entry with no event has no row; an entry with events has a row that the last one tells.
abbrev pub Explains : Option NewEvent → Option TrustedFlaggerOrm → Type 0
Explains none o = o ≡ none
Explains (some e) o = (r : TrustedFlaggerOrm) × (o ≡ some r) × Tells e r

last_event-append_nil : (es : List NewEvent) → last_event (es ++ []) ≡ last_event es
last_event-append_nil es = ap last_event (append-nil es)

last_event-append_one : (es : List NewEvent) (e : NewEvent) → last_event (es ++ e ∷ []) ≡ some e
unfolding last_event
last_event-append_one [] e = refl
last_event-append_one (x ∷ es) e = rw (last_event-append_one es e)

synced_part-model_dump :
    (sc : ScrapedTrustedFlagger) → synced_part (model_dump sc) ≡ scraped_to_compare_dict sc
unfolding synced_part scraped_to_compare_dict
synced_part-model_dump sc = refl

synced_part-orm_to_snapshot :
    (r : TrustedFlaggerOrm) → synced_part (orm_to_snapshot r) ≡ orm_to_compare_dict r
unfolding synced_part orm_to_snapshot orm_to_compare_dict Field-discrete get
synced_part-orm_to_snapshot r = refl

module _ (run_id : Uuid) (scraped_at : Time) (j : Uuid) where
  created-Tells :
      (sc : ScrapedTrustedFlagger) → Tells (created_event run_id j sc) (new_orm scraped_at sc j)
  unfolding created_event
  created-Tells sc = record {
    removal = (new_orm-IsCurrent run_id scraped_at sc j).listed;
    told = model_dump sc;
    stored = refl;
    same = rw synced_part-model_dump ((new_orm-IsCurrent run_id scraped_at sc j).synced);
  }

  removed-Tells : (r : TrustedFlaggerOrm) → Tells (removed_event run_id j (gone r)) (gone r)
  unfolding removed_event is_removed
  removed-Tells r = record {
    removal = refl;
    told = orm_to_snapshot (gone r);
    stored = refl;
    same = rw synced_part-orm_to_snapshot (
        (same_dict_iff (orm_to_compare_dict (gone r)) (orm_to_compare_dict (gone r))).1
          (λ f. refl));
  }

  -- An event with the scraped data tells the refreshed row.
  scraped-Tells :
      (e : NewEvent) (sc : ScrapedTrustedFlagger) (r : TrustedFlaggerOrm)
      → is_removal e.event_type ≡ false
      → e.snapshot ≡ some (model_dump sc)
      → Tells e (refreshed run_id scraped_at r sc)
  scraped-Tells e sc r t s = record {
    removal = (refreshed-IsCurrent run_id scraped_at sc r).listed ∙ sym t;
    told = model_dump sc;
    stored = s;
    same = rw synced_part-model_dump ((refreshed-IsCurrent run_id scraped_at sc r).synced);
  }

  -- The sighting of a row changes nothing that an event tells.
  seen-Tells :
      (e : NewEvent) (r : TrustedFlaggerOrm) → Tells e r → Tells e (seen run_id scraped_at r)
  seen-Tells e r h = record {
    removal = unfold is_removed in h.removal;
    told = h.told;
    stored = h.stored;
    same = unfold orm_to_compare_dict in h.same;
  }

  seen-Explains :
      (o : Option NewEvent) (r : TrustedFlaggerOrm)
      → Explains o (some r)
      → Explains o (some (seen run_id scraped_at r))
  seen-Explains none r h = cc
  seen-Explains (some e) r (r', same, t) =
      let eq : r' ≡ r = cc in
      (seen run_id scraped_at r, refl, seen-Tells e r (subst (Tells e) eq t))

  refreshed-Explains :
      (es : List NewEvent) (sc : ScrapedTrustedFlagger) (r : TrustedFlaggerOrm)
      → Explains (last_event es) (some r)
      → Explains
          (last_event (es ++ refresh_events run_id scraped_at j r sc))
          (some (refreshed run_id scraped_at r sc))
  unfolding restored_event updated_event
  refreshed-Explains es sc r h = elim (refresh-cases run_id scraped_at j r sc) [
    | inl e ↦
        rw (e, last_event-append_one)
          (refreshed run_id scraped_at r sc, refl, scraped-Tells _ sc r refl refl)
    | inr (inl (e, same)) ↦ rw (e, last_event-append_nil, same) (seen-Explains (last_event es) r h)
    | inr (inr e) ↦
        rw (e, last_event-append_one)
          (refreshed run_id scraped_at r sc, refl, scraped-Tells _ sc r refl refl)
  ]

  settled-Explains :
      (es : List NewEvent) (sc : Option ScrapedTrustedFlagger) (o : Option TrustedFlaggerOrm)
      → Explains (last_event es) o
      → Explains
          (last_event (es ++ settled_events run_id scraped_at j sc o))
          (settled run_id scraped_at j sc o)
  unfolding settled settled_events
  settled-Explains es none none h = rw last_event-append_nil h
  settled-Explains es (some sc) none h =
      rw last_event-append_one (new_orm scraped_at sc j, refl, created-Tells sc)
  settled-Explains es (some sc) (some r) h = refreshed-Explains es sc r h
  settled-Explains es none (some r) h = elim (Bool-cases (is_removed r)) [
    | inl p ↦ rw (p, last_event-append_nil) h
    | inr p ↦ rw (p, last_event-append_one) (gone r, refl, removed-Tells r)
  ]

pub record IsExplained (g : Register) : Type 0 where
  pub table : IsTable g.rows
  pub entries : (j : Uuid) → Explains (last_event (events_of j g.log)) (find j g.rows)

-- One scrape keeps the changelog complete.
pub scrape_once-IsExplained :
    (g : Register) (s : Scrape) → IsExplained g → IsExplained (scrape_once g s)
unfolding scrape_once
scrape_once-IsExplained g s h = record {
  table = apply_diff-IsTable s.run_id s.scraped_at g.rows s.normalized h.table;
  entries = λ j.
      rw
        (
          events_of-append,
          events_of-apply_diff s.run_id s.scraped_at g.rows s.normalized h.table j,
          find-apply_diff s.run_id s.scraped_at g.rows s.normalized h.table j,
        )
        (settled-Explains s.run_id s.scraped_at j (events_of j g.log) (scraped_row j s.normalized)
          (find j g.rows) (h.entries j));
}

-- Whatever is scraped, in any number of runs, the changelog stays complete: if at the start the
-- last event of every entry tells its row, and an entry without events has none, so at the end.
pub scrape_all-IsExplained :
    (g : Register) (scrapes : List Scrape) → IsExplained g → IsExplained (scrape_all g scrapes)
unfolding scrape_all
scrape_all-IsExplained g [] h = h
scrape_all-IsExplained g (s ∷ rest) h =
    scrape_all-IsExplained (scrape_once g s) rest (scrape_once-IsExplained g s h)
